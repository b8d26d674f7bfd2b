-- ===== src/Decoder/Bounds.antt =====
-- The whole decoder: its prefixes, the instruction's bounds, and the bytes it depends on.
use bedrock.Base.{
  ℕ, zero, suc, ◌+◌, ◌==◌, ◌≤◌, ◌<◌, ◌≡◌, refl, sym, ap, ◌∙◌, Bool, true, false, Option, none, some,
  List, [], ◌∷◌, ◌⊎◌, length, take, if◌then◌else◌, u8, arith, Bool-cases, inl, inr,
}
use bedrock.Base.Result.{Result, ok, err, ◌>>=◌}
use bedrock.Decoder.{
  DecodedInstruction, DecodeError, buffer_too_short, no_rex, RexPrefix, from_byte, Position,
  skip_prefixes, next_byte, take_rex, opcode_arm, after_prefixes, decode_instruction,
  is_ignored_prefix,
}
use bedrock.Decoder.Local.{Agree, take-Agree, is_size, Reads, Step, next-Reads, opcode-Reads}

-- One more byte before a step.
consumed :
    (f g : Step) (b pos : ℕ) (rest : List ℕ) (d : DecodedInstruction)
    → ((ys : List ℕ) → f (pos, b ∷ ys) ≡ g (pos + 1, ys))
    → Reads g (pos + 1, rest) d
    → Reads f (pos, b ∷ rest) d
consumed f g b pos rest d same r = record {
  count = suc r.count;
  end = r.end ∙ ap u8 (omega arith);
  inside = omega (arith, r.inside);
  register-lt = r.register-lt;
  size = r.size;
  local = go;
}
  where
    go : (ys : List ℕ) → Agree (suc r.count) (b ∷ rest) ys → f (pos, ys) ≡ ok d
    go [] a = elim a [ ]
    go (y ∷ ys) (x≡y, a) = rw (sym x≡y) (same ys ∙ r.local ys a)

-- A byte that is only looked at: the step that goes on reads it.
peeked :
    (f g : Step) (b pos : ℕ) (rest : List ℕ) (d : DecodedInstruction) (x : DecodeError)
    → g (pos, []) ≡ err x
    → ((ys : List ℕ) → f (pos, b ∷ ys) ≡ g (pos, b ∷ ys))
    → Reads g (pos, b ∷ rest) d
    → Reads f (pos, b ∷ rest) d
peeked f g b pos rest d x refuse same r = record {
  count = r.count;
  end = r.end;
  inside = r.inside;
  register-lt = r.register-lt;
  size = r.size;
  local = go r.count r.local;
}
  where
    go :
        (n : ℕ)
        → ((ys : List ℕ) → Agree n (b ∷ rest) ys → g (pos, ys) ≡ ok d)
        → (ys : List ℕ) → Agree n (b ∷ rest) ys
        → f (pos, ys) ≡ ok d
    go zero local ys a =
        let clash : ◌≡◌ {A = Result DecodeError DecodedInstruction} (err x) (ok d) =
          sym refuse ∙ local [] tt in
        cc
    go (suc n) local [] a = elim a [ ]
    go (suc n) local (y ∷ ys) (x≡y, a) =
        let head : f (pos, y ∷ ys) ≡ g (pos, y ∷ ys) = rw (sym x≡y) (same ys) in
        head ∙ local (y ∷ ys) (x≡y, a)

nothing_left : (pos : ℕ) → next_byte (pos, []) ≡ err buffer_too_short
unfolding next_byte
nothing_left pos = refl

refuse : (size16 : Bool) (pos : ℕ) → after_prefixes size16 (pos, []) ≡ err buffer_too_short
unfolding after_prefixes take_rex
refuse size16 pos = refl

no-rex_taken :
    (b pos : ℕ) (ys : List ℕ)
    → from_byte b ≡ none
    → take_rex (pos, b ∷ ys) ≡ ok (no_rex, (pos, b ∷ ys))
unfolding take_rex
no-rex_taken b pos ys e = rw (e, take_rex) refl

rex_taken :
    (b pos : ℕ) (ys : List ℕ) (rex : RexPrefix)
    → from_byte b ≡ some rex
    → take_rex (pos, b ∷ ys) ≡ ok (rex, (pos + 1, ys))
unfolding take_rex
rex_taken b pos ys rex e = rw (e, take_rex) refl

prefixes-Reads :
    (size16 : Bool) (at : Position) (d : DecodedInstruction)
    → after_prefixes size16 at ≡ ok d
    → Reads (after_prefixes size16) at d
unfolding after_prefixes
prefixes-Reads size16 (pos, []) d e =
    let clash : ◌≡◌ {A = Result DecodeError DecodedInstruction} (err buffer_too_short) (ok d) =
      sym (refuse size16 pos) ∙ e in
    cc
prefixes-Reads size16 (pos, b ∷ rest) d e = go (from_byte b) refl
  where
    n : RexPrefix → ℕ
    n rex = if rex.w then 8 else (if size16 then 2 else 4)

    arm : RexPrefix → Step
    arm rex at = next_byte at >>= (λ r. opcode_arm rex (n rex) r.0 r.1)

    arm-Reads : (rex : RexPrefix) (at : Position) → arm rex at ≡ ok d → Reads (arm rex) at d
    arm-Reads rex at =
        next-Reads (opcode_arm rex (n rex)) at d
          (λ c at'. opcode-Reads rex (n rex) c at' d (ground arith))

    go : (o : Option RexPrefix) → from_byte b ≡ o → Reads (after_prefixes size16) (pos, b ∷ rest) d
    go none f =
        peeked (after_prefixes size16) (arm no_rex) b pos rest d buffer_too_short
          (rw (nothing_left pos) refl) (λ ys. rw (no-rex_taken b pos ys f) refl)
          (arm-Reads no_rex (pos, b ∷ rest) (sym (rw (no-rex_taken b pos rest f) refl) ∙ e))
    go (some rex) f =
        consumed (after_prefixes size16) (arm rex) b pos rest d
          (λ ys. rw (rex_taken b pos ys rex f) refl)
          (arm-Reads rex (pos + 1, rest) (sym (rw (rex_taken b pos rest rex f) refl) ∙ e))

-- `decode_instruction` from a position on.
abbrev decode_at : Bool → Step
decode_at size16 (pos, bytes) =
    after_prefixes (skip_prefixes bytes size16 pos).0 (skip_prefixes bytes size16 pos).1

decode-Reads :
    (bytes : List ℕ) (size16 : Bool) (pos : ℕ) (d : DecodedInstruction)
    → decode_at size16 (pos, bytes) ≡ ok d
    → Reads (decode_at size16) (pos, bytes) d
unfolding skip_prefixes
decode-Reads [] size16 pos d e =
    let clash : ◌≡◌ {A = Result DecodeError DecodedInstruction} (err buffer_too_short) (ok d) =
      sym (refuse size16 pos) ∙ e in
    cc
decode-Reads (b ∷ rest) size16 pos d e =
    go (Bool-cases (b == 102)) (Bool-cases (is_ignored_prefix b))
      (decode-Reads rest true (pos + 1) d) (decode-Reads rest size16 (pos + 1) d)
  where
    go :
        ((b == 102) ≡ true) ⊎ ((b == 102) ≡ false)
        → (is_ignored_prefix b ≡ true) ⊎ (is_ignored_prefix b ≡ false)
        → (decode_at true (pos + 1, rest) ≡ ok d → Reads (decode_at true) (pos + 1, rest) d)
        → (decode_at size16 (pos + 1, rest) ≡ ok d → Reads (decode_at size16) (pos + 1, rest) d)
        → Reads (decode_at size16) (pos, b ∷ rest) d
    go (inl t) i h k =
        consumed (decode_at size16) (decode_at true) b pos rest d (λ ys. rw t refl)
          (h (sym (rw t refl) ∙ e))
    go (inr t) (inl i) h k =
        consumed (decode_at size16) (decode_at size16) b pos rest d (λ ys. rw (t, i) refl)
          (k (sym (rw (t, i) refl) ∙ e))
    go (inr t) (inr i) h k =
        peeked (decode_at size16) (after_prefixes size16) b pos rest d buffer_too_short
          (refuse size16 pos) (λ ys. rw (t, i) refl)
          (prefixes-Reads size16 (pos, b ∷ rest) d (sym (rw (t, i) refl) ∙ e))

-- A decoded instruction lies in the buffer, names one of the 16 registers, and has an operand of 1,
-- 2, 4 or 8 bytes.
pub decode_instruction-bounds :
    (bytes : List ℕ) (d : DecodedInstruction)
    → decode_instruction bytes ≡ ok d
    → (d.length ≤ length bytes) × (d.register < 16) × (is_size d.operand_size ≡ true)
unfolding decode_instruction
decode_instruction-bounds bytes d e =
    let r = decode-Reads bytes false 0 d e in
    (omega (arith, r.end, r.inside), r.register-lt, r.size)

-- The result of a successful decoding depends on the bytes of the instruction only: every buffer
-- that starts with the same `length` bytes decodes to the same instruction. The buffer has fewer
-- than 256 bytes, so that the length fits its u8.
pub decode_instruction-local :
    (bytes other : List ℕ) (d : DecodedInstruction)
    → length bytes < 256
    → decode_instruction bytes ≡ ok d
    → take d.length other ≡ take d.length bytes
    → decode_instruction other ≡ ok d
unfolding decode_instruction
decode_instruction-local bytes other d h e f =
    let r = decode-Reads bytes false 0 d e in
    let n : d.length ≡ r.count = r.end ∙ omega (arith, r.inside, h) in
    r.local other (take-Agree r.count bytes other r.inside (rw (sym n) f))
