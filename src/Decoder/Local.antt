-- ===== src/Decoder/Local.antt =====
-- The decoder depends on the bytes of the instruction only.
use bedrock.Base.{
  ℕ, zero, suc, ◌+◌, ◌==◌, ◌≤◌, ◌<◌, ◌≡◌, refl, sym, ap, ◌∙◌, Bool, true, false, ◌&&◌, ◌||◌, not,
  List, [], ◌∷◌, length, take, shr, bit_or, if◌then◌else◌, bit_and, u8, arith, Bool-cases, inl, inr,
}
use bedrock.Base.Result.{Result, ok, err, ◌>>=◌, bind_ok, ok-injective}
use bedrock.Base.Bits.Digit.{bit_or-lt}
use bedrock.Base.Bits.Field.{bit_and_low}
use bedrock.Decoder.{
  MemoryOperation, load, store, unsupported_opcode, unsupported_addressing, DecodedInstruction,
  DecodeError, RexPrefix, Position, next_byte, sib_length, sib_bytes, add_displacement,
  displacement_size,
}
use bedrock.Decoder.{modrm_displacement_length, modrm_operand, modrm_arm, movzx_arm, opcode_arm}

-- Two buffers have the same first `n` bytes.
abbrev pub Agree : ℕ → List ℕ → List ℕ → Type 0
Agree zero xs ys = Unit
Agree (suc n) [] ys = ⊥
Agree (suc n) (x ∷ xs) [] = ⊥
Agree (suc n) (x ∷ xs) (y ∷ ys) = (x ≡ y) × Agree n xs ys

pub Agree-length : (n : ℕ) (xs ys : List ℕ) → Agree n xs ys → n ≤ length ys
Agree-length zero xs ys a = omega arith
Agree-length (suc n) [] ys a = elim a [ ]
Agree-length (suc n) (x ∷ xs) [] a = elim a [ ]
Agree-length (suc n) (x ∷ xs) (y ∷ ys) (e, a) = omega (arith, Agree-length n xs ys a)

pub take-Agree : (n : ℕ) (xs ys : List ℕ) → n ≤ length xs → take n ys ≡ take n xs → Agree n xs ys
take-Agree zero xs ys h e = tt
take-Agree (suc n) [] ys h e = absurd (omega arith)
take-Agree (suc n) (x ∷ xs) [] h e = cc
take-Agree (suc n) (x ∷ xs) (y ∷ ys) h e = (cc, take-Agree n xs ys (omega arith) cc)

sib_bytes-local :
    (mod_bits k n : ℕ) (xs ys : List ℕ)
    → sib_bytes mod_bits xs ≡ ok k
    → k ≤ n
    → n ≤ length ys
    → Agree n xs ys
    → sib_bytes mod_bits ys ≡ ok k
unfolding sib_bytes
sib_bytes-local m k n [] ys e h l a = cc
sib_bytes-local m k zero (x ∷ xs) ys e h l a = absurd (ground arith)
sib_bytes-local m k (suc n) (x ∷ xs) [] e h l a = elim a [ ]
sib_bytes-local m k (suc n) (x ∷ xs) (y ∷ ys) e h l (x≡y, a) = ground arith

sib-local :
    (mod_bits rm k n : ℕ) (xs ys : List ℕ)
    → sib_length mod_bits rm xs ≡ ok k
    → k ≤ n
    → Agree n xs ys
    → sib_length mod_bits rm ys ≡ ok k
unfolding sib_length
sib-local m rm k n xs ys e h a = elim (Bool-cases (rm == 4 && not (m == 3))) [
  | inl t ↦
      let f : sib_bytes m xs ≡ ok k = sym (rw t refl) ∙ e in
      rw t (sib_bytes-local m k n xs ys f h (Agree-length n xs ys a) a)
  | inr t ↦ let f : ◌≡◌ {A = Result DecodeError ℕ} (ok 0) (ok k) = sym (rw t refl) ∙ e in rw t f
]

displacement-inside :
    (mod_bits rm n : ℕ) (xs : List ℕ)
    → modrm_displacement_length mod_bits rm xs ≡ ok n
    → n ≤ length xs
unfolding modrm_displacement_length add_displacement
displacement-inside m rm n xs e =
    let size = displacement_size m rm (rm == 4 && not (m == 3)) in
    let (k, f, g) = bind_ok (sib_length m rm xs) (add_displacement size xs) e in ground arith

displacement-local :
    (mod_bits rm n : ℕ) (xs ys : List ℕ)
    → modrm_displacement_length mod_bits rm xs ≡ ok n
    → Agree n xs ys
    → modrm_displacement_length mod_bits rm ys ≡ ok n
unfolding modrm_displacement_length add_displacement
displacement-local m rm n xs ys e a =
    let size = displacement_size m rm (rm == 4 && not (m == 3)) in
    let (k, f, g) = bind_ok (sib_length m rm xs) (add_displacement size xs) e in
    let total : k + size ≡ n = ground arith in
    rw (sib-local m rm k n xs ys f (omega arith) a) (ground (arith, Agree-length n xs ys a))

-- Registers have four bits; operands have 1, 2, 4 or 8 bytes.
abbrev pub is_size : ℕ → Bool
is_size n = n == 1 || n == 2 || n == 4 || n == 8

-- A decoding step from `at` on reads the first `count` bytes there and no others.
pub record Reads (f : Position → Result DecodeError DecodedInstruction) (at : Position)
    (d : DecodedInstruction) : Type 0 where
  pub count : ℕ
  pub end : d.length ≡ u8 (at.0 + count)
  pub inside : count ≤ length at.1
  pub register-lt : d.register < 16
  pub size : is_size d.operand_size ≡ true
  pub local : (ys : List ℕ) → Agree count at.1 ys → f (at.0, ys) ≡ ok d

abbrev pub Step : Type 0
Step = Position → Result DecodeError DecodedInstruction

-- Reading a byte, then going on.
pub next-Reads :
    (f : ℕ → Step) (at : Position) (d : DecodedInstruction)
    → ((b : ℕ) (at' : Position) → f b at' ≡ ok d → Reads (f b) at' d)
    → (next_byte at >>= (λ r. f r.0 r.1)) ≡ ok d
    → Reads (λ p. next_byte p >>= (λ r. f r.0 r.1)) at d
unfolding next_byte
next-Reads f (pos, []) d k e = cc
next-Reads f (pos, b ∷ rest) d k e =
    let r = k b (pos + 1, rest) e in
    record {
      count = suc r.count;
      end = r.end ∙ ap u8 (omega arith);
      inside = omega (arith, r.inside);
      register-lt = r.register-lt;
      size = r.size;
      local = go r;
    }
  where
    go :
        (r : Reads (f b) (pos + 1, rest) d) (ys : List ℕ)
        → Agree (suc r.count) (b ∷ rest) ys
        → (next_byte (pos, ys) >>= (λ r. f r.0 r.1)) ≡ ok d
    go r [] a = elim a [ ]
    go r (y ∷ ys) (x≡y, a) = rw (sym x≡y) (r.local ys a)

if-ok :
    (c : Bool) (x : DecodeError) (a d : DecodedInstruction)
    → (if c then err x else ok a) ≡ ok d
    → a ≡ d
if-ok true x a d e = cc
if-ok false x a d e = ok-injective e

four_bits : (x : ℕ) (r : Bool) → bit_or (bit_and x 7) (if r then 8 else 0) < 16
four_bits x r = bit_or-lt 4 _ _ (omega (arith, bit_and_low 3 x)) (ground arith)

modrm_operand-Reads :
    (rex : RexPrefix) (op : MemoryOperation) (n modrm : ℕ) (at : Position) (d : DecodedInstruction)
    → is_size n ≡ true
    → modrm_operand rex op n modrm at ≡ ok d
    → Reads (modrm_operand rex op n modrm) at d
unfolding modrm_operand
modrm_operand-Reads rex op n modrm (pos, rest) d sz e =
    let reg = bit_or (bit_and (shr modrm 3) 7) (if rex.r then 8 else 0) in
    let m = shr modrm 6 in
    let rm = bit_and (bit_or (bit_and modrm 7) (if rex.b then 8 else 0)) 7 in
    let out : ℕ → DecodedInstruction =
      λ k. record { length = u8 (pos + k); operation = op; register = reg; operand_size = n } in
    let (k, f, g) = bind_ok (modrm_displacement_length m rm rest) _ e in
    let result : out k ≡ d = if-ok (m == 3) unsupported_addressing (out k) d g in
    record {
      count = k;
      end = ap (λ (x : DecodedInstruction). x.length) (sym result);
      inside = displacement-inside m rm k rest f;
      register-lt = rw (sym result) (four_bits (shr modrm 3) rex.r);
      size = rw (sym result) sz;
      local = λ ys a. rw (displacement-local m rm k rest ys f a) g;
    }

modrm_arm-Reads :
    (rex : RexPrefix) (op : MemoryOperation) (n : ℕ) (at : Position) (d : DecodedInstruction)
    → is_size n ≡ true
    → modrm_arm rex op n at ≡ ok d
    → Reads (modrm_arm rex op n) at d
unfolding modrm_arm
modrm_arm-Reads rex op n at d sz e =
    next-Reads (modrm_operand rex op n) at d (λ b at' f. modrm_operand-Reads rex op n b at' d sz f)
      e

-- A step that tests what was read before it.
if-Reads :
    (c : Bool) (f g : Step) (at : Position) (d : DecodedInstruction)
    → (f at ≡ ok d → Reads f at d)
    → (g at ≡ ok d → Reads g at d)
    → (if c then f at else g at) ≡ ok d
    → Reads (λ p. if c then f p else g p) at d
if-Reads true f g at d h k e = h e
if-Reads false f g at d h k e = k e

pub refused-Reads :
    (x : DecodeError) (at : Position) (d : DecodedInstruction)
    → ◌≡◌ {A = Result DecodeError DecodedInstruction} (err x) (ok d)
    → Reads (λ p. err x) at d
refused-Reads x at d e = cc

movzx-Reads :
    (rex : RexPrefix) (opcode2 : ℕ) (at : Position) (d : DecodedInstruction)
    → movzx_arm rex opcode2 at ≡ ok d
    → Reads (movzx_arm rex opcode2) at d
unfolding movzx_arm
movzx-Reads rex b at d e =
    let n = if b == 182 then 1 else 2 in
    if-Reads (b == 182 || b == 183) (modrm_arm rex load n) (λ p. err unsupported_opcode) at d
      (modrm_arm-Reads rex load n at d (ground arith)) (refused-Reads unsupported_opcode at d) e

pub opcode-Reads :
    (rex : RexPrefix) (n opcode : ℕ) (at : Position) (d : DecodedInstruction)
    → is_size n ≡ true
    → opcode_arm rex n opcode at ≡ ok d
    → Reads (opcode_arm rex n opcode) at d
unfolding opcode_arm
opcode-Reads rex n b at d sz = if-Reads _ _ _ at d (modrm_arm-Reads rex load n at d sz) (
    if-Reads _ _ _ at d (modrm_arm-Reads rex store n at d sz) (
      if-Reads _ _ _ at d (modrm_arm-Reads rex load 1 at d refl) (
        if-Reads _ _ _ at d (modrm_arm-Reads rex store 1 at d refl) (
          if-Reads _ _ _ at d (next-Reads (movzx_arm rex) at d (λ c at'. movzx-Reads rex c at' d))
            (refused-Reads unsupported_opcode at d)))))
