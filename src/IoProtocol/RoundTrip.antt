-- ===== src/IoProtocol/RoundTrip.antt =====
-- What is encoded is decoded.
use bedrock.Base.{
  ℕ, zero, suc, ◌+◌, ◌-◌, ◌^◌, ◌<◌, ◌≤◌, ◌≡◌, ◌≢◌, refl, ap, ◌∙◌, Bool, true, false, not, Option,
  some, List, [], ◌∷◌, ◌++◌, length, take, drop, arith, ltb-false, if◌then◌else◌, ==-false, u32,
  ◌==◌, take-append, bit_and,
}
use bedrock.Base.Bytes.{to_le, from_le, from_le-to_le}
use bedrock.IoProtocol.{
  encode_request, decode_request, end_of, split_cstr, target_of, word_at, unwrap_name,
  io_request_magic, io_flag_record_output,
}

-- No byte is NUL.
pub data IsText : List ℕ → Type 0 where
  empty : IsText []
  more : {c : ℕ} {rest : List ℕ} → c ≢ 0 → IsText rest → IsText (c ∷ rest)

end_of-text : (name r : List ℕ) → IsText name → end_of (name ++ (0 ∷ r)) ≡ length name
unfolding end_of
end_of-text [] r empty = refl
end_of-text (c ∷ name) r (more h v) = rw (==-false c 0 h) (ap suc (end_of-text name r v))

-- The last field, cut anywhere.
end_of-cut :
    (i : ℕ) (xs : List ℕ)
    → IsText xs
    → take (end_of (take i (xs ++ (0 ∷ [])))) (take i (xs ++ (0 ∷ []))) ≡ take i xs
unfolding end_of
end_of-cut zero xs v = refl
end_of-cut (suc i) [] v = refl
end_of-cut (suc i) (c ∷ xs) (more h v) = rw (==-false c 0 h) (ap (λ l. c ∷ l) (end_of-cut i xs v))

-- A cut behind the first field and its terminator.
take-field :
    (name r : List ℕ) (j : ℕ)
    → take (length name + suc j) (name ++ (0 ∷ r)) ≡ name ++ (0 ∷ take j r)
take-field [] r j = let e : 0 + suc j ≡ suc j = omega arith in rw e refl
take-field (c ∷ name) r j =
    let e : suc (length name) + suc j ≡ suc (length name + suc j) = omega arith in
    rw e (ap (λ l. c ∷ l) (take-field name r j))

drop-field : (name r : List ℕ) → drop (length name + 1) (name ++ (0 ∷ r)) ≡ r
drop-field [] r = refl
drop-field (c ∷ name) r =
    let e : suc (length name) + 1 ≡ suc (length name + 1) = omega arith in rw e (drop-field name r)

pub word_at-le :
    (bytes : List ℕ) (first w : ℕ)
    → first + 4 ≤ length bytes
    → from_le (take 4 (drop first bytes)) ≡ w
    → word_at bytes first ≡ some w
unfolding word_at
word_at-le bytes first w h e = rw (ltb-false (length bytes) (first + 4) h, e) refl

abbrev pub with_header : ℕ → ℕ → ℕ → List ℕ → List ℕ
with_header magic flags len payload = to_le 4 magic ++ (to_le 4 flags ++ (to_le 4 len ++ payload))

decode_request-words :
    (lossy : List ℕ → List ℕ) (bytes : List ℕ) (flags : ℕ)
    → word_at bytes 0 ≡ some io_request_magic
    → word_at bytes 4 ≡ some flags
    → decode_request lossy bytes
      ≡ some (record {
        target = target_of (split_cstr lossy (drop 12 bytes)).0;
        command = (split_cstr lossy (split_cstr lossy (drop 12 bytes)).1).0;
        record_output = not (bit_and flags io_flag_record_output == 0);
      })
unfolding decode_request
decode_request-words lossy bytes flags magic_eq flags_eq =
    rw (magic_eq, flags_eq, decode_request) refl

decode_request-header :
    (lossy : List ℕ → List ℕ) (flags len : ℕ) (payload : List ℕ)
    → flags < 2 ^ 32
    → decode_request lossy (with_header io_request_magic flags len payload)
      ≡ some (record {
        target = target_of (split_cstr lossy payload).0;
        command = (split_cstr lossy (split_cstr lossy payload).1).0;
        record_output = not (bit_and flags io_flag_record_output == 0);
      })
decode_request-header lossy flags len payload h =
    let bytes = with_header io_request_magic flags len payload in
    decode_request-words lossy bytes flags (word_at-le bytes 0 io_request_magic (omega arith) refl)
      (word_at-le bytes 4 flags (omega arith) (from_le-to_le 4 flags (omega (arith, h))))

split_cstr-field :
    (lossy : List ℕ → List ℕ) (name r : List ℕ)
    → IsText name
    → lossy name ≡ name
    → split_cstr lossy (name ++ (0 ∷ r)) ≡ (name, r)
unfolding split_cstr
split_cstr-field lossy name r v e =
    rw (end_of-text name r v)
      (λ i. ((ap lossy (take-append name (0 ∷ r)) ∙ e) i, drop-field name r i))

take-more : (xs ys : List ℕ) (k : ℕ) → take (length xs + k) (xs ++ ys) ≡ xs ++ take k ys
take-more [] ys k = let e : 0 + k ≡ k = omega arith in rw e refl
take-more (x ∷ xs) ys k =
    let e : suc (length xs) + k ≡ suc (length xs + k) = omega arith in
    rw e (ap (λ l. x ∷ l) (take-more xs ys k))

take-header :
    (magic flags len k : ℕ) (payload : List ℕ)
    → take (12 + k) (with_header magic flags len payload)
      ≡ with_header magic flags len (take k payload)
take-header magic flags len k payload =
    take-more (to_le 4 magic ++ (to_le 4 flags ++ to_le 4 len)) payload k

split_cstr-last :
    (lossy : List ℕ → List ℕ) (j : ℕ) (command : List ℕ)
    → IsText command
    → (split_cstr lossy (take j (command ++ (0 ∷ [])))).0 ≡ lossy (take j command)
unfolding split_cstr
split_cstr-last lossy j command w = ap lossy (end_of-cut j command w)

-- The fields of a payload that is cut behind its first terminator.
cut_fields :
    (lossy : List ℕ → List ℕ) (name command : List ℕ) (j : ℕ)
    → IsText name
    → IsText command
    → lossy name ≡ name
    → let payload = take (length name + suc j) (name ++ (0 ∷ (command ++ (0 ∷ [])))) in
      ((split_cstr lossy payload).0 ≡ name)
      × ((split_cstr lossy (split_cstr lossy payload).1).0 ≡ lossy (take j command))
cut_fields lossy name command j v w e =
    let rest = command ++ (0 ∷ []) in
    let cut = take-field name rest j in
    let split : split_cstr lossy (take (length name + suc j) (name ++ (0 ∷ rest)))
        ≡ (name, take j rest) =
      ap (split_cstr lossy) cut ∙ split_cstr-field lossy name (take j rest) v e in
    (
      ap (λ p. p.0) split,
      ap (λ p. (split_cstr lossy p.1).0) split ∙ split_cstr-last lossy j command w,
    )

flag_of :
    (record_output : Bool)
    → not (bit_and (if record_output then io_flag_record_output else 0) io_flag_record_output == 0)
      ≡ record_output
flag_of true = refl
flag_of false = refl

flag_lt : (record_output : Bool) → (if record_output then io_flag_record_output else 0) < 2 ^ 32
flag_lt true = omega arith
flag_lt false = omega arith

-- A request that is cut behind the name of its container, or not at all, is decoded: the target, the flag
-- and as much of the command as survived. The name is one that `from_utf8_lossy` keeps, and neither
-- string has a NUL byte.
pub decode_request-encode_request :
    (lossy : List ℕ → List ℕ) (name : Option (List ℕ)) (command : List ℕ) (record_output : Bool)
    (n : ℕ)
    → IsText (unwrap_name name)
    → IsText command
    → lossy (unwrap_name name) ≡ unwrap_name name
    → 13 + length (unwrap_name name) ≤ n
    → decode_request lossy (take n (encode_request name command record_output))
      ≡ some (record {
        target = target_of (unwrap_name name);
        command = lossy (take (n - (13 + length (unwrap_name name))) command);
        record_output = record_output;
      })
unfolding encode_request
decode_request-encode_request lossy name command record_output n v w e h =
    let text = unwrap_name name in
    let j = n - (13 + length text) in
    let flags = if record_output then io_flag_record_output else 0 in
    let payload = text ++ (0 ∷ (command ++ (0 ∷ []))) in
    let cut : n ≡ 12 + (length text + suc j) = omega arith in
    let (first, second) = cut_fields lossy text command j v w e in
    ap (λ (k : ℕ). decode_request lossy (take k (encode_request name command record_output))) cut
    ∙ ap (decode_request lossy)
        (take-header io_request_magic flags (u32 (length payload)) (length text + suc j) payload)
    ∙ decode_request-header lossy flags (u32 (length payload)) (take (length text + suc j) payload)
        (flag_lt record_output)
    ∙ (λ i. some (record {
      target = target_of (first i);
      command = second i;
      record_output = flag_of record_output i;
    }))
