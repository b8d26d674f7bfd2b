-- ===== src/Events/Stream.antt =====
-- The records of a whole buffer, and the reader's iteration over them.
use bedrock.Base.{
  ℕ, zero, suc, ◌+◌, ◌*◌, ◌/◌, ◌%◌, ◌^◌, ◌<◌, ◌≤◌, ◌≡◌, refl, sym, ap, ◌∙◌, List, [], ◌∷◌, ◌++◌,
  length, arith, length-append, drop-append, ltb-false, none, drop, ◌∙◌,
}
use mathlib.Core.List.{append_assoc, append-nil}
use bedrock.Events.Reader.{EventRecord, next, records_from, event_stream}
use bedrock.Events.Record.{IsRecord, bytes_of, next-bytes_of, length-record_bytes}

-- The bytes that a list of records stands for.
unfoldable pub stream : List EventRecord → List ℕ
stream [] = []
stream (r ∷ rs) = bytes_of r ++ stream rs

pub stream_nil : ◌≡◌ {A = List ℕ} [] (stream [])
unfolding stream
stream_nil = refl

pub data IsRecords : List EventRecord → Type 0 where
  is_nil : IsRecords []
  is_cons :
      {r : EventRecord} {rs : List EventRecord} → IsRecord r → IsRecords rs → IsRecords (r ∷ rs)

pub stream-append :
    (rs : List EventRecord) (r : EventRecord) → stream (rs ++ (r ∷ [])) ≡ stream rs ++ bytes_of r
unfolding stream
stream-append [] r = append-nil (bytes_of r)
stream-append (q ∷ rs) r =
    rw (stream-append rs r) (sym (append_assoc (bytes_of q) (stream rs) (bytes_of r)))

pub IsRecords-append :
    (rs : List EventRecord) (r : EventRecord)
    → IsRecords rs
    → IsRecord r
    → IsRecords (rs ++ (r ∷ []))
IsRecords-append [] r v w = is_cons w is_nil
IsRecords-append (q ∷ rs) r (is_cons u v) w = is_cons u (IsRecords-append rs r v w)

pub length-bytes_of :
    (r : EventRecord) → IsRecord r → length (bytes_of r) ≡ (32 + length r.payload + 7) / 8 * 8
length-bytes_of r v =
    length-record_bytes r.header r.payload (omega (arith, v.len_eq, v.fields.len_lt))

pub length-stream_aligned : (rs : List EventRecord) → IsRecords rs → length (stream rs) % 8 ≡ 0
unfolding stream
length-stream_aligned [] v = refl
length-stream_aligned (r ∷ rs) (is_cons w v) = omega (
  arith,
  length-stream_aligned rs v,
  length-bytes_of r w,
  length-append {A = ℕ} (bytes_of r) (stream rs),
)

length_le-stream : (rs : List EventRecord) → IsRecords rs → length rs ≤ length (stream rs)
unfolding stream
length_le-stream [] v = omega arith
length_le-stream (r ∷ rs) (is_cons w v) = omega (
  arith,
  length_le-stream rs v,
  length-bytes_of r w,
  length-append {A = ℕ} (bytes_of r) (stream rs),
)

next-end : (buf : List ℕ) → next buf (length buf) ≡ none
unfolding next
next-end buf =
    let gone : drop (length buf) buf ≡ [] =
      ap (λ (t : List ℕ). drop (length buf) t) (sym (append-nil buf)) ∙ drop-append buf [] in
    rw (ltb-false (length buf) (length buf) (omega arith), gone) refl

records_from-stream :
    (n : ℕ) (pre : List ℕ) (rs : List EventRecord)
    → IsRecords rs
    → length pre % 8 ≡ 0
    → length pre + length (stream rs) < 2 ^ 60
    → length rs < n
    → records_from n (pre ++ stream rs) (length pre) ≡ rs
unfolding records_from stream
records_from-stream zero pre rs v a small h = absurd (omega arith)
records_from-stream (suc n) pre [] v a small h =
    rw (append-nil pre, next-end pre, records_from) refl
records_from-stream (suc n) pre (r ∷ rs) (is_cons w v) a small h =
    let size = length-append {A = ℕ} pre (bytes_of r) in
    let rest = length-append {A = ℕ} (bytes_of r) (stream rs) in
    let ih =
      records_from-stream n (pre ++ bytes_of r) rs v (omega (arith, size, length-bytes_of r w))
        (omega (arith, size, rest)) (omega arith) in
    rw (next-bytes_of pre (stream rs) r w a (omega arith), records_from)
      (ap (λ l. r ∷ l) (rw (sym size, sym (append_assoc pre (bytes_of r) (stream rs))) ih))

-- The reader gives back the records that a buffer was made of.
pub event_stream-stream :
    (rs : List EventRecord)
    → IsRecords rs
    → length (stream rs) < 2 ^ 60
    → event_stream (stream rs) ≡ rs
unfolding event_stream
event_stream-stream rs v small =
    records_from-stream (suc (length (stream rs))) [] rs v refl (omega arith)
      (omega (arith, length_le-stream rs v))
