-- ===== src/Events/Record.antt =====
-- The bytes of one record of the event stream.
use bedrock.Base.{
  ℕ, ◌+◌, ◌-◌, ◌*◌, ◌/◌, ◌%◌, ◌^◌, ◌≤◌, ◌<◌, ◌≡◌, refl, ap, ◌∙◌, false, List, ◌++◌, length, take,
  drop, replicate, bit_and, bit_not, ltb, ltb-false, arith, length-append, take-append, drop-append,
  length-replicate, some,
}
use mathlib.Core.List.{append_assoc}
use bedrock.Base.Bits.Field.{bit_and_field}
use bedrock.Base.Bytes.{from_le-to_le}
use bedrock.Events.{EventHeader, header_bytes, record_bytes, align_up, event_header_size}
use bedrock.Events.Reader.{EventRecord, parse_header, next}

round_8 : (n : ℕ) → n < 2 ^ 61 → bit_and n (bit_not 64 7) ≡ n / 8 * 8
round_8 n h = bit_and_field 3 61 n ∙ omega arith

-- Rounding up to 8, for what a 64-bit word holds.
pub align_up_8 : (n : ℕ) → n < 2 ^ 60 → align_up n 8 ≡ (n + 7) / 8 * 8
unfolding align_up
align_up_8 n h =
    let e : n + 8 - 1 ≡ n + 7 = omega arith in
    ap (λ (t : ℕ). bit_and t (bit_not 64 7)) e ∙ round_8 (n + 7) (omega arith)

pub record IsHeader (h : EventHeader) : Type 0 where
  pub seq_lt : h.seq < 2 ^ 64
  pub tsc_lt : h.tsc < 2 ^ 64
  pub real_tsc_lt : h.real_tsc < 2 ^ 64
  pub kind_lt : h.kind < 2 ^ 16
  pub flags_lt : h.flags < 2 ^ 16
  pub len_lt : h.len < 2 ^ 32

pub length-header_bytes : (h : EventHeader) → length (header_bytes h) ≡ 32
unfolding header_bytes
length-header_bytes h = refl

header_path :
    (g h : EventHeader)
    → g.seq ≡ h.seq
    → g.tsc ≡ h.tsc
    → g.real_tsc ≡ h.real_tsc
    → g.kind ≡ h.kind
    → g.flags ≡ h.flags
    → g.len ≡ h.len
    → g ≡ h
header_path g h a b c d e f i = record {
  seq = a i;
  tsc = b i;
  real_tsc = c i;
  kind = d i;
  flags = e i;
  len = f i;
}

pub parse_header-header_bytes :
    (h : EventHeader) (rest : List ℕ) → IsHeader h → parse_header (header_bytes h ++ rest) ≡ h
unfolding parse_header header_bytes
parse_header-header_bytes h rest v =
    header_path (parse_header (header_bytes h ++ rest)) h
      (from_le-to_le 8 h.seq (omega (arith, v.seq_lt)))
      (from_le-to_le 8 h.tsc (omega (arith, v.tsc_lt)))
      (from_le-to_le 8 h.real_tsc (omega (arith, v.real_tsc_lt)))
      (from_le-to_le 2 h.kind (omega (arith, v.kind_lt)))
      (from_le-to_le 2 h.flags (omega (arith, v.flags_lt)))
      (from_le-to_le 4 h.len (omega (arith, v.len_lt)))

-- A record that the reader gives back.
pub record IsRecord (r : EventRecord) : Type 0 where
  pub fields : IsHeader r.header
  pub len_eq : r.header.len ≡ length r.payload

abbrev pub bytes_of : EventRecord → List ℕ
bytes_of r = record_bytes r.header r.payload

pub length-record_bytes :
    (h : EventHeader) (p : List ℕ)
    → length p < 2 ^ 32
    → length (record_bytes h p) ≡ (32 + length p + 7) / 8 * 8
unfolding record_bytes
length-record_bytes h p v = omega (
  arith,
  length-append {A = ℕ} (header_bytes h) (p ++ replicate (align_up (length p) 8 - length p) 0),
  length-header_bytes h,
  length-append {A = ℕ} p (replicate (align_up (length p) 8 - length p) 0),
  length-replicate {A = ℕ} (align_up (length p) 8 - length p) 0,
  align_up_8 (length p) (omega arith),
)

drop_header : (h : EventHeader) (after : List ℕ) → drop 32 (header_bytes h ++ after) ≡ after
unfolding header_bytes
drop_header h after = refl

-- The reader at bytes that begin with a header, nothing before them.
next-header :
    (pre after : List ℕ) (h : EventHeader)
    → IsHeader h
    → h.len ≤ length after
    → next (pre ++ (header_bytes h ++ after)) (length pre)
      ≡ some (
        record { header = h; payload = take h.len after },
        bit_and (length pre + (event_header_size + h.len) + 7) (bit_not 64 7),
      )
unfolding next
next-header pre after h v fits =
    let rest = header_bytes h ++ after in
    let whole : ltb (length (pre ++ rest)) (length pre) ≡ false =
      ltb-false (length (pre ++ rest)) (length pre)
        (omega (arith, length-append {A = ℕ} pre rest)) in
    let enough : ltb (length rest) 32 ≡ false =
      ltb-false (length rest) 32
        (omega (arith, length-append {A = ℕ} (header_bytes h) after, length-header_bytes h)) in
    rw
      (
        whole,
        drop-append pre rest,
        enough,
        parse_header-header_bytes h after v,
        drop_header h after,
        ltb-false (length after) h.len fits,
      )
      refl

-- The reader takes a record that begins at a multiple of 8, and goes on behind its padding.
pub next-bytes_of :
    (pre post : List ℕ) (r : EventRecord)
    → IsRecord r
    → length pre % 8 ≡ 0
    → length pre < 2 ^ 60
    → next (pre ++ (bytes_of r ++ post)) (length pre) ≡ some (r, length pre + length (bytes_of r))
unfolding record_bytes
next-bytes_of pre post r v aligned small =
    let pad : List ℕ = replicate (align_up (length r.payload) 8 - length r.payload) 0 in
    let after : List ℕ = r.payload ++ (pad ++ post) in
    let assoc : bytes_of r ++ post ≡ header_bytes r.header ++ after =
      append_assoc (header_bytes r.header) (r.payload ++ pad) post
      ∙ ap (λ (t : List ℕ). header_bytes r.header ++ t) (append_assoc r.payload pad post) in
    let fits : r.header.len ≤ length after =
      omega (arith, v.len_eq, length-append {A = ℕ} r.payload (pad ++ post)) in
    let taken : take r.header.len after ≡ r.payload =
      ap (λ (t : ℕ). take t after) v.len_eq ∙ take-append r.payload (pad ++ post) in
    let off : bit_and (length pre + (event_header_size + r.header.len) + 7) (bit_not 64 7)
        ≡ length pre + length (bytes_of r) =
      round_8 (length pre + (event_header_size + r.header.len) + 7) (omega (arith, v.fields.len_lt))
      ∙ omega (
        arith,
        v.len_eq,
        v.fields.len_lt,
        length-record_bytes r.header r.payload (omega (arith, v.len_eq, v.fields.len_lt)),
      ) in
    rw assoc (next-header pre after r.header v.fields fits ∙ rw (taken, off) refl)
