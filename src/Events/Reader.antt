-- ===== src/Events/Reader.antt =====
-- The reader of the event stream: `EventStream` of crates/bedrock-vm/src/events.rs, over a buffer that
-- begins at a page, so that no cast fails for its alignment.
use bedrock.Base.{
  ℕ, zero, suc, ◌+◌, Option, none, some, List, [], ◌∷◌, length, take, drop, bit_and, bit_not, ltb,
  if◌then◌else◌,
}
use bedrock.Base.Bytes.{from_le}
use bedrock.Events.{EventHeader, event_header_size}

pub record EventRecord : Type 0 where
  pub header : EventHeader
  pub payload : List ℕ

-- `EventHeader::ref_from_prefix` on enough bytes.
unfoldable pub parse_header : List ℕ → EventHeader
parse_header b = record {
  seq = from_le (take 8 b);
  tsc = from_le (take 8 (drop 8 b));
  real_tsc = from_le (take 8 (drop 16 b));
  kind = from_le (take 2 (drop 24 b));
  flags = from_le (take 2 (drop 26 b));
  len = from_le (take 4 (drop 28 b));
}

-- `EventStream::next`, with the offset that it leaves.
unfoldable pub next : List ℕ → ℕ → Option (EventRecord × ℕ)
next buf off =
    let rest = drop off buf in
    let header = parse_header rest in
    let after = drop event_header_size rest in
    if ltb (length buf) off
    then none
    else (if ltb (length rest) event_header_size
        then none
        else (if ltb (length after) header.len
            then none
            else some (
              record { header = header; payload = take header.len after },
              bit_and (off + (event_header_size + header.len) + 7) (bit_not 64 7),
            )))

-- The iteration, on fuel.
unfoldable pub records_from : ℕ → List ℕ → ℕ → List EventRecord
records_from zero buf off = []
records_from (suc fuel) buf off = elim (next buf off) [
  | none ↦ []
  | some (r, off') ↦ r ∷ records_from fuel buf off'
]

-- A record has 32 bytes at least, so the bytes are fuel enough.
unfoldable pub event_stream : List ℕ → List EventRecord
event_stream buf = records_from (suc (length buf)) buf 0
