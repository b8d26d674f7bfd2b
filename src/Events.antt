-- ===== src/Events.antt =====
-- The event stream: the wire format of crates/bedrock-vmx/src/events/types.rs and its writer in
-- crates/bedrock-vmx/src/vm_state.rs. Of the buffer of 1 MB the model has the bytes below the cursor,
-- the only ones that are ever read; the cursor is their number.
pub mod Reader
pub mod Record
pub mod Stream
pub mod Writes
pub mod Branches
pub mod Overflow
pub mod Patch
pub mod Capture
pub mod Preserve
pub mod Located
pub mod Reach
use bedrock.Base.{
  ℕ, zero, suc, ◌+◌, ◌-◌, ◌*◌, ◌/◌, ◌%◌, ◌^◌, ◌==◌, Bool, true, false, not, ◌&&◌, ◌||◌, Option,
  none, some, List, [], ◌∷◌, ◌++◌, length, take, drop, replicate, set, min, bit_and, bit_not, ltb,
  if◌then◌else◌, u32, u64,
}
use bedrock.Base.Bytes.{to_le}

abbrev pub event_buffer_size : ℕ
event_buffer_size = 1048576

abbrev pub event_header_size : ℕ
event_header_size = 32

abbrev pub event_flag_deterministic : ℕ
event_flag_deterministic = 1

-- The staging buffer and the console page have one page, the line accumulator 256 bytes.
abbrev pub staging_size : ℕ
staging_size = 4096

abbrev pub serial_line_acc_size : ℕ
serial_line_acc_size = 256

unfoldable pub align_up : ℕ → ℕ → ℕ
align_up n align = bit_and (n + align - 1) (bit_not 64 (align - 1))

pub data EventKind : Type 0 where
  exit serial inject randomness io_channel diagnostic : EventKind

unfoldable pub as_u16 : EventKind → ℕ
as_u16 exit = 0
as_u16 serial = 1
as_u16 inject = 2
as_u16 randomness = 3
as_u16 io_channel = 4
as_u16 diagnostic = 5

unfoldable pub category : EventKind → ℕ
category exit = 1
category serial = 2
category inject = 4
category randomness = 8
category io_channel = 16
category diagnostic = 32

unfoldable pub default_flags : EventKind → ℕ
default_flags diagnostic = 0
default_flags kind = event_flag_deterministic

-- `EventCategories::contains`
unfoldable pub contains_category : ℕ → ℕ → Bool
contains_category mask other = bit_and mask other == other

pub record EventHeader : Type 0 where
  pub seq : ℕ
  pub tsc : ℕ
  pub real_tsc : ℕ
  pub kind : ℕ
  pub flags : ℕ
  pub len : ℕ

-- The bytes of the `repr(C)` struct.
unfoldable pub header_bytes : EventHeader → List ℕ
header_bytes h =
    to_le 8 h.seq
    ++ (to_le 8 h.tsc
        ++ (to_le 8 h.real_tsc ++ (to_le 2 h.kind ++ (to_le 2 h.flags ++ to_le 4 h.len))))

-- Where the `Exit` record that `finalize_exit_memory_hash` patches has its payload.
pub data ExitLoc : Type 0 where
  in_buffer : ℕ → ExitLoc
  in_pending : ExitLoc

pub record Events : Type 0 where
  pub attached : Bool
  pub buffer : List ℕ
  pub event_seq : ℕ
  pub categories : ℕ
  pub emulated_tsc : ℕ
  pub pending : Option EventKind
  pub pending_buf : List ℕ
  pub pending_flags : ℕ
  pub pending_tsc : ℕ
  pub pending_real_tsc : ℕ
  pub pending_exit_loc : Option ExitLoc
  pub serial_line_buf : List ℕ
  pub serial_line_tsc : ℕ
  pub serial_line_real_tsc : ℕ

-- `self.event_buffer_ptr = Some(ptr)`
unfoldable pub set_event_buffer : Events → Events
set_event_buffer s = record s { attached = true }

unfoldable pub clear_event_buffer_ptr : Events → Events
clear_event_buffer_ptr s = record s {
  attached = false;
  buffer = [];
  pending = none;
  pending_buf = [];
}

unfoldable pub set_event_categories : ℕ → Events → Events
set_event_categories mask s = record s { categories = mask }

unfoldable pub event_buffer_full : Events → Bool
event_buffer_full s = elim s.pending [ none ↦ false | some kind ↦ true ]

unfoldable pub event_category_enabled : Events → EventKind → Bool
event_category_enabled s kind = contains_category s.categories (category kind)

-- The branch of `event_write` for a record that does not fit. A record that is staged already is kept.
unfoldable pub stage : EventKind → ℕ → ℕ → ℕ → List ℕ → List ℕ → Events → Events
stage kind flags tsc real_tsc head tail s =
    let head_copy = min (length head) staging_size in
    let tail_copy = min (length tail) (staging_size - head_copy) in
    elim s.pending [
      | some earlier ↦ s
      | none ↦ record s {
        pending = some kind;
        pending_buf = take head_copy head ++ take tail_copy tail;
        pending_flags = flags;
        pending_tsc = tsc;
        pending_real_tsc = real_tsc;
      }
    ]

-- The bytes of a record: its header, its payload and the padding to 8 bytes.
unfoldable pub record_bytes : EventHeader → List ℕ → List ℕ
record_bytes header payload =
    header_bytes header ++ (payload ++ replicate (align_up (length payload) 8 - length payload) 0)

unfoldable pub new_header : EventKind → ℕ → ℕ → ℕ → ℕ → Events → EventHeader
new_header kind flags tsc real_tsc len s = record {
  seq = s.event_seq;
  tsc = tsc;
  real_tsc = real_tsc;
  kind = as_u16 kind;
  flags = flags;
  len = u32 len;
}

-- The branch of `event_write` for a record that fits.
unfoldable pub push_record : EventKind → ℕ → ℕ → ℕ → List ℕ → Events → Events
push_record kind flags tsc real_tsc payload s = record s {
  buffer = s.buffer ++ record_bytes (new_header kind flags tsc real_tsc (length payload) s) payload;
  event_seq = u64 (s.event_seq + 1);
}

-- `head` and `tail` are the two parts of the payload.
unfoldable pub event_write : EventKind → ℕ → ℕ → ℕ → List ℕ → List ℕ → Events → Bool × Events
event_write kind flags tsc real_tsc head tail s =
    let len = length head + length tail in
    let need = event_header_size + align_up len 8 in
    if not (event_category_enabled s kind)
    then (true, s)
    else (if not s.attached
        then (true, s)
        else (if ltb event_buffer_size (length s.buffer + need)
            then (false, stage kind flags tsc real_tsc head tail s)
            else (true, push_record kind flags tsc real_tsc (head ++ tail) s)))

-- `real_tsc` is what `rdtsc` reads.
unfoldable pub event_append : EventKind → List ℕ → ℕ → Events → Bool × Events
event_append kind payload real_tsc s =
    let written = event_write kind (default_flags kind) s.emulated_tsc real_tsc payload [] s in
    if not (event_category_enabled s kind) then (true, s) else written

unfoldable pub event_append_at : EventKind → List ℕ → ℕ → ℕ → Events → Bool × Events
event_append_at kind payload tsc real_tsc s =
    event_write kind (default_flags kind) tsc real_tsc payload [] s

-- The payload of the record written last begins here, `len` being its length; `usize` wraps.
unfoldable pub event_len_at_last_record : ℕ → Events → ℕ
event_len_at_last_record len s =
    let total = event_header_size + align_up len 8 in
    u64 (u64 (length s.buffer + 2 ^ 64 - total) + event_header_size)

abbrev is_exit : EventKind → Bool
is_exit exit = true
is_exit kind = false

-- `Some(ExitLoc::Pending)` becomes the place in the buffer.
unfoldable pub relocate : EventKind → ℕ → Option ExitLoc → Events → Events
relocate kind len (some in_pending) s =
    if is_exit kind
    then record s { pending_exit_loc = some (in_buffer (event_len_at_last_record len s)) }
    else s
relocate kind len loc s = s

unfoldable pub event_clear : Events → Events
event_clear s =
    let empty = record s { buffer = []; pending = none } in
    let after : EventKind → Events = λ kind.
      (event_write kind s.pending_flags s.pending_tsc s.pending_real_tsc s.pending_buf []
        empty).1 in
    elim s.pending [
      | none ↦ empty
      | some kind ↦ record (relocate kind (length s.pending_buf) s.pending_exit_loc (after kind)) {
        pending_buf = [];
      }
    ]

unfoldable pub event_flush_serial_line : Events → Bool × Events
event_flush_serial_line s =
    let flushed =
      event_append_at serial s.serial_line_buf s.serial_line_tsc s.serial_line_real_tsc
        (record s { serial_line_buf = [] }) in
    if length s.serial_line_buf == 0 then (true, s) else flushed

-- The accumulator after a byte: stamped at the first byte of a line, full at 256 bytes.
unfoldable pub accumulate : ℕ → ℕ → Events → Events
accumulate byte real_tsc s =
    let fresh = length s.serial_line_buf == 0 in
    record s {
      serial_line_tsc = if fresh then s.emulated_tsc else s.serial_line_tsc;
      serial_line_real_tsc = if fresh then real_tsc else s.serial_line_real_tsc;
      serial_line_buf =
          if ltb (length s.serial_line_buf) serial_line_acc_size
          then s.serial_line_buf ++ (byte ∷ [])
          else s.serial_line_buf;
    }

unfoldable pub event_serial_byte : ℕ → ℕ → Events → Bool × Events
event_serial_byte byte real_tsc s =
    let s' = accumulate byte real_tsc s in
    let flushed = event_flush_serial_line s' in
    if not (event_category_enabled s serial)
    then (true, s)
    else (if byte == 10 || length s'.serial_line_buf == serial_line_acc_size
        then flushed
        else (true, s'))

-- `page` is the console's pending buffer.
unfoldable pub event_emit_console : List ℕ → ℕ → ℕ → Events → Bool × Events
event_emit_console page len real_tsc s =
    let written =
      event_write serial (default_flags serial) s.emulated_tsc real_tsc
        (take (min len staging_size) page) [] s in
    if not (event_category_enabled s serial) then (true, s) else written

-- A response's bytes come from the host, and clear the deterministic flag; `data` is the buffer of
-- the request or of the response, as the phase says.
unfoldable pub event_emit_io_channel : Bool → ℕ → List ℕ → ℕ → Events → Bool × Events
event_emit_io_channel is_response target_tsc data_bytes real_tsc s =
    let payload = to_le 1 (if is_response then 1 else 0) ++ (replicate 7 0 ++ to_le 8 target_tsc) in
    let written =
      event_write io_channel (if is_response then 0 else event_flag_deterministic) s.emulated_tsc
        real_tsc payload (take (min (length data_bytes) staging_size) data_bytes) s in
    if not (event_category_enabled s io_channel) then (true, s) else written

unfoldable pub emit_exit_event : List ℕ → Bool → ℕ → Events → Events
emit_exit_event payload deterministic real_tsc s =
    let cleared = record s { pending_exit_loc = none } in
    let payload_off = length s.buffer + event_header_size in
    let (fit, s') =
      event_write exit (if deterministic then event_flag_deterministic else 0) s.emulated_tsc
        real_tsc payload [] cleared in
    if not s.attached || not (event_category_enabled s exit)
    then cleared
    else record s' { pending_exit_loc = some (if fit then in_buffer payload_off else in_pending) }

-- The offsets of two fields in the `repr(C)` struct `ExitRecord`.
abbrev pub memory_hash_offset : ℕ
memory_hash_offset = 216

abbrev pub cow_page_count_offset : ℕ
cow_page_count_offset = 300

-- A write of bytes at an offset; what lies past the end is not read again.
abbrev pub overwrite : List ℕ → ℕ → List ℕ → List ℕ
overwrite bytes off [] = bytes
overwrite bytes off (b ∷ rest) = overwrite (set bytes off b) (suc off) rest

unfoldable pub patch_exit : ℕ → ℕ → ℕ → List ℕ → List ℕ
patch_exit memory_hash cow_page_count payload_base bytes =
    overwrite (overwrite bytes (payload_base + memory_hash_offset) (to_le 8 memory_hash))
      (payload_base + cow_page_count_offset) (to_le 4 cow_page_count)

unfoldable pub finalize_exit_memory_hash : ℕ → ℕ → Events → Events
finalize_exit_memory_hash memory_hash cow_page_count s =
    let taken = record s { pending_exit_loc = none } in
    elim s.pending_exit_loc [
      | none ↦ taken
      | some (in_buffer payload_off) ↦
          if s.attached
          then record taken { buffer = patch_exit memory_hash cow_page_count payload_off s.buffer }
          else taken
      | some in_pending ↦ record taken {
        pending_buf = patch_exit memory_hash cow_page_count 0 s.pending_buf;
      }
    ]
