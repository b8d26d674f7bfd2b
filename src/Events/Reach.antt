-- ===== src/Events/Reach.antt =====
-- The stream over time: its operations as steps, and what holds of every state that they reach.
use bedrock.Base.{
  ℕ, ◌+◌, ◌%◌, ◌^◌, ◌<◌, ◌≤◌, ◌≡◌, sym, ap, ◌∙◌, Bool, true, false, none, List, [], length, arith,
}
use mathlib.Core.Path.{subst}
use bedrock.Events.{
  Events, EventKind, event_buffer_size, staging_size, event_append, event_append_at,
  set_event_buffer, clear_event_buffer_ptr, set_event_categories, event_clear,
  event_flush_serial_line, event_serial_byte, event_emit_console, event_emit_io_channel,
  emit_exit_event, finalize_exit_memory_hash, cow_page_count_offset,
}
use bedrock.Events.Reader.{event_stream}
use bedrock.Events.Stream.{
  stream, stream_nil, IsRecords, is_nil, length-stream_aligned, event_stream-stream,
}
use bedrock.Events.Writes.{IsEvents, IsStamp}
use bedrock.Events.Overflow.{emptied, emptied-IsEvents}
use bedrock.Events.Located.{
  IsLocated, nowhere, emit_exit_event-IsLocated, event_flush_serial_line-IsLocated,
  finalize_exit_memory_hash-IsEvents,
}
use bedrock.Events.Preserve.{
  with_fields, stamp, event_clear-IsEvents, event_append-IsEvents, event_append_at-IsEvents,
  event_flush_serial_line-IsEvents, event_serial_byte-IsEvents, event_emit_console-IsEvents,
  event_emit_io_channel-IsEvents,
}

-- The state of a virtual machine that has just been made.
abbrev pub new_events : Events
new_events = record {
  attached = false;
  buffer = [];
  event_seq = 0;
  categories = 0;
  emulated_tsc = 0;
  pending = none;
  pending_buf = [];
  pending_flags = 0;
  pending_tsc = 0;
  pending_real_tsc = 0;
  pending_exit_loc = none;
  serial_line_buf = [];
  serial_line_tsc = 0;
  serial_line_real_tsc = 0;
}

-- From the exit record that an exit emits to the point where it is finished: the serial line may be flushed
-- behind it, as at shutdown, and another record of the same exit may follow, as after a snapshot.
pub data Emitting : Events → Events → Type 0 where
  emit :
      {s : Events} (payload : List ℕ) (deterministic : Bool) (real_tsc : ℕ)
      → cow_page_count_offset + 4 ≤ length payload
      → length payload ≤ staging_size
      → real_tsc < 2 ^ 64
      → Emitting s (emit_exit_event payload deterministic real_tsc s)
  emit_again :
      {s t : Events} (payload : List ℕ) (deterministic : Bool) (real_tsc : ℕ)
      → cow_page_count_offset + 4 ≤ length payload
      → length payload ≤ staging_size
      → real_tsc < 2 ^ 64
      → Emitting s t
      → Emitting s (emit_exit_event payload deterministic real_tsc t)
  flush_behind : {s t : Events} → Emitting s t → Emitting s (event_flush_serial_line t).1

-- A call that the hypervisor makes on the stream, or an exit's record from its emission to its finish. Times
-- are 64-bit numbers and a payload is a slice of memory. An exit that ends in an error, which is not finished,
-- is none of the steps.
pub data Step : Events → Events → Type 0 where
  attach : {s : Events} → Step s (set_event_buffer s)
  detach : {s : Events} → Step s (clear_event_buffer_ptr s)
  categorise : {s : Events} (mask : ℕ) → Step s (set_event_categories mask s)
  tick : {s : Events} (now : ℕ) → now < 2 ^ 64 → Step s (record s { emulated_tsc = now })
  append :
      {s : Events} (kind : EventKind) (payload : List ℕ) (real_tsc : ℕ)
      → length payload < 2 ^ 60
      → real_tsc < 2 ^ 64
      → Step s (event_append kind payload real_tsc s).1
  append_at :
      {s : Events} (kind : EventKind) (payload : List ℕ) (tsc real_tsc : ℕ)
      → length payload < 2 ^ 60
      → tsc < 2 ^ 64
      → real_tsc < 2 ^ 64
      → Step s (event_append_at kind payload tsc real_tsc s).1
  serial_byte :
      {s : Events} (byte real_tsc : ℕ)
      → real_tsc < 2 ^ 64
      → Step s (event_serial_byte byte real_tsc s).1
  flush : {s : Events} → Step s (event_flush_serial_line s).1
  console :
      {s : Events} (page : List ℕ) (len real_tsc : ℕ)
      → real_tsc < 2 ^ 64
      → Step s (event_emit_console page len real_tsc s).1
  channel :
      {s : Events} (is_response : Bool) (target_tsc : ℕ) (bytes : List ℕ) (real_tsc : ℕ)
      → real_tsc < 2 ^ 64
      → Step s (event_emit_io_channel is_response target_tsc bytes real_tsc s).1
  capture :
      {s t : Events} (memory_hash cow_page_count : ℕ)
      → Emitting s t
      → Step s (finalize_exit_memory_hash memory_hash cow_page_count t)
  uncaptured :
      {s : Events} (memory_hash cow_page_count : ℕ)
      → s.pending_exit_loc ≡ none
      → Step s (finalize_exit_memory_hash memory_hash cow_page_count s)
  drain : {s : Events} → Step s (event_clear s)

pub data Reachable : Events → Type 0 where
  start : Reachable new_events
  next : {s t : Events} → Reachable s → Step s t → Reachable t

Emitting-IsLocated : {s t : Events} → Emitting s t → IsEvents s → IsEvents t × IsLocated t
Emitting-IsLocated {s} (emit payload deterministic real_tsc enough small b) w =
    emit_exit_event-IsLocated payload deterministic real_tsc s enough small b w
Emitting-IsLocated (emit_again {t} payload deterministic real_tsc enough small b e) w =
    emit_exit_event-IsLocated payload deterministic real_tsc t enough small b
      ((Emitting-IsLocated e w).0)
Emitting-IsLocated (flush_behind {t} e) w =
    let (v, i) = Emitting-IsLocated e w in
    (event_flush_serial_line-IsEvents t v, event_flush_serial_line-IsLocated t v i)

new_events-IsEvents : IsEvents new_events
new_events-IsEvents =
    let zeros : IsStamp 0 0 0 = stamp 0 0 0 (omega arith) (omega arith) (omega arith) in
    record {
      records = [];
      are_records = is_nil;
      buffer_eq = stream_nil;
      buffer_le = omega arith;
      seq_lt = omega arith;
      now_lt = omega arith;
      staged_le = omega arith;
      staged = zeros;
      line_le = omega arith;
      line = zeros;
    }

step-IsEvents : (s t : Events) → Step s t → IsEvents s → IsEvents t
unfolding set_event_buffer clear_event_buffer_ptr set_event_categories
step-IsEvents s t attach w =
    with_fields s true s.categories s.pending s.pending_exit_loc s.pending_buf w.staged_le w
step-IsEvents s t detach w =
    with_fields (emptied s) false s.categories none s.pending_exit_loc [] (omega arith)
      (emptied-IsEvents s w)
step-IsEvents s t (categorise mask) w =
    with_fields s s.attached mask s.pending s.pending_exit_loc s.pending_buf w.staged_le w
step-IsEvents s t (tick now h) w = record {
  records = w.records;
  are_records = w.are_records;
  buffer_eq = w.buffer_eq;
  buffer_le = w.buffer_le;
  seq_lt = w.seq_lt;
  now_lt = h;
  staged_le = w.staged_le;
  staged = w.staged;
  line_le = w.line_le;
  line = w.line;
}
step-IsEvents s t (append kind payload real_tsc small b) w =
    event_append-IsEvents kind payload real_tsc s b small w
step-IsEvents s t (append_at kind payload tsc real_tsc small a b) w =
    event_append_at-IsEvents kind payload tsc real_tsc s a b small w
step-IsEvents s t (serial_byte byte real_tsc b) w = event_serial_byte-IsEvents byte real_tsc s b w
step-IsEvents s t flush w = event_flush_serial_line-IsEvents s w
step-IsEvents s t (console page len real_tsc b) w =
    event_emit_console-IsEvents page len real_tsc s b w
step-IsEvents s t (channel r target bytes real_tsc b) w =
    event_emit_io_channel-IsEvents r target bytes real_tsc s b w
step-IsEvents s t (capture {t = u} h c e) w =
    let (v, i) = Emitting-IsLocated e w in finalize_exit_memory_hash-IsEvents h c u v i
step-IsEvents s t (uncaptured h c e) w = finalize_exit_memory_hash-IsEvents h c s w (nowhere e)
step-IsEvents s t drain w = event_clear-IsEvents s w

pub Reachable-IsEvents : (s : Events) → Reachable s → IsEvents s
Reachable-IsEvents s start = new_events-IsEvents
Reachable-IsEvents t (next {s} r step) = step-IsEvents s t step (Reachable-IsEvents s r)

-- After any calls, of which no exit with a record has ended in an error before it was finished, the buffer is
-- what its records, as the reader gives them, are written as, with nothing left over; each has a header of its
-- own length; the buffer has no more than 1 MB and ends at a multiple of 8.
pub event_stream-Reachable :
    (s : Events)
    → Reachable s
    → IsRecords (event_stream s.buffer)
      × (s.buffer ≡ stream (event_stream s.buffer))
      × (length s.buffer ≤ event_buffer_size)
      × (length s.buffer % 8 ≡ 0)
event_stream-Reachable s r =
    let w = Reachable-IsEvents s r in
    let read : event_stream s.buffer ≡ w.records =
      ap event_stream w.buffer_eq
      ∙ event_stream-stream w.records w.are_records
          (omega (arith, w.buffer_le, ap length w.buffer_eq)) in
    (
      subst IsRecords (sym read) w.are_records,
      w.buffer_eq ∙ ap stream (sym read),
      w.buffer_le,
      omega (arith, ap length w.buffer_eq, length-stream_aligned w.records w.are_records),
    )
