-- ===== src/Tests/Events.antt =====
-- Runs of the event stream.
use bedrock.Base.{
  ℕ, ◌+◌, ◌≡◌, ◌∙◌, refl, ◌≤◌, ◌<◌, ◌%◌, true, false, some, none, List, [], ◌∷◌, ◌++◌, length, take,
  replicate, length-replicate, arith,
}
use bedrock.Events.{
  Events, EventKind, serial, exit, event_write, event_clear, event_buffer_full, staging_size,
  event_buffer_size, align_up, event_header_size, event_append, set_event_buffer,
  set_event_categories, patch_exit, event_flush_serial_line, emit_exit_event,
  finalize_exit_memory_hash, EventHeader, new_header, as_u16, contains_category,
  event_category_enabled, category,
}
use bedrock.Events.Reader.{event_stream}
use bedrock.Events.Record.{align_up_8}
use bedrock.Events.Stream.{stream, IsRecords}
use bedrock.Events.Writes.{IsStamp, record_of}
use bedrock.Events.Overflow.{event_stream-event_write, event_clear-event_write}
use bedrock.Events.Capture.{write_finished, finalize-emit, finalize-emit_staged}
use bedrock.Events.Reach.{
  new_events, Reachable, start, next, attach, categorise, append, capture, emit, flush_behind,
  event_stream-Reachable, Reachable-IsEvents,
}

-- The stream attached with all categories.
abbrev ready : Events
ready = set_event_categories 63 (set_event_buffer new_events)

ready-Reachable : Reachable ready
ready-Reachable = next (next start attach) (categorise 63)

ready_serial : event_category_enabled ready serial ≡ true
unfolding event_category_enabled contains_category category set_event_categories set_event_buffer
ready_serial = refl

stamps : IsStamp 1 100 200
stamps = record { flags_lt = omega arith; tsc_lt = omega arith; real_tsc_lt = omega arith }

abbrev line : List ℕ
line = 72 ∷ 105 ∷ []

ready_attached : ready.attached ≡ true
unfolding set_event_categories set_event_buffer
ready_attached = refl

ready_room :
    length ready.buffer + (event_header_size + align_up (length line + 0) 8) ≤ event_buffer_size
unfolding set_event_categories set_event_buffer
ready_room = omega (arith, align_up_8 (length line + 0) (omega arith))

event_stream-event_write_example :
    ((event_write serial 1 100 200 line [] ready).0 ≡ true)
    × (event_stream (event_write serial 1 100 200 line [] ready).1.buffer
        ≡ event_stream ready.buffer ++ (record_of serial 1 100 200 (line ++ []) ready ∷ []))
event_stream-event_write_example =
    event_stream-event_write serial 1 100 200 line [] ready stamps (omega arith)
      (Reachable-IsEvents ready ready-Reachable) ready_serial ready_attached ready_room

-- The record, read back.
read_line :
    event_stream (event_write serial 1 100 200 line [] ready).1.buffer
    ≡ record_of serial 1 100 200 line ready ∷ []
unfolding event_stream event_write align_up bedrock.Events.Reader.records_from
    bedrock.Events.Reader.next event_category_enabled contains_category set_event_categories
    category set_event_buffer bedrock.Events.push_record bedrock.Events.record_bytes
    bedrock.Events.header_bytes bedrock.Events.Reader.parse_header new_header as_u16
read_line = refl

-- A payload of 1 MB.
megabyte : ℕ
megabyte = 1048576

megabyte_eq : megabyte ≡ 1048576
unfolding megabyte
megabyte_eq = refl

large : List ℕ
large = replicate megabyte 0

length-large : length large ≡ 1048576
unfolding large
length-large = length-replicate {A = ℕ} megabyte 0 ∙ megabyte_eq

large_full :
    event_buffer_size < length ready.buffer + (event_header_size + align_up (length large + 0) 8)
unfolding set_event_categories set_event_buffer
large_full =
    omega (arith, length-large, align_up_8 (length large + 0) (omega (arith, length-large)))

ready_idle : ready.pending ≡ none
unfolding set_event_categories set_event_buffer
ready_idle = refl

event_clear-event_write_example :
    let (fit, s') = event_write serial 1 100 200 large [] ready in
    (fit ≡ false)
    × (s'.buffer ≡ ready.buffer)
    × (event_stream (event_clear s').buffer
        ≡ record_of serial 1 100 200 (take staging_size (large ++ [])) ready ∷ [])
    × (event_buffer_full (event_clear s') ≡ false)
event_clear-event_write_example =
    event_clear-event_write serial 1 100 200 large [] ready stamps
      (Reachable-IsEvents ready ready-Reachable) ready_serial ready_attached ready_idle large_full

-- An exit record of 512 bytes.
exit_bytes : List ℕ
exit_bytes = replicate 512 0

finalize-emit_example :
    finalize_exit_memory_hash 12345 7 (emit_exit_event exit_bytes true 200 ready)
    ≡ write_finished exit_bytes true 200 12345 7 ready
unfolding exit_bytes
finalize-emit_example =
    finalize-emit exit_bytes true 200 12345 7 ready (omega (arith, length-replicate {A = ℕ} 512 0))
      (omega (arith, length-replicate {A = ℕ} 512 0)) ready_idle

-- A full buffer, and a line of the console that is staged.
staged : Events
staged = record ready { buffer = large; pending = some serial; pending_buf = exit_bytes }

staged_full :
    event_buffer_size
    < length staged.buffer + (event_header_size + align_up (length exit_bytes + 0) 8)
unfolding staged
staged_full = omega (arith, length-large)

staged_exit : event_category_enabled staged exit ≡ true
unfolding staged event_category_enabled contains_category category set_event_categories
    set_event_buffer
staged_exit = refl

staged_busy : staged.pending ≡ some serial
unfolding staged
staged_busy = refl

staged_attached : staged.attached ≡ true
unfolding staged set_event_categories set_event_buffer
staged_attached = refl

finalize-emit_staged_example :
    finalize_exit_memory_hash 12345 7 (emit_exit_event exit_bytes true 200 staged) ≡ record staged {
      pending_exit_loc = none;
      pending_buf = patch_exit 12345 7 0 staged.pending_buf;
    }
finalize-emit_staged_example =
    finalize-emit_staged exit_bytes true 200 12345 7 staged serial staged_busy staged_exit
      staged_attached staged_full

-- A line of the serial port, and then the exit of a shutdown, behind whose record the line is flushed before
-- the record is finished.
abbrev shut_down : Events
shut_down =
    finalize_exit_memory_hash 12345 7
      (event_flush_serial_line
        (emit_exit_event exit_bytes true 300 (event_append serial line 200 ready).1)).1

shut_down-Reachable : Reachable shut_down
unfolding exit_bytes
shut_down-Reachable =
    next (next ready-Reachable (append serial line 200 (omega arith) (omega arith))) (
      capture 12345 7 (
        flush_behind (
          emit exit_bytes true 300 (omega (arith, length-replicate {A = ℕ} 512 0))
            (omega (arith, length-replicate {A = ℕ} 512 0)) (omega arith))))

event_stream-Reachable_example :
    IsRecords (event_stream shut_down.buffer)
    × (shut_down.buffer ≡ stream (event_stream shut_down.buffer))
    × (length shut_down.buffer ≤ event_buffer_size)
    × (length shut_down.buffer % 8 ≡ 0)
event_stream-Reachable_example = event_stream-Reachable shut_down shut_down-Reachable
