-- ===== src/Events/Preserve.antt =====
-- Every operation of the stream keeps its invariant.
use bedrock.Base.{
  ℕ, ◌^◌, ◌<◌, ◌≤◌, Bool, not, ◌||◌, ◌==◌, Option, none, some, List, [], ◌∷◌, ◌++◌, length, arith,
  length-append, length-take, replicate, min, take, ltb, ltb→lt, if-cases, some-cases,
  if◌then◌else◌,
}
use bedrock.Base.Bytes.{to_le}
use bedrock.Events.{
  Events, EventKind, ExitLoc, in_buffer, in_pending, exit, serial, inject, randomness, io_channel,
  diagnostic, default_flags, accumulate, staging_size, serial_line_acc_size, event_write,
  event_append, event_append_at, event_category_enabled, event_clear, relocate,
  event_flush_serial_line, event_serial_byte, event_emit_console, event_emit_io_channel,
  event_flag_deterministic,
}
use bedrock.Events.Writes.{IsEvents, IsStamp, event_write-IsEvents}
use bedrock.Events.Overflow.{emptied, emptied-IsEvents}

-- Fields that the invariant does not speak of, and the staged payload, of a page at most.
pub with_fields :
    (s : Events) (a : Bool) (c : ℕ) (p : Option EventKind) (l : Option ExitLoc) (b : List ℕ)
    → length b ≤ staging_size
    → IsEvents s
    → IsEvents (record s {
      attached = a;
      categories = c;
      pending = p;
      pending_exit_loc = l;
      pending_buf = b;
    })
with_fields s a c p l b bound w = record {
  records = w.records;
  are_records = w.are_records;
  buffer_eq = w.buffer_eq;
  buffer_le = w.buffer_le;
  seq_lt = w.seq_lt;
  now_lt = w.now_lt;
  staged_le = bound;
  staged = w.staged;
  line_le = w.line_le;
  line = w.line;
}

pub with_line :
    (s : Events) (b : List ℕ) (tsc real_tsc : ℕ)
    → length b ≤ serial_line_acc_size
    → IsStamp 0 tsc real_tsc
    → IsEvents s
    → IsEvents
        (record s { serial_line_buf = b; serial_line_tsc = tsc; serial_line_real_tsc = real_tsc })
with_line s b tsc real_tsc bound v w = record {
  records = w.records;
  are_records = w.are_records;
  buffer_eq = w.buffer_eq;
  buffer_le = w.buffer_le;
  seq_lt = w.seq_lt;
  now_lt = w.now_lt;
  staged_le = w.staged_le;
  staged = w.staged;
  line_le = bound;
  line = v;
}

pub default_flags-lt : (kind : EventKind) → default_flags kind < 2 ^ 16
unfolding default_flags
default_flags-lt exit = omega arith
default_flags-lt serial = omega arith
default_flags-lt inject = omega arith
default_flags-lt randomness = omega arith
default_flags-lt io_channel = omega arith
default_flags-lt diagnostic = omega arith

pub stamp :
    (flags tsc real_tsc : ℕ)
    → flags < 2 ^ 16
    → tsc < 2 ^ 64
    → real_tsc < 2 ^ 64
    → IsStamp flags tsc real_tsc
stamp flags tsc real_tsc a b c = record { flags_lt = a; tsc_lt = b; real_tsc_lt = c }

relocate-IsEvents :
    (kind : EventKind) (len : ℕ) (l : Option ExitLoc) (s : Events)
    → IsEvents s
    → IsEvents (relocate kind len l s)
unfolding relocate
relocate-IsEvents kind len none s w = w
relocate-IsEvents kind len (some (in_buffer off)) s w = w
relocate-IsEvents exit len (some in_pending) s w =
    with_fields s s.attached s.categories s.pending _ s.pending_buf w.staged_le w
relocate-IsEvents serial len (some in_pending) s w = w
relocate-IsEvents inject len (some in_pending) s w = w
relocate-IsEvents randomness len (some in_pending) s w = w
relocate-IsEvents io_channel len (some in_pending) s w = w
relocate-IsEvents diagnostic len (some in_pending) s w = w

pub event_clear-IsEvents : (s : Events) → IsEvents s → IsEvents (event_clear s)
unfolding event_clear
event_clear-IsEvents s w =
    let after : EventKind → Events = λ kind.
      (event_write kind s.pending_flags s.pending_tsc s.pending_real_tsc s.pending_buf []
        (emptied s)).1 in
    let moved : EventKind → Events =
      λ kind. relocate kind (length s.pending_buf) s.pending_exit_loc (after kind) in
    some-cases IsEvents s.pending (emptied s) (λ kind. record (moved kind) { pending_buf = [] })
      (λ e. emptied-IsEvents s w)
      (λ kind e.
        let v = relocate-IsEvents kind (length s.pending_buf) s.pending_exit_loc (after kind) (
          event_write-IsEvents kind s.pending_flags s.pending_tsc s.pending_real_tsc s.pending_buf
            [] (emptied s) w.staged (omega (arith, w.staged_le)) (emptied-IsEvents s w)) in
        let t = moved kind in
        with_fields t t.attached t.categories t.pending t.pending_exit_loc [] (omega arith) v)

pub event_append_at-IsEvents :
    (kind : EventKind) (payload : List ℕ) (tsc real_tsc : ℕ) (s : Events)
    → tsc < 2 ^ 64
    → real_tsc < 2 ^ 64
    → length payload < 2 ^ 60
    → IsEvents s
    → IsEvents (event_append_at kind payload tsc real_tsc s).1
unfolding event_append_at
event_append_at-IsEvents kind payload tsc real_tsc s a b small w =
    event_write-IsEvents kind (default_flags kind) tsc real_tsc payload [] s
      (stamp (default_flags kind) tsc real_tsc (default_flags-lt kind) a b) (omega arith) w

pub event_append-IsEvents :
    (kind : EventKind) (payload : List ℕ) (real_tsc : ℕ) (s : Events)
    → real_tsc < 2 ^ 64
    → length payload < 2 ^ 60
    → IsEvents s
    → IsEvents (event_append kind payload real_tsc s).1
unfolding event_append event_append_at
event_append-IsEvents kind payload real_tsc s b small w =
    if-cases (λ (r : Bool × Events). IsEvents r.1) (not (event_category_enabled s kind)) (λ e. w)
      (λ e. event_append_at-IsEvents kind payload s.emulated_tsc real_tsc s w.now_lt b small w)

pub event_flush_serial_line-IsEvents :
    (s : Events) → IsEvents s → IsEvents (event_flush_serial_line s).1
unfolding event_flush_serial_line
event_flush_serial_line-IsEvents s w =
    if-cases (λ (r : Bool × Events). IsEvents r.1) (length s.serial_line_buf == 0) (λ e. w)
      (λ e.
        event_append_at-IsEvents serial s.serial_line_buf s.serial_line_tsc s.serial_line_real_tsc
          (record s { serial_line_buf = [] }) w.line.tsc_lt w.line.real_tsc_lt
          (omega (arith, w.line_le))
          (with_line s [] s.serial_line_tsc s.serial_line_real_tsc (omega arith) w.line w))

accumulate-IsEvents :
    (byte real_tsc : ℕ) (s : Events)
    → real_tsc < 2 ^ 64
    → IsEvents s
    → IsEvents (accumulate byte real_tsc s)
unfolding accumulate
accumulate-IsEvents byte real_tsc s b w =
    let fresh = length s.serial_line_buf == 0 in
    let room = ltb (length s.serial_line_buf) serial_line_acc_size in
    let line = if room then s.serial_line_buf ++ (byte ∷ []) else s.serial_line_buf in
    let line_le : length line ≤ serial_line_acc_size =
      if-cases (λ (l : List ℕ). length l ≤ serial_line_acc_size) room
        (λ e. omega (
          arith,
          ltb→lt (length s.serial_line_buf) serial_line_acc_size e,
          length-append {A = ℕ} s.serial_line_buf (byte ∷ []),
        ))
        (λ e. w.line_le) in
    with_line s line (if fresh then s.emulated_tsc else s.serial_line_tsc)
      (if fresh then real_tsc else s.serial_line_real_tsc) line_le
      (stamp 0 (if fresh then s.emulated_tsc else s.serial_line_tsc)
        (if fresh then real_tsc else s.serial_line_real_tsc) (omega arith)
        (if-cases (λ (t : ℕ). t < 2 ^ 64) fresh (λ e. w.now_lt) (λ e. w.line.tsc_lt))
        (if-cases (λ (t : ℕ). t < 2 ^ 64) fresh (λ e. b) (λ e. w.line.real_tsc_lt)))
      w

pub event_serial_byte-IsEvents :
    (byte real_tsc : ℕ) (s : Events)
    → real_tsc < 2 ^ 64
    → IsEvents s
    → IsEvents (event_serial_byte byte real_tsc s).1
unfolding event_serial_byte
event_serial_byte-IsEvents byte real_tsc s b w =
    let P : Bool × Events → Type 0 = λ r. IsEvents r.1 in
    let s' = accumulate byte real_tsc s in
    let v = accumulate-IsEvents byte real_tsc s b w in
    if-cases P (not (event_category_enabled s serial)) (λ e. w)
      (λ e.
        if-cases P (byte == 10 || length s'.serial_line_buf == serial_line_acc_size)
          (λ e. event_flush_serial_line-IsEvents s' v) (λ e. v))

pub event_emit_console-IsEvents :
    (page : List ℕ) (len real_tsc : ℕ) (s : Events)
    → real_tsc < 2 ^ 64
    → IsEvents s
    → IsEvents (event_emit_console page len real_tsc s).1
unfolding event_emit_console
event_emit_console-IsEvents page len real_tsc s b w =
    let n = min len staging_size in
    if-cases (λ (r : Bool × Events). IsEvents r.1) (not (event_category_enabled s serial)) (λ e. w)
      (λ e.
        event_write-IsEvents serial (default_flags serial) s.emulated_tsc real_tsc (take n page) []
          s
          (stamp (default_flags serial) s.emulated_tsc real_tsc (default_flags-lt serial) w.now_lt
            b)
          (omega (arith, length-take {A = ℕ} n page)) w)

pub event_emit_io_channel-IsEvents :
    (is_response : Bool) (target_tsc : ℕ) (bytes : List ℕ) (real_tsc : ℕ) (s : Events)
    → real_tsc < 2 ^ 64
    → IsEvents s
    → IsEvents (event_emit_io_channel is_response target_tsc bytes real_tsc s).1
unfolding event_emit_io_channel
event_emit_io_channel-IsEvents is_response target_tsc bytes real_tsc s b w =
    let n = min (length bytes) staging_size in
    let flags = if is_response then 0 else event_flag_deterministic in
    let head = to_le 1 (if is_response then 1 else 0) ++ (replicate 7 0 ++ to_le 8 target_tsc) in
    if-cases (λ (r : Bool × Events). IsEvents r.1) (not (event_category_enabled s io_channel))
      (λ e. w)
      (λ e.
        event_write-IsEvents io_channel flags s.emulated_tsc real_tsc head (take n bytes) s
          (stamp flags s.emulated_tsc real_tsc
            (if-cases (λ (t : ℕ). t < 2 ^ 16) is_response (λ e. omega arith) (λ e. omega arith))
            w.now_lt b)
          (omega (arith, length-take {A = ℕ} n bytes)) w)
