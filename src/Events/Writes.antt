-- ===== src/Events/Writes.antt =====
-- The writer against the reader: every call of `event_write` keeps the buffer a list of whole records.
use bedrock.Base.{
  ℕ, ◌+◌, ◌-◌, ◌^◌, ◌<◌, ◌≤◌, ◌≡◌, sym, ap, ◌∙◌, Bool, not, some, List, [], ◌∷◌, ◌++◌, length,
  arith, length-append, length-take, take, min, ltb, ltb-false→le, if-cases, some-cases,
}
use bedrock.Events.{
  Events, EventKind, exit, serial, inject, randomness, io_channel, diagnostic, as_u16, new_header,
  event_buffer_size, event_header_size, staging_size, serial_line_acc_size, align_up, push_record,
  stage, event_write, event_category_enabled,
}
use bedrock.Events.Reader.{EventRecord}
use bedrock.Events.Record.{IsRecord, bytes_of, align_up_8}
use bedrock.Events.Stream.{stream, IsRecords, stream-append, IsRecords-append, length-bytes_of}

-- The record that a write makes.
abbrev pub record_of : EventKind → ℕ → ℕ → ℕ → List ℕ → Events → EventRecord
record_of kind flags tsc real_tsc payload s = record {
  header = new_header kind flags tsc real_tsc (length payload) s;
  payload = payload;
}

-- The flags and the two times of a record fit their fields.
pub record IsStamp (flags tsc real_tsc : ℕ) : Type 0 where
  pub flags_lt : flags < 2 ^ 16
  pub tsc_lt : tsc < 2 ^ 64
  pub real_tsc_lt : real_tsc < 2 ^ 64

-- The buffer holds whole records and no more than 1 MB, the staged record can be written.
pub record IsEvents (s : Events) : Type 0 where
  pub records : List EventRecord
  pub are_records : IsRecords records
  pub buffer_eq : s.buffer ≡ stream records
  pub buffer_le : length s.buffer ≤ event_buffer_size
  pub seq_lt : s.event_seq < 2 ^ 64
  pub now_lt : s.emulated_tsc < 2 ^ 64
  pub staged_le : length s.pending_buf ≤ staging_size
  pub staged : IsStamp s.pending_flags s.pending_tsc s.pending_real_tsc
  pub line_le : length s.serial_line_buf ≤ serial_line_acc_size
  pub line : IsStamp 0 s.serial_line_tsc s.serial_line_real_tsc

as_u16-lt : (kind : EventKind) → as_u16 kind < 2 ^ 16
unfolding as_u16
as_u16-lt exit = omega arith
as_u16-lt serial = omega arith
as_u16-lt inject = omega arith
as_u16-lt randomness = omega arith
as_u16-lt io_channel = omega arith
as_u16-lt diagnostic = omega arith

pub record_of-IsRecord :
    (kind : EventKind) (flags tsc real_tsc : ℕ) (payload : List ℕ) (s : Events)
    → IsStamp flags tsc real_tsc
    → s.event_seq < 2 ^ 64
    → length payload < 2 ^ 32
    → IsRecord (record_of kind flags tsc real_tsc payload s)
unfolding new_header
record_of-IsRecord kind flags tsc real_tsc payload s v q small = record {
  fields = record {
    seq_lt = q;
    tsc_lt = v.tsc_lt;
    real_tsc_lt = v.real_tsc_lt;
    kind_lt = as_u16-lt kind;
    flags_lt = v.flags_lt;
    len_lt = omega arith;
  };
  len_eq = omega arith;
}

-- A record with this payload has room in the buffer.
abbrev pub HasRoom : ℕ → Events → Type 0
HasRoom len s = length s.buffer + (event_header_size + align_up len 8) ≤ event_buffer_size

pub push_record-records :
    (kind : EventKind) (flags tsc real_tsc : ℕ) (payload : List ℕ) (s : Events)
    → IsStamp flags tsc real_tsc
    → length payload < 2 ^ 60
    → HasRoom (length payload) s
    → (w : IsEvents s)
    → ((push_record kind flags tsc real_tsc payload s).buffer
        ≡ stream (w.records ++ (record_of kind flags tsc real_tsc payload s ∷ [])))
      × IsRecords (w.records ++ (record_of kind flags tsc real_tsc payload s ∷ []))
      × (length (push_record kind flags tsc real_tsc payload s).buffer ≤ event_buffer_size)
unfolding push_record
push_record-records kind flags tsc real_tsc payload s v small room w =
    let r = record_of kind flags tsc real_tsc payload s in
    let is_r : IsRecord r =
      record_of-IsRecord kind flags tsc real_tsc payload s v w.seq_lt
        (omega (arith, align_up_8 (length payload) small)) in
    (
      ap (λ (t : List ℕ). t ++ bytes_of r) w.buffer_eq ∙ sym (stream-append w.records r),
      IsRecords-append w.records r w.are_records is_r,
      omega (
        arith,
        length-append {A = ℕ} s.buffer (bytes_of r),
        length-bytes_of r is_r,
        align_up_8 (length payload) small,
      ),
    )

pub push_record-IsEvents :
    (kind : EventKind) (flags tsc real_tsc : ℕ) (payload : List ℕ) (s : Events)
    → IsStamp flags tsc real_tsc
    → length payload < 2 ^ 60
    → HasRoom (length payload) s
    → IsEvents s
    → IsEvents (push_record kind flags tsc real_tsc payload s)
unfolding push_record
push_record-IsEvents kind flags tsc real_tsc payload s v small room w =
    let (buffer, all, bound) =
      push_record-records kind flags tsc real_tsc payload s v small room w in
    record {
      records = w.records ++ (record_of kind flags tsc real_tsc payload s ∷ []);
      are_records = all;
      buffer_eq = buffer;
      buffer_le = bound;
      seq_lt = omega arith;
      now_lt = w.now_lt;
      staged_le = w.staged_le;
      staged = w.staged;
      line_le = w.line_le;
      line = w.line;
    }

-- The state with the record staged.
abbrev pub stage_as : EventKind → ℕ → ℕ → ℕ → List ℕ → List ℕ → Events → Events
stage_as kind flags tsc real_tsc head tail s =
    let n = min (length head) staging_size in
    record s {
      pending = some kind;
      pending_buf = take n head ++ take (min (length tail) (staging_size - n)) tail;
      pending_flags = flags;
      pending_tsc = tsc;
      pending_real_tsc = real_tsc;
    }

pub stage-IsEvents :
    (kind : EventKind) (flags tsc real_tsc : ℕ) (head tail : List ℕ) (s : Events)
    → IsStamp flags tsc real_tsc
    → IsEvents s
    → IsEvents (stage kind flags tsc real_tsc head tail s)
unfolding stage
stage-IsEvents kind flags tsc real_tsc head tail s v w =
    let n = min (length head) staging_size in
    let m = min (length tail) (staging_size - n) in
    let s' = stage_as kind flags tsc real_tsc head tail s in
    some-cases IsEvents s.pending s' (λ (earlier : EventKind). s)
      (λ e. record {
        records = w.records;
        are_records = w.are_records;
        buffer_eq = w.buffer_eq;
        buffer_le = w.buffer_le;
        seq_lt = w.seq_lt;
        now_lt = w.now_lt;
        staged_le = omega (
          arith,
          length-append {A = ℕ} (take n head) (take m tail),
          length-take {A = ℕ} n head,
          length-take {A = ℕ} m tail,
        );
        staged = v;
        line_le = w.line_le;
        line = w.line;
      })
      (λ a e. w)

-- Every branch of `event_write`.
pub event_write-IsEvents :
    (kind : EventKind) (flags tsc real_tsc : ℕ) (head tail : List ℕ) (s : Events)
    → IsStamp flags tsc real_tsc
    → length head + length tail < 2 ^ 60
    → IsEvents s
    → IsEvents (event_write kind flags tsc real_tsc head tail s).1
unfolding event_write
event_write-IsEvents kind flags tsc real_tsc head tail s v small w =
    let P : Bool × Events → Type 0 = λ r. IsEvents r.1 in
    let size = length-append {A = ℕ} head tail in
    let need = event_header_size + align_up (length head + length tail) 8 in
    if-cases P (not (event_category_enabled s kind)) (λ e. w)
      (λ e.
        if-cases P (not s.attached) (λ e. w)
          (λ e.
            if-cases P (ltb event_buffer_size (length s.buffer + need))
              (λ e. stage-IsEvents kind flags tsc real_tsc head tail s v w)
              (λ e.
                push_record-IsEvents kind flags tsc real_tsc (head ++ tail) s v
                  (omega (arith, size))
                  (rw size (ltb-false→le event_buffer_size (length s.buffer + need) e)) w)))
