-- ===== src/Events/Overflow.antt =====
-- What the reader sees of a write that fits, and of one that overflows and is written after the drain.
use bedrock.Base.{
  ℕ, ◌+◌, ◌-◌, ◌^◌, ◌<◌, ◌≤◌, ◌≡◌, refl, sym, ap, ◌∙◌, true, false, Option, none, some, List, [],
  ◌∷◌, ◌++◌, length, arith, length-append, length-take, take, take-copies, min,
}
use mathlib.Core.List.{append-nil}
use mathlib.Core.Path.{subst}
use bedrock.Events.{
  Events, EventKind, ExitLoc, in_buffer, in_pending, exit, serial, inject, randomness, io_channel,
  diagnostic, event_buffer_size, event_header_size, staging_size, align_up, push_record,
  event_write, event_category_enabled, event_clear, event_buffer_full, new_header, relocate,
}
use bedrock.Events.Reader.{EventRecord, event_stream}
use bedrock.Events.Record.{align_up_8}
use bedrock.Events.Stream.{stream, stream_nil, IsRecords, is_nil, event_stream-stream}
use bedrock.Events.Branches.{event_write_room, event_write_full, stage-none}
use bedrock.Events.Writes.{
  IsEvents, IsStamp, HasRoom, record_of, push_record-records, stage_as, stage-IsEvents,
}

event_stream-records :
    (buf : List ℕ) (rs : List EventRecord)
    → buf ≡ stream rs
    → IsRecords rs
    → length buf ≤ event_buffer_size
    → event_stream buf ≡ rs
event_stream-records buf rs e v bound =
    ap event_stream e ∙ event_stream-stream rs v (omega (arith, ap length e))

pub event_stream-push_record :
    (kind : EventKind) (flags tsc real_tsc : ℕ) (payload : List ℕ) (s : Events)
    → IsStamp flags tsc real_tsc
    → length payload < 2 ^ 60
    → HasRoom (length payload) s
    → IsEvents s
    → event_stream (push_record kind flags tsc real_tsc payload s).buffer
      ≡ event_stream s.buffer ++ (record_of kind flags tsc real_tsc payload s ∷ [])
event_stream-push_record kind flags tsc real_tsc payload s v small room w =
    let r = record_of kind flags tsc real_tsc payload s in
    let (buffer, all, bound) =
      push_record-records kind flags tsc real_tsc payload s v small room w in
    event_stream-records (push_record kind flags tsc real_tsc payload s).buffer
      (w.records ++ (r ∷ [])) buffer all bound
    ∙ ap (λ (t : List EventRecord). t ++ (r ∷ []))
        (sym (event_stream-records s.buffer w.records w.buffer_eq w.are_records w.buffer_le))

-- A record of an enabled kind that has room in the attached buffer is what the reader gives last, behind
-- the records from before; the flags and times fit their fields and the payload is below 2^60 bytes.
pub event_stream-event_write :
    (kind : EventKind) (flags tsc real_tsc : ℕ) (head tail : List ℕ) (s : Events)
    → IsStamp flags tsc real_tsc
    → length head + length tail < 2 ^ 60
    → IsEvents s
    → event_category_enabled s kind ≡ true
    → s.attached ≡ true
    → HasRoom (length head + length tail) s
    → ((event_write kind flags tsc real_tsc head tail s).0 ≡ true)
      × (event_stream (event_write kind flags tsc real_tsc head tail s).1.buffer
          ≡ event_stream s.buffer ++ (record_of kind flags tsc real_tsc (head ++ tail) s ∷ []))
event_stream-event_write kind flags tsc real_tsc head tail s v small w on here room =
    let e = event_write_room kind flags tsc real_tsc head tail s on here room in
    let size = length-append {A = ℕ} head tail in
    (
      ap (λ r. r.0) e,
      ap (λ r. event_stream r.1.buffer) e
          ∙ event_stream-push_record kind flags tsc real_tsc (head ++ tail) s v
              (omega (arith, size)) (rw size room) w,
    )

relocate-same :
    (kind : EventKind) (len : ℕ) (loc : Option ExitLoc) (s : Events)
    → ((relocate kind len loc s).buffer ≡ s.buffer)
      × ((relocate kind len loc s).pending ≡ s.pending)
unfolding relocate
relocate-same kind len none s = (refl, refl)
relocate-same kind len (some (in_buffer off)) s = (refl, refl)
relocate-same exit len (some in_pending) s = (refl, refl)
relocate-same serial len (some in_pending) s = (refl, refl)
relocate-same inject len (some in_pending) s = (refl, refl)
relocate-same randomness len (some in_pending) s = (refl, refl)
relocate-same io_channel len (some in_pending) s = (refl, refl)
relocate-same diagnostic len (some in_pending) s = (refl, refl)

-- The payload that is staged.
abbrev staged_payload : List ℕ → List ℕ → List ℕ
staged_payload head tail =
    let n = min (length head) staging_size in
    take n head ++ take (min (length tail) (staging_size - n)) tail

length-staged_payload : (head tail : List ℕ) → length (staged_payload head tail) ≤ staging_size
length-staged_payload head tail =
    let n = min (length head) staging_size in
    let m = min (length tail) (staging_size - n) in
    omega (
      arith,
      length-append {A = ℕ} (take n head) (take m tail),
      length-take {A = ℕ} n head,
      length-take {A = ℕ} m tail,
    )

-- The state in which `event_clear` writes the staged record.
abbrev pub emptied : Events → Events
emptied s = record s { buffer = []; pending = none }

pub emptied-IsEvents : (s : Events) → IsEvents s → IsEvents (emptied s)
emptied-IsEvents s w = record {
  records = [];
  are_records = is_nil;
  buffer_eq = stream_nil;
  buffer_le = omega arith;
  seq_lt = w.seq_lt;
  now_lt = w.now_lt;
  staged_le = w.staged_le;
  staged = w.staged;
  line_le = w.line_le;
  line = w.line;
}

event_clear-stage_as :
    (kind : EventKind) (flags tsc real_tsc : ℕ) (head tail : List ℕ) (s : Events)
    → event_category_enabled s kind ≡ true
    → s.attached ≡ true
    → ((event_clear (stage_as kind flags tsc real_tsc head tail s)).buffer
        ≡ (push_record kind flags tsc real_tsc
            (staged_payload head tail ++ [])
            (emptied (stage_as kind flags tsc real_tsc head tail s))).buffer)
      × (event_buffer_full (event_clear (stage_as kind flags tsc real_tsc head tail s)) ≡ false)
unfolding event_clear event_category_enabled event_buffer_full push_record
event_clear-stage_as kind flags tsc real_tsc head tail s on here =
    let p = staged_payload head tail in
    let s' = emptied (stage_as kind flags tsc real_tsc head tail s) in
    let bound = length-staged_payload head tail in
    let written =
      event_write_room kind flags tsc real_tsc p [] s' on here
        (omega (arith, align_up_8 (length p + 0) (omega arith))) in
    let (same_buffer, same_pending) =
      relocate-same kind (length p) s.pending_exit_loc
        (event_write kind flags tsc real_tsc p [] s').1 in
    (
      same_buffer ∙ ap (λ r. r.1.buffer) written,
      ap (λ t. elim t [ none ↦ false | some k ↦ true ])
          (same_pending ∙ ap (λ r. r.1.pending) written),
    )

-- A record of an enabled kind that overflows the attached buffer, none being staged, leaves the reader's
-- records as they are and returns false; after the drain the reader gives that record alone, its payload
-- cut to 4096 bytes, and no record is staged. The flags and times fit their fields and the payload is
-- below 2^60 bytes.
pub event_clear-event_write :
    (kind : EventKind) (flags tsc real_tsc : ℕ) (head tail : List ℕ) (s : Events)
    → IsStamp flags tsc real_tsc
    → IsEvents s
    → event_category_enabled s kind ≡ true
    → s.attached ≡ true
    → s.pending ≡ none
    → event_buffer_size
      < length s.buffer + (event_header_size + align_up (length head + length tail) 8)
    → let (fit, s') = event_write kind flags tsc real_tsc head tail s in
      (fit ≡ false)
      × (s'.buffer ≡ s.buffer)
      × (event_stream (event_clear s').buffer
          ≡ record_of kind flags tsc real_tsc (take staging_size (head ++ tail)) s ∷ [])
      × (event_buffer_full (event_clear s') ≡ false)
unfolding new_header
event_clear-event_write kind flags tsc real_tsc head tail s v w on here idle full =
    let p = staged_payload head tail in
    let bound = length-staged_payload head tail in
    let s1 = stage_as kind flags tsc real_tsc head tail s in
    let e = event_write_full kind flags tsc real_tsc head tail s on here full in
    let staged = ap (λ r. r.1) e ∙ stage-none kind flags tsc real_tsc head tail s idle in
    let (buffer, not_full) = event_clear-stage_as kind flags tsc real_tsc head tail s on here in
    let w1 : IsEvents (emptied s1) = emptied-IsEvents s1 (
      subst IsEvents (stage-none kind flags tsc real_tsc head tail s idle)
        (stage-IsEvents kind flags tsc real_tsc head tail s v w)) in
    (
      ap (λ r. r.0) e,
      ap (λ t. t.buffer) staged,
      ap (λ t. event_stream (event_clear t).buffer) staged
          ∙ ap event_stream buffer
          ∙ ap
              (λ (t : List ℕ).
                event_stream (push_record kind flags tsc real_tsc t (emptied s1)).buffer)
              (append-nil p)
          ∙ event_stream-push_record kind flags tsc real_tsc p (emptied s1) v (omega arith)
              (omega (arith, align_up_8 (length p) (omega arith))) w1
          ∙ ap
              (λ (t : List EventRecord).
                t ++ (record_of kind flags tsc real_tsc p (emptied s1) ∷ []))
              (event_stream-records [] [] stream_nil is_nil (omega arith))
          ∙ ap (λ (t : List ℕ). record_of kind flags tsc real_tsc t s ∷ [])
              (take-copies staging_size head tail),
      ap (λ t. event_buffer_full (event_clear t)) staged ∙ not_full,
    )
