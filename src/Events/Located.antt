-- ===== src/Events/Located.antt =====
-- Where the exit record stands that is yet to be finished: behind whole records and before others.
use bedrock.Base.{
  ℕ, ◌+◌, ◌-◌, ◌^◌, ◌<◌, ◌≤◌, ◌≡◌, refl, sym, ap, ◌∙◌, Bool, not, ◌||◌, none, some, List, [], ◌∷◌,
  ◌++◌, length, arith, ◌==◌, length-append, replicate, ltb, ltb-false→le, Bool-cases, inl, inr,
  ltb→lt, if-cases, some-cases, if◌then◌else◌,
}
use mathlib.Core.List.{append-nil, append_assoc}
use bedrock.Events.{
  Events, EventKind, in_buffer, in_pending, exit, serial, default_flags, staging_size, event_write,
  stage, push_record, event_append_at, event_category_enabled, event_flush_serial_line,
  event_header_size, event_buffer_size, align_up, header_bytes, record_bytes, emit_exit_event,
  finalize_exit_memory_hash, patch_exit, cow_page_count_offset,
}
use bedrock.Events.Reader.{EventRecord}
use bedrock.Events.Record.{IsRecord, bytes_of, align_up_8, length-header_bytes}
use bedrock.Events.Stream.{stream, IsRecords, is_nil, is_cons, stream-append, IsRecords-append}
use bedrock.Events.Writes.{IsEvents, IsStamp, record_of, record_of-IsRecord, event_write-IsEvents}
use bedrock.Events.Patch.{length-patch_exit, patch_exit-append}
use bedrock.Events.Capture.{exit_flags, emitted, not_emitted, wanted}
use bedrock.Events.Branches.{event_write_room, event_write_full}
use mathlib.Core.Path.{subst}
use bedrock.Events.Preserve.{with_fields, with_line, stamp, default_flags-lt}

pub data IsLocated (s : Events) : Type 0 where
  nowhere : s.pending_exit_loc ≡ none → IsLocated s
  staged : s.pending_exit_loc ≡ some in_pending → IsLocated s
  placed :
      (pre post : List EventRecord) (r : EventRecord)
      → IsRecords pre
      → IsRecord r
      → IsRecords post
      → s.buffer ≡ stream pre ++ (bytes_of r ++ stream post)
      → s.pending_exit_loc ≡ some (in_buffer (length (stream pre) + event_header_size))
      → cow_page_count_offset + 4 ≤ length r.payload
      → IsLocated s

-- The same place in a longer buffer.
push-IsLocated :
    (s t : Events) (q : EventRecord)
    → IsRecord q
    → t.buffer ≡ s.buffer ++ bytes_of q
    → t.pending_exit_loc ≡ s.pending_exit_loc
    → IsLocated s
    → IsLocated t
push-IsLocated s t q v e same (nowhere h) = nowhere (same ∙ h)
push-IsLocated s t q v e same (staged h) = staged (same ∙ h)
push-IsLocated s t q v e same (placed pre post r a b c buffer loc enough) =
    placed pre (post ++ (q ∷ [])) r a b (IsRecords-append post q c v)
      (e
        ∙ ap (λ (l : List ℕ). l ++ bytes_of q) buffer
        ∙ append_assoc (stream pre) (bytes_of r ++ stream post) (bytes_of q)
        ∙ ap (λ (l : List ℕ). stream pre ++ l)
            (append_assoc (bytes_of r) (stream post) (bytes_of q))
        ∙ ap (λ (l : List ℕ). stream pre ++ (bytes_of r ++ l)) (sym (stream-append post q)))
      (same ∙ loc) enough

-- The same buffer and place.
same-IsLocated :
    (s t : Events)
    → t.buffer ≡ s.buffer
    → t.pending_exit_loc ≡ s.pending_exit_loc
    → IsLocated s
    → IsLocated t
same-IsLocated s t e same (nowhere h) = nowhere (same ∙ h)
same-IsLocated s t e same (staged h) = staged (same ∙ h)
same-IsLocated s t e same (placed pre post r a b c buffer loc enough) =
    placed pre post r a b c (e ∙ buffer) (same ∙ loc) enough

event_write-IsLocated :
    (kind : EventKind) (flags tsc real_tsc : ℕ) (head tail : List ℕ) (s : Events)
    → IsStamp flags tsc real_tsc
    → length head + length tail < 2 ^ 60
    → IsEvents s
    → IsLocated s
    → IsLocated (event_write kind flags tsc real_tsc head tail s).1
unfolding event_write stage push_record
event_write-IsLocated kind flags tsc real_tsc head tail s v small w i =
    let P : Bool × Events → Type 0 = λ r. IsLocated r.1 in
    let need = event_header_size + align_up (length head + length tail) 8 in
    if-cases P (not (event_category_enabled s kind)) (λ e. i)
      (λ e.
        if-cases P (not s.attached) (λ e. i)
          (λ e.
            if-cases P (ltb event_buffer_size (length s.buffer + need))
              (λ e.
                some-cases IsLocated s.pending _ (λ (earlier : EventKind). s)
                  (λ n. same-IsLocated s _ refl refl i) (λ a e. i))
              (λ e.
                push-IsLocated s _ (record_of kind flags tsc real_tsc (head ++ tail) s)
                  (record_of-IsRecord kind flags tsc real_tsc (head ++ tail) s v w.seq_lt (
                    omega (
                      arith,
                      length-append {A = ℕ} head tail,
                      ltb-false→le event_buffer_size (length s.buffer + need) e,
                      align_up_8 (length head + length tail) small,
                    )))
                  refl refl i)))

pushed_behind :
    (buffer : List ℕ) (rs : List EventRecord) (r : EventRecord)
    → buffer ≡ stream rs
    → buffer ++ bytes_of r ≡ stream rs ++ (bytes_of r ++ stream [])
unfolding stream
pushed_behind buffer rs r e =
    ap (λ (l : List ℕ). l ++ bytes_of r) e
    ∙ ap (λ (l : List ℕ). stream rs ++ l) (sym (append-nil (bytes_of r)))

-- An exit record that is emitted, in whichever branch.
pub emit_exit_event-IsLocated :
    (payload : List ℕ) (deterministic : Bool) (real_tsc : ℕ) (s : Events)
    → cow_page_count_offset + 4 ≤ length payload
    → length payload ≤ staging_size
    → real_tsc < 2 ^ 64
    → IsEvents s
    → IsEvents (emit_exit_event payload deterministic real_tsc s)
      × IsLocated (emit_exit_event payload deterministic real_tsc s)
unfolding event_category_enabled push_record stage
emit_exit_event-IsLocated payload deterministic real_tsc s enough small b w =
    let P : Events → Type 0 = λ t. IsEvents t × IsLocated t in
    let flags = exit_flags deterministic in
    let cleared : Events = record s { pending_exit_loc = none } in
    let stamped =
      stamp flags s.emulated_tsc real_tsc
        (if-cases (λ (x : ℕ). x < 2 ^ 16) deterministic (λ e. omega arith) (λ e. omega arith))
        w.now_lt b in
    let v = with_fields s s.attached s.categories s.pending none s.pending_buf w.staged_le w in
    let written = event_write exit flags s.emulated_tsc real_tsc payload [] cleared in
    let u : IsEvents written.1 =
      event_write-IsEvents exit flags s.emulated_tsc real_tsc payload [] cleared stamped
        (omega arith) v in
    elim (Bool-cases (not s.attached || not (event_category_enabled s exit))) [
      | inl off ↦ subst P (sym (not_emitted payload deterministic real_tsc s off)) (v, nowhere refl)
      | inr e ↦
          let (here, on) = wanted s.attached (event_category_enabled s exit) e in
          let need = event_header_size + align_up (length payload + 0) 8 in
          let off = length s.buffer + event_header_size in
          let Q : Bool × Events → Type 0 = λ t.
            IsLocated (record t.1 {
              pending_exit_loc = some (if t.0 then in_buffer off else in_pending);
            }) in
          let r = record_of exit flags s.emulated_tsc real_tsc (payload ++ []) cleared in
          let size = length-append {A = ℕ} payload [] in
          subst P (sym (emitted payload deterministic real_tsc s on here)) (
            with_fields written.1 written.1.attached written.1.categories written.1.pending
                (some (if written.0 then in_buffer off else in_pending)) written.1.pending_buf
                u.staged_le u,
            elim (Bool-cases (ltb event_buffer_size (length s.buffer + need))) [
              | inl full ↦
                  subst Q
                    (sym (
                      event_write_full exit flags s.emulated_tsc real_tsc payload [] cleared on here
                        (ltb→lt event_buffer_size (length s.buffer + need) full)))
                    (staged refl)
              | inr room ↦
                  subst Q
                    (sym (
                      event_write_room exit flags s.emulated_tsc real_tsc payload [] cleared on here
                        (ltb-false→le event_buffer_size (length s.buffer + need) room)))
                    (placed w.records [] r w.are_records
                      (record_of-IsRecord exit flags s.emulated_tsc real_tsc (payload ++ []) cleared
                        stamped w.seq_lt (omega (arith, size, small)))
                      is_nil (pushed_behind s.buffer w.records r w.buffer_eq)
                      (ap (λ (b : List ℕ). some (in_buffer (length b + event_header_size)))
                        w.buffer_eq)
                      (omega (arith, size, enough)))
            ],
          )
    ]

-- A step that writes behind what is there, if at all.
pub event_flush_serial_line-IsLocated :
    (s : Events) → IsEvents s → IsLocated s → IsLocated (event_flush_serial_line s).1
unfolding event_flush_serial_line event_append_at
event_flush_serial_line-IsLocated s w i =
    let cut : Events = record s { serial_line_buf = [] } in
    if-cases (λ (r : Bool × Events). IsLocated r.1) (length s.serial_line_buf == 0) (λ e. i)
      (λ e.
        event_write-IsLocated serial (default_flags serial) s.serial_line_tsc s.serial_line_real_tsc
          s.serial_line_buf [] cut
          (stamp (default_flags serial) s.serial_line_tsc s.serial_line_real_tsc
            (default_flags-lt serial) w.line.tsc_lt w.line.real_tsc_lt)
          (omega (arith, w.line_le))
          (with_line s [] s.serial_line_tsc s.serial_line_real_tsc (omega arith) w.line w)
          (same-IsLocated s cut refl refl i))

-- The record with its hash and its count of pages.
abbrev finished : ℕ → ℕ → EventRecord → EventRecord
finished h c r = record r { payload = patch_exit h c 0 r.payload }

patch-stream :
    (h c : ℕ) (pre post : List ℕ) (r : EventRecord)
    → cow_page_count_offset + 4 ≤ length r.payload
    → patch_exit h c (length pre + event_header_size) (pre ++ (bytes_of r ++ post))
      ≡ pre ++ (bytes_of (finished h c r) ++ post)
unfolding record_bytes
patch-stream h c pre post r enough =
    let head = header_bytes r.header in
    let pad : List ℕ = replicate (align_up (length r.payload) 8 - length r.payload) 0 in
    let behind : (payload : List ℕ)
        → pre ++ ((head ++ (payload ++ pad)) ++ post)
          ≡ (pre ++ head) ++ (payload ++ (pad ++ post)) =
      λ payload.
        ap (λ (l : List ℕ). pre ++ l)
          (append_assoc head (payload ++ pad) post
            ∙ ap (λ (l : List ℕ). head ++ l) (append_assoc payload pad post))
        ∙ sym (append_assoc pre head (payload ++ (pad ++ post))) in
    let off : length pre + event_header_size ≡ length (pre ++ head) =
      omega (arith, length-append {A = ℕ} pre head, length-header_bytes r.header) in
    rw (length-patch_exit h c 0 r.payload) (
      ap (patch_exit h c (length pre + event_header_size)) (behind r.payload)
      ∙ ap (λ (t : ℕ). patch_exit h c t ((pre ++ head) ++ (r.payload ++ (pad ++ post)))) off
      ∙ patch_exit-append h c (pre ++ head) r.payload (pad ++ post) enough
      ∙ sym (behind (patch_exit h c 0 r.payload)))

stream-split :
    (pre post : List EventRecord) (r : EventRecord)
    → stream (pre ++ (r ∷ post)) ≡ stream pre ++ (bytes_of r ++ stream post)
unfolding stream
stream-split [] post r = refl
stream-split (q ∷ pre) post r =
    ap (λ (l : List ℕ). bytes_of q ++ l) (stream-split pre post r)
    ∙ sym (append_assoc (bytes_of q) (stream pre) (bytes_of r ++ stream post))

IsRecords-join :
    (pre post : List EventRecord) (r : EventRecord)
    → IsRecords pre
    → IsRecord r
    → IsRecords post
    → IsRecords (pre ++ (r ∷ post))
IsRecords-join [] post r a b c = is_cons b c
IsRecords-join (q ∷ pre) post r (is_cons u a) b c = is_cons u (IsRecords-join pre post r a b c)

-- The buffer with the record finished.
patched-IsEvents :
    (h c : ℕ) (s : Events) (pre post : List EventRecord) (r : EventRecord)
    → IsEvents s
    → IsRecords pre
    → IsRecord r
    → IsRecords post
    → s.buffer ≡ stream pre ++ (bytes_of r ++ stream post)
    → cow_page_count_offset + 4 ≤ length r.payload
    → IsEvents (record s {
      buffer = patch_exit h c (length (stream pre) + event_header_size) s.buffer;
      pending_exit_loc = none;
    })
patched-IsEvents h c s pre post r w a b d buffer enough = record {
  records = pre ++ (finished h c r ∷ post);
  are_records =
      IsRecords-join pre post (finished h c r) a
        (record { fields = b.fields; len_eq = b.len_eq ∙ sym (length-patch_exit h c 0 r.payload) })
        d;
  buffer_eq =
      ap (patch_exit h c (length (stream pre) + event_header_size)) buffer
      ∙ patch-stream h c (stream pre) (stream post) r enough
      ∙ sym (stream-split pre post (finished h c r));
  buffer_le = omega (
    arith,
    w.buffer_le,
    length-patch_exit h c (length (stream pre) + event_header_size) s.buffer,
  );
  seq_lt = w.seq_lt;
  now_lt = w.now_lt;
  staged_le = w.staged_le;
  staged = w.staged;
  line_le = w.line_le;
  line = w.line;
}

-- The record is finished where it stands.
pub finalize_exit_memory_hash-IsEvents :
    (h c : ℕ) (s : Events) → IsEvents s → IsLocated s → IsEvents (finalize_exit_memory_hash h c s)
unfolding finalize_exit_memory_hash
finalize_exit_memory_hash-IsEvents h c s w (nowhere e) =
    rw (finalize_exit_memory_hash, e)
      (with_fields s s.attached s.categories s.pending none s.pending_buf w.staged_le w)
finalize_exit_memory_hash-IsEvents h c s w (staged e) =
    rw (finalize_exit_memory_hash, e)
      (with_fields s s.attached s.categories s.pending none (patch_exit h c 0 s.pending_buf)
        (omega (arith, w.staged_le, length-patch_exit h c 0 s.pending_buf)) w)
finalize_exit_memory_hash-IsEvents h c s w (placed pre post r a b d buffer loc enough) =
    rw (finalize_exit_memory_hash, loc)
      (if-cases IsEvents s.attached (λ y. patched-IsEvents h c s pre post r w a b d buffer enough)
        (λ n. with_fields s s.attached s.categories s.pending none s.pending_buf w.staged_le w))
