-- ===== src/Events/Capture.antt =====
-- An exit record is emitted with no memory hash, which is written into it afterwards.
use bedrock.Base.{
  ℕ, ◌+◌, ◌-◌, ◌<◌, ◌≤◌, ◌≡◌, refl, sym, ap, ◌∙◌, inl, inr, Bool, true, false, not, ◌||◌, none,
  some, List, [], ◌++◌, length, arith, length-append, replicate, take_all, take-copies, ltb,
  ltb-false→le, ltb→lt, if-cases, if◌then◌else◌, Bool-cases,
}
use mathlib.Core.List.{append-nil, append_assoc}
use bedrock.Events.{
  Events, EventKind, in_buffer, in_pending, exit, new_header, header_bytes, record_bytes,
  event_buffer_size, event_header_size, staging_size, align_up, push_record, event_write,
  event_flag_deterministic, event_category_enabled, emit_exit_event, finalize_exit_memory_hash,
  patch_exit, cow_page_count_offset,
}
use bedrock.Events.Record.{length-header_bytes}
use bedrock.Events.Writes.{HasRoom, stage_as}
use bedrock.Events.Branches.{
  event_write_room, event_write_full, event_write_off, stage-none, stage-some,
}
use bedrock.Events.Patch.{length-patch_exit, patch_exit-append}

abbrev pub exit_flags : Bool → ℕ
exit_flags deterministic = if deterministic then event_flag_deterministic else 0

-- The reference: the record is written at once, with its hash and its count of pages.
abbrev pub write_finished : List ℕ → Bool → ℕ → ℕ → ℕ → Events → Events
write_finished payload deterministic real_tsc memory_hash cow_page_count s =
    record (event_write exit (exit_flags deterministic) s.emulated_tsc real_tsc
      (patch_exit memory_hash cow_page_count 0 payload) [] s).1 { pending_exit_loc = none }

-- The bytes of a record, patched where its payload begins.
patch-record_bytes :
    (h c flags tsc real_tsc : ℕ) (payload : List ℕ) (s : Events)
    → cow_page_count_offset + 4 ≤ length payload
    → patch_exit h c
        (length s.buffer + event_header_size)
        (push_record exit flags tsc real_tsc payload s).buffer
      ≡ (push_record exit flags tsc real_tsc (patch_exit h c 0 payload) s).buffer
unfolding push_record record_bytes new_header
patch-record_bytes h c flags tsc real_tsc payload s enough =
    let head = header_bytes (new_header exit flags tsc real_tsc (length payload) s) in
    let pad : List ℕ = replicate (align_up (length payload) 8 - length payload) 0 in
    let regroup : s.buffer ++ (head ++ (payload ++ pad)) ≡ (s.buffer ++ head) ++ (payload ++ pad) =
      sym (append_assoc s.buffer head (payload ++ pad)) in
    let off : length s.buffer + event_header_size ≡ length (s.buffer ++ head) = omega (
      arith,
      length-append {A = ℕ} s.buffer head,
      length-header_bytes (new_header exit flags tsc real_tsc (length payload) s),
    ) in
    rw (length-patch_exit h c 0 payload) (
      ap (λ (t : List ℕ). patch_exit h c (length s.buffer + event_header_size) t) regroup
      ∙ ap (λ (t : ℕ). patch_exit h c t ((s.buffer ++ head) ++ (payload ++ pad))) off
      ∙ patch_exit-append h c (s.buffer ++ head) payload pad enough
      ∙ append_assoc s.buffer head (patch_exit h c 0 payload ++ pad))

-- What `emit_exit_event` does when the record is wanted.
pub emitted :
    (payload : List ℕ) (deterministic : Bool) (real_tsc : ℕ) (s : Events)
    → event_category_enabled s exit ≡ true
    → s.attached ≡ true
    → let w =
        event_write exit
          (exit_flags deterministic)
          s.emulated_tsc
          real_tsc
          payload
          []
          (record s { pending_exit_loc = none }) in
      emit_exit_event payload deterministic real_tsc s ≡ record w.1 {
        pending_exit_loc =
            some (if w.0 then in_buffer (length s.buffer + event_header_size) else in_pending);
      }
unfolding emit_exit_event
emitted payload deterministic real_tsc s on here =
    let w =
      event_write exit (exit_flags deterministic) s.emulated_tsc real_tsc payload []
        (record s { pending_exit_loc = none }) in
    let X : Events = record w.1 {
      pending_exit_loc =
          some (if w.0 then in_buffer (length s.buffer + event_header_size) else in_pending);
    } in
    if-cases (λ t. t ≡ X) (not s.attached || not (event_category_enabled s exit))
      (λ e. absurd (ground (arith, e, on, here))) (λ e. refl)

-- And when it is not.
pub not_emitted :
    (payload : List ℕ) (deterministic : Bool) (real_tsc : ℕ) (s : Events)
    → (not s.attached || not (event_category_enabled s exit)) ≡ true
    → emit_exit_event payload deterministic real_tsc s ≡ record s { pending_exit_loc = none }
unfolding emit_exit_event
not_emitted payload deterministic real_tsc s off = rw off refl

-- The state with the place of the record noted.
abbrev locate : ℕ → Bool × Events → Events
locate off r = record r.1 { pending_exit_loc = some (if r.0 then in_buffer off else in_pending) }

abbrev forget_loc : Events → Events
forget_loc s = record s { pending_exit_loc = none }

finalize-in_buffer :
    (payload : List ℕ) (flags real_tsc h c : ℕ) (s : Events)
    → cow_page_count_offset + 4 ≤ length payload
    → s.attached ≡ true
    → finalize_exit_memory_hash h c (
        locate
          (length s.buffer + event_header_size)
          (true, push_record exit flags s.emulated_tsc real_tsc payload (forget_loc s)))
      ≡ forget_loc (push_record exit flags s.emulated_tsc real_tsc (patch_exit h c 0 payload) s)
unfolding finalize_exit_memory_hash push_record new_header
finalize-in_buffer payload flags real_tsc h c s enough here =
    let t = push_record exit flags s.emulated_tsc real_tsc payload (forget_loc s) in
    if-cases
      (λ u.
        u
        ≡ forget_loc (push_record exit flags s.emulated_tsc real_tsc (patch_exit h c 0 payload) s))
      s.attached
      (λ e.
        ap (λ (b : List ℕ). record (forget_loc t) { buffer = b })
          (patch-record_bytes h c flags s.emulated_tsc real_tsc payload (forget_loc s) enough))
      (λ e. absurd (ground (arith, e, here)))

finalize-in_pending :
    (payload : List ℕ) (flags real_tsc h c : ℕ) (s : Events)
    → length payload ≤ staging_size
    → finalize_exit_memory_hash h c (
        locate
          (length s.buffer + event_header_size)
          (false, stage_as exit flags s.emulated_tsc real_tsc payload [] (forget_loc s)))
      ≡ forget_loc (stage_as exit flags s.emulated_tsc real_tsc (patch_exit h c 0 payload) [] s)
unfolding finalize_exit_memory_hash
finalize-in_pending payload flags real_tsc h c s small =
    let t = stage_as exit flags s.emulated_tsc real_tsc payload [] (forget_loc s) in
    let p' = patch_exit h c 0 payload in
    let whole = λ (q : List ℕ) (small : length q ≤ staging_size).
      take-copies staging_size q []
      ∙ take_all staging_size (q ++ []) (omega (arith, length-append {A = ℕ} q []))
      ∙ append-nil q in
    ap (λ (b : List ℕ). record (forget_loc t) { pending_buf = b })
      (ap (patch_exit h c 0) (whole payload small)
        ∙ sym (whole p' (omega (arith, length-patch_exit h c 0 payload))))

-- The record is wanted and fits, or it is wanted and staged.
pub finalize-emit_room :
    (payload : List ℕ) (deterministic : Bool) (real_tsc h c : ℕ) (s : Events)
    → cow_page_count_offset + 4 ≤ length payload
    → event_category_enabled s exit ≡ true
    → s.attached ≡ true
    → HasRoom (length payload + 0) s
    → finalize_exit_memory_hash h c (emit_exit_event payload deterministic real_tsc s)
      ≡ write_finished payload deterministic real_tsc h c s
unfolding event_category_enabled
finalize-emit_room payload deterministic real_tsc h c s enough on here room =
    let flags = exit_flags deterministic in
    let p' = patch_exit h c 0 payload in
    let off = length s.buffer + event_header_size in
    let pushed = λ (t : Events) (q : List ℕ). push_record exit flags s.emulated_tsc real_tsc q t in
    let written =
      event_write_room exit flags s.emulated_tsc real_tsc payload [] (forget_loc s) on here room in
    let finished =
      event_write_room exit flags s.emulated_tsc real_tsc p' [] s on here
        (rw (length-patch_exit h c 0 payload) room) in
    ap (finalize_exit_memory_hash h c) (
      emitted payload deterministic real_tsc s on here
      ∙ ap (locate off) written
      ∙ ap (λ q. locate off (true, pushed (forget_loc s) q)) (append-nil payload))
    ∙ finalize-in_buffer payload flags real_tsc h c s enough here
    ∙ ap (λ q. forget_loc (pushed s q)) (sym (append-nil p'))
    ∙ ap (λ (r : Bool × Events). forget_loc r.1) (sym finished)

finalize-emit_full :
    (payload : List ℕ) (deterministic : Bool) (real_tsc h c : ℕ) (s : Events)
    → length payload ≤ staging_size
    → s.pending ≡ none
    → event_category_enabled s exit ≡ true
    → s.attached ≡ true
    → event_buffer_size < length s.buffer + (event_header_size + align_up (length payload + 0) 8)
    → finalize_exit_memory_hash h c (emit_exit_event payload deterministic real_tsc s)
      ≡ write_finished payload deterministic real_tsc h c s
unfolding event_category_enabled
finalize-emit_full payload deterministic real_tsc h c s small idle on here full =
    let flags = exit_flags deterministic in
    let p' = patch_exit h c 0 payload in
    let off = length s.buffer + event_header_size in
    let written =
      event_write_full exit flags s.emulated_tsc real_tsc payload [] (forget_loc s) on here full in
    let finished =
      event_write_full exit flags s.emulated_tsc real_tsc p' [] s on here
        (rw (length-patch_exit h c 0 payload) full) in
    ap (finalize_exit_memory_hash h c) (
      emitted payload deterministic real_tsc s on here
      ∙ ap (locate off) written
      ∙ ap (λ t. locate off (false, t))
          (stage-none exit flags s.emulated_tsc real_tsc payload [] (forget_loc s) idle))
    ∙ finalize-in_pending payload flags real_tsc h c s small
    ∙ ap forget_loc (sym (stage-none exit flags s.emulated_tsc real_tsc p' [] s idle))
    ∙ ap (λ (r : Bool × Events). forget_loc r.1) (sym finished)

pub finalize-emit_off :
    (payload : List ℕ) (deterministic : Bool) (real_tsc h c : ℕ) (s : Events)
    → (not s.attached || not (event_category_enabled s exit)) ≡ true
    → finalize_exit_memory_hash h c (emit_exit_event payload deterministic real_tsc s)
      ≡ write_finished payload deterministic real_tsc h c s
unfolding finalize_exit_memory_hash
finalize-emit_off payload deterministic real_tsc h c s off =
    ap (finalize_exit_memory_hash h c) (not_emitted payload deterministic real_tsc s off)
    ∙ ap (λ (r : Bool × Events). forget_loc r.1)
        (sym (
          event_write_off exit (exit_flags deterministic) s.emulated_tsc real_tsc
            (patch_exit h c 0 payload) [] s off))

pub wanted : (a b : Bool) → (not a || not b) ≡ false → (a ≡ true) × (b ≡ true)
wanted a b h = (ground (arith, h), ground (arith, h))

-- Emitting an exit record and writing its hash and page count afterwards leaves the state that writing
-- the finished record at once leaves, in every branch: the record is not wanted, it fits, or it is
-- staged, none being staged before. Its payload has the two fields and fits the staging buffer.
pub finalize-emit :
    (payload : List ℕ) (deterministic : Bool) (real_tsc h c : ℕ) (s : Events)
    → cow_page_count_offset + 4 ≤ length payload
    → length payload ≤ staging_size
    → s.pending ≡ none
    → finalize_exit_memory_hash h c (emit_exit_event payload deterministic real_tsc s)
      ≡ write_finished payload deterministic real_tsc h c s
finalize-emit payload deterministic real_tsc h c s enough small idle =
    elim (Bool-cases (not s.attached || not (event_category_enabled s exit))) [
      | inl off ↦ finalize-emit_off payload deterministic real_tsc h c s off
      | inr e ↦
          let (here, on) = wanted s.attached (event_category_enabled s exit) e in
          let need = event_header_size + align_up (length payload + 0) 8 in
          elim (Bool-cases (ltb event_buffer_size (length s.buffer + need))) [
            | inl full ↦
                finalize-emit_full payload deterministic real_tsc h c s small idle on here
                  (ltb→lt event_buffer_size (length s.buffer + need) full)
            | inr room ↦
                finalize-emit_room payload deterministic real_tsc h c s enough on here
                  (ltb-false→le event_buffer_size (length s.buffer + need) room)
          ]
    ]

-- An exit record that overflows while a record is staged already is dropped, and its hash and page count
-- are written into the bytes of the record that is staged; nothing else changes but the noted place.
pub finalize-emit_staged :
    (payload : List ℕ) (deterministic : Bool) (real_tsc h c : ℕ) (s : Events) (earlier : EventKind)
    → s.pending ≡ some earlier
    → event_category_enabled s exit ≡ true
    → s.attached ≡ true
    → event_buffer_size < length s.buffer + (event_header_size + align_up (length payload + 0) 8)
    → finalize_exit_memory_hash h c (emit_exit_event payload deterministic real_tsc s)
      ≡ record s { pending_exit_loc = none; pending_buf = patch_exit h c 0 s.pending_buf }
unfolding event_category_enabled finalize_exit_memory_hash
finalize-emit_staged payload deterministic real_tsc h c s earlier busy on here full =
    let flags = exit_flags deterministic in
    let off = length s.buffer + event_header_size in
    let written =
      event_write_full exit flags s.emulated_tsc real_tsc payload [] (forget_loc s) on here full in
    ap (finalize_exit_memory_hash h c) (
      emitted payload deterministic real_tsc s on here
      ∙ ap (locate off) written
      ∙ ap (λ t. locate off (false, t))
          (stage-some exit flags s.emulated_tsc real_tsc payload [] (forget_loc s) earlier busy))
