-- ===== src/Events/Branches.antt =====
-- The branches of the writer, each under its conditions.
use bedrock.Base.{
  ℕ, ◌+◌, ◌<◌, ◌≡◌, refl, Bool, true, false, not, ◌||◌, none, some, List, ◌++◌, length, arith, ltb,
  ltb-false, lt→ltb, if-cases, some-cases,
}
use bedrock.Events.{
  Events, EventKind, event_buffer_size, event_header_size, align_up, push_record, stage,
  event_write, event_category_enabled,
}
use bedrock.Events.Writes.{HasRoom, stage_as}

pub event_write_room :
    (kind : EventKind) (flags tsc real_tsc : ℕ) (head tail : List ℕ) (s : Events)
    → event_category_enabled s kind ≡ true
    → s.attached ≡ true
    → HasRoom (length head + length tail) s
    → event_write kind flags tsc real_tsc head tail s
      ≡ (true, push_record kind flags tsc real_tsc (head ++ tail) s)
unfolding event_write
event_write_room kind flags tsc real_tsc head tail s on here room =
    let need = event_header_size + align_up (length head + length tail) 8 in
    let P : Bool × Events → Type 0 =
      λ r. r ≡ (true, push_record kind flags tsc real_tsc (head ++ tail) s) in
    if-cases P (not (event_category_enabled s kind)) (λ e. absurd (ground (arith, e, on)))
      (λ e.
        if-cases P (not s.attached) (λ e. absurd (ground (arith, e, here)))
          (λ e.
            if-cases P (ltb event_buffer_size (length s.buffer + need))
              (λ e.
                absurd
                  (ground (arith, e, ltb-false event_buffer_size (length s.buffer + need) room)))
              (λ e. refl)))

pub event_write_off :
    (kind : EventKind) (flags tsc real_tsc : ℕ) (head tail : List ℕ) (s : Events)
    → (not s.attached || not (event_category_enabled s kind)) ≡ true
    → event_write kind flags tsc real_tsc head tail s ≡ (true, s)
unfolding event_write
event_write_off kind flags tsc real_tsc head tail s off =
    let P : Bool × Events → Type 0 = λ r. r ≡ (true, s) in
    if-cases P (not (event_category_enabled s kind)) (λ e. refl)
      (λ e. if-cases P (not s.attached) (λ e'. refl) (λ e'. absurd (ground (arith, e, e', off))))

pub event_write_full :
    (kind : EventKind) (flags tsc real_tsc : ℕ) (head tail : List ℕ) (s : Events)
    → event_category_enabled s kind ≡ true
    → s.attached ≡ true
    → event_buffer_size
      < length s.buffer + (event_header_size + align_up (length head + length tail) 8)
    → event_write kind flags tsc real_tsc head tail s
      ≡ (false, stage kind flags tsc real_tsc head tail s)
unfolding event_write
event_write_full kind flags tsc real_tsc head tail s on here full =
    let need = event_header_size + align_up (length head + length tail) 8 in
    let P : Bool × Events → Type 0 = λ r. r ≡ (false, stage kind flags tsc real_tsc head tail s) in
    if-cases P (not (event_category_enabled s kind)) (λ e. absurd (ground (arith, e, on)))
      (λ e.
        if-cases P (not s.attached) (λ e. absurd (ground (arith, e, here)))
          (λ e.
            if-cases P (ltb event_buffer_size (length s.buffer + need)) (λ e. refl)
              (λ e.
                absurd
                  (ground (arith, e, lt→ltb event_buffer_size (length s.buffer + need) full)))))

pub stage-none :
    (kind : EventKind) (flags tsc real_tsc : ℕ) (head tail : List ℕ) (s : Events)
    → s.pending ≡ none
    → stage kind flags tsc real_tsc head tail s ≡ stage_as kind flags tsc real_tsc head tail s
unfolding stage
stage-none kind flags tsc real_tsc head tail s e =
    let s' = stage_as kind flags tsc real_tsc head tail s in
    some-cases (λ t. t ≡ s') s.pending s' (λ (earlier : EventKind). s) (λ e'. refl)
      (λ a e'. absurd (ground (arith, e, e')))

pub stage-some :
    (kind : EventKind) (flags tsc real_tsc : ℕ) (head tail : List ℕ) (s : Events)
    (earlier : EventKind)
    → s.pending ≡ some earlier
    → stage kind flags tsc real_tsc head tail s ≡ s
unfolding stage
stage-some kind flags tsc real_tsc head tail s earlier e =
    let s' = stage_as kind flags tsc real_tsc head tail s in
    some-cases (λ t. t ≡ s) s.pending s' (λ (k : EventKind). s)
      (λ e'. absurd (ground (arith, e, e'))) (λ a e'. refl)
