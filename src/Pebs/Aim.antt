-- ===== src/Pebs/Aim.antt =====
-- What a run of the guest leaves as it is: all that the targets are made from, but for the count.
use bedrock.Base.{
  ℕ, dec_lt, ◌+◌, ◌^◌, ◌<◌, ◌≤◌, ◌≡◌, refl, sym, ap, ◌∙◌, true, Option, none, some, [], ◌∷◌, ltb,
  if◌then◌else◌, if-cases, some-cases, lt→ltb, ltb-false, arith,
}
use mathlib.Core.Option.{some-injective}
use bedrock.Base.Result.{Result, ok, err}
use bedrock.Interrupts.{VmState}
use bedrock.Idle.{next_io_channel_target_tsc}
use bedrock.Interrupts.Inject.{ExitError, fatal}
use bedrock.Pebs.{
  PebsState, ArmResult, armed, already_past, below_min_delta, not_registered, RunState, current,
  earliest, nonzero, targets, next_single_step_start_tsc,
}
use bedrock.Pebs.Entry.{
  should_enable, same, with_mtf, set_mtf, update_mtf_state, count_result, arm_registered,
  arm_for_next_iteration,
}
use bedrock.Pebs.Targets.{Among, here, later, earliest-least}
use bedrock.Pebs.Counter.{arm_for_next_iteration-kept}
use bedrock.Pebs.Rounds.{update_mtf_state-Updated}

-- The VM after the entry that follows an exit, and `k` instructions. The handler of the exit is one that
-- changes no target; `check_apic_timer` and `check_io_channel`, which come before the counter is set up, find
-- nothing due while the targets are ahead.
unfoldable pub after_run : ℕ → ℕ → RunState → RunState
after_run m k s =
    let entered = arm_for_next_iteration m (update_mtf_state m s).1 in
    record entered { last_instruction_count = entered.last_instruction_count + k }

-- What the targets are made from, but for the count.
abbrev view : RunState → VmState × Option ℕ × Option (ℕ × ℕ) × ℕ
view s = (s.machine.vm, s.stop_at_tsc, s.single_step_tsc_range, s.tsc_offset)

-- The VM is as it was, for the targets.
record Alike (s s' : RunState) : Type 0 where
  same_view : view s' ≡ view s
  same_count : s'.last_instruction_count ≡ s.last_instruction_count

count_result-Alike : (r : Option ArmResult) (s : RunState) → Alike s (count_result r s)
unfolding count_result
count_result-Alike none s = record { same_view = refl; same_count = refl }
count_result-Alike (some armed) s = record { same_view = refl; same_count = refl }
count_result-Alike (some already_past) s = record { same_view = refl; same_count = refl }
count_result-Alike (some below_min_delta) s = record { same_view = refl; same_count = refl }
count_result-Alike (some not_registered) s = record { same_view = refl; same_count = refl }

arm_for_next_iteration-Alike : (m : ℕ) (s : RunState) → Alike s (arm_for_next_iteration m s)
unfolding arm_for_next_iteration arm_registered
arm_for_next_iteration-Alike m s =
    some-cases (Alike s) s.pebs_state s _ (λ n. record { same_view = refl; same_count = refl })
      (λ pebs e.
        let kept = count_result-Alike _ _ in
        record { same_view = kept.same_view; same_count = kept.same_count })

update_mtf_state-Alike : (m : ℕ) (s : RunState) → Alike s (update_mtf_state m s).1
unfolding update_mtf_state set_mtf with_mtf
update_mtf_state-Alike m s =
    if-cases (λ (r : Result ExitError (Unit {0}) × RunState). Alike s r.1)
      (same (should_enable m s) s.mtf_enabled) (λ y. record { same_view = refl; same_count = refl })
      (λ n.
        if-cases (λ (r : Result ExitError (Unit {0}) × RunState). Alike s r.1) _
          {x = (ok tt, with_mtf (should_enable m s) s)} {y = (err fatal, s)}
          (λ y. record { same_view = refl; same_count = refl })
          (λ n. record { same_view = refl; same_count = refl }))

-- A run adds to the count.
pub after_run-view :
    (m k : ℕ) (s : RunState)
    → (view (after_run m k s) ≡ view s)
      × ((after_run m k s).last_instruction_count ≡ s.last_instruction_count + k)
unfolding after_run
after_run-view m k s =
    let up = update_mtf_state-Alike m s in
    let entered = arm_for_next_iteration-Alike m (update_mtf_state m s).1 in
    (entered.same_view ∙ up.same_view, ap (λ c. c + k) (entered.same_count ∙ up.same_count))

pub after_run-registered :
    (m k : ℕ) (s : RunState) (pebs : PebsState)
    → s.pebs_state ≡ some pebs
    → (update_mtf_state m s).0 ≡ ok tt
    → (p : PebsState) × ((after_run m k s).pebs_state ≡ some p)
unfolding after_run
after_run-registered m k s pebs e done =
    let updated = update_mtf_state-Updated m s done in
    (_, (arm_for_next_iteration-kept m (update_mtf_state m s).1 pebs (updated.same_pebs ∙ e)).1)

start_of : ℕ → Option (ℕ × ℕ) → Option ℕ
start_of now none = none
start_of now (some range) = if ltb now (range.0) then some (range.0) else none

start_of-lem :
    (s : RunState) → next_single_step_start_tsc s ≡ start_of (current s) s.single_step_tsc_range
unfolding next_single_step_start_tsc start_of
start_of-lem s =
    some-cases (λ o. o ≡ start_of (current s) s.single_step_tsc_range) s.single_step_tsc_range none
      _ (λ n. rw n refl) (λ r e. rw e refl)

start_of-later :
    (now now' : ℕ) (range : Option (ℕ × ℕ))
    → now ≤ now'
    → ((c : ℕ) → start_of now range ≡ some c → now' < c)
    → start_of now' range ≡ start_of now range
unfolding start_of
start_of-later now now' none le short = refl
start_of-later now now' (some (start, end)) le short = elim (dec_lt now start) [
  | yes l ↦
      let now_ahead : ltb now start ≡ true = lt→ltb now start l in
      let ahead : now' < start = short start (rw now_ahead refl) in
      rw (now_ahead, lt→ltb now' start ahead) refl
  | no l ↦ rw (ltb-false now start (omega arith), ltb-false now' start (omega arith)) refl
]

pub current-after_run :
    (m k : ℕ) (s : RunState)
    → s.last_instruction_count + s.tsc_offset + k < 2 ^ 64
    → current (after_run m k s) ≡ current s + k
unfolding current
current-after_run m k s small =
    let (same, count) = after_run-view m k s in
    let offset : (after_run m k s).tsc_offset ≡ s.tsc_offset = ap (λ v. v.3) same in
    omega (arith, count, offset, small)

single_step-after_run :
    (m k : ℕ) (s : RunState)
    → s.last_instruction_count + s.tsc_offset + k < 2 ^ 64
    → ((c : ℕ) → next_single_step_start_tsc s ≡ some c → current s + k < c)
    → next_single_step_start_tsc (after_run m k s) ≡ next_single_step_start_tsc s
single_step-after_run m k s small short =
    let range : (after_run m k s).single_step_tsc_range ≡ s.single_step_tsc_range =
      ap (λ v. v.2) ((after_run-view m k s).0) in
    let later_start =
      start_of-later (current s) (current s + k) s.single_step_tsc_range (omega arith)
        (λ c e. short c (start_of-lem s ∙ e)) in
    start_of-lem (after_run m k s)
    ∙ ap (λ now. start_of now (after_run m k s).single_step_tsc_range)
        (current-after_run m k s small)
    ∙ ap (start_of (current s + k)) range
    ∙ later_start
    ∙ sym (start_of-lem s)

targets-same :
    (s s' : RunState)
    → s'.machine.vm ≡ s.machine.vm
    → s'.stop_at_tsc ≡ s.stop_at_tsc
    → next_single_step_start_tsc s' ≡ next_single_step_start_tsc s
    → targets s' ≡ targets s
unfolding targets
targets-same s s' vm stop start =
    ap
      (λ v.
        nonzero v.apic.timer_deadline
        ∷ next_io_channel_target_tsc v
        ∷ s'.stop_at_tsc
        ∷ next_single_step_start_tsc s'
        ∷ [])
      vm
    ∙ ap
        (λ o.
          nonzero s.machine.vm.apic.timer_deadline
          ∷ next_io_channel_target_tsc s.machine.vm
          ∷ o
          ∷ next_single_step_start_tsc s'
          ∷ [])
        stop
    ∙ ap
        (λ o.
          nonzero s.machine.vm.apic.timer_deadline
          ∷ next_io_channel_target_tsc s.machine.vm
          ∷ s.stop_at_tsc
          ∷ o
          ∷ [])
        start

last_of_four : (u : ℕ) (a b c d : Option ℕ) → d ≡ some u → Among u (a ∷ b ∷ c ∷ d ∷ [])
last_of_four u a b c d e = later a _ (later b _ (later c _ (rw e (here []))))

single_step-Among :
    (s : RunState) (u : ℕ) → next_single_step_start_tsc s ≡ some u → Among u (targets s)
unfolding targets
single_step-Among s u e = last_of_four u _ _ _ _ e

-- Until the earliest target, a run makes no difference to what is aimed at.
pub targets-after_run :
    (m k c : ℕ) (s : RunState)
    → s.last_instruction_count + s.tsc_offset + k < 2 ^ 64
    → earliest (targets s) ≡ some c
    → current s + k < c
    → targets (after_run m k s) ≡ targets s
targets-after_run m k c s small e short =
    let (same, count) = after_run-view m k s in
    targets-same s (after_run m k s) (ap (λ v. v.0) same) (ap (λ v. v.1) same) (
      single_step-after_run m k s small (λ u e'.
        let (b, eq, le) = earliest-least u (targets s) (single_step-Among s u e') in
        let first : b ≡ c = some-injective b c (sym eq ∙ e) in omega (arith, le, first, short)))
