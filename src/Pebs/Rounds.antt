-- ===== src/Pebs/Rounds.antt =====
-- From one exit of the guest to the next, and the targets on the way.
use bedrock.Base.{
  ℕ, ◌+◌, ◌-◌, ◌^◌, ◌%◌, ◌<◌, ◌≤◌, ◌≡◌, refl, sym, ap, ◌∙◌, Bool, true, false, ◌||◌, none, some,
  if-cases, arith,
}
use mathlib.Core.Option.{some-injective}
use bedrock.Base.Result.{Result, ok, err}
use bedrock.Interrupts.Inject.{ExitError, fatal}
use bedrock.Pebs.{
  PebsAction, PebsState, RunState, current, earliest, targets, next_single_step_start_tsc,
}
use bedrock.Pebs.Entry.{
  should_enable, with_mtf, set_mtf, same, update_mtf_state, is_registered, next_iteration,
  arm_for_next_iteration, in_single_step,
}
use bedrock.Pebs.Counter.{Setup, off, on, arm_for_next_iteration-kept, arm_or_disarm-Setup}
use bedrock.Pebs.Targets.{Among, earliest-least, earliest-Among, near_target-Among, IsAudible}

-- The guest retires `k` instructions and exits. With the flag on it exits after one; else, with the exit
-- armed, where the counter overflows, at most `skid` instructions late; else anywhere.
pub data Ran (skid : ℕ) (s : RunState) (k : ℕ) : Type 0 where
  stepped : s.mtf_enabled ≡ true → k ≤ 1 → Ran skid s k
  counted :
      s.mtf_enabled ≡ false
      → (pebs : PebsState) (action : PebsAction) → s.pebs_state ≡ some pebs
      → pebs.armed_action ≡ some action
      → k + pebs.counter_reload ≤ 2 ^ 48 + skid
      → Ran skid s k
  uncounted :
      s.mtf_enabled ≡ false
      → (pebs : PebsState) → s.pebs_state ≡ some pebs
      → pebs.armed_action ≡ none
      → Ran skid s k
  unregistered : s.mtf_enabled ≡ false → s.pebs_state ≡ none → Ran skid s k

-- What `update_mtf_state` leaves as it is, and the flag.
pub record Updated (m : ℕ) (s s' : RunState) : Type 0 where
  pub flag : s'.mtf_enabled ≡ should_enable m s
  pub same_targets : targets s' ≡ targets s
  pub same_now : current s' ≡ current s
  pub same_pebs : s'.pebs_state ≡ s.pebs_state

same-eq : (a b : Bool) → same a b ≡ true → b ≡ a
unfolding same
same-eq true b h = h
same-eq false true h = absurd (cc)
same-eq false false h = refl

with_mtf-Updated : (m : ℕ) (s : RunState) → Updated m s (with_mtf (should_enable m s) s)
unfolding with_mtf targets current next_single_step_start_tsc
with_mtf-Updated m s = record {
  flag = refl;
  same_targets = refl;
  same_now = refl;
  same_pebs = refl;
}

-- Where the VMCS is accessed without an error, the flag is as it should be.
pub update_mtf_state-Updated :
    (m : ℕ) (s : RunState) → (update_mtf_state m s).0 ≡ ok tt → Updated m s (update_mtf_state m s).1
unfolding update_mtf_state set_mtf
update_mtf_state-Updated m s h =
    if-cases (λ (r : Result ExitError (Unit {0}) × RunState). r.0 ≡ ok tt → Updated m s r.1)
      (same (should_enable m s) s.mtf_enabled)
      (λ y e. record {
        flag = same-eq _ _ y;
        same_targets = refl;
        same_now = refl;
        same_pebs = refl;
      })
      (λ n.
        if-cases (λ (r : Result ExitError (Unit {0}) × RunState). r.0 ≡ ok tt → Updated m s r.1) _
          {x = (ok tt, with_mtf (should_enable m s) s)} {y = (err fatal, s)}
          (λ y e. with_mtf-Updated m s) (λ n e. absurd (cc)))
      h

-- The count of a run whose length the flag, or else the counter, bounds.
run_bounded :
    (m now c k : ℕ) (a : RunState) (pebs : PebsState)
    → now < c
    → (c < now + (257 + m) → a.mtf_enabled ≡ true)
    → a.pebs_state ≡ some pebs
    → Setup m now c pebs
    → Ran m a k
    → now + k ≤ c
run_bounded m now c k a pebs ahead near registered setup (stepped y one) = omega arith
run_bounded m now c k a pebs ahead near registered (off idle close)
      (counted n p action e live run) =
    let flag : a.mtf_enabled ≡ true = near close in absurd (cc)
run_bounded m now c k a pebs ahead near registered (off idle close) (uncounted n p e none_armed) =
    let flag : a.mtf_enabled ≡ true = near close in absurd (cc)
run_bounded m now c k a pebs ahead near registered (off idle close) (unregistered n e) =
    let flag : a.mtf_enabled ≡ true = near close in absurd (cc)
run_bounded m now c k a pebs ahead near registered (on far act armed_act reload)
      (counted n p action e live run) =
    let same_pebs : p ≡ pebs = some-injective p pebs (sym e ∙ registered) in
    let value : p.counter_reload ≡ (2 ^ 64 - (c - now - m)) % 2 ^ 64 % 2 ^ 48 =
      rw same_pebs reload in
    omega (arith, value, run, far)
run_bounded m now c k a pebs ahead near registered (on far act armed_act reload)
      (uncounted n p e none_armed) =
    let same_pebs : p ≡ pebs = some-injective p pebs (sym e ∙ registered) in
    let idle : pebs.armed_action ≡ none = rw⁻¹ same_pebs none_armed in absurd (cc)
run_bounded m now c k a pebs ahead near registered (on far act armed_act reload)
      (unregistered n e) =
    absurd (cc)

stepped_near :
    (m : ℕ) (s : RunState) (pebs : PebsState) (c : ℕ)
    → s.pebs_state ≡ some pebs
    → s.last_instruction_count + s.tsc_offset < 2 ^ 64
    → IsAudible s.machine.vm.apic
    → Among c (targets s)
    → current s < c
    → c - current s < 257 + m
    → should_enable m s ≡ true
unfolding should_enable is_registered
stepped_near m s pebs c registered small audible h ahead near =
    let known : is_registered s ≡ true = rw registered refl in
    rw (near_target-Among m s c small audible h ahead near, known) (or_true (in_single_step s))
  where
    or_true : (b : Bool) → (b || true) ≡ true
    or_true true = refl
    or_true false = refl

-- From one exit of the guest to the next no target is passed, if all of them are ahead, the scratch page is
-- registered, the count fits into 64 bits, the timer is off or lets its interrupt through, and the VMCS is
-- accessed without an error. `update_mtf_state` and `arm_for_next_iteration` follow on the exit; then the
-- guest runs for `k` instructions, one if the flag is on, and else as far as the counter lets it, which is
-- late by the margin at most.
pub never_passed :
    (m : ℕ) (s : RunState) (pebs : PebsState) (k t : ℕ)
    → s.pebs_state ≡ some pebs
    → s.last_instruction_count + s.tsc_offset < 2 ^ 64
    → IsAudible s.machine.vm.apic
    → ((u : ℕ) → Among u (targets s) → current s < u)
    → Among t (targets s)
    → (update_mtf_state m s).0 ≡ ok tt
    → Ran m (arm_for_next_iteration m (update_mtf_state m s).1) k
    → current s + k ≤ t
never_passed m s pebs k t registered small audible ahead target done ran =
    let updated = update_mtf_state-Updated m s done in
    let s' = (update_mtf_state m s).1 in
    let (c, e, le) = earliest-least t (targets s) target in
    let here = earliest-Among (targets s) c e in
    let (flag, counter) = arm_for_next_iteration-kept m s' pebs (updated.same_pebs ∙ registered) in
    let setup =
      arm_or_disarm-Setup m s' (next_iteration pebs) c (ap earliest updated.same_targets ∙ e) in
    let bounded =
      run_bounded m (current s) c k _ _ (ahead c here)
        (λ close.
          flag
          ∙ updated.flag
          ∙ stepped_near m s pebs c registered small audible here (ahead c here) (omega arith))
        counter (rw⁻¹ updated.same_now setup) ran in
    omega (arith, bounded, le)

-- The scratch page of the VM is registered. A target that is already past, such as the deadline of a masked
-- timer, disarms the counter, whatever other targets are ahead: if the flag is off, the guest may run for any
-- number of instructions.
pub overdue_disarms :
    (m : ℕ) (s : RunState) (pebs : PebsState) (t k : ℕ)
    → s.pebs_state ≡ some pebs
    → Among t (targets s)
    → t < current s
    → s.mtf_enabled ≡ false
    → Ran m (arm_for_next_iteration m s) k
overdue_disarms m s pebs t k registered target past no_flag =
    let (c, e, le) = earliest-least t (targets s) target in
    let (flag, counter) = arm_for_next_iteration-kept m s pebs registered in
    elim (arm_or_disarm-Setup m s (next_iteration pebs) c e) [
      | off idle close ↦ uncounted (flag ∙ no_flag) _ counter idle
      | on far action armed_act reload ↦ absurd (omega (arith, far, le, past))
    ]
