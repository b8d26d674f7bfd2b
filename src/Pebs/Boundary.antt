-- ===== src/Pebs/Boundary.antt =====
-- An exit after a single step: how `handle_exit` of crates/bedrock-vmx/src/exits/mod.rs tells those that lie on
-- a target, and what the timer makes of that.
use bedrock.Base.{
  ℕ, zero, suc, ◌+◌, ◌-◌, ◌^◌, ◌<◌, ◌≡◌, ◌≢◌, ◌==◌, inl, inr, refl, Bool, true, false, ◌||◌, Option,
  none, some, bit_and, u8, ltb, if◌then◌else◌, if-cases, some-cases, eq→==, ==-false, ltb-false,
  arith,
}
use mathlib.Core.Option.{map, some-injective}
use bedrock.Interrupts.{check_apic_timer, fire_timer, set_vector}
use bedrock.Pebs.{
  RunState, current, nonzero, targets, next_timer_exit_count, next_io_channel_exit_count,
  stop_at_count, next_single_step_start_tsc,
}
use bedrock.Pebs.Entry.{in_single_step}
use bedrock.Pebs.Targets.{Among, here, targets-cases, any_of_four, timer-counted, IsAudible}

unfoldable pub on_target : RunState → Option ℕ → Bool
on_target s none = false
on_target s (some target) = s.last_instruction_count == target

-- The exit is deterministic.
unfoldable pub on_boundary : RunState → Bool
on_boundary s =
    on_target s (next_timer_exit_count s)
    || (on_target s (next_io_channel_exit_count s)
        || (on_target s (stop_at_count s) || in_single_step s))

-- What the VM notes of an exit before it is handled.
unfoldable pub note_exit : Bool → RunState → RunState
note_exit deterministic s = record s {
  machine = record s.machine {
    last_exit_deterministic = deterministic;
    vm = record s.machine.vm {
      emulated_tsc = if deterministic then current s else s.machine.vm.emulated_tsc;
    };
  };
}

unfoldable pub note_mtf_exit : RunState → RunState
note_mtf_exit s = note_exit (on_boundary s) s

on_target-at :
    (s : RunState) (o : Option ℕ) (c : ℕ)
    → s.last_instruction_count + s.tsc_offset < 2 ^ 64
    → current s ≡ c
    → o ≡ some c
    → on_target s (map (λ t. t - s.tsc_offset) o) ≡ true
unfolding on_target current
on_target-at s o c small now e = rw e (eq→== _ _ (omega (arith, now, small)))

-- The range's start is a target only as long as it is ahead.
single_step-ahead : (s : RunState) (c : ℕ) → next_single_step_start_tsc s ≡ some c → current s < c
unfolding next_single_step_start_tsc
single_step-ahead s c h =
    some-cases (λ o. o ≡ some c → current s < c) s.single_step_tsc_range none _ (λ n e. absurd (cc))
      (λ range e.
        if-cases (λ o. o ≡ some c → current s < c) (ltb (current s) (range.0))
          (λ y eq. let same : range.0 ≡ c = some-injective (range.0) c eq in ground (arith, same))
          (λ n eq. absurd (cc)))
      h

on_boundary-Among :
    (s : RunState) (c : ℕ)
    → s.last_instruction_count + s.tsc_offset < 2 ^ 64
    → IsAudible s.machine.vm.apic
    → Among c (targets s)
    → current s ≡ c
    → on_boundary s ≡ true
unfolding targets on_boundary next_io_channel_exit_count stop_at_count
on_boundary-Among s c small audible h now =
    let at : (o : Option ℕ) → o ≡ some c → on_target s (map (λ t. t - s.tsc_offset) o) ≡ true =
      λ o. on_target-at s o c small now in
    any_of_four (on_target s (next_timer_exit_count s)) (on_target s (next_io_channel_exit_count s))
      (on_target s (stop_at_count s)) (in_single_step s)
      (elim (targets-cases s c h) [
        | inl e ↦ inl (rw (timer-counted s c audible e) (at (some c) refl))
        | inr h ↦ inr (elim h [
          | inl e ↦ inl (at _ e)
          | inr h ↦ inr (elim h [
            | inl e ↦ inl (at _ e)
            | inr e ↦ absurd (omega (arith, single_step-ahead s c e, now))
          ])
        ])
      ])

-- An exit after a step that lies on a target is deterministic, and the guest's clock shows the target.
pub note_mtf_exit-Among :
    (s : RunState) (c : ℕ)
    → s.last_instruction_count + s.tsc_offset < 2 ^ 64
    → IsAudible s.machine.vm.apic
    → Among c (targets s)
    → current s ≡ c
    → ((note_mtf_exit s).machine.last_exit_deterministic ≡ true)
      × ((note_mtf_exit s).machine.vm ≡ record s.machine.vm { emulated_tsc = c })
unfolding note_mtf_exit note_exit
note_mtf_exit-Among s c small audible h now =
    rw (on_boundary-Among s c small audible h now, now) (refl, refl)

nonzero-of : (d : ℕ) → d ≢ 0 → nonzero d ≡ some d
unfolding nonzero
nonzero-of zero h = absurd (h refl)
nonzero-of (suc d) h = refl

timer-Among :
    (s : RunState)
    → s.machine.vm.apic.timer_deadline ≢ 0
    → Among s.machine.vm.apic.timer_deadline (targets s)
unfolding targets
timer-Among s nz = rw (nonzero-of _ nz) (here _)

-- The count fits into 64 bits, and a step ends on the deadline of a timer that is on and whose interrupt is
-- let through. The exit is deterministic, and the timer is fired there and then: its vector is requested, and
-- the count of late interrupts stays.
pub timer_on_time :
    (s : RunState)
    → s.last_instruction_count + s.tsc_offset < 2 ^ 64
    → s.machine.vm.apic.timer_deadline ≢ 0
    → (bit_and s.machine.vm.apic.svr (2 ^ 8) == 0) ≡ false
    → (bit_and s.machine.vm.apic.lvt_timer (2 ^ 16) == 0) ≡ true
    → current s ≡ s.machine.vm.apic.timer_deadline
    → ((note_mtf_exit s).machine.last_exit_deterministic ≡ true)
      × ((check_apic_timer (note_mtf_exit s).machine.vm).apic.irr
          ≡ set_vector s.machine.vm.apic.irr (u8 (bit_and s.machine.vm.apic.lvt_timer 255)))
      × ((check_apic_timer (note_mtf_exit s).machine.vm).apic_timer_late_inject
          ≡ s.machine.vm.apic_timer_late_inject)
unfolding check_apic_timer fire_timer IsAudible
timer_on_time s small nz enabled unmasked now =
    let (deterministic, shown) =
      note_mtf_exit-Among s _ small (inr (enabled, unmasked)) (timer-Among s nz) now in
    rw
      (
        shown,
        ==-false _ 0 nz,
        enabled,
        unmasked,
        ltb-false s.machine.vm.apic.timer_deadline s.machine.vm.apic.timer_deadline (omega arith),
      )
      (deterministic, refl, refl)
