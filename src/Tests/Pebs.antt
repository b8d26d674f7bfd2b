-- ===== src/Tests/Pebs.antt =====
-- Exits at a precise instruction, by a guest whose timer is due after 99100 instructions, on a Sapphire Rapids.
use bedrock.Base.{
  ℕ, ◌+◌, ◌≤◌, ◌<◌, ◌≡◌, refl, sym, ap, ◌∙◌, true, false, Option, none, some, [], inl, inr, arith,
}
use mathlib.Core.Option.{some-injective}
use bedrock.Base.Result.{ok}
use bedrock.Apic.{default_apic}
use bedrock.IoApic.{default_ioapic}
use bedrock.IoChannel.{new}
use bedrock.Interrupts.{check_apic_timer, set_vector}
use bedrock.Interrupts.Inject.{Machine}
use bedrock.Pebs.{
  inject_interrupt, PebsState, RunState, current, targets, margin_for_host_cpu, host_family_model,
  nonzero, earliest, next_single_step_start_tsc, next_timer_exit_count, next_io_channel_exit_count,
  stop_at_count, next_single_step_start_count, arm, arm_precise_exit,
}
use bedrock.Idle.{next_io_channel_target_tsc, nearer}
use bedrock.Pebs.Entry.{
  update_mtf_state, arm_for_next_iteration, should_enable, in_single_step, is_registered,
  near_target, in_margin, same, arm_registered, arm_or_disarm, next_iteration, was_armed,
  unless_armed, count_result,
}
use bedrock.Pebs.Targets.{Among, here, targets-cases, IsAudible}
use bedrock.Pebs.Rounds.{Ran, counted, never_passed, overdue_disarms}
use bedrock.Pebs.Boundary.{note_mtf_exit, timer_on_time}

abbrev machine : ℕ → Machine
machine deadline = record {
  vm = record {
    emulated_tsc = 900;
    apic = record default_apic { svr = 511; lvt_timer = 236; timer_deadline = deadline };
    ioapic = default_ioapic;
    io_channel = new;
    apic_timer_late_inject = 0;
    emitted = [];
  };
  vmcs = record { value = λ f. 0; readable = λ f. true; writable = λ f. true };
  last_exit_deterministic = true;
}

abbrev pebs : PebsState
pebs = record {
  ds_management_gpa = 4096;
  pebs_buffer_gpa = 4096;
  ds_area_va = 18446612682070003712;
  armed_action = none;
  armed_target_tsc = 0;
  armed_inst_count = 0;
  armed_tsc_offset = 0;
  iters_since_arm = 0;
  counter_reload = 0;
  fixed_ctr_ctrl = 3;
  pebs_enable = 4294967296;
  pebs_data_cfg = 0;
  host_msrs = record {
    host_pebs_enable = 0;
    host_ds_area = 0;
    host_fixed_ctr_ctrl = 0;
    host_fixed_ctr0 = 0;
    host_pebs_data_cfg = 0;
  };
  logged_first_arm = false;
}

abbrev guest : ℕ → RunState
guest deadline = record {
  machine = machine deadline;
  last_instruction_count = 800;
  tsc_offset = 100;
  stop_at_tsc = some 200000;
  single_step_tsc_range = none;
  mtf_enabled = false;
  pebs_state = some pebs;
  pebs_armed_iter_no_fire = 0;
  pebs_arm_already_past = 0;
  pebs_arm_below_min_delta = 0;
}

sapphire_rapids : margin_for_host_cpu 526072 ≡ 3
unfolding margin_for_host_cpu host_family_model
sapphire_rapids = refl

no_request : next_io_channel_target_tsc (guest 100000).machine.vm ≡ none
unfolding next_io_channel_target_tsc new
no_request = refl

guest_ahead : (u : ℕ) → Among u (targets (guest 100000)) → current (guest 100000) < u
unfolding current nonzero next_single_step_start_tsc
guest_ahead u h = elim (targets-cases (guest 100000) u h) [
  | inl e ↦ let due : 100000 ≡ u = some-injective 100000 u e in omega (arith, due)
  | inr k ↦ elim k [
    | inl e ↦ absurd (none_some u (sym no_request ∙ e))
    | inr l ↦ elim l [
      | inl e ↦ let due : 200000 ≡ u = some-injective 200000 u e in omega (arith, due)
      | inr e ↦ absurd (none_some u e)
    ]
  ]
]
  where
    none_some : (u : ℕ) → ¬ (◌≡◌ {A = Option ℕ} none (some u))
    none_some u e = absurd (cc)

no_step_yet : update_mtf_state 3 (guest 100000) ≡ (ok tt, guest 100000)
unfolding update_mtf_state should_enable in_single_step is_registered near_target in_margin
    next_timer_exit_count next_io_channel_exit_count next_io_channel_target_tsc new stop_at_count
    next_single_step_start_count next_single_step_start_tsc same current
no_step_yet = refl

guest_armed :
    ((arm_for_next_iteration 3 (guest 100000)).mtf_enabled ≡ false)
    × ((arm_for_next_iteration 3 (guest 100000)).pebs_state
        ≡ some (arm 3 pebs 900 100000 (inject_interrupt 236) 800 100))
unfolding arm_for_next_iteration arm_registered arm_or_disarm next_iteration was_armed
    arm_precise_exit unless_armed count_result targets earliest nonzero nearer
    next_io_channel_target_tsc new next_single_step_start_tsc current
guest_armed = (refl, refl)

-- 99097 below 2^48.
guest_reload :
    ((arm 3 pebs 900 100000 (inject_interrupt 236) 800 100).armed_action
      ≡ some (inject_interrupt 236))
    × ((arm 3 pebs 900 100000 (inject_interrupt 236) 800 100).counter_reload ≡ 281474976611559)
unfolding arm
guest_reload = (refl, refl)

-- One instruction late.
guest-Ran : Ran 3 (arm_for_next_iteration 3 (update_mtf_state 3 (guest 100000)).1) 99098
guest-Ran = rw (ap (λ r. r.1) no_step_yet) (
    counted (guest_armed.0) _ (inject_interrupt 236) (guest_armed.1) (guest_reload.0)
      (omega (arith, guest_reload.1)))

guest_target : Among 100000 (targets (guest 100000))
unfolding targets nonzero
guest_target = here _

never_passed_example : current (guest 100000) + 99098 ≤ 100000
unfolding IsAudible
never_passed_example =
    never_passed 3 (guest 100000) pebs 99098 100000 refl (omega arith) (inr (refl, refl))
      guest_ahead guest_target (ap (λ r. r.0) no_step_yet) guest-Ran

-- The timer is masked, and its deadline is past: the stop at 200000 is run over.
abbrev masked : RunState
masked = record (guest 500) {
  machine = record (machine 500) {
    vm = record (machine 500).vm { apic = record (machine 500).vm.apic { lvt_timer = 65772 } };
  };
}

masked_target : Among 500 (targets masked)
unfolding targets nonzero
masked_target = here _

overdue_disarms_example : Ran 3 (arm_for_next_iteration 3 masked) 1000000
unfolding current
overdue_disarms_example =
    overdue_disarms 3 masked pebs 500 1000000 refl masked_target (omega arith) refl

timer_on_time_example :
    ((note_mtf_exit (guest 900)).machine.last_exit_deterministic ≡ true)
    × ((check_apic_timer (note_mtf_exit (guest 900)).machine.vm).apic.irr
        ≡ set_vector default_apic.irr 236)
    × ((check_apic_timer (note_mtf_exit (guest 900)).machine.vm).apic_timer_late_inject ≡ 0)
unfolding current
timer_on_time_example = timer_on_time (guest 900) (omega arith) (omega arith) refl refl refl
