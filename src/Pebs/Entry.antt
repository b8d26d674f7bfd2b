-- ===== src/Pebs/Entry.antt =====
-- What is done before each entry of the guest: `update_mtf_state` of exits/mod.rs, which steps the guest one
-- instruction at a time when a target is near, and `arm_for_next_iteration` of exits/pebs.rs.
use bedrock.Base.{
  ℕ, ◌+◌, ◌-◌, ◌^◌, ◌==◌, ◌&&◌, ◌||◌, Bool, true, false, not, Option, none, some, bit_and, bit_or,
  bit_not, u8, u64, ltb, leb, min, if◌then◌else◌,
}
use bedrock.Base.Result.{Result, ok, err}
use bedrock.Interrupts.Inject.{ExitError, fatal, primary_proc_based_vm_exec_controls, stored}
use bedrock.Pebs.{
  PebsState, inject_interrupt, ArmResult, armed, already_past, below_min_delta, not_registered,
  arm_precise_exit, disarm_precise_exit, pebs_min_delta, RunState, current, next_timer_exit_count,
  next_io_channel_exit_count, stop_at_count, next_single_step_start_count, earliest, targets,
}

unfoldable pub in_single_step : RunState → Bool
in_single_step s = elim s.single_step_tsc_range [
  | none ↦ false
  | some range ↦ leb (range.0) (current s) && ltb (current s) (range.1)
]

-- `pebs_margin` is what `get_pebs_margin` answers.
unfoldable pub in_margin : ℕ → RunState → Option ℕ → Bool
in_margin pebs_margin s none = false
in_margin pebs_margin s (some target) =
    leb (target - (pebs_min_delta + pebs_margin)) s.last_instruction_count
    && ltb s.last_instruction_count target

unfoldable pub is_registered : RunState → Bool
is_registered s = elim s.pebs_state [ none ↦ false | some pebs ↦ true ]

unfoldable pub near_target : ℕ → RunState → Bool
near_target pebs_margin s =
    in_margin pebs_margin s (next_timer_exit_count s)
    || (in_margin pebs_margin s (next_io_channel_exit_count s)
        || (in_margin pebs_margin s (stop_at_count s)
            || in_margin pebs_margin s (next_single_step_start_count s)))

unfoldable pub should_enable : ℕ → RunState → Bool
should_enable pebs_margin s = in_single_step s || (is_registered s && near_target pebs_margin s)

abbrev pub monitor_trap_flag : ℕ
monitor_trap_flag = 2 ^ 27

-- The VM with the flag toggled in the VMCS.
unfoldable pub with_mtf : Bool → RunState → RunState
with_mtf enable s =
    let controls = s.machine.vmcs.value primary_proc_based_vm_exec_controls in
    let toggled =
      if enable
      then bit_or controls monitor_trap_flag
      else bit_and controls (bit_not 32 monitor_trap_flag) in
    record s {
      machine = stored primary_proc_based_vm_exec_controls toggled s.machine;
      mtf_enabled = enable;
    }

unfoldable pub set_mtf : Bool → RunState → Result ExitError (Unit {0}) × RunState
set_mtf enable s =
    let vmcs = s.machine.vmcs in
    if vmcs.readable primary_proc_based_vm_exec_controls
      && vmcs.writable primary_proc_based_vm_exec_controls
    then (ok tt, with_mtf enable s)
    else (err fatal, s)

unfoldable pub same : Bool → Bool → Bool
same true b = b
same false b = not b

unfoldable pub update_mtf_state : ℕ → RunState → Result ExitError (Unit {0}) × RunState
update_mtf_state pebs_margin s =
    let enable = should_enable pebs_margin s in
    if same enable s.mtf_enabled then (ok tt, s) else set_mtf enable s

-- The count of a round that begins with an exit still armed.
unfoldable pub next_iteration : PebsState → PebsState
next_iteration pebs = elim pebs.armed_action [
  | none ↦ pebs
  | some action ↦ record pebs { iters_since_arm = min (2 ^ 32 - 1) (pebs.iters_since_arm + 1) }
]

unfoldable pub was_armed : PebsState → Bool
was_armed pebs = elim pebs.armed_action [ none ↦ false | some action ↦ true ]

-- An exit that could not be armed is disarmed, and so is one from before.
unfoldable pub unless_armed : ArmResult × PebsState → ArmResult × PebsState
unless_armed (armed, pebs) = (armed, pebs)
unless_armed (already_past, pebs) = (already_past, disarm_precise_exit pebs)
unless_armed (below_min_delta, pebs) = (below_min_delta, disarm_precise_exit pebs)
unless_armed (not_registered, pebs) = (not_registered, disarm_precise_exit pebs)

-- No result stands for no target.
unfoldable pub arm_or_disarm : ℕ → RunState → PebsState → Option ArmResult × PebsState
arm_or_disarm pebs_margin s pebs =
    let apic_vector = u8 (bit_and s.machine.vm.apic.lvt_timer 255) in
    let chosen : ℕ = elim (earliest (targets s)) [ none ↦ 0 | some t ↦ t ] in
    let result = unless_armed (
      arm_precise_exit pebs_margin pebs (current s) chosen (inject_interrupt apic_vector)
        s.last_instruction_count s.tsc_offset) in
    if chosen == 0 then (none, disarm_precise_exit pebs) else (some (result.0), result.1)

unfoldable pub count_result : Option ArmResult → RunState → RunState
count_result none s = s
count_result (some armed) s = s
count_result (some already_past) s = record s {
  pebs_arm_already_past = u64 (s.pebs_arm_already_past + 1);
}
count_result (some below_min_delta) s = record s {
  pebs_arm_below_min_delta = u64 (s.pebs_arm_below_min_delta + 1);
}
count_result (some not_registered) s = s

unfoldable pub arm_registered : ℕ → RunState → PebsState → RunState
arm_registered pebs_margin s pebs =
    let result = arm_or_disarm pebs_margin s (next_iteration pebs) in
    let iterated = u64 (s.pebs_armed_iter_no_fire + 1) in
    count_result (result.0) (record s {
      pebs_state = some (result.1);
      pebs_armed_iter_no_fire = if was_armed pebs then iterated else s.pebs_armed_iter_no_fire;
    })

unfoldable pub arm_for_next_iteration : ℕ → RunState → RunState
arm_for_next_iteration pebs_margin s = elim s.pebs_state [
  | none ↦ s
  | some pebs ↦ arm_registered pebs_margin s pebs
]
