-- ===== src/Pebs.antt =====
-- Exits at a precise instruction: crates/bedrock-vmx/src/exits/pebs.rs, where the performance counter is set
-- up to stop the guest, and the functions of exits/mod.rs there that find the next targets and step the
-- guest over the last instructions. The counter's registers are the processor's.
pub mod Entry
pub mod Targets
pub mod Counter
pub mod Rounds
pub mod Boundary
pub mod Aim
pub mod Approach
use bedrock.Base.{
  ℕ, zero, suc, ◌+◌, ◌-◌, ◌*◌, ◌/◌, ◌%◌, ◌^◌, ◌==◌, ◌&&◌, ◌||◌, Bool, true, false, not, Option,
  none, some, List, [], ◌∷◌, bit_and, bit_or, bit_not, shr, shl, u64, ltb, leb, min, if◌then◌else◌,
}
use mathlib.Core.Option.{map}
use bedrock.Base.Result.{Result, ok, err}
use bedrock.Interrupts.{VmState}
use bedrock.Interrupts.Inject.{
  Machine, ExitError, fatal, primary_proc_based_vm_exec_controls, stored,
}
use bedrock.Idle.{next_io_channel_target_tsc, nearer}

pub data PebsAction : Type 0 where
  inject_interrupt : (vector : ℕ) → PebsAction

pub record PebsHostMsrs : Type 0 where
  pub host_pebs_enable : ℕ
  pub host_ds_area : ℕ
  pub host_fixed_ctr_ctrl : ℕ
  pub host_fixed_ctr0 : ℕ
  pub host_pebs_data_cfg : ℕ

pub record PebsState : Type 0 where
  pub ds_management_gpa : ℕ
  pub pebs_buffer_gpa : ℕ
  pub ds_area_va : ℕ
  pub armed_action : Option PebsAction
  pub armed_target_tsc : ℕ
  pub armed_inst_count : ℕ
  pub armed_tsc_offset : ℕ
  pub iters_since_arm : ℕ
  pub counter_reload : ℕ
  pub fixed_ctr_ctrl : ℕ
  pub pebs_enable : ℕ
  pub pebs_data_cfg : ℕ
  pub host_msrs : PebsHostMsrs
  pub logged_first_arm : Bool

abbrev pub pebs_min_delta : ℕ
pebs_min_delta = 257

abbrev pub pmc_counter_mask : ℕ
pmc_counter_mask = 2 ^ 48 - 1

-- `eax` is the processor's answer to CPUID leaf 1.
unfoldable pub host_family_model : ℕ → ℕ × ℕ
host_family_model eax =
    let base_model = bit_and (shr eax 4) 15 in
    let base_family = bit_and (shr eax 8) 15 in
    let ext_model = bit_and (shr eax 16) 15 in
    let ext_family = bit_and (shr eax 20) 255 in
    (
      if base_family == 15 then base_family + ext_family else base_family,
      if base_family == 6 || base_family == 15
          then bit_or (shl 32 ext_model 4) base_model
          else base_model,
    )

unfoldable pub margin_for_host_cpu : ℕ → ℕ
margin_for_host_cpu eax =
    let (family, model) = host_family_model eax in if family == 6 && model == 143 then 3 else 8

pub data ArmResult : Type 0 where
  armed already_past below_min_delta not_registered : ArmResult

-- The state when the exit is armed.
unfoldable pub arm : ℕ → PebsState → ℕ → ℕ → PebsAction → ℕ → ℕ → PebsState
arm pebs_margin pebs current_tsc target_tsc action inst_count_now tsc_offset_now =
    let encoded_delta = target_tsc - current_tsc - pebs_margin in
    record pebs {
      counter_reload = bit_and (u64 (2 ^ 64 - encoded_delta)) pmc_counter_mask;
      armed_target_tsc = target_tsc - pebs_margin;
      armed_inst_count = inst_count_now;
      armed_tsc_offset = tsc_offset_now;
      iters_since_arm = 0;
      armed_action = some action;
      logged_first_arm = true;
    }

unfoldable pub arm_precise_exit : ℕ → PebsState → ℕ → ℕ → PebsAction → ℕ → ℕ → ArmResult × PebsState
arm_precise_exit pebs_margin pebs current_tsc target_tsc action inst_count_now tsc_offset_now =
    if ltb target_tsc current_tsc
    then (already_past, pebs)
    else (if ltb (target_tsc - current_tsc) (pebs_min_delta + pebs_margin)
        then (below_min_delta, pebs)
        else (
          armed,
          arm pebs_margin pebs current_tsc target_tsc action inst_count_now tsc_offset_now,
        ))

unfoldable pub disarm_precise_exit : PebsState → PebsState
disarm_precise_exit pebs = record pebs { armed_action = none }

-- The part of the VM that these functions use; `machine` has its devices and the VMCS.
pub record RunState : Type 0 where
  pub machine : Machine
  pub last_instruction_count : ℕ
  pub tsc_offset : ℕ
  pub stop_at_tsc : Option ℕ
  pub single_step_tsc_range : Option (ℕ × ℕ)
  pub mtf_enabled : Bool
  pub pebs_state : Option PebsState
  pub pebs_armed_iter_no_fire : ℕ
  pub pebs_arm_already_past : ℕ
  pub pebs_arm_below_min_delta : ℕ

-- `last_instruction_count + tsc_offset`
unfoldable pub current : RunState → ℕ
current s = u64 (s.last_instruction_count + s.tsc_offset)

unfoldable pub next_timer_exit_count : RunState → Option ℕ
next_timer_exit_count s =
    let apic = s.machine.vm.apic in
    if apic.timer_deadline == 0
    then none
    else (if bit_and apic.svr (2 ^ 8) == 0
        then none
        else (if not (bit_and apic.lvt_timer (2 ^ 16) == 0)
            then none
            else some (apic.timer_deadline - s.tsc_offset)))

unfoldable pub next_io_channel_exit_count : RunState → Option ℕ
next_io_channel_exit_count s = map (λ t. t - s.tsc_offset) (next_io_channel_target_tsc s.machine.vm)

unfoldable pub next_single_step_start_tsc : RunState → Option ℕ
next_single_step_start_tsc s = elim s.single_step_tsc_range [
  | none ↦ none
  | some range ↦ if ltb (current s) (range.0) then some (range.0) else none
]

unfoldable pub next_single_step_start_count : RunState → Option ℕ
next_single_step_start_count s = map (λ t. t - s.tsc_offset) (next_single_step_start_tsc s)

unfoldable pub stop_at_count : RunState → Option ℕ
stop_at_count s = map (λ t. t - s.tsc_offset) s.stop_at_tsc

-- `flatten().min()`, and `filter(|&t| t != 0)`.
unfoldable pub earliest : List (Option ℕ) → Option ℕ
earliest [] = none
earliest (none ∷ ts) = earliest ts
earliest (some t ∷ ts) = some (nearer t (earliest ts))

unfoldable pub nonzero : ℕ → Option ℕ
nonzero zero = none
nonzero (suc t) = some (suc t)

-- The four targets, in the order in which they are asked for.
unfoldable pub targets : RunState → List (Option ℕ)
targets s =
    nonzero s.machine.vm.apic.timer_deadline
    ∷ next_io_channel_target_tsc s.machine.vm
    ∷ s.stop_at_tsc
    ∷ next_single_step_start_tsc s
    ∷ []
