-- ===== src/Idle.antt =====
-- HLT and MWAIT: `handle_idle` of crates/bedrock-vmx/src/exits/time.rs up to the advance of RIP, and
-- `next_io_channel_target_tsc` of crates/bedrock-vmx/src/exits/mod.rs.
pub mod Laws
use bedrock.Base.{
  ℕ, ◌+◌, ◌-◌, ◌==◌, ◌||◌, ◌^◌, ◌%◌, Option, none, some, min, ltb, u64, if◌then◌else◌,
}
use bedrock.Interrupts.{VmState, blocked, io_channel_irq}

pub record IdleState : Type 0 where
  pub vm : VmState
  pub tsc_offset : ℕ
  pub stop_at_tsc : Option ℕ

unfoldable pub next_io_channel_target_tsc : VmState → Option ℕ
next_io_channel_target_tsc s =
    let chan = s.io_channel in
    if chan.page_gpa == 0
    then none
    else (if chan.request_len == 0 || chan.request_delivered
        then none
        else (if chan.request_target_tsc == 0
            then none
            else (if blocked (s.ioapic.redtbl io_channel_irq)
                then none
                else some chan.request_target_tsc)))

-- `match bound { Some(b) => t.min(b), None => t }`
unfoldable pub nearer : ℕ → Option ℕ → ℕ
nearer t none = t
nearer t (some b) = min t b

unfoldable pub advance_to : ℕ → IdleState → IdleState
advance_to target s =
    if ltb s.vm.emulated_tsc target
    then record s {
      tsc_offset = u64 (s.tsc_offset + (target - s.vm.emulated_tsc));
      vm = record s.vm { emulated_tsc = target };
    }
    else s

unfoldable pub idle : IdleState → IdleState
idle s =
    let timer_deadline = s.vm.apic.timer_deadline in
    let wake = nearer timer_deadline (next_io_channel_target_tsc s.vm) in
    if ltb 0 timer_deadline then advance_to (nearer wake s.stop_at_tsc) s else s
