-- ===== src/Interrupts.antt =====
-- Interrupt delivery: crates/bedrock-vmx/src/exits/interrupts.rs. Of the VM's state it has what these
-- functions read and change; `emitted` has the payloads given to the event stream, the last one first.
pub mod Delivery
pub mod Inject
use bedrock.Base.{
  ℕ, zero, suc, ◌+◌, ◌-◌, ◌*◌, ◌/◌, ◌%◌, ◌^◌, ◌==◌, ◌&&◌, ◌||◌, Bool, true, false, not, Option,
  none, some, List, [], ◌∷◌, bit_and, bit_or, bit_not, Words, store, shl, shr, u8, u64, ltb, leb,
  if◌then◌else◌,
}
use bedrock.Apic.{ApicState, apic_timer_divisor, top_bit}
use bedrock.IoApic.{IoApicState, ioapic_num_pins}
use bedrock.IoChannel.{IoChannelState}

abbrev pub io_channel_irq : ℕ
io_channel_irq = 9

pub data Payload : Type 0 where
  -- `InjectPayload` of the timer, and `IoChannelPayload` of a request.
  timer_inject : (vector target_tsc : ℕ) → Payload
  io_request : (target_tsc : ℕ) → Payload

pub record VmState : Type 0 where
  pub emulated_tsc : ℕ
  pub apic : ApicState
  pub ioapic : IoApicState
  pub io_channel : IoChannelState
  pub apic_timer_late_inject : ℕ
  pub emitted : List Payload

-- `irr[vector / 32] |= 1 << (vector % 32)`
unfoldable pub set_vector : Words → ℕ → Words
set_vector words vector =
    store words (vector / 32) (bit_or (words (vector / 32)) (2 ^ (vector % 32)))

-- `irr[vector / 32] &= !(1 << (vector % 32))`
unfoldable pub clear_vector : Words → ℕ → Words
clear_vector words vector =
    store words (vector / 32) (bit_and (words (vector / 32)) (bit_not 32 (2 ^ (vector % 32))))

-- What `check_apic_timer` does when none of its early returns is taken.
unfoldable pub fire_timer : VmState → VmState
fire_timer s =
    let timer_deadline = s.apic.timer_deadline in
    let vector = u8 (bit_and s.apic.lvt_timer 255) in
    let ticks = s.apic.timer_initial * apic_timer_divisor s.apic.timer_divide in
    let periodic = not (bit_and s.apic.lvt_timer (2 ^ 17) == 0) in
    record s {
      apic = record s.apic {
        irr = set_vector s.apic.irr vector;
        timer_deadline = if periodic then u64 (s.emulated_tsc + ticks) else 0;
      };
      apic_timer_late_inject =
          if ltb timer_deadline s.emulated_tsc
          then u64 (s.apic_timer_late_inject + 1)
          else s.apic_timer_late_inject;
      emitted = timer_inject vector timer_deadline ∷ s.emitted;
    }

unfoldable pub check_apic_timer : VmState → VmState
check_apic_timer s =
    let fired = fire_timer s in
    if s.apic.timer_deadline == 0
    then s
    else (if ltb s.emulated_tsc s.apic.timer_deadline
        then s
        else (if bit_and s.apic.svr (2 ^ 8) == 0
            then s
            else (if not (bit_and s.apic.lvt_timer (2 ^ 16) == 0) then s else fired)))

-- A redirection entry that is masked or has a reserved vector.
unfoldable pub blocked : ℕ → Bool
blocked entry = not (bit_and (shr entry 16) 1 == 0) || ltb (bit_and entry 255) 16

unfoldable pub ioapic_deliver_irq : VmState → ℕ → VmState
ioapic_deliver_irq s irq =
    let entry = s.ioapic.redtbl irq in
    let vector = u8 (bit_and entry 255) in
    let delivered = record s { apic = record s.apic { irr = set_vector s.apic.irr vector } } in
    if leb ioapic_num_pins irq
    then s
    else (if not (bit_and (shr entry 16) 1 == 0)
        then s
        else (if ltb vector 16 then s else (if ltb (vector / 32) 8 then delivered else s)))

-- What `check_io_channel` does when none of its early returns is taken.
unfoldable pub signal_request : VmState → VmState
signal_request s =
    let raised = ioapic_deliver_irq s io_channel_irq in
    record raised {
      io_channel = record raised.io_channel { request_delivered = true };
      emitted = io_request raised.io_channel.request_target_tsc ∷ raised.emitted;
    }

unfoldable pub check_io_channel : VmState → VmState
check_io_channel s =
    let chan = s.io_channel in
    let entry = s.ioapic.redtbl io_channel_irq in
    let signalled = signal_request s in
    if chan.page_gpa == 0
    then s
    else (if chan.request_len == 0
        then s
        else (if chan.request_delivered
            then s
            else (if not (chan.request_target_tsc == 0)
                  && ltb s.emulated_tsc chan.request_target_tsc
                then s
                else (if blocked entry then s else signalled))))

-- The loop of `apic_pending_vector`, over the indices below `n` from the highest down.
unfoldable pub highest : ℕ → Words → Option ℕ
highest zero irr = none
highest (suc i) irr =
    let rest = highest i irr in if irr i == 0 then rest else some (u8 (i * 32 + top_bit (irr i)))

unfoldable pub apic_pending_vector : ApicState → Option ℕ
apic_pending_vector apic = if bit_and apic.svr (2 ^ 8) == 0 then none else highest 8 apic.irr

-- The end of `inject_pending_interrupt`: the vector moves from the IRR to the ISR.
unfoldable pub acknowledge : ApicState → ℕ → ApicState
acknowledge apic vector = record apic {
  irr = clear_vector apic.irr vector;
  isr = set_vector apic.isr vector;
}
