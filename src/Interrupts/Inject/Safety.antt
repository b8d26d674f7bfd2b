-- ===== src/Interrupts/Inject/Safety.antt =====
-- When an interrupt is injected, and what happens to the VM in every other branch.
use bedrock.Base.{ℕ, ◌^◌, ◌≡◌, ◌≢◌, Bool, true, false, some, bit_and}
use bedrock.Base.Result.{Result, ok, err}
use bedrock.Interrupts.{check_apic_timer, check_io_channel, apic_pending_vector, acknowledge}
use bedrock.Interrupts.Inject.{
  guest_rflags, guest_interruptibility_state, idt_vectoring_info, vm_entry_interruption_info,
  Machine, ExitError, encode_external_interrupt,
}

-- The VM and the event to be injected are as they were.
pub record Same {X : Type 0} (w : Machine) (out : Result ExitError X × Machine) : Type 0 where
  pub vm_eq : out.1.vm ≡ w.vm
  pub info_eq :
      out.1.vmcs.value vm_entry_interruption_info ≡ w.vmcs.value vm_entry_interruption_info

-- The guest can take an interrupt.
pub record IsInterruptible (w : Machine) : Type 0 where
  pub enabled : bit_and (w.vmcs.value guest_rflags) (2 ^ 9) ≢ 0
  pub unblocked : bit_and (w.vmcs.value guest_interruptibility_state) 3 ≡ 0

-- The vector is announced to the processor and moves from the IRR to the ISR, and nothing else of the VM.
pub record Injected (vector : ℕ) (w w' : Machine) : Type 0 where
  pub announced : w'.vmcs.value vm_entry_interruption_info ≡ encode_external_interrupt vector
  pub in_service : w'.vm ≡ record w.vm { apic = acknowledge w.vm.apic vector }

pub data Delivery (vector : ℕ) (w : Machine) (out : Result ExitError (Unit {0}) × Machine)
    : Type 0 where
  not_delivered : out.1.vm ≡ w.vm → Delivery vector w out
  delivered : IsInterruptible w → Injected vector w out.1 → Delivery vector w out

-- The VM after the checks of the timer and of the I/O channel.
abbrev pub checked : Machine → Machine
checked w = record w { vm = check_io_channel (check_apic_timer w.vm) }

-- A new interrupt may be considered: the last exit was deterministic, no event was interrupted in its
-- delivery, and none that can be read waits to be injected.
pub record IsEligible (w : Machine) : Type 0 where
  pub deterministic : w.last_exit_deterministic ≡ true
  pub not_interrupted : bit_and (w.vmcs.value idt_vectoring_info) (2 ^ 31) ≡ 0
  pub none_waits :
      w.vmcs.readable vm_entry_interruption_info ≡ true
      → bit_and (w.vmcs.value vm_entry_interruption_info) (2 ^ 31) ≡ 0

-- The three things that can happen to the VM.
pub data Outcome (w : Machine) (out : Result ExitError (Unit {0}) × Machine) : Type 0 where
  untouched : out.1.vm ≡ w.vm → Outcome w out
  only_checked : IsEligible w → out.1.vm ≡ (checked w).vm → Outcome w out
  interrupted :
      (vector : ℕ)
      → IsEligible w
      → apic_pending_vector (checked w).vm.apic ≡ some vector
      → IsInterruptible w
      → Injected vector (checked w) out.1
      → Outcome w out

-- What happens to the VM when an event is injected again, in part or whole.
pub data Reinjection (w : Machine) (out : Result ExitError Bool × Machine) : Type 0 where
  in_part : (e : ExitError) → out.0 ≡ err e → out.1.vm ≡ w.vm → Reinjection w out
  whole : out.0 ≡ ok true → out.1.vm ≡ w.vm → Reinjection w out
  no_event :
      bit_and (w.vmcs.value idt_vectoring_info) (2 ^ 31) ≡ 0
      → out ≡ (ok false, w)
      → Reinjection w out
