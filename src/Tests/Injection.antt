-- ===== src/Tests/Injection.antt =====
-- Injection before a VM entry, by a guest that can take an interrupt.
use bedrock.Base.{ℕ, ◌≡◌, refl, true, some, [], arith, store}
use bedrock.Base.Bits.Scan.{bit_length, leading_zeros}
use bedrock.Apic.{default_apic, top_bit}
use bedrock.IoApic.{default_ioapic}
use bedrock.IoChannel.{new}
use bedrock.Interrupts.{check_apic_timer, check_io_channel, apic_pending_vector, highest}
use bedrock.Interrupts.Inject.{
  VmcsField, guest_rflags, idt_vectoring_info, idt_vectoring_error_code, Machine,
  inject_pending_interrupt,
}
use bedrock.Interrupts.Inject.Safety.{IsEligible, checked}
use bedrock.Interrupts.Inject.Progress.{
  IsWorking, Progress, Repeated, inject_pending_interrupt-Progress,
  inject_pending_interrupt-Repeated,
}

-- Interrupts are enabled, and nothing else is set.
abbrev fields : VmcsField → ℕ
fields guest_rflags = 512
fields f = 0

-- Vector 32 is requested.
abbrev machine : Machine
machine = record {
  vm = record {
    emulated_tsc = 120;
    apic = record default_apic { svr = 511; irr = store (λ i. 0) 1 1 };
    ioapic = default_ioapic;
    io_channel = new;
    apic_timer_late_inject = 0;
    emitted = [];
  };
  vmcs = record { value = fields; readable = λ f. true; writable = λ f. true };
  last_exit_deterministic = true;
}

machine-IsWorking : IsWorking machine
machine-IsWorking f = (refl, refl)

machine-IsEligible : IsEligible machine
machine-IsEligible = record { deterministic = refl; not_interrupted = refl; none_waits = λ h. refl }

machine_pending : apic_pending_vector (checked machine).vm.apic ≡ some 32
unfolding apic_pending_vector highest top_bit check_apic_timer check_io_channel leading_zeros
    bit_length default_apic new
machine_pending = refl

inject_pending_interrupt-Progress_example :
    Progress 32 (checked machine) (inject_pending_interrupt machine)
inject_pending_interrupt-Progress_example =
    inject_pending_interrupt-Progress machine 32 machine-IsWorking machine-IsEligible
      machine_pending

-- A page fault with an error code was interrupted.
abbrev fault_fields : VmcsField → ℕ
fault_fields idt_vectoring_info = 2147486478
fault_fields idt_vectoring_error_code = 2
fault_fields f = 0

abbrev faulted : Machine
faulted = record machine { vmcs = record machine.vmcs { value = fault_fields } }

faulted-IsWorking : IsWorking faulted
faulted-IsWorking f = (refl, refl)

inject_pending_interrupt-Repeated_example : Repeated faulted (inject_pending_interrupt faulted)
inject_pending_interrupt-Repeated_example =
    inject_pending_interrupt-Repeated faulted faulted-IsWorking (omega arith)
