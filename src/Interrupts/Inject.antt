-- ===== src/Interrupts/Inject.antt =====
-- Injection before a VM entry: the second half of crates/bedrock-vmx/src/exits/interrupts.rs, with
-- `inject_exception` of exits/helpers.rs. The VMCS is the processor's: a field has a value, and may refuse
-- to be read or written. Of the VM it has what Interrupts has; `arm_for_next_iteration`, which sets up the
-- performance counter and changes nothing of that, is left out.
pub mod Safety
pub mod Progress
use bedrock.Base.{
  ℕ, ◌+◌, ◌*◌, ◌^◌, ◌==◌, ◌||◌, Bool, true, false, not, Option, none, some, bit_and, bit_or,
  bit_not, if◌then◌else◌,
}
use bedrock.Base.Result.{Result, ok, err}
use bedrock.Interrupts.{
  VmState, check_apic_timer, check_io_channel, apic_pending_vector, acknowledge,
}

pub data VmcsField : Type 0 where
  guest_rflags guest_interruptibility_state idt_vectoring_info idt_vectoring_error_code : VmcsField
  vm_entry_interruption_info vm_entry_exception_error_code : VmcsField
  primary_proc_based_vm_exec_controls : VmcsField

abbrev pub field_index : VmcsField → ℕ
field_index guest_rflags = 0
field_index guest_interruptibility_state = 1
field_index idt_vectoring_info = 2
field_index idt_vectoring_error_code = 3
field_index vm_entry_interruption_info = 4
field_index vm_entry_exception_error_code = 5
field_index primary_proc_based_vm_exec_controls = 6

pub record Vmcs : Type 0 where
  pub value : VmcsField → ℕ
  pub readable : VmcsField → Bool
  pub writable : VmcsField → Bool

pub data ExitError : Type 0 where
  vmcs_read_error vmcs_write_error : VmcsField → ExitError
  unknown_exit_reason : ℕ → ExitError
  triple_fault invalid_guest_state fatal : ExitError

pub record Machine : Type 0 where
  pub vm : VmState
  pub vmcs : Vmcs
  pub last_exit_deterministic : Bool

abbrev pub M : Type 0 → Type 0
M X = Machine → Result ExitError X × Machine

infixl 5 ◌>>=◌
abbrev pub ◌>>=◌ : {X Y : Type 0} → M X → (X → M Y) → M Y
◌>>=◌ m k w = let (r, w') = m w in elim r [ ok x ↦ k x w' | err e ↦ (err e, w') ]

unfoldable pub read_field : VmcsField → M ℕ
read_field f w = (if w.vmcs.readable f then ok (w.vmcs.value f) else err (vmcs_read_error f), w)

-- The VMCS after a write that succeeds.
abbrev pub stored : VmcsField → ℕ → Machine → Machine
stored f x w = record w {
  vmcs = record w.vmcs {
    value = λ g. if field_index f == field_index g then x else w.vmcs.value g;
  };
}

unfoldable pub write_field : VmcsField → ℕ → ExitError → M (Unit {0})
write_field f x e w = if w.vmcs.writable f then (ok tt, stored f x w) else (err e, w)

abbrev pub intr_window_exiting : ℕ
intr_window_exiting = 4

abbrev controls_field : VmcsField
controls_field = primary_proc_based_vm_exec_controls

-- Each function is the read of a field, and what is done with its value.
unfoldable pub set_window : ℕ → M (Unit {0})
set_window controls w =
    let enabled = bit_or controls intr_window_exiting in
    if bit_and controls intr_window_exiting == 0
    then write_field controls_field enabled (vmcs_write_error controls_field) w
    else (ok tt, w)

unfoldable pub enable_interrupt_window_exiting : M (Unit {0})
enable_interrupt_window_exiting = read_field controls_field >>= set_window

unfoldable pub clear_window : ℕ → M (Unit {0})
clear_window controls w =
    let disabled = bit_and controls (bit_not 32 intr_window_exiting) in
    if not (bit_and controls intr_window_exiting == 0)
    then write_field controls_field disabled (vmcs_write_error controls_field) w
    else (ok tt, w)

unfoldable pub disable_interrupt_window_exiting : M (Unit {0})
disable_interrupt_window_exiting = read_field controls_field >>= clear_window

unfoldable pub reinjected : Unit {0} → M Bool
reinjected u w = (ok true, w)

unfoldable pub copy_error_code : ℕ → M Bool
copy_error_code error_code =
    write_field vm_entry_exception_error_code error_code
      (vmcs_write_error vm_entry_exception_error_code)
    >>= reinjected

unfoldable pub reinject_error_code : ℕ → Unit {0} → M Bool
reinject_error_code idt_info u w =
    let copied = (read_field idt_vectoring_error_code >>= copy_error_code) w in
    if not (bit_and idt_info (2 ^ 11) == 0) then copied else (ok true, w)

unfoldable pub reinject_info : ℕ → M Bool
reinject_info idt_info w =
    let again =
      (write_field vm_entry_interruption_info idt_info (vmcs_write_error vm_entry_interruption_info)
          >>= reinject_error_code idt_info)
        w in
    if bit_and idt_info (2 ^ 31) == 0 then (ok false, w) else again

unfoldable pub reinject_vectored_event : M Bool
reinject_vectored_event = read_field idt_vectoring_info >>= reinject_info

-- `InterruptionInfo::external_interrupt(vector).encode()`
unfoldable pub encode_external_interrupt : ℕ → ℕ
encode_external_interrupt vector = bit_or vector (2 ^ 31)

-- The condition of `inject_eligible` past the re-injection, with the two checks.
unfoldable pub inject_eligible : Bool → Machine → Bool × Machine
inject_eligible again w =
    let pending =
      if w.vmcs.readable vm_entry_interruption_info
      then w.vmcs.value vm_entry_interruption_info
      else 0 in
    if again || not w.last_exit_deterministic
    then (false, w)
    else (if not (bit_and pending (2 ^ 31) == 0)
        then (false, w)
        else (true, record w { vm = check_io_channel (check_apic_timer w.vm) }))

unfoldable pub take_interrupt : ℕ → Machine → Machine
take_interrupt vector w = record w { vm = record w.vm { apic = acknowledge w.vm.apic vector } }

unfoldable pub after_injection : ℕ → Unit {0} → M (Unit {0})
after_injection vector u w = disable_interrupt_window_exiting (take_interrupt vector w)

-- The guest can take it: `inject_exception`, then the APIC, then the window.
unfoldable pub inject_vector : ℕ → M (Unit {0})
inject_vector vector =
    write_field vm_entry_interruption_info (encode_external_interrupt vector) fatal
    >>= after_injection vector

unfoldable pub unless_blocked : ℕ → ℕ → M (Unit {0})
unless_blocked vector interruptibility w =
    if not (bit_and interruptibility 3 == 0)
    then enable_interrupt_window_exiting w
    else inject_vector vector w

unfoldable pub when_enabled : ℕ → ℕ → M (Unit {0})
when_enabled vector rflags w =
    let checked = (read_field guest_interruptibility_state >>= unless_blocked vector) w in
    if bit_and rflags (2 ^ 9) == 0 then enable_interrupt_window_exiting w else checked

-- From the choice of a vector on.
unfoldable pub deliver : ℕ → M (Unit {0})
deliver vector = read_field guest_rflags >>= when_enabled vector

unfoldable pub deliver_pending : Bool × Machine → Result ExitError (Unit {0}) × Machine
deliver_pending (false, w) = (ok tt, w)
deliver_pending (true, w) = elim (apic_pending_vector w.vm.apic) [
  | none ↦ (ok tt, w)
  | some vector ↦ deliver vector w
]

unfoldable pub after_reinjection : Bool → M (Unit {0})
after_reinjection again w = deliver_pending (inject_eligible again w)

unfoldable pub inject_pending_interrupt : M (Unit {0})
inject_pending_interrupt = reinject_vectored_event >>= after_reinjection
