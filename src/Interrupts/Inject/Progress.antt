-- ===== src/Interrupts/Inject/Progress.antt =====
-- What an injection achieves where the processor refuses no access to the VMCS.
use bedrock.Base.{
  ℕ, ◌^◌, ◌==◌, ◌≡◌, ◌≢◌, refl, sym, Bool, true, false, not, some, bit_and, bit_or, bit_not,
  if◌then◌else◌, if-cases, some-cases, ==→eq, arith,
}
use mathlib.Core.Path.{subst}
use bedrock.Base.Bits.Digit.{test_bit-or, test_bit-and}
use bedrock.Base.Bits.Field.{bit_and_single}
use bedrock.Base.Result.{Result, ok, err}
use bedrock.Interrupts.{apic_pending_vector}
use bedrock.Interrupts.Inject.{
  VmcsField, guest_rflags, guest_interruptibility_state, idt_vectoring_info,
  idt_vectoring_error_code, vm_entry_interruption_info, vm_entry_exception_error_code,
  primary_proc_based_vm_exec_controls, Machine, ExitError, vmcs_read_error, vmcs_write_error, fatal,
  M, ◌>>=◌, read_field, write_field, stored, intr_window_exiting, enable_interrupt_window_exiting,
  disable_interrupt_window_exiting, set_window, clear_window, after_injection, unless_blocked,
  when_enabled, copy_error_code, reinjected, reinject_info, after_reinjection, reinject_error_code,
  reinject_vectored_event, encode_external_interrupt, inject_eligible, take_interrupt,
  inject_vector, deliver, deliver_pending, inject_pending_interrupt,
}
use bedrock.Interrupts.Inject.Safety.{IsInterruptible, Injected, IsEligible, checked}

-- Every field can be read and written.
abbrev pub IsWorking : Machine → Type 0
IsWorking w = (f : VmcsField) → (w.vmcs.readable f ≡ true) × (w.vmcs.writable f ≡ true)

read_works :
    {Y : Type 0} (P : Result ExitError Y × Machine → Type 0) (f : VmcsField) (k : ℕ → M Y)
    (w : Machine)
    → IsWorking w
    → P (k (w.vmcs.value f) w)
    → P ((read_field f >>= k) w)
unfolding read_field
read_works P f k w v good = go (w.vmcs.readable f) (v f).0
  where
    go :
        (b : Bool)
        → b ≡ true
        → P (elim (if b then ok (w.vmcs.value f) else err (vmcs_read_error f)) [
          | ok x ↦ k x w
          | err e ↦ (err e, w)
        ])
    go true h = good
    go false h = absurd (cc)

write_works :
    {Y : Type 0} (P : Result ExitError Y × Machine → Type 0) (f : VmcsField) (x : ℕ) (e : ExitError)
    (k : Unit {0} → M Y) (w : Machine)
    → IsWorking w
    → P (k tt (stored f x w))
    → P ((write_field f x e >>= k) w)
unfolding write_field
write_works {Y} P f x e k w v good = go (w.vmcs.writable f) (v f).1
  where
    go :
        (b : Bool)
        → b ≡ true
        → P (
            let out : Result ExitError (Unit {0}) × Machine =
              if b then (ok tt, stored f x w) else (err e, w) in
            elim out.0 [ ok u ↦ k u out.1 | err y ↦ (err y, out.1) ])
    go true h = good
    go false h = absurd (cc)

write_last :
    (P : Result ExitError (Unit {0}) × Machine → Type 0) (f : VmcsField) (x : ℕ) (e : ExitError)
    (w : Machine)
    → IsWorking w
    → P (ok tt, stored f x w)
    → P (write_field f x e w)
unfolding write_field
write_last P f x e w v good =
    if-cases P (w.vmcs.writable f) (λ h. good) (λ h. absurd (ground (arith, h, (v f).1)))

window_set : (c : ℕ) → bit_and (bit_or c 4) 4 ≢ 0
window_set c = ground (arith, bit_and_single 2 (bit_or c 4), test_bit-or c 4 2)

window_cleared : (c : ℕ) → bit_and (bit_and c (bit_not 32 4)) 4 ≡ 0
window_cleared c =
    ground (arith, bit_and_single 2 (bit_and c (bit_not 32 4)), test_bit-and c (bit_not 32 4) 2)

-- The bit of interrupt-window exiting.
abbrev pub window : Machine → ℕ
window w = bit_and (w.vmcs.value primary_proc_based_vm_exec_controls) intr_window_exiting

pub record Opened (w : Machine) (out : Result ExitError (Unit {0}) × Machine) : Type 0 where
  pub succeeds : out.0 ≡ ok tt
  pub vm_eq : out.1.vm ≡ w.vm
  pub open_window : window out.1 ≢ 0

enable-Opened : (w : Machine) → IsWorking w → Opened w (enable_interrupt_window_exiting w)
unfolding enable_interrupt_window_exiting set_window
enable-Opened w v =
    let c = w.vmcs.value primary_proc_based_vm_exec_controls in
    read_works (Opened w) primary_proc_based_vm_exec_controls set_window w v (
      if-cases (Opened w) (bit_and c intr_window_exiting == 0)
        (λ h.
          write_last (Opened w) primary_proc_based_vm_exec_controls (bit_or c intr_window_exiting) _
            w v (record { succeeds = refl; vm_eq = refl; open_window = window_set c }))
        (λ h. record { succeeds = refl; vm_eq = refl; open_window = λ z. ground (arith, h, z) }))

pub record Closed (w : Machine) (out : Result ExitError (Unit {0}) × Machine) : Type 0 where
  pub succeeds : out.0 ≡ ok tt
  pub vm_eq : out.1.vm ≡ w.vm
  pub info_eq :
      out.1.vmcs.value vm_entry_interruption_info ≡ w.vmcs.value vm_entry_interruption_info
  pub closed_window : window out.1 ≡ 0

disable-Closed : (w : Machine) → IsWorking w → Closed w (disable_interrupt_window_exiting w)
unfolding disable_interrupt_window_exiting clear_window
disable-Closed w v =
    let c = w.vmcs.value primary_proc_based_vm_exec_controls in
    read_works (Closed w) primary_proc_based_vm_exec_controls clear_window w v (
      if-cases (Closed w) (not (bit_and c intr_window_exiting == 0))
        (λ h.
          write_last (Closed w) primary_proc_based_vm_exec_controls
            (bit_and c (bit_not 32 intr_window_exiting)) _ w v
            (record {
              succeeds = refl;
              vm_eq = refl;
              info_eq = refl;
              closed_window = window_cleared c;
            }))
        (λ h. record {
          succeeds = refl;
          vm_eq = refl;
          info_eq = refl;
          closed_window = ground (arith, h);
        }))

-- A pending vector goes to the guest, or the processor is asked to exit when the guest can take it.
pub record Progress (vector : ℕ) (w : Machine) (out : Result ExitError (Unit {0}) × Machine)
    : Type 0 where
  pub succeeds : out.0 ≡ ok tt
  pub taken : IsInterruptible w → Injected vector w out.1 × (window out.1 ≡ 0)
  pub postponed : ¬ IsInterruptible w → (out.1.vm ≡ w.vm) × (window out.1 ≢ 0)

deliver-Progress : (vector : ℕ) (w : Machine) → IsWorking w → Progress vector w (deliver vector w)
unfolding deliver when_enabled unless_blocked inject_vector after_injection take_interrupt
deliver-Progress vector w v =
    let rflags = w.vmcs.value guest_rflags in
    let state = w.vmcs.value guest_interruptibility_state in
    let o = enable-Opened w v in
    let t =
      take_interrupt vector
        (stored vm_entry_interruption_info (encode_external_interrupt vector) w) in
    let d = disable-Closed t v in
    read_works (Progress vector w) guest_rflags (when_enabled vector) w v (
      if-cases (Progress vector w) (bit_and rflags (2 ^ 9) == 0)
        (λ h. record {
          succeeds = o.succeeds;
          taken = λ i. absurd (i.enabled (==→eq _ _ h));
          postponed = λ n. (o.vm_eq, o.open_window);
        })
        (λ on.
          read_works (Progress vector w) guest_interruptibility_state (unless_blocked vector) w v (
            if-cases (Progress vector w) (not (bit_and state 3 == 0))
              (λ h. record {
                succeeds = o.succeeds;
                taken = λ i. absurd (ground (arith, h, i.unblocked));
                postponed = λ n. (o.vm_eq, o.open_window);
              })
              (λ free.
                write_works (Progress vector w) vm_entry_interruption_info
                  (encode_external_interrupt vector) fatal (after_injection vector) w v
                  (record {
                    succeeds = d.succeeds;
                    taken = λ i.
                        (record { announced = d.info_eq; in_service = d.vm_eq }, d.closed_window);
                    postponed = λ n. absurd (
                        n (record {
                          enabled = λ z. ground (arith, on, z);
                          unblocked = ground (arith, free);
                        }));
                  })))))

no_reinjection :
    (w : Machine) → IsWorking w → IsEligible w → reinject_vectored_event w ≡ (ok false, w)
unfolding reinject_vectored_event reinject_info
no_reinjection w v e =
    let P : Result ExitError Bool × Machine → Type 0 = λ r. r ≡ (ok false, w) in
    read_works P idt_vectoring_info reinject_info w v (
      if-cases P (bit_and (w.vmcs.value idt_vectoring_info) (2 ^ 31) == 0) (λ h. refl)
        (λ h. absurd (ground (arith, h, e.not_interrupted))))

eligible_lem :
    (w : Machine) → IsWorking w → IsEligible w → inject_eligible false w ≡ (true, checked w)
unfolding inject_eligible
eligible_lem w v e =
    let P : Bool × Machine → Type 0 = λ r. r ≡ (true, checked w) in
    let readable = w.vmcs.readable vm_entry_interruption_info in
    let event = w.vmcs.value vm_entry_interruption_info in
    let waiting = if readable then event else 0 in
    let none_waits : bit_and waiting (2 ^ 31) ≡ 0 =
      if-cases (λ (x : ℕ). bit_and x (2 ^ 31) ≡ 0) readable (λ h. e.none_waits h)
        (λ h. absurd (ground (arith, h, (v vm_entry_interruption_info).0))) in
    if-cases P (not w.last_exit_deterministic) (λ h. absurd (ground (arith, h, e.deterministic)))
      (λ known.
        if-cases P (not (bit_and waiting (2 ^ 31) == 0))
          (λ h. absurd (ground (arith, h, none_waits))) (λ h. refl))

pending_Progress :
    (w : Machine) (vector : ℕ)
    → IsWorking w
    → apic_pending_vector w.vm.apic ≡ some vector
    → Progress vector w (deliver_pending (true, w))
unfolding deliver_pending
pending_Progress w vector v e =
    some-cases (Progress vector w) (apic_pending_vector w.vm.apic) (ok tt, w) (λ x. deliver x w)
      (λ n. absurd (ground (arith, e, n)))
      (λ x f.
        let same : vector ≡ x = ground (arith, e, f) in
        subst (λ (t : ℕ). Progress vector w (deliver t w)) same (deliver-Progress vector w v))

-- Where no access to the VMCS fails, a vector that is pending after the checks, no event being interrupted
-- or waiting and the last exit deterministic, is announced and taken into service if the guest can take
-- it, and the processor stops watching for that; if not, the APIC keeps it, and the processor is told to
-- exit as soon as the guest can.
pub inject_pending_interrupt-Progress :
    (w : Machine) (vector : ℕ)
    → IsWorking w
    → IsEligible w
    → apic_pending_vector (checked w).vm.apic ≡ some vector
    → Progress vector (checked w) (inject_pending_interrupt w)
unfolding inject_pending_interrupt after_reinjection
inject_pending_interrupt-Progress w vector v e pending =
    let P : Result ExitError (Unit {0}) × Machine → Type 0 = Progress vector (checked w) in
    subst
      (λ (r : Result ExitError Bool × Machine).
        P (elim r.0 [ ok again ↦ after_reinjection again r.1 | err x ↦ (err x, r.1) ]))
      (sym (no_reinjection w v e))
      (subst (λ (r : Bool × Machine). P (deliver_pending r)) (sym (eligible_lem w v e))
        (pending_Progress (checked w) vector v pending))

-- What a VM entry finds after an event was interrupted in its delivery.
pub record Repeated (w : Machine) (out : Result ExitError (Unit {0}) × Machine) : Type 0 where
  pub succeeds : out.0 ≡ ok tt
  pub vm_eq : out.1.vm ≡ w.vm
  pub info_eq : out.1.vmcs.value vm_entry_interruption_info ≡ w.vmcs.value idt_vectoring_info
  pub error_code_eq :
      bit_and (w.vmcs.value idt_vectoring_info) (2 ^ 11) ≢ 0
      → out.1.vmcs.value vm_entry_exception_error_code ≡ w.vmcs.value idt_vectoring_error_code

-- Where no access to the VMCS fails, an event that was interrupted in its delivery is injected again, with
-- its error code if it has one, and the VM and its interrupts wait.
pub inject_pending_interrupt-Repeated :
    (w : Machine)
    → IsWorking w
    → bit_and (w.vmcs.value idt_vectoring_info) (2 ^ 31) ≢ 0
    → Repeated w (inject_pending_interrupt w)
unfolding inject_pending_interrupt reinject_vectored_event reinject_info reinject_error_code
    copy_error_code reinjected after_reinjection inject_eligible deliver_pending
inject_pending_interrupt-Repeated w v event =
    let info = w.vmcs.value idt_vectoring_info in
    let w1 = stored vm_entry_interruption_info info w in
    let P : Result ExitError Bool × Machine → Type 0 = λ r.
      Repeated w (elim r.0 [ ok again ↦ after_reinjection again r.1 | err x ↦ (err x, r.1) ]) in
    read_works P idt_vectoring_info reinject_info w v (
      if-cases P (bit_and info (2 ^ 31) == 0) (λ h. absurd (event (==→eq _ _ h)))
        (λ h.
          write_works P vm_entry_interruption_info info
            (vmcs_write_error vm_entry_interruption_info) (reinject_error_code info) w v
            (if-cases P (not (bit_and info (2 ^ 11) == 0))
              (λ k. read_works P idt_vectoring_error_code copy_error_code w1 v (
                write_works P vm_entry_exception_error_code (w1.vmcs.value idt_vectoring_error_code)
                  (vmcs_write_error vm_entry_exception_error_code) reinjected w1 v
                  (record {
                    succeeds = refl;
                    vm_eq = refl;
                    info_eq = refl;
                    error_code_eq = λ c. refl;
                  })))
              (λ k. record {
                succeeds = refl;
                vm_eq = refl;
                info_eq = refl;
                error_code_eq = λ c. absurd (ground (arith, k, c));
              }))))
