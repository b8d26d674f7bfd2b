-- ===== src/Mmio/Handlers.antt =====
-- The two handlers of APIC accesses on every branch, and a guest that uses the window of the I/O APIC.
use bedrock.Base.{
  ℕ, ◌-◌, ◌<◌, ◌≤◌, ◌≡◌, refl, ap, ◌∙◌, Option, none, some, List, length, u32, if-cases, some-cases,
  arith,
}
use bedrock.Base.Result.{Result, ok, err}
use bedrock.Decoder.{DecodedInstruction, decode_instruction}
use bedrock.Decoder.Bounds.{decode_instruction-bounds}
use bedrock.Mmio.{
  MmioState, exit_to_userspace, vmcs_read_error, fatal, EptViolationQualification, Fetch, no_rip,
  no_instruction, fetched, advance, apic_effect, ioapic_effect, fetch, fetch_at, decode_fetched,
  handle_apic_access, handle_ioapic_access, apic_base, ioapic_base, reason_ept_violation,
}
use bedrock.Mmio.Instruction.{IsMemory}
use bedrock.Mmio.Access.{
  Confined, advance-Confined, stopped-Confined, apic_effect-Effect, ioapic_effect-Effect,
}

module _ (read_guest_memory : ℕ → ℕ → Option (List ℕ)) (byte : ℕ → Option ℕ)
    (memory : IsMemory read_guest_memory byte) where
  decoded_length :
      (p : ℕ) (bytes : List ℕ) (d : DecodedInstruction)
      → read_guest_memory p 15 ≡ some bytes
      → (r : Result _ DecodedInstruction) → decode_instruction bytes ≡ r
      → ◌≡◌ {A = Fetch} (elim r [ ok x ↦ fetched x | err e ↦ no_instruction ]) (fetched d)
      → (d.length ≤ 15) × (d.register < 16)
  decoded_length p bytes d e (ok x) f g =
      let same : x ≡ d = cc in
      let b = decode_instruction-bounds bytes d (f ∙ ap ok same) in
      let size : length bytes ≡ 15 = memory.sized p 15 bytes e in (omega (arith, b.0, size), b.1)
  decoded_length p bytes d e (err x) f g = absurd (cc)

  fetch_at_bounds :
      (o : Option ℕ) (d : DecodedInstruction)
      → fetch_at read_guest_memory o ≡ fetched d
      → (d.length ≤ 15) × (d.register < 16)
  unfolding fetch_at decode_fetched
  fetch_at_bounds none d e = absurd (cc)
  fetch_at_bounds (some p) d h =
      some-cases (λ r. r ≡ fetched d → (d.length ≤ 15) × (d.register < 16)) (read_guest_memory p 15)
        no_instruction _ (λ n e. absurd (cc))
        (λ bytes r e. decoded_length p bytes d r (decode_instruction bytes) refl e) h

  -- A fetched instruction is one of at most 15 bytes and names one of the 16 registers.
  pub fetch_bounds :
      (s : MmioState) (d : DecodedInstruction)
      → fetch read_guest_memory s ≡ fetched d
      → (d.length ≤ 15) × (d.register < 16)
  unfolding fetch
  fetch_bounds s d =
      if-cases (λ r. r ≡ fetched d → (d.length ≤ 15) × (d.register < 16)) s.rip_readable
        (λ y e. fetch_at_bounds _ d e) (λ n e. absurd (cc))

  module _ (gpa : ℕ) (qual : EptViolationQualification) (s : MmioState) where
    handle_apic_access-Confined :
        Confined read_guest_memory s (handle_apic_access read_guest_memory gpa qual s)
    unfolding handle_apic_access
    handle_apic_access-Confined =
        by_fetch (fetch read_guest_memory s) (λ d e. (e, (fetch_bounds s d e).0))
      where
        by_fetch :
            (f : Fetch)
            → ((d : DecodedInstruction)
                → f ≡ fetched d
                → (fetch read_guest_memory s ≡ fetched d) × (d.length ≤ 15))
            → Confined read_guest_memory s (elim f [
              | no_rip ↦ (vmcs_read_error, s)
              | no_instruction ↦ (exit_to_userspace reason_ept_violation, s)
              | fetched d ↦ advance d (apic_effect (u32 (gpa - apic_base)) qual d s)
            ])
        by_fetch no_rip h = stopped-Confined read_guest_memory vmcs_read_error s (λ c. cc)
        by_fetch no_instruction h =
            stopped-Confined read_guest_memory (exit_to_userspace reason_ept_violation) s (λ c. cc)
        by_fetch (fetched d) h =
            advance-Confined read_guest_memory d s _ (h d refl).0 (h d refl).1
              (apic_effect-Effect (u32 (gpa - apic_base)) qual d s)

    handle_ioapic_access-Confined :
        Confined read_guest_memory s (handle_ioapic_access read_guest_memory gpa qual s)
    unfolding handle_ioapic_access
    handle_ioapic_access-Confined =
        by_fetch (fetch read_guest_memory s) (λ d e. (e, (fetch_bounds s d e).0))
      where
        by_fetch :
            (f : Fetch)
            → ((d : DecodedInstruction)
                → f ≡ fetched d
                → (fetch read_guest_memory s ≡ fetched d) × (d.length ≤ 15))
            → Confined read_guest_memory s (elim f [
              | no_rip ↦ (vmcs_read_error, s)
              | no_instruction ↦ (fatal, s)
              | fetched d ↦ advance d (ioapic_effect (u32 (gpa - ioapic_base)) qual d s)
            ])
        by_fetch no_rip h = stopped-Confined read_guest_memory vmcs_read_error s (λ c. cc)
        by_fetch no_instruction h = stopped-Confined read_guest_memory fatal s (λ c. cc)
        by_fetch (fetched d) h =
            advance-Confined read_guest_memory d s _ (h d refl).0 (h d refl).1
              (ioapic_effect-Effect (u32 (gpa - ioapic_base)) qual d s)

    -- Whatever comes of an access to either APIC, the guest goes on exactly when RIP has passed the
    -- instruction that is fetched there, of at most 15 bytes, with the wrap of 64 bits, and stays at it
    -- otherwise; the time, CR3, all general registers but one stay, and so does the device or every register.
    -- The memory gives as many bytes as it is asked for.
    pub accesses-Confined :
        Confined read_guest_memory s (handle_apic_access read_guest_memory gpa qual s)
        × Confined read_guest_memory s (handle_ioapic_access read_guest_memory gpa qual s)
    accesses-Confined = (handle_apic_access-Confined, handle_ioapic_access-Confined)
