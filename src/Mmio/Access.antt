-- ===== src/Mmio/Access.antt =====
-- An access to an APIC register changes what the instruction names, and nothing else.
use bedrock.Base.{
  ℕ, ◌+◌, ◌≤◌, ◌≡◌, ◌≢◌, ◌⊎◌, inl, inr, refl, ap, Words, Option, List, u64, if-cases, arith,
}
use bedrock.Apic.{ApicState, read_apic_register}
use bedrock.IoApic.{IoApicState, ioapic_read}
use bedrock.Decoder.{DecodedInstruction}
use bedrock.Registers.{set_gpr_value}
use bedrock.Mmio.{
  MmioState, ExitHandlerResult, continue_guest, EptViolationQualification, fetched, fetch, advance,
  apic_effect, ioapic_effect,
}

-- What an access may do: it goes on exactly when RIP has passed the instruction that is fetched, it stays
-- where it is otherwise, and it changes no more than one general register and one device.
pub record Confined (read_guest_memory : ℕ → ℕ → Option (List ℕ)) (s : MmioState)
    (out : ExitHandlerResult × MmioState) : Type 0 where
  pub rip :
      ((out.0 ≡ continue_guest)
        × ((d : DecodedInstruction) × (fetch read_guest_memory s ≡ fetched d)
            × (d.length ≤ 15)
            × (out.1.guest_rip ≡ u64 (s.guest_rip + d.length))))
      ⊎ ((out.0 ≢ continue_guest) × (out.1.guest_rip ≡ s.guest_rip))
  pub time : out.1.emulated_tsc ≡ s.emulated_tsc
  pub cr3 : out.1.guest_cr3 ≡ s.guest_cr3
  pub one_register : (r : ℕ) × ((i : ℕ) → i ≢ r → out.1.gprs i ≡ s.gprs i)
  pub reads_write_no_device :
      (out.1.gprs ≡ s.gprs) ⊎ ((out.1.apic ≡ s.apic) × (out.1.ioapic ≡ s.ioapic))

-- A change of the state that keeps RIP and the rest, for either device.
pub record Effect (s : MmioState) (t : MmioState) : Type 0 where
  rip : t.guest_rip ≡ s.guest_rip
  writable : t.rip_writable ≡ s.rip_writable
  time : t.emulated_tsc ≡ s.emulated_tsc
  cr3 : t.guest_cr3 ≡ s.guest_cr3
  one_register : (r : ℕ) × ((i : ℕ) → i ≢ r → t.gprs i ≡ s.gprs i)
  reads_write_no_device : (t.gprs ≡ s.gprs) ⊎ ((t.apic ≡ s.apic) × (t.ioapic ≡ s.ioapic))

Effect-refl : (s : MmioState) → Effect s s
Effect-refl s = record {
  rip = refl;
  writable = refl;
  time = refl;
  cr3 = refl;
  one_register = (0, λ i n. refl);
  reads_write_no_device = inl refl;
}

set_other : (gprs : Words) (r value i : ℕ) → i ≢ r → set_gpr_value gprs r value i ≡ gprs i
unfolding set_gpr_value
set_other gprs r value i h = ground (arith, h)

read-Effect :
    (s : MmioState) (r value : ℕ) → Effect s (record s { gprs = set_gpr_value s.gprs r value })
read-Effect s r value = record {
  rip = refl;
  writable = refl;
  time = refl;
  cr3 = refl;
  one_register = (r, λ i n. set_other s.gprs r value i n);
  reads_write_no_device = inr (refl, refl);
}

device-Effect :
    (s : MmioState) (apic : ApicState) (ioapic : IoApicState)
    → Effect s (record s { apic = apic; ioapic = ioapic })
device-Effect s apic ioapic = record {
  rip = refl;
  writable = refl;
  time = refl;
  cr3 = refl;
  one_register = (0, λ i n. refl);
  reads_write_no_device = inl refl;
}

pub apic_effect-Effect :
    (offset : ℕ) (qual : EptViolationQualification) (d : DecodedInstruction) (s : MmioState)
    → Effect s (apic_effect offset qual d s)
unfolding apic_effect
apic_effect-Effect offset qual d s =
    if-cases (Effect s) qual.read (λ y. read-Effect s d.register (read_apic_register s.apic offset))
      (λ n. if-cases (Effect s) qual.write (λ y. device-Effect s _ s.ioapic) (λ m. Effect-refl s))

pub ioapic_effect-Effect :
    (offset : ℕ) (qual : EptViolationQualification) (d : DecodedInstruction) (s : MmioState)
    → Effect s (ioapic_effect offset qual d s)
unfolding ioapic_effect
ioapic_effect-Effect offset qual d s =
    if-cases (Effect s) qual.read (λ y. read-Effect s d.register (ioapic_read s.ioapic offset))
      (λ n. if-cases (Effect s) qual.write (λ y. device-Effect s s.apic _) (λ m. Effect-refl s))

pub advance-Confined :
    (read_guest_memory : ℕ → ℕ → Option (List ℕ)) (d : DecodedInstruction) (s t : MmioState)
    → fetch read_guest_memory s ≡ fetched d
    → d.length ≤ 15
    → Effect s t
    → Confined read_guest_memory s (advance d t)
unfolding advance
advance-Confined read_guest_memory d s t f h e =
    if-cases (Confined read_guest_memory s) t.rip_writable
      (λ y. record {
        rip = inl (refl, (d, f, h, ap (λ (x : ℕ). u64 (x + d.length)) e.rip));
        time = e.time;
        cr3 = e.cr3;
        one_register = e.one_register;
        reads_write_no_device = e.reads_write_no_device;
      })
      (λ n. record {
        rip = inr (λ c. cc, e.rip);
        time = e.time;
        cr3 = e.cr3;
        one_register = e.one_register;
        reads_write_no_device = e.reads_write_no_device;
      })

pub stopped-Confined :
    (read_guest_memory : ℕ → ℕ → Option (List ℕ)) (r : ExitHandlerResult) (s : MmioState)
    → r ≢ continue_guest
    → Confined read_guest_memory s (r, s)
stopped-Confined read_guest_memory r s h = record {
  rip = inr (h, refl);
  time = refl;
  cr3 = refl;
  one_register = (0, λ i n. refl);
  reads_write_no_device = inl refl;
}
