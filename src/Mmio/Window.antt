-- ===== src/Mmio/Window.antt =====
-- A guest that writes a redirection entry and reads it back, by three instructions.
use bedrock.Base.{
  ℕ, ◌+◌, ◌-◌, ◌^◌, ◌<◌, ◌≤◌, ◌≡◌, refl, ap, ◌∙◌, true, false, Option, List, u32, u64, ◌==◌, eq→==,
  arith,
}
use mathlib.Core.Path.{subst}
use bedrock.IoApic.{ioapic_read, ioapic_write}
use bedrock.IoApic.Window.{redirection_round_trip}
use bedrock.Decoder.{DecodedInstruction}
use bedrock.Registers.{get_gpr_value, set_gpr_value}
use bedrock.Registers.Laws.{get_gpr_value-set_gpr_value}
use bedrock.Mmio.{
  MmioState, ExitHandlerResult, continue_guest, EptViolationQualification, fetched, advance,
  ioapic_effect, fetch, handle_ioapic_access, ioapic_base,
}

-- `IOREGSEL` and `IOWIN`.
abbrev pub ioregsel_gpa : ℕ
ioregsel_gpa = 0xFEC0_0000

abbrev pub iowin_gpa : ℕ
iowin_gpa = 0xFEC0_0010

module _ (read_guest_memory : ℕ → ℕ → Option (List ℕ)) where
  abbrev pub access : ℕ → EptViolationQualification → MmioState → ExitHandlerResult × MmioState
  access = handle_ioapic_access read_guest_memory

  -- The state after an instruction that was run.
  abbrev past : DecodedInstruction → MmioState → MmioState
  past d t = record t { guest_rip = u64 (t.guest_rip + d.length) }

  written :
      (gpa : ℕ) (qual : EptViolationQualification) (s : MmioState) (d : DecodedInstruction)
      → fetch read_guest_memory s ≡ fetched d
      → s.rip_writable ≡ true
      → qual.read ≡ false
      → qual.write ≡ true
      → access gpa qual s ≡ (
        continue_guest,
        past d (record s {
          ioapic =
              ioapic_write s.ioapic
                (u32 (gpa - ioapic_base))
                (u32 (get_gpr_value s.gprs d.register));
        }),
      )
  unfolding handle_ioapic_access advance ioapic_effect
  written gpa qual s d f w r q = rw (handle_ioapic_access, f, ioapic_effect, r, q, advance, w) refl

  read_back :
      (gpa : ℕ) (qual : EptViolationQualification) (s : MmioState) (d : DecodedInstruction)
      → fetch read_guest_memory s ≡ fetched d
      → s.rip_writable ≡ true
      → qual.read ≡ true
      → access gpa qual s ≡ (
        continue_guest,
        past d (record s {
          gprs = set_gpr_value s.gprs d.register (ioapic_read s.ioapic (u32 (gpa - ioapic_base)));
        }),
      )
  unfolding handle_ioapic_access advance ioapic_effect
  read_back gpa qual s d f w r = rw (handle_ioapic_access, f, ioapic_effect, r, advance, w) refl

  module _ (load_qual store_qual : EptViolationQualification) (load_reads : load_qual.read ≡ true)
      (store_reads_not : store_qual.read ≡ false) (store_writes : store_qual.write ≡ true)
      (s : MmioState) (d₀ d₁ d₂ : DecodedInstruction) where
    abbrev pub after_select : MmioState
    after_select = (access ioregsel_gpa store_qual s).1

    abbrev pub after_store : MmioState
    after_store = (access iowin_gpa store_qual after_select).1

    -- A guest that stores the index of a redirection register into IOREGSEL and a value into IOWIN, and
    -- loads IOWIN, goes on behind the three instructions with the value in the register it loads to. RIP can
    -- be written and stays below 2^64, the value has 32 bits and the entries have 64; the instructions are
    -- those that are fetched in each state, and the last one names one of the 16 registers.
    pub window_program :
        (reg value : ℕ)
        → 16 ≤ reg
        → reg < 64
        → value < 2 ^ 32
        → ((i : ℕ) → s.ioapic.redtbl i < 2 ^ 64)
        → s.rip_writable ≡ true
        → s.guest_rip + d₀.length + d₁.length + d₂.length < 2 ^ 64
        → get_gpr_value s.gprs d₀.register ≡ reg
        → get_gpr_value s.gprs d₁.register ≡ value
        → d₂.register < 16
        → fetch read_guest_memory s ≡ fetched d₀
        → fetch read_guest_memory after_select ≡ fetched d₁
        → fetch read_guest_memory after_store ≡ fetched d₂
        → let (r, t) = access iowin_gpa load_qual after_store in
          (r ≡ continue_guest)
          × (get_gpr_value t.gprs d₂.register ≡ value)
          × (t.guest_rip ≡ s.guest_rip + d₀.length + d₁.length + d₂.length)
    window_program reg value lo hi v entries w room g₀ g₁ low f₀ f₁ f₂ =
        let reg_u32 : u32 (get_gpr_value s.gprs d₀.register) ≡ reg = omega (arith, g₀, hi) in
        let value_u32 : u32 (get_gpr_value s.gprs d₁.register) ≡ value = omega (arith, g₁, v) in
        let s₁ : MmioState = past d₀ (record s { ioapic = ioapic_write s.ioapic 0 reg }) in
        let e₁ : after_select ≡ s₁ =
          ap (λ r. r.1) (written ioregsel_gpa store_qual s d₀ f₀ w store_reads_not store_writes)
          ∙ ap (λ (x : ℕ). past d₀ (record s { ioapic = ioapic_write s.ioapic 0 x })) reg_u32 in
        let s₂ : MmioState = past d₁ (record s₁ { ioapic = ioapic_write s₁.ioapic 16 value }) in
        let h₁ : fetch read_guest_memory s₁ ≡ fetched d₁ =
          subst (λ t. fetch read_guest_memory t ≡ fetched d₁) e₁ f₁ in
        let e₂ : after_store ≡ s₂ =
          ap (λ t. (access iowin_gpa store_qual t).1) e₁
          ∙ ap (λ r. r.1) (written iowin_gpa store_qual s₁ d₁ h₁ w store_reads_not store_writes)
          ∙ ap (λ (x : ℕ). past d₁ (record s₁ { ioapic = ioapic_write s₁.ioapic 16 x }))
              value_u32 in
        let h₂ : fetch read_guest_memory s₂ ≡ fetched d₂ =
          subst (λ t. fetch read_guest_memory t ≡ fetched d₂) e₂ f₂ in
        let e₃ =
          ap (access iowin_gpa load_qual) e₂
          ∙ read_back iowin_gpa load_qual s₂ d₂ h₂ w load_reads in
        let shown = (redirection_round_trip s.ioapic reg value lo hi v entries).0 in
        rw e₃ (
          refl,
          get_gpr_value-set_gpr_value s.gprs d₂.register d₂.register _ low low
              ∙ (let t : (d₂.register == d₂.register) ≡ true = eq→== d₂.register d₂.register refl in
                  rw t shown),
          omega (arith, room),
        )
