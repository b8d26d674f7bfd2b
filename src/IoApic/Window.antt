-- ===== src/IoApic/Window.antt =====
-- The register window of the I/O APIC: what is written is read back.
use bedrock.Base.{
  ℕ, ◌+◌, ◌-◌, ◌*◌, ◌/◌, ◌%◌, ◌^◌, ◌≤◌, ◌<◌, ◌==◌, ◌≡◌, refl, sym, ap, ◌∙◌, bit_and, bit_or, store,
  shl, shr, u32, ltb, leb, ◌||◌, ◌&&◌, if◌then◌else◌, arith, true, false, eq→==,
}
use bedrock.Base.Bits.Digit.{test_bit-or, bit_or-lt, eq_of_bits}
use bedrock.Base.Bits.Field.{bit_and_low, bit_and_field, bit_or_sum}
use bedrock.IoApic.{
  IoApicState, read_ioapic_register, write_ioapic_register, ioapic_read, ioapic_write,
}

bit_or_comm : (w a b : ℕ) → a < 2 ^ w → b < 2 ^ w → bit_or a b ≡ bit_or b a
bit_or_comm w a b h k =
    eq_of_bits w _ _ (bit_or-lt w a b h k) (bit_or-lt w b a k h)
      (λ i. test_bit-or a b i ∙ omega arith ∙ sym (test_bit-or b a i))

-- The new entry after a write of its high word, and of its low word.
high_half :
    (entry value : ℕ)
    → value < 2 ^ 32
    → bit_or (bit_and entry 4294967295) (shl 64 value 32) ≡ value * 2 ^ 32 + entry % 2 ^ 32
high_half entry value k =
    let low : bit_and entry 4294967295 ≡ entry % 2 ^ 32 = bit_and_low 32 entry in
    let high : shl 64 value 32 ≡ value * 2 ^ 32 = omega arith in
    ap (λ (t : ℕ). bit_or t (shl 64 value 32)) low
    ∙ ap (bit_or (entry % 2 ^ 32)) high
    ∙ bit_or_comm 64 (entry % 2 ^ 32) (value * 2 ^ 32) (omega arith) (omega arith)
    ∙ bit_or_sum 32 value (entry % 2 ^ 32) (omega arith)

low_half :
    (entry value : ℕ)
    → entry < 2 ^ 64
    → value < 2 ^ 32
    → bit_or (bit_and entry 18446744069414584320) value ≡ entry / 2 ^ 32 * 2 ^ 32 + value
low_half entry value h k =
    let high : bit_and entry 18446744069414584320 ≡ entry / 2 ^ 32 * 2 ^ 32 =
      bit_and_field 32 32 entry ∙ omega arith in
    ap (λ (t : ℕ). bit_or t value) high ∙ bit_or_sum 32 (entry / 2 ^ 32) value k

-- What a write of a half makes of an entry.
abbrev pub with_half : ℕ → ℕ → ℕ → ℕ
with_half reg entry value =
    if (reg - 16) % 2 == 1 then value * 2 ^ 32 + entry % 2 ^ 32 else entry / 2 ^ 32 * 2 ^ 32 + value

write_entry :
    (ioapic : IoApicState) (value : ℕ)
    → 16 ≤ ioapic.ioregsel
    → ioapic.ioregsel < 64
    → value < 2 ^ 32
    → ((i : ℕ) → ioapic.redtbl i < 2 ^ 64)
    → write_ioapic_register ioapic value ≡ record ioapic {
      redtbl =
          store ioapic.redtbl
            ((ioapic.ioregsel - 16) / 2)
            (with_half ioapic.ioregsel (ioapic.redtbl ((ioapic.ioregsel - 16) / 2)) value);
    }
unfolding write_ioapic_register
write_entry ioapic value lo hi v w =
    let reg = ioapic.ioregsel in
    let entry = ioapic.redtbl ((reg - 16) / 2) in
    let a : (reg == 0) ≡ false = ground arith in
    let b : (reg == 1 || reg == 2) ≡ false = ground arith in
    let c : (leb 16 reg && ltb reg (16 + 48)) ≡ true = ground arith in
    let d : ltb ((reg - 16) / 2) 24 ≡ true = ground arith in
    rw (a, b, c, d, high_half entry value v, low_half entry value (w _) v) refl

read_entry :
    (ioapic : IoApicState)
    → 16 ≤ ioapic.ioregsel
    → ioapic.ioregsel < 64
    → read_ioapic_register ioapic ≡ (
        if (ioapic.ioregsel - 16) % 2 == 1
        then u32 (shr (ioapic.redtbl ((ioapic.ioregsel - 16) / 2)) 32)
        else u32 (ioapic.redtbl ((ioapic.ioregsel - 16) / 2)))
unfolding read_ioapic_register
read_entry ioapic lo hi =
    let reg = ioapic.ioregsel in
    let a : (reg == 0 || reg == 2) ≡ false = ground arith in
    let b : (reg == 1) ≡ false = ground arith in
    let c : (leb 16 reg && ltb reg (16 + 48)) ≡ true = ground arith in
    let d : ltb ((reg - 16) / 2) 24 ≡ true = ground arith in rw (a, b, c, d) refl

-- A redirection register that is written through the window is read back as written, and the other half
-- of its entry is kept. `reg` is one of the 48 redirection registers, the value has 32 bits and the
-- entries have 64.
pub redirection_round_trip :
    (ioapic : IoApicState) (reg value : ℕ)
    → 16 ≤ reg
    → reg < 64
    → value < 2 ^ 32
    → ((i : ℕ) → ioapic.redtbl i < 2 ^ 64)
    → (ioapic_read (ioapic_write (ioapic_write ioapic 0 reg) 16 value) 16 ≡ value)
      × ((ioapic_write (ioapic_write ioapic 0 reg) 16 value).redtbl ((reg - 16) / 2)
          ≡ with_half reg (ioapic.redtbl ((reg - 16) / 2)) value)
unfolding ioapic_read ioapic_write
redirection_round_trip ioapic reg value lo hi v w =
    let selected = record ioapic { ioregsel = reg } in
    let i = (reg - 16) / 2 in
    let half = with_half reg (ioapic.redtbl i) value in
    let written = record selected { redtbl = store ioapic.redtbl i half } in
    let e : write_ioapic_register selected value ≡ written = write_entry selected value lo hi v w in
    let here : store ioapic.redtbl i half i ≡ half =
      ap (λ t. if t then half else ioapic.redtbl i) (eq→== i i refl) in
    (
      ap read_ioapic_register e
          ∙ read_entry written lo hi
          ∙ ap (λ (x : ℕ). if (reg - 16) % 2 == 1 then u32 (shr x 32) else u32 x) here
          ∙ ground arith,
      ap (λ (s : IoApicState). s.redtbl i) e ∙ here,
    )
