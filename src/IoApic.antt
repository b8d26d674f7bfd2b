-- ===== src/IoApic.antt =====
-- The I/O APIC: crates/bedrock-vmx/src/devices/ioapic.rs and its register window in
-- crates/bedrock-vmx/src/exits/apic.rs.
pub mod Window
use bedrock.Base.{
  ℕ, ◌+◌, ◌-◌, ◌*◌, ◌/◌, ◌%◌, ◌^◌, ◌==◌, ◌&&◌, ◌||◌, bit_and, bit_or, Words, store, shl, shr, u32,
  leb, ltb, if◌then◌else◌,
}

abbrev pub ioapic_num_pins : ℕ
ioapic_num_pins = 24

abbrev redtbl_base : ℕ
redtbl_base = 16

pub record IoApicState : Type 0 where
  pub ioregsel : ℕ
  pub id : ℕ
  pub redtbl : Words

-- All the pins are masked.
unfoldable pub default_ioapic : IoApicState
default_ioapic = record { ioregsel = 0; id = 0; redtbl = λ i. 2 ^ 16 }

unfoldable pub read_ioapic_register : IoApicState → ℕ
read_ioapic_register ioapic =
    let reg = ioapic.ioregsel in
    let entry_idx = (reg - redtbl_base) / 2 in
    let entry = ioapic.redtbl entry_idx in
    let half = if (reg - redtbl_base) % 2 == 1 then u32 (shr entry 32) else u32 entry in
    if reg == 0 || reg == 2
    then ioapic.id
    else (if reg == 1
        then 1507360
        else (if leb redtbl_base reg && ltb reg (redtbl_base + 48)
            then (if ltb entry_idx ioapic_num_pins then half else 0)
            else 0))

unfoldable pub write_ioapic_register : IoApicState → ℕ → IoApicState
write_ioapic_register ioapic value =
    let reg = ioapic.ioregsel in
    let entry_idx = (reg - redtbl_base) / 2 in
    let entry = ioapic.redtbl entry_idx in
    let high = bit_or (bit_and entry 4294967295) (shl 64 value 32) in
    let low = bit_or (bit_and entry 18446744069414584320) value in
    let new_entry = if (reg - redtbl_base) % 2 == 1 then high else low in
    if reg == 0
    then record ioapic { id = bit_and value 251658240 }
    else (if reg == 1 || reg == 2
        then ioapic
        else (if leb redtbl_base reg && ltb reg (redtbl_base + 48)
            then (if ltb entry_idx ioapic_num_pins
                then record ioapic { redtbl = store ioapic.redtbl entry_idx new_entry }
                else ioapic)
            else ioapic))

-- `offset` is 0x00 for IOREGSEL and 0x10 for IOWIN.
unfoldable pub ioapic_read : IoApicState → ℕ → ℕ
ioapic_read ioapic offset =
    if offset == 0
    then ioapic.ioregsel
    else (if offset == 16 then read_ioapic_register ioapic else 0)

unfoldable pub ioapic_write : IoApicState → ℕ → ℕ → IoApicState
ioapic_write ioapic offset value =
    if offset == 0
    then record ioapic { ioregsel = value }
    else (if offset == 16 then write_ioapic_register ioapic value else ioapic)
