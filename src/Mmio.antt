-- ===== src/Mmio.antt =====
-- Exits on a violation of the EPT: `handle_ept_violation` of crates/bedrock-vmx/src/exits/ept.rs, with the
-- accesses to the local APIC and the I/O APIC that crates/bedrock-vmx/src/exits/apic.rs emulates. Of the
-- VM's state it has what these handlers read and change; a field of the VMCS may refuse an access. The
-- trait `VmContext` with its guest memory, and PEBS, are parameters. Log messages are left out, as is the
-- text of a fatal error.
pub mod Instruction
pub mod Access
pub mod Handlers
pub mod Window
pub mod Violation
use bedrock.Base.{
  ℕ, ◌+◌, ◌-◌, ◌^◌, ◌%◌, ◌==◌, ◌&&◌, Bool, true, false, not, Option, none, some, List, Words,
  bit_and, leb, ltb, if◌then◌else◌, u32, u64,
}
use bedrock.Base.Bytes.{from_le}
use bedrock.Base.Result.{Result, ok, err}
use bedrock.Apic.{ApicState, read_apic_register, write_apic_register}
use bedrock.IoApic.{IoApicState, ioapic_read, ioapic_write}
use bedrock.Decoder.{DecodedInstruction, DecodeError, decode_instruction}
use bedrock.GuestPaging.{translate_gva_to_gpa}
use bedrock.Registers.{get_gpr_value, set_gpr_value}

abbrev pub apic_base : ℕ
apic_base = 0xFEE0_0000

abbrev pub apic_size : ℕ
apic_size = 0x1000

abbrev pub ioapic_base : ℕ
ioapic_base = 0xFEC0_0000

abbrev pub ioapic_size : ℕ
ioapic_size = 0x1000

-- `ExitReason`, by its number.
abbrev pub reason_ept_violation : ℕ
reason_ept_violation = 48

abbrev pub reason_pool_exhausted : ℕ
reason_pool_exhausted = 262

pub data ExitHandlerResult : Type 0 where
  continue_guest : ExitHandlerResult
  exit_to_userspace : ℕ → ExitHandlerResult
  vmcs_read_error fatal : ExitHandlerResult

pub record EptViolationQualification : Type 0 where
  pub read : Bool
  pub write : Bool
  pub execute : Bool
  pub readable : Bool
  pub writable : Bool
  pub executable : Bool
  pub guest_linear_valid : Bool
  pub asynchronous : Bool

abbrev bit_set : ℕ → ℕ → Bool
bit_set q i = not (bit_and q (2 ^ i) == 0)

unfoldable pub qualification : ℕ → EptViolationQualification
qualification qual = record {
  read = bit_set qual 0;
  write = bit_set qual 1;
  execute = bit_set qual 2;
  readable = bit_set qual 3;
  writable = bit_set qual 4;
  executable = bit_set qual 5;
  guest_linear_valid = bit_set qual 7;
  asynchronous = bit_set qual 16;
}

unfoldable pub is_pebs_induced : EptViolationQualification → Bool
is_pebs_induced qual = qual.asynchronous && qual.write

pub record MmioState : Type 0 where
  pub guest_rip : ℕ
  pub rip_readable : Bool
  pub rip_writable : Bool
  pub guest_cr3 : Option ℕ
  pub gprs : Words
  pub emulated_tsc : ℕ
  pub apic : ApicState
  pub ioapic : IoApicState

-- What the fetch of an instruction comes to, and the fields of the decoded one.
pub data Fetch : Type 0 where
  no_rip no_instruction : Fetch
  fetched : DecodedInstruction → Fetch

unfoldable pub decode_fetched : List ℕ → Fetch
decode_fetched instr_bytes = elim (decode_instruction instr_bytes) [
  | ok d ↦ fetched d
  | err e ↦ no_instruction
]

-- `rip + u64::from(decoded.length)`, written to the VMCS.
unfoldable pub advance : DecodedInstruction → MmioState → ExitHandlerResult × MmioState
advance d s =
    if s.rip_writable
    then (continue_guest, record s { guest_rip = u64 (s.guest_rip + d.length) })
    else (fatal, s)

unfoldable pub apic_effect :
    ℕ → EptViolationQualification → DecodedInstruction → MmioState → MmioState
apic_effect offset qual d s =
    if qual.read
    then record s { gprs = set_gpr_value s.gprs d.register (read_apic_register s.apic offset) }
    else (if qual.write
        then record s {
          apic =
              write_apic_register s.apic offset (u32 (get_gpr_value s.gprs d.register))
                s.emulated_tsc;
        }
        else s)

unfoldable pub ioapic_effect :
    ℕ → EptViolationQualification → DecodedInstruction → MmioState → MmioState
ioapic_effect offset qual d s =
    if qual.read
    then record s { gprs = set_gpr_value s.gprs d.register (ioapic_read s.ioapic offset) }
    else (if qual.write
        then record s {
          ioapic = ioapic_write s.ioapic offset (u32 (get_gpr_value s.gprs d.register));
        }
        else s)

module _ (read_guest_memory : ℕ → ℕ → Option (List ℕ)) where
  -- The eight bytes of an entry of the guest's page tables.
  abbrev pub read_entry : ℕ → Option ℕ
  read_entry gpa = elim (read_guest_memory gpa 8) [
    | none ↦ none
    | some bytes ↦ some (from_le bytes)
  ]

  -- The address and the bytes of the instruction at RIP, which both handlers fetch alike.
  unfoldable pub fetch_at : Option ℕ → Fetch
  fetch_at none = no_instruction
  fetch_at (some instr_gpa) = elim (read_guest_memory instr_gpa 15) [
    | none ↦ no_instruction
    | some instr_bytes ↦ decode_fetched instr_bytes
  ]

  unfoldable pub fetch : MmioState → Fetch
  fetch s =
      if s.rip_readable
      then fetch_at (translate_gva_to_gpa s.guest_cr3 read_entry s.guest_rip)
      else no_rip

  unfoldable pub handle_apic_access :
      ℕ → EptViolationQualification → MmioState → ExitHandlerResult × MmioState
  handle_apic_access gpa qual s = elim (fetch s) [
    | no_rip ↦ (vmcs_read_error, s)
    | no_instruction ↦ (exit_to_userspace reason_ept_violation, s)
    | fetched d ↦ advance d (apic_effect (u32 (gpa - apic_base)) qual d s)
  ]

  unfoldable pub handle_ioapic_access :
      ℕ → EptViolationQualification → MmioState → ExitHandlerResult × MmioState
  handle_ioapic_access gpa qual s = elim (fetch s) [
    | no_rip ↦ (vmcs_read_error, s)
    | no_instruction ↦ (fatal, s)
    | fetched d ↦ advance d (ioapic_effect (u32 (gpa - ioapic_base)) qual d s)
  ]

-- The VM as the handler knows it: its memory, with what reads it and what handles a copy-on-write fault,
-- and PEBS, over a memory of any type.
module _ {Memory : Type 0} (read_guest_memory : Memory → ℕ → ℕ → Option (List ℕ))
    (handle_cow_fault : ℕ → Memory → Bool × Memory)
    (handle_pebs_precise_exit : MmioState × Memory → ExitHandlerResult × MmioState × Memory) where
  abbrev pub beside :
      Memory → ExitHandlerResult × MmioState → ExitHandlerResult × MmioState × Memory
  beside m (r, s) = (r, s, m)

  -- `PoolExhausted` where the fault was not handled.
  abbrev pub cow_result : MmioState → Bool × Memory → ExitHandlerResult × MmioState × Memory
  cow_result s (true, m) = (continue_guest, s, m)
  cow_result s (false, m) = (exit_to_userspace reason_pool_exhausted, s, m)

  -- `guest_phys` is what the VMCS has of the address, 0 where it cannot be read.
  unfoldable pub handle_ept_violation :
      ℕ → EptViolationQualification → MmioState × Memory → ExitHandlerResult × MmioState × Memory
  handle_ept_violation guest_phys qual (s, m) =
      if is_pebs_induced qual
      then handle_pebs_precise_exit (s, m)
      else (if leb apic_base guest_phys && ltb guest_phys (apic_base + apic_size)
          then beside m (handle_apic_access (read_guest_memory m) guest_phys qual s)
          else (if leb ioapic_base guest_phys && ltb guest_phys (ioapic_base + ioapic_size)
              then beside m (handle_ioapic_access (read_guest_memory m) guest_phys qual s)
              else (if qual.write && not qual.writable
                  then cow_result s (handle_cow_fault guest_phys m)
                  else (exit_to_userspace reason_ept_violation, s, m))))
