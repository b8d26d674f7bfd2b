-- ===== src/Tests/Mmio.antt =====
-- A guest at 0x10010, whose page is at 0x7000, that uses the I/O APIC: MOV [RDI], EAX; MOV [RDI], ECX;
-- MOV EDX, [RDI].
use bedrock.Base.{
  ℕ, zero, suc, ◌+◌, ◌^◌, ◌<◌, ◌≡◌, inl, refl, sym, ap, ◌∙◌, true, false, Option, none, some, List,
  [], ◌∷◌, length, get_or, match_key, arith,
}
use bedrock.Base.Result.{ok}
use bedrock.Apic.{default_apic}
use bedrock.IoApic.{default_ioapic}
use bedrock.Cow.{page_aligned, contains, find}
use bedrock.Decoder
use bedrock.Decoder.{
  DecodedInstruction, decode_instruction, skip_prefixes, is_ignored_prefix, from_byte, take_rex,
  next_byte, opcode_arm, modrm_arm, modrm_operand, modrm_displacement_length, sib_length, sib_bytes,
  add_displacement, displacement_size, after_prefixes,
}
use bedrock.Memory.{pml4_index, pdpt_index, pd_index, pt_index}
use bedrock.GuestPaging.{translate_gva_to_gpa, in_pdpt, in_pd, in_pt, page_4k}
use bedrock.Registers.{get_gpr_value}
use bedrock.Forked.{ForkedVm, read_page}
use bedrock.Mmio.{
  MmioState, ExitHandlerResult, continue_guest, exit_to_userspace, reason_pool_exhausted,
  qualification, is_pebs_induced, fetch, fetch_at, decode_fetched, fetched, read_entry,
  handle_apic_access, handle_ioapic_access, advance, ioapic_effect,
}
use bedrock.Mmio.Instruction.{IsMemory, IsAt, guest_byte, fetch-IsAt}
use bedrock.Mmio.Access.{Confined}
use bedrock.Mmio.Handlers.{accesses-Confined}
use bedrock.Mmio.Window.{access, iowin_gpa, after_select, after_store, window_program}
use bedrock.Mmio.Violation.{violation, retry, unbacked_write}
use bedrock.Tests.Ept.{counter}
use bedrock.Tests.Forked.{pages, child}

-- The bytes that are not 0: the entries of the page tables, then the code.
abbrev byte : ℕ → ℕ
byte a =
    match_key a
      ((0x1000, 0x03)
        ∷ (0x1001, 0x20)
        ∷ (0x2000, 0x03)
        ∷ (0x2001, 0x30)
        ∷ (0x3000, 0x03)
        ∷ (0x3001, 0x40)
        ∷ (0x4080, 0x03)
        ∷ (0x4081, 0x70)
        ∷ (0x7010, 0x89)
        ∷ (0x7011, 0x07)
        ∷ (0x7012, 0x89)
        ∷ (0x7013, 0x0F)
        ∷ (0x7014, 0x8B)
        ∷ (0x7015, 0x17)
        ∷ [])
      0

abbrev bytes_at : ℕ → ℕ → List ℕ
bytes_at p zero = []
bytes_at p (suc n) = byte p ∷ bytes_at (p + 1) n

abbrev guest_memory : ℕ → ℕ → Option (List ℕ)
guest_memory p n = some (bytes_at p n)

length-bytes_at : (p n : ℕ) → length (bytes_at p n) ≡ n
length-bytes_at p zero = refl
length-bytes_at p (suc n) = ap suc (length-bytes_at (p + 1) n)

get_or-bytes_at : (p n i : ℕ) → i < n → get_or (bytes_at p n) i 0 ≡ byte (p + i)
get_or-bytes_at p zero i h = absurd (omega arith)
get_or-bytes_at p (suc n) zero h = let e : p + 0 ≡ p = omega arith in ap byte (sym e)
get_or-bytes_at p (suc n) (suc i) h =
    let e : p + 1 + i ≡ p + suc i = omega arith in
    get_or-bytes_at (p + 1) n i (omega (arith, h)) ∙ ap byte e

guest_memory-IsMemory : IsMemory guest_memory (λ a. some (byte a))
guest_memory-IsMemory = record {
  sized = λ p n bytes e.
      let same : bytes_at p n ≡ bytes = cc in ap length (sym same) ∙ length-bytes_at p n;
  in_order = λ p n bytes e i h.
      let same : bytes_at p n ≡ bytes = cc in
      ap some (sym (get_or-bytes_at p n i h) ∙ ap (λ (l : List ℕ). get_or l i 0) same);
}

-- EAX selects the high half of entry 9, which ECX gives.
abbrev guest : MmioState
guest = record {
  guest_rip = 0x1_0010;
  rip_readable = true;
  rip_writable = true;
  guest_cr3 = some 0x1000;
  gprs = λ i. match_key i ((0, 35) ∷ (1, 7) ∷ []) 0;
  emulated_tsc = 500;
  apic = default_apic;
  ioapic = default_ioapic;
}

abbrev instruction : Decoder.MemoryOperation → ℕ → DecodedInstruction
instruction operation register = record {
  length = 2;
  operation = operation;
  register = register;
  operand_size = 4;
}

store_code : decode_instruction (0x89 ∷ 0x07 ∷ []) ≡ ok (instruction Decoder.store 0)
unfolding decode_instruction skip_prefixes is_ignored_prefix from_byte take_rex next_byte opcode_arm
    modrm_arm modrm_operand modrm_displacement_length sib_length sib_bytes add_displacement
    displacement_size after_prefixes
store_code = refl

guest_page : translate_gva_to_gpa (some 0x1000) (read_entry guest_memory) 0x1_0010 ≡ some 0x7010
unfolding translate_gva_to_gpa in_pdpt in_pd in_pt page_4k pml4_index pdpt_index pd_index pt_index
guest_page = refl

store_there :
    (i : ℕ)
    → i < 2
    → guest_byte guest_memory (λ a. some (byte a)) guest (0x1_0010 + i)
      ≡ some (get_or (0x89 ∷ 0x07 ∷ []) i 0)
unfolding translate_gva_to_gpa in_pdpt in_pd in_pt page_4k pml4_index pdpt_index pd_index pt_index
store_there zero h = refl
store_there (suc zero) h = refl
store_there (suc (suc i)) h = absurd (omega arith)

fetch-IsAt_example : fetch guest_memory guest ≡ fetched (instruction Decoder.store 0)
fetch-IsAt_example =
    fetch-IsAt guest_memory (λ a. some (byte a)) guest_memory-IsMemory guest (0x89 ∷ 0x07 ∷ [])
      (instruction Decoder.store 0) guest_at 0x7010 (bytes_at 0x7010 15) refl guest_page refl
  where
    guest_at :
        IsAt guest_memory
          (λ a. some (byte a))
          guest
          (0x89 ∷ 0x07 ∷ [])
          (instruction Decoder.store 0)
    guest_at = record {
      decodes = store_code;
      code_lt = omega arith;
      length_le = omega arith;
      there = store_there;
      inside = omega arith;
    }

accesses-Confined_example :
    Confined guest_memory guest
      (handle_apic_access guest_memory 0xFEE0_00B0 (qualification 2) guest)
    × Confined guest_memory guest
        (handle_ioapic_access guest_memory 0xFEE0_00B0 (qualification 2) guest)
accesses-Confined_example =
    accesses-Confined guest_memory (λ a. some (byte a)) guest_memory-IsMemory 0xFEE0_00B0
      (qualification 2) guest

store_is_write : (qualification 2).read ≡ false
unfolding qualification
store_is_write = refl

store_writes : (qualification 2).write ≡ true
unfolding qualification
store_writes = refl

load_reads : (qualification 1).read ≡ true
unfolding qualification
load_reads = refl

first_fetch : fetch guest_memory guest ≡ fetched (instruction Decoder.store 0)
unfolding fetch fetch_at decode_fetched decode_instruction skip_prefixes is_ignored_prefix from_byte
    take_rex next_byte opcode_arm modrm_arm modrm_operand modrm_displacement_length sib_length
    sib_bytes add_displacement displacement_size after_prefixes translate_gva_to_gpa in_pdpt in_pd
    in_pt page_4k pml4_index pdpt_index pd_index pt_index
first_fetch = refl

abbrev selected : MmioState
selected =
    after_select guest_memory (qualification 1) (qualification 2) load_reads store_is_write
      store_writes guest (instruction Decoder.store 0) (instruction Decoder.store 1)
      (instruction Decoder.load 2)

second_fetch : fetch guest_memory selected ≡ fetched (instruction Decoder.store 1)
unfolding fetch fetch_at decode_fetched decode_instruction skip_prefixes is_ignored_prefix from_byte
    take_rex next_byte opcode_arm modrm_arm modrm_operand modrm_displacement_length sib_length
    sib_bytes add_displacement displacement_size after_prefixes translate_gva_to_gpa in_pdpt in_pd
    in_pt page_4k pml4_index pdpt_index pd_index pt_index handle_ioapic_access advance ioapic_effect
    qualification
second_fetch = refl

abbrev stored : MmioState
stored =
    after_store guest_memory (qualification 1) (qualification 2) load_reads store_is_write
      store_writes guest (instruction Decoder.store 0) (instruction Decoder.store 1)
      (instruction Decoder.load 2)

third_fetch : fetch guest_memory stored ≡ fetched (instruction Decoder.load 2)
unfolding fetch fetch_at decode_fetched decode_instruction skip_prefixes is_ignored_prefix from_byte
    take_rex next_byte opcode_arm modrm_arm modrm_operand modrm_displacement_length sib_length
    sib_bytes add_displacement displacement_size after_prefixes translate_gva_to_gpa in_pdpt in_pd
    in_pt page_4k pml4_index pdpt_index pd_index pt_index handle_ioapic_access advance ioapic_effect
    qualification
third_fetch = refl

eax : get_gpr_value guest.gprs 0 ≡ 35
unfolding get_gpr_value
eax = refl

ecx : get_gpr_value guest.gprs 1 ≡ 7
unfolding get_gpr_value
ecx = refl

masked : (i : ℕ) → guest.ioapic.redtbl i < 2 ^ 64
unfolding default_ioapic
masked i = omega arith

window_program_example :
    let (r, t) = access guest_memory iowin_gpa (qualification 1) stored in
    (r ≡ continue_guest) × (get_gpr_value t.gprs 2 ≡ 7) × (t.guest_rip ≡ 0x1_0010 + 2 + 2 + 2)
window_program_example =
    window_program guest_memory (qualification 1) (qualification 2) load_reads store_is_write
      store_writes guest (instruction Decoder.store 0) (instruction Decoder.store 1)
      (instruction Decoder.load 2) 35 7 (omega arith) (omega arith) (omega arith) masked refl
      (omega arith) eax ecx (omega arith) first_fetch second_fetch third_fetch

beyond : contains child.cow_pages (page_aligned 70000) ≡ false
unfolding contains find
beyond = refl

no_parent : read_page child.parent (page_aligned 70000) ≡ none
unfolding read_page page_aligned
no_parent = refl

plain_write : is_pebs_induced (qualification 2) ≡ false
unfolding is_pebs_induced qualification
plain_write = refl

unwritable : (qualification 2).writable ≡ false
unfolding qualification
unwritable = refl

abbrev no_memory : ForkedVm counter → ℕ → ℕ → Option (List ℕ)
no_memory w p n = none

abbrev no_handler : MmioState × ForkedVm counter → ExitHandlerResult × MmioState × ForkedVm counter
no_handler (s, w) = (continue_guest, s, w)

unbacked_write_example :
    (violation counter pages true no_memory no_handler
      (λ s. 0)
      70000
      (qualification 2)
      (retry counter pages true no_memory no_handler
        (λ s. 0)
        70000
        (qualification 2)
        5
        (guest, child))).0
    ≡ exit_to_userspace reason_pool_exhausted
unbacked_write_example =
    unbacked_write counter pages true no_memory no_handler (λ s. 0) 70000 (qualification 2)
      (inl (omega arith)) (inl (omega arith)) plain_write store_writes unwritable 5 guest child
      (beyond, no_parent)
