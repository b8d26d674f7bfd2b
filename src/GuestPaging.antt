-- ===== src/GuestPaging.antt =====
-- The guest's own page tables: `translate_gva_to_gpa` and `translate_gva_range_to_gpas` of
-- crates/bedrock-vmx/src/exits/ept.rs. The VM's context is a parameter: the guest's CR3, which may not be
-- readable, and the eight bytes at a guest physical address as a number, where there is memory.
pub mod Pages
pub mod Range
use bedrock.Base.{
  ℕ, zero, suc, ◌+◌, ◌-◌, ◌*◌, ◌/◌, ◌^◌, ◌==◌, Bool, true, false, not, Option, none, some, List, [],
  ◌∷◌, bit_and, bit_or, bit_not, ltb, leb, if◌then◌else◌,
}
use bedrock.Memory.{pml4_index, pdpt_index, pd_index, pt_index}

-- The `?` operator on `Result<_, ()>`.
infixl 5 ◌>>=◌
abbrev pub ◌>>=◌ : {X Y : Type 0} → Option X → (X → Option Y) → Option Y
o >>= k = elim o [ none ↦ none | some x ↦ k x ]

abbrev pub address_mask : ℕ
address_mask = 0x000F_FFFF_FFFF_F000

-- The frame of an entry with the offset in a page of 4KB, 2MB or 1GB.
unfoldable pub page_4k : ℕ → ℕ → ℕ
page_4k pte gva = bit_or (bit_and pte address_mask) (bit_and gva 0xFFF)

unfoldable pub page_2m : ℕ → ℕ → ℕ
page_2m pde gva = bit_or (bit_and pde 0x000F_FFFF_FFE0_0000) (bit_and gva 0x1F_FFFF)

unfoldable pub page_1g : ℕ → ℕ → ℕ
page_1g pdpte gva = bit_or (bit_and pdpte 0x000F_FFFF_C000_0000) (bit_and gva 0x3FFF_FFFF)

module _ (guest_cr3 : Option ℕ) (read_guest_memory : ℕ → Option ℕ) where
  unfoldable pub in_pt : ℕ → ℕ → Option ℕ
  in_pt gva pt_addr = read_guest_memory (pt_addr + pt_index gva * 8) >>= λ pte.
      if bit_and pte 1 == 0 then none else some (page_4k pte gva)

  unfoldable pub in_pd : ℕ → ℕ → Option ℕ
  in_pd gva pd_addr = read_guest_memory (pd_addr + pd_index gva * 8) >>= λ pde.
      if bit_and pde 1 == 0
      then none
      else (if not (bit_and pde (2 ^ 7) == 0)
          then some (page_2m pde gva)
          else in_pt gva (bit_and pde address_mask))

  unfoldable pub in_pdpt : ℕ → ℕ → Option ℕ
  in_pdpt gva pdpt_addr = read_guest_memory (pdpt_addr + pdpt_index gva * 8) >>= λ pdpte.
      if bit_and pdpte 1 == 0
      then none
      else (if not (bit_and pdpte (2 ^ 7) == 0)
          then some (page_1g pdpte gva)
          else in_pd gva (bit_and pdpte address_mask))

  unfoldable pub translate_gva_to_gpa : ℕ → Option ℕ
  translate_gva_to_gpa gva = guest_cr3 >>= λ cr3.
      read_guest_memory (bit_and cr3 address_mask + pml4_index gva * 8) >>= λ pml4e.
      if bit_and pml4e 1 == 0 then none else in_pdpt gva (bit_and pml4e address_mask)

  -- The loop from page `i` on.
  unfoldable pub translate_pages : ℕ → ℕ → ℕ → Option (List ℕ)
  translate_pages zero start_page i = some []
  translate_pages (suc n) start_page i =
      let rest = translate_pages n start_page (suc i) in
      translate_gva_to_gpa (start_page + i * 4096) >>= λ gpa.
      rest >>= λ gpas. some (bit_and gpa (bit_not 64 0xFFF) ∷ gpas)

  -- The pages written to the front of an array of `len`.
  unfoldable pub translate_gva_range_to_gpas : ℕ → ℕ → ℕ → Option (List ℕ)
  translate_gva_range_to_gpas gva size len =
      let start_page = bit_and gva (bit_not 64 0xFFF) in
      let end_addr = gva + (size - 1) in
      let end_page = bit_and end_addr (bit_not 64 0xFFF) in
      let num_pages = (end_page - start_page) / 4096 + 1 in
      let pages = translate_pages num_pages start_page 0 in
      if size == 0
      then some []
      else (if leb (2 ^ 64) end_addr then none else (if ltb len num_pages then none else pages))
