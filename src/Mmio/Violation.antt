-- ===== src/Mmio/Violation.antt =====
-- A violation that no copy can resolve.
use bedrock.Base.{
  ℕ, zero, suc, ◌+◌, ◌<◌, ◌≤◌, ◌&&◌, ◌≡◌, ◌⊎◌, refl, Bool, true, false, Option, none, List, leb,
  ltb, arith,
}
use bedrock.Base.Result.{Result, ok, err}
use bedrock.Cow.{page_aligned, contains}
use bedrock.Ept.Frames.{FrameAllocator}
use bedrock.Forked.{
  Page, CowAllocator, ForkedVm, read_page, fill_page, copy_on_write, handle_cow_fault,
}
use bedrock.Mmio.{
  MmioState, ExitHandlerResult, exit_to_userspace, reason_pool_exhausted, EptViolationQualification,
  is_pebs_induced, apic_base, apic_size, ioapic_base, ioapic_size, handle_ept_violation, cow_result,
}

module _ (A : FrameAllocator) (C : CowAllocator A) (memory : Bool)
    (read_guest_memory : ForkedVm A → ℕ → ℕ → Option (List ℕ))
    (handle_pebs_precise_exit : MmioState × ForkedVm A → ExitHandlerResult × MmioState × ForkedVm A)
    (refill : A.State → A.State) (gpa : ℕ) (qual : EptViolationQualification) where
  abbrev pub violation : MmioState × ForkedVm A → ExitHandlerResult × MmioState × ForkedVm A
  violation =
      handle_ept_violation read_guest_memory (handle_cow_fault A C memory) handle_pebs_precise_exit
        gpa qual

  -- The run loop refills the pool and enters the guest again, which is at the same instruction.
  pub retry : ℕ → MmioState × ForkedVm A → MmioState × ForkedVm A
  retry zero x = x
  retry (suc n) x =
      let (r, s, w) = violation x in
      retry n (s, record w { ept = record w.ept { alloc = refill w.ept.alloc } })

  -- A page that neither the VM nor one of its parents has.
  abbrev pub IsUnbacked : ForkedVm A → Type 0
  IsUnbacked w =
      (contains w.cow_pages (page_aligned gpa) ≡ false)
      × (read_page w.parent (page_aligned gpa) ≡ none)

  unfilled :
      (w : ForkedVm A) (r : Result A.Error Page)
      → IsUnbacked w
      → fill_page A memory (page_aligned gpa) r w ≡ (false, w)
  unfolding fill_page
  unfilled w (err e) u = refl
  unfilled w (ok page) u = rw (fill_page, u.1) refl

  unhandled :
      (w : ForkedVm A)
      → IsUnbacked w
      → ((handle_cow_fault A C memory gpa w).0 ≡ false)
        × IsUnbacked (handle_cow_fault A C memory gpa w).1
  unfolding handle_cow_fault copy_on_write
  unhandled w u =
      let w' = record w { ept = record w.ept { alloc = (C.allocate_cow_page w.ept.alloc).1 } } in
      let same = unfilled w' (C.allocate_cow_page w.ept.alloc).0 u in
      rw (handle_cow_fault, u.0, copy_on_write, same) (refl, u)

  as_exhausted :
      (s : MmioState) (x : Bool × ForkedVm A)
      → x.0 ≡ false
      → IsUnbacked x.1
      → let (r, t, w') =
          cow_result read_guest_memory (handle_cow_fault A C memory) handle_pebs_precise_exit s x in
        (r ≡ exit_to_userspace reason_pool_exhausted) × IsUnbacked w'
  as_exhausted s (true, m) e u = absurd (cc)
  as_exhausted s (false, m) e u = (refl, u)

  module _ (outside_apic : (gpa < apic_base) ⊎ (apic_base + apic_size ≤ gpa))
      (outside_ioapic : (gpa < ioapic_base) ⊎ (ioapic_base + ioapic_size ≤ gpa))
      (no_pebs : is_pebs_induced qual ≡ false) (write : qual.write ≡ true)
      (not_writable : qual.writable ≡ false) where
    once :
        (s : MmioState) (w : ForkedVm A)
        → IsUnbacked w
        → let (r, t, w') = violation (s, w) in
          (r ≡ exit_to_userspace reason_pool_exhausted) × IsUnbacked w'
    unfolding handle_ept_violation
    once s w u =
        let a : (leb apic_base gpa && ltb gpa (apic_base + apic_size)) ≡ false =
          ground (arith, outside_apic) in
        let b : (leb ioapic_base gpa && ltb gpa (ioapic_base + ioapic_size)) ≡ false =
          ground (arith, outside_ioapic) in
        let x = handle_cow_fault A C memory gpa w in
        let failed = unhandled w u in
        rw (handle_ept_violation, no_pebs, a, b, write, not_writable)
          (as_exhausted s x failed.0 failed.1)

    -- A guest that writes to an address that neither its VM nor a parent has memory for, outside the APICs
    -- and not for PEBS, exits as if the pool of pages were exhausted, and again whenever the pool is
    -- refilled and it is entered anew; it never exits for the violation.
    pub unbacked_write :
        (n : ℕ) (s : MmioState) (w : ForkedVm A)
        → IsUnbacked w
        → (violation (retry n (s, w))).0 ≡ exit_to_userspace reason_pool_exhausted
    unfolding retry
    unbacked_write zero s w u = (once s w u).0
    unbacked_write (suc n) s w u =
        let next = violation (s, w) in
        let w' = next.2 in
        unbacked_write n next.1 (record w' { ept = record w'.ept { alloc = refill w'.ept.alloc } })
          (once s w u).1
