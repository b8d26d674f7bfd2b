-- ===== src/Forked/Resolve.antt =====
-- `handle_cow_fault` as a whole, on every branch.
use bedrock.Base.{
  ℕ, ◌+◌, ◌*◌, ◌/◌, ◌^◌, ◌<◌, ◌≡◌, refl, ap, ◌∙◌, Bool, true, false, Option, none, some, if-cases,
  arith,
}
use bedrock.Base.Result.{ok}
use bedrock.Cow.{page_aligned, get, contains}
use bedrock.Ept.Frames.{FrameAllocator}
use bedrock.Ept.Table.{lookup}
use bedrock.Forked.{Page, CowAllocator, ForkedVm, read_page, source_page, handle_cow_fault}
use bedrock.Forked.Pages.{
  page_aligned-eq, page_aligned-page_aligned, contains-get, not_contains-get,
}
use bedrock.Forked.Copies.{mapped, IsForked}
use bedrock.Forked.Remapped.{Faulted}
use bedrock.Forked.Faults.{copy_on_write-Faulted, copy_on_write_works}

module _ (A : FrameAllocator) (C : CowAllocator A) (shared : ℕ → Option (ℕ × ℕ)) (w : ForkedVm A)
    (i : IsForked A C shared w) (gpa : ℕ) (low : gpa < 2 ^ 48) where
  abbrev page : ℕ
  page = page_aligned gpa

  page_eq : page ≡ gpa / 4096 * 4096
  page_eq = page_aligned-eq gpa (omega (arith, low))

  stale-Faulted :
      contains w.cow_pages page ≡ true
      → Faulted A C shared w page (true, record w { stale_tlb_faults = w.stale_tlb_faults + 1 })
  unfolding source_page
  stale-Faulted there = record {
    kept = record {
      tree = i.tree;
      own = i.own;
      parents = i.parents;
      single = i.single;
      foreign = i.foreign;
      agrees = i.agrees;
    };
    bytes = λ a. refl;
    parent_is = refl;
    parents = λ a. refl;
    copied = λ e.
        let (p, found) = contains-get w.cow_pages page there in
        (p, rw (page_aligned-page_aligned gpa) at found);
  }

  absent_page : contains w.cow_pages page ≡ false → get w.cow_pages page ≡ none
  absent_page n = rw (page_aligned-page_aligned gpa) at (not_contains-get w.cow_pages page n)

  -- A fault keeps the VM's invariant on every branch: its tables map its own copies, to be written, and
  -- what its parent maps, to be read; and it changes no byte that the VM or one of its parents sees.
  pub handle_cow_fault-Faulted :
      (memory : Bool) → Faulted A C shared w page (handle_cow_fault A C memory gpa w)
  unfolding handle_cow_fault
  handle_cow_fault-Faulted memory =
      if-cases (Faulted A C shared w page) (contains w.cow_pages page) stale-Faulted (λ n.
        copy_on_write-Faulted A C shared memory w i page (omega (arith, page_eq))
          (omega (arith, page_eq, low)) (absent_page n))

  module _ (new : Page) (from : ℕ) (old : ℕ × ℕ)
      (answer : (C.allocate_cow_page w.ept.alloc).0 ≡ ok new)
      (source : read_page w.parent page ≡ some from) (maps : shared page ≡ some old) where
    works : (handle_cow_fault A C true gpa w).0 ≡ true
    unfolding handle_cow_fault
    works =
        if-cases (λ (r : Bool × ForkedVm A). r.0 ≡ true) (contains w.cow_pages page) (λ y. refl)
          (λ n.
            copy_on_write_works A C shared w i page (omega (arith, page_eq))
              (omega (arith, page_eq, low)) (absent_page n) new from old answer source maps)

    -- Where the allocator has a page, the map has memory and the parent has and maps the page, a fault is
    -- handled: the guest goes on, with the page its own, and mapped to its frame with all rights.
    pub handle_cow_fault-Resolved :
        let (r, w') = handle_cow_fault A C true gpa w in
        (r ≡ true)
        × ((p : Page) × (get w'.cow_pages page ≡ some p)
            × (lookup w'.ept.memory w'.ept.pml4_phys page ≡ some (p.physical_address, 7)))
    handle_cow_fault-Resolved =
        let done = handle_cow_fault-Faulted true in
        let (p, own) = done.copied works in
        (
          works,
          (
            p,
            own,
            done.kept.agrees page (omega (arith, page_eq)) (omega (arith, page_eq, low))
                ∙ ap (λ m. mapped m (shared page)) own
                ∙ ap (mapped (some p)) maps,
          ),
        )
