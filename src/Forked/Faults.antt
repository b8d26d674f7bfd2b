-- ===== src/Forked/Faults.antt =====
-- A copy-on-write fault: `handle_cow_fault` as a whole.
use bedrock.Base.{ℕ, ◌%◌, ◌^◌, ◌<◌, ◌≡◌, refl, Bool, true, false, Option, none, some, some-cases}
use bedrock.Base.Result.{Result, ok, err}
use bedrock.Cow.{page_aligned, get, kernel_insert}
use bedrock.Ept.Frames.{FrameAllocator}
use bedrock.Forked.{
  Page, CowAllocator, ForkedVm, read_page, source_page, copy_page, insert_page, fill_page,
  copy_on_write,
}
use bedrock.Forked.Copies.{
  IsForked, Fresh, filled_parents, answered, answered-IsForked, answered-Fresh, old_page,
  old_source,
}
use bedrock.Forked.Remapped.{Faulted, remap_page-Faulted, remap_page_works}

module _ (A : FrameAllocator) (C : CowAllocator A) (shared : ℕ → Option (ℕ × ℕ)) where
  module _ (w : ForkedVm A) (i : IsForked A C shared w) (g : ℕ) (p : Page)
      (f : Fresh A C shared w p) (al : g % 4096 ≡ 0) (low : g < 2 ^ 48)
      (absent : get w.cow_pages g ≡ none) (from : ℕ)
      (source : read_page w.parent g ≡ some from) where
    -- Where the map has no memory, the new page is given up.
    insert_page-Faulted :
        (memory : Bool)
        → Faulted A C shared w g
            (insert_page A memory g p (record w { ram = copy_page w.ram from p.virtual_address }))
    unfolding insert_page kernel_insert source_page
    insert_page-Faulted true = remap_page-Faulted A C shared w i g p f al low absent from source
    insert_page-Faulted false = record {
      kept = record {
        tree = i.tree;
        own = i.own;
        parents = i.parents;
        single = i.single;
        foreign = i.foreign;
        agrees = i.agrees;
      };
      bytes = λ a.
          old_page A C shared w i g p f from a (source_page A w (page_aligned a))
            (old_source A C shared w i g p f a);
      parent_is = refl;
      parents = filled_parents A C shared w i g p f from;
      copied = λ e. absurd (cc);
    }

  -- Nothing has changed.
  unchanged-Faulted :
      (w : ForkedVm A) (g : ℕ) → IsForked A C shared w → Faulted A C shared w g (false, w)
  unchanged-Faulted w g i = record {
    kept = i;
    bytes = λ a. refl;
    parent_is = refl;
    parents = λ a. refl;
    copied = λ e. absurd (cc);
  }

  module _ (w : ForkedVm A) (i : IsForked A C shared w) (g : ℕ) (al : g % 4096 ≡ 0)
      (low : g < 2 ^ 48) (absent : get w.cow_pages g ≡ none) where
    fill_page-Faulted :
        (memory : Bool) (p : Page)
        → Fresh A C shared w p
        → Faulted A C shared w g (fill_page A memory g (ok p) w)
    unfolding fill_page
    fill_page-Faulted memory p f =
        some-cases (Faulted A C shared w g) (read_page w.parent g) (false, w) _
          (λ none_eq. unchanged-Faulted w g i)
          (λ from source. insert_page-Faulted w i g p f al low absent from source memory)

  -- The allocator's answer changes nothing that the VM sees.
  from_answered :
      (w : ForkedVm A) (i : IsForked A C shared w) (g : ℕ) (out : Bool × ForkedVm A)
      → Faulted A C shared (answered A C shared w i) g out
      → Faulted A C shared w g out
  unfolding source_page
  from_answered w i g out done = record {
    kept = done.kept;
    bytes = done.bytes;
    parent_is = done.parent_is;
    parents = done.parents;
    copied = done.copied;
  }

  pub copy_on_write-Faulted :
      (memory : Bool) (w : ForkedVm A)
      → IsForked A C shared w
      → (g : ℕ) → g % 4096 ≡ 0
      → g < 2 ^ 48
      → get w.cow_pages g ≡ none
      → Faulted A C shared w g (copy_on_write A C memory g w)
  unfolding copy_on_write fill_page
  copy_on_write-Faulted memory w i g al low absent =
      by_answer (C.allocate_cow_page w.ept.alloc).0 refl
    where
      by_answer :
          (r : Result A.Error Page)
          → (C.allocate_cow_page w.ept.alloc).0 ≡ r
          → Faulted A C shared w g (fill_page A memory g r (answered A C shared w i))
      by_answer (err x) e =
          from_answered w i g _
            (unchanged-Faulted (answered A C shared w i) g (answered-IsForked A C shared w i))
      by_answer (ok p) e = from_answered w i g _ (
          fill_page-Faulted (answered A C shared w i) (answered-IsForked A C shared w i) g al low
            absent memory p (answered-Fresh A C shared w i p e))

  -- With a page, memory for the map and a page of the parent that it maps, the copy is made.
  pub copy_on_write_works :
      (w : ForkedVm A)
      → IsForked A C shared w
      → (g : ℕ) → g % 4096 ≡ 0
      → g < 2 ^ 48
      → get w.cow_pages g ≡ none
      → (page : Page) (from : ℕ) (old : ℕ × ℕ) → (C.allocate_cow_page w.ept.alloc).0 ≡ ok page
      → read_page w.parent g ≡ some from
      → shared g ≡ some old
      → (copy_on_write A C true g w).0 ≡ true
  unfolding copy_on_write fill_page insert_page kernel_insert
  copy_on_write_works w i g al low absent page from old e source maps =
      rw (copy_on_write, e, fill_page, source)
        (remap_page_works A C shared (answered A C shared w i) (answered-IsForked A C shared w i) g
          page (answered-Fresh A C shared w i page e) al low absent from source old maps)
