-- ===== src/Forked/Copies.antt =====
-- The copy of a page, step by step, and what a forked VM's EPT maps.
use bedrock.Base.{
  ℕ, ◌+◌, ◌-◌, ◌%◌, ◌^◌, ◌<◌, ◌==◌, ◌&&◌, ◌≡◌, ◌≢◌, refl, sym, ap, ◌∙◌, true, false, Option, none,
  some, leb, ltb, some-cases, ℕ_discrete, arith,
}
use mathlib.Core.Path.{subst}
use bedrock.Base.Result.{ok}
use bedrock.Cow.{CowPageMap, page_aligned, get, kernel_insert}
use bedrock.Cow.Laws.{get-insert}
use bedrock.Ept.Entry.{IsFrame}
use bedrock.Ept.Frames.{FrameAllocator}
use bedrock.Ept.Table.{lookup}
use bedrock.Ept.Tree.{IsTree}
use bedrock.Ept.Clone.View.{read_only}
use bedrock.Forked.{Page, CowAllocator, ForkedVm, read_page, source_page, copy_page}
use bedrock.Forked.Pages.{
  page_aligned-page_aligned, byte_of, byte_at, source_page_own, source_page_parent,
  source_page_of_get,
}
use bedrock.Forked.Writes.{IsApart}

-- What a page is mapped to: the VM's own copy, to be written also, or what is shared with the parent, to
-- be read and executed; nothing where the parent maps nothing.
abbrev pub mapped : Option Page → Option (ℕ × ℕ) → Option (ℕ × ℕ)
mapped none s = read_only s
mapped (some page) none = none
mapped (some page) (some f) = some (page.physical_address, 7)

module _ (A : FrameAllocator) (C : CowAllocator A) (shared : ℕ → Option (ℕ × ℕ)) where
  -- A forked VM whose parent maps `shared`.
  pub record IsForked (w : ForkedVm A) : Type 0 where
    pub tree : IsTree A w.ept
    pub own :
        (g : ℕ) (p : Page) → get w.cow_pages g ≡ some p → C.Owned w.ept.alloc p.virtual_address
    pub parents : (g v : ℕ) → read_page w.parent g ≡ some v → C.Owned w.ept.alloc v
    pub single :
        (g h : ℕ) (p q : Page)
        → get w.cow_pages g ≡ some p
        → get w.cow_pages h ≡ some q
        → p.virtual_address ≡ q.virtual_address
        → page_aligned g ≡ page_aligned h
    pub foreign :
        (g h v : ℕ) (p : Page)
        → get w.cow_pages g ≡ some p
        → read_page w.parent h ≡ some v
        → v ≢ p.virtual_address
    pub agrees :
        (g : ℕ)
        → g % 4096 ≡ 0
        → g < 2 ^ 48
        → lookup w.ept.memory w.ept.pml4_phys g ≡ mapped (get w.cow_pages g) (shared g)

  pub IsForked-IsApart : (w : ForkedVm A) → IsForked w → IsApart A w
  IsForked-IsApart w i = record {
    aligned = λ g p e. C.aligned w.ept.alloc p.virtual_address (i.own g p e);
    single = i.single;
    parents = λ g v e. C.aligned w.ept.alloc v (i.parents g v e);
    foreign = i.foreign;
  }

  -- A page that no one has.
  pub record Fresh (w : ForkedVm A) (p : Page) : Type 0 where
    pub is_owned : C.Owned w.ept.alloc p.virtual_address
    pub frame : IsFrame p.physical_address
    pub not_own :
        (g : ℕ) (q : Page) → get w.cow_pages g ≡ some q → q.virtual_address ≢ p.virtual_address
    pub not_parents : (g v : ℕ) → read_page w.parent g ≡ some v → v ≢ p.virtual_address

  abbrev pub with_alloc : A.State → ForkedVm A → ForkedVm A
  with_alloc s w = record w { ept = record w.ept { alloc = s } }

  module _ (w : ForkedVm A) (i : IsForked w) where
    abbrev pub answered : ForkedVm A
    answered = with_alloc (C.allocate_cow_page w.ept.alloc).1 w

    pub answered-IsForked : IsForked answered
    answered-IsForked = record {
      tree = record {
        reached = i.tree.reached;
        once = i.tree.once;
        live = λ a l. C.live w.ept.alloc a (i.tree.live a l);
      };
      own = λ g p e. C.kept w.ept.alloc p.virtual_address (i.own g p e);
      parents = λ g v e. C.kept w.ept.alloc v (i.parents g v e);
      single = i.single;
      foreign = i.foreign;
      agrees = i.agrees;
    }

    pub answered-Fresh : (p : Page) → (C.allocate_cow_page w.ept.alloc).0 ≡ ok p → Fresh answered p
    answered-Fresh p e = record {
      is_owned = C.owned w.ept.alloc p e;
      frame = C.frame w.ept.alloc p e;
      not_own = λ g q h same.
          C.fresh w.ept.alloc p e (subst (λ v. C.Owned w.ept.alloc v) same (i.own g q h));
      not_parents = λ g v h same.
          C.fresh w.ept.alloc p e (subst (λ x. C.Owned w.ept.alloc x) same (i.parents g v h));
    }

-- A copy changes the new page only.
copy_page_off :
    (ram : ℕ → ℕ) (from dst v : ℕ) (a : ℕ)
    → v % 4096 ≡ 0
    → dst % 4096 ≡ 0
    → v ≢ dst
    → copy_page ram from dst (v + a % 4096) ≡ ram (v + a % 4096)
unfolding copy_page
copy_page_off ram from dst v a h k ne = ground (arith, h, k, ne)

copy_page_in :
    (ram : ℕ → ℕ) (from dst : ℕ) (a : ℕ)
    → copy_page ram from dst (dst + a % 4096) ≡ ram (from + a % 4096)
unfolding copy_page
copy_page_in ram from dst a =
    let t : (leb dst (dst + a % 4096) && ltb (dst + a % 4096) (dst + 4096)) ≡ true = ground arith in
    let e : dst + a % 4096 - dst ≡ a % 4096 = omega arith in rw (t, e) refl

module _ (A : FrameAllocator) where
  module _ (g : ℕ) (p : Page) (w : ForkedVm A) where
    abbrev pub inserted : CowPageMap Page
    inserted = (kernel_insert true g p w.cow_pages).1

    pub inserted_self : (a : ℕ) → page_aligned a ≡ page_aligned g → get inserted a ≡ some p
    inserted_self a e =
        (get-insert w.cow_pages g a p).1
        ∙ (let t : (page_aligned a == page_aligned g) ≡ true = ground (arith, e) in rw t refl)

    pub inserted_other :
        (a : ℕ) → page_aligned a ≢ page_aligned g → get inserted a ≡ get w.cow_pages a
    inserted_other a ne =
        (get-insert w.cow_pages g a p).1
        ∙ (let t : (page_aligned a == page_aligned g) ≡ false = ground (arith, ne) in rw t refl)

module _ (A : FrameAllocator) (C : CowAllocator A) (shared : ℕ → Option (ℕ × ℕ)) (w : ForkedVm A)
    (i : IsForked A C shared w) (g : ℕ) (p : Page) (f : Fresh A C shared w p) where
  -- The VM after the copy, up to its EPT.
  abbrev pub filled : ℕ → ForkedVm A
  filled from = record w {
    ram = copy_page w.ram from p.virtual_address;
    cow_pages = inserted A g p w;
  }

  pub old_page :
      (from a : ℕ) (o : Option ℕ)
      → ((v : ℕ) → o ≡ some v → (v % 4096 ≡ 0) × (v ≢ p.virtual_address))
      → byte_of (filled from).ram a o ≡ byte_of w.ram a o
  old_page from a none h = refl
  old_page from a (some v) h =
      let (al, ne) = h v refl in
      ap some (
        copy_page_off w.ram from p.virtual_address v a al
          (C.aligned w.ept.alloc p.virtual_address f.is_owned) ne)

  -- No parent sees the copy.
  pub filled_parents :
      (from a : ℕ)
      → byte_of (filled from).ram a (read_page w.parent a) ≡ byte_of w.ram a (read_page w.parent a)
  filled_parents from a =
      old_page from a (read_page w.parent a)
        (λ v s. (C.aligned w.ept.alloc v (i.parents a v s), f.not_parents a v s))

  pub old_source :
      (a v : ℕ)
      → source_page A w (page_aligned a) ≡ some v
      → (v % 4096 ≡ 0) × (v ≢ p.virtual_address)
  unfolding source_page
  old_source a v =
      some-cases (λ (o : Option ℕ). o ≡ some v → (v % 4096 ≡ 0) × (v ≢ p.virtual_address))
        (get w.cow_pages (page_aligned a)) (read_page w.parent (page_aligned a)) _
        (λ no s. (
          C.aligned w.ept.alloc v (i.parents (page_aligned a) v s),
          f.not_parents (page_aligned a) v s,
        ))
        (λ q yes s.
          let same : q.virtual_address ≡ v = cc in
          rw (← same) (
            C.aligned w.ept.alloc q.virtual_address (i.own (page_aligned a) q yes),
            f.not_own (page_aligned a) q yes,
          ))

  -- The copy has the bytes of its source, so the VM's memory is what it was.
  pub filled-byte_at :
      (from a : ℕ)
      → page_aligned g ≡ g
      → get w.cow_pages g ≡ none
      → read_page w.parent g ≡ some from
      → byte_at A (filled from) a ≡ byte_at A w a
  filled-byte_at from a al absent source = elim (ℕ_discrete (page_aligned a) g) [
    | yes same ↦
        let twice : page_aligned (page_aligned a) ≡ page_aligned g = ap page_aligned same in
        let now : source_page A (filled from) (page_aligned a) ≡ some p.virtual_address =
          source_page_own A (filled from) (page_aligned a) p
            (inserted_self A g p w (page_aligned a) twice) in
        let before : source_page A w (page_aligned a) ≡ some from =
          ap (source_page A w) same ∙ source_page_parent A w g absent ∙ source in
        ap (byte_of (filled from).ram a) now
        ∙ ap some (copy_page_in w.ram from p.virtual_address a)
        ∙ sym (ap (byte_of w.ram a) before)
    | no ne ↦
        let apart : page_aligned (page_aligned a) ≢ page_aligned g =
          λ e. ne (sym (page_aligned-page_aligned a) ∙ e ∙ al) in
        ap (byte_of (filled from).ram a) (
          source_page_of_get A w (filled from).ram (inserted A g p w) (page_aligned a)
            (inserted_other A g p w (page_aligned a) apart))
        ∙ old_page from a (source_page A w (page_aligned a)) (old_source a)
  ]
