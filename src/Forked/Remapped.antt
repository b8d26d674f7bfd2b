-- ===== src/Forked/Remapped.antt =====
-- A forked VM with a page copied, and its EPT entry moved to the copy.
use bedrock.Base.{
  ℕ, ◌*◌, ◌/◌, ◌%◌, ◌^◌, ◌<◌, ◌==◌, ◌≡◌, ◌≢◌, refl, sym, ap, ◌∙◌, Bool, true, false, Option, none,
  some, ℕ_discrete, arith,
}
use mathlib.Core.Path.{subst}
use bedrock.Cow.{page_aligned, get}
use bedrock.Ept.Entry.{read_write_execute, write_back}
use bedrock.Ept.Frames.{FrameAllocator, TableMemory}
use bedrock.Ept.Table.{lookup, remap_4k}
use bedrock.Ept.Tree.{IsTree}
use bedrock.Ept.Remap.{remap_4k_unmapped, remap_4k-lookup}
use bedrock.Base.Bits.Field.{bit_and_field}
use bedrock.Ept.Clone.View.{read_only}
use bedrock.Forked.{Page, CowAllocator, ForkedVm, read_page, source_page, remap_page}
use bedrock.Forked.Pages.{page_aligned-eq, byte_of, byte_at}
use bedrock.Forked.Copies.{
  mapped, IsForked, Fresh, filled, filled_parents, filled-byte_at, inserted, inserted_self,
  inserted_other,
}

module _ (A : FrameAllocator) (C : CowAllocator A) (shared : ℕ → Option (ℕ × ℕ)) where
  -- What a fault on the page `g` leaves, whether the copy was made or not.
  pub record Faulted (w : ForkedVm A) (g : ℕ) (out : Bool × ForkedVm A) : Type 0 where
    pub kept : IsForked A C shared out.1
    pub bytes : (a : ℕ) → byte_at A out.1 a ≡ byte_at A w a
    pub parent_is : out.1.parent ≡ w.parent
    pub parents :
        (a : ℕ)
        → byte_of out.1.ram a (read_page w.parent a) ≡ byte_of w.ram a (read_page w.parent a)
    pub copied : out.0 ≡ true → (p : Page) × (get out.1.cow_pages g ≡ some p)

  module _ (w : ForkedVm A) (i : IsForked A C shared w) (g : ℕ) (p : Page)
      (f : Fresh A C shared w p) (al : g % 4096 ≡ 0) (low : g < 2 ^ 48)
      (absent : get w.cow_pages g ≡ none) (from : ℕ)
      (source : read_page w.parent g ≡ some from) where
    g_aligned : page_aligned g ≡ g
    g_aligned = omega (arith, page_aligned-eq g (omega (arith, low)), al)

    abbrev remapped : TableMemory → ForkedVm A
    remapped m = record (filled A C shared w i g p f from) { ept = record w.ept { memory = m } }

    -- What the tables must have come to.
    record Maps (m : TableMemory) : Type 0 where
      maps_tree : IsTree A (record w.ept { memory = m })
      maps_self : lookup m w.ept.pml4_phys g ≡ mapped (some p) (shared g)
      maps_other :
          (a : ℕ)
          → a % 4096 ≡ 0
          → a < 2 ^ 48
          → a ≢ g
          → lookup m w.ept.pml4_phys a ≡ lookup w.ept.memory w.ept.pml4_phys a

    remapped-agrees :
        (m : TableMemory)
        → Maps m
        → (a : ℕ) → a % 4096 ≡ 0
        → a < 2 ^ 48
        → lookup m w.ept.pml4_phys a ≡ mapped (get (inserted A g p w) a) (shared a)
    remapped-agrees m x a aa la = elim (ℕ_discrete a g) [
      | yes same ↦
          rw same (x.maps_self ∙ ap (λ o. mapped o (shared g)) (sym (inserted_self A g p w g refl)))
      | no ne ↦
          let other : page_aligned a ≢ page_aligned g =
            λ e. ne (omega (arith, e, g_aligned, page_aligned-eq a (omega (arith, la)), aa)) in
          x.maps_other a aa la ne
          ∙ i.agrees a aa la
          ∙ ap (λ o. mapped o (shared a)) (sym (inserted_other A g p w a other))
    ]

    -- A page of the new map is the copy or one from before.
    remapped-own :
        (a : ℕ) (q : Page)
        → get (inserted A g p w) a ≡ some q
        → C.Owned w.ept.alloc q.virtual_address
    remapped-own a q e = elim (ℕ_discrete (page_aligned a) (page_aligned g)) [
      | yes same ↦
          let q_is : p ≡ q = cc (inserted_self A g p w a same) in
          subst (λ (t : Page). C.Owned w.ept.alloc t.virtual_address) q_is f.is_owned
      | no ne ↦ i.own a q (sym (inserted_other A g p w a ne) ∙ e)
    ]

    remapped-foreign :
        (a h v : ℕ) (q : Page)
        → get (inserted A g p w) a ≡ some q
        → read_page w.parent h ≡ some v
        → v ≢ q.virtual_address
    remapped-foreign a h v q e r = elim (ℕ_discrete (page_aligned a) (page_aligned g)) [
      | yes same ↦
          let q_is : p ≡ q = cc (inserted_self A g p w a same) in
          subst (λ (t : Page). v ≢ t.virtual_address) q_is (f.not_parents h v r)
      | no ne ↦ i.foreign a h v q (sym (inserted_other A g p w a ne) ∙ e) r
    ]

    remapped-single :
        (a b : ℕ) (q r : Page)
        → get (inserted A g p w) a ≡ some q
        → get (inserted A g p w) b ≡ some r
        → q.virtual_address ≡ r.virtual_address
        → page_aligned a ≡ page_aligned b
    remapped-single a b q r e h same = elim (ℕ_discrete (page_aligned a) (page_aligned g)) [
      | yes x ↦ elim (ℕ_discrete (page_aligned b) (page_aligned g)) [
        | yes y ↦ x ∙ sym y
        | no ny ↦
            let q_is : p ≡ q = cc (inserted_self A g p w a x) in
            absurd (
              f.not_own b r (sym (inserted_other A g p w b ny) ∙ h)
                (sym same ∙ ap (λ (t : Page). t.virtual_address) (sym q_is)))
      ]
      | no nx ↦ elim (ℕ_discrete (page_aligned b) (page_aligned g)) [
        | yes y ↦
            let r_is : p ≡ r = cc (inserted_self A g p w b y) in
            absurd (
              f.not_own a q (sym (inserted_other A g p w a nx) ∙ e)
                (same ∙ ap (λ (t : Page). t.virtual_address) (sym r_is)))
        | no ny ↦
            i.single a b q r (sym (inserted_other A g p w a nx) ∙ e)
              (sym (inserted_other A g p w b ny) ∙ h) same
      ]
    ]

    remapped-Faulted : (b : Bool) (m : TableMemory) → Maps m → Faulted w g (b, remapped m)
    unfolding source_page
    remapped-Faulted b m x = record {
      kept = record {
        tree = x.maps_tree;
        own = remapped-own;
        parents = i.parents;
        single = remapped-single;
        foreign = remapped-foreign;
        agrees = remapped-agrees m x;
      };
      bytes = λ a. filled-byte_at A C shared w i g p f from a g_aligned absent source;
      parent_is = refl;
      parents = filled_parents A C shared w i g p f from;
      copied = λ e. (p, inserted_self A g p w g refl);
    }

    -- The EPT entry is there when the parent maps the page.
    pub remap_page-Faulted : Faulted w g (remap_page A g p (filled A C shared w i g p f from))
    unfolding remap_page
    remap_page-Faulted = by_parent (shared g) refl
      where
        by_parent :
            (o : Option (ℕ × ℕ))
            → shared g ≡ o
            → Faulted w g (remap_page A g p (filled A C shared w i g p f from))
        by_parent none e =
            let unmapped : lookup w.ept.memory w.ept.pml4_phys g ≡ none =
              i.agrees g al low ∙ ap (λ m. mapped m (shared g)) absent ∙ ap (mapped none) e in
            let failed =
              remap_4k_unmapped w.ept.memory w.ept.pml4_phys g p.physical_address read_write_execute
                write_back unmapped in
            rw (remap_page, ap (λ r. r.0) failed, ap (λ r. r.1) failed)
              (remapped-Faulted false w.ept.memory (record {
                maps_tree = i.tree;
                maps_self = unmapped ∙ ap (mapped (some p)) (sym e);
                maps_other = λ a aa la ne. refl;
              }))
        by_parent (some old) e =
            let was : lookup w.ept.memory w.ept.pml4_phys g ≡ read_only (some old) =
              i.agrees g al low ∙ ap (λ m. mapped m (shared g)) absent ∙ ap (mapped none) e in
            let h = p.physical_address in
            let frame : h / 2 ^ 12 % 2 ^ 40 * 2 ^ 12 ≡ h = sym (bit_and_field 12 40 h) ∙ f.frame in
            let seen = λ (a : ℕ).
              remap_4k-lookup A w.ept i.tree g h read_write_execute write_back (omega arith)
                (omega arith) _ a was in
            rw (remap_page, (seen g).0)
              (remapped-Faulted true
                (remap_4k w.ept.memory w.ept.pml4_phys g h read_write_execute write_back).1
                (record {
                  maps_tree = (seen g).1;
                  maps_self =
                      (seen g).2
                      ∙ (let t : (g / 2 ^ 12 % 2 ^ 36 == g / 2 ^ 12 % 2 ^ 36) ≡ true =
                            ground arith in
                          rw (t, frame, e) refl);
                  maps_other = λ a aa la ne.
                      (seen a).2
                      ∙ (let t : (g / 2 ^ 12 % 2 ^ 36 == a / 2 ^ 12 % 2 ^ 36) ≡ false =
                            ground (arith, al, aa, la, ne, low) in
                          rw t refl);
                }))

    pub remap_page_works :
        (old : ℕ × ℕ)
        → shared g ≡ some old
        → (remap_page A g p (filled A C shared w i g p f from)).0 ≡ true
    unfolding remap_page
    remap_page_works old e =
        let was : lookup w.ept.memory w.ept.pml4_phys g ≡ read_only (some old) =
          i.agrees g al low ∙ ap (λ m. mapped m (shared g)) absent ∙ ap (mapped none) e in
        let done =
          remap_4k-lookup A w.ept i.tree g p.physical_address read_write_execute write_back
            (omega arith) (omega arith) _ g was in
        rw (remap_page, done.0) refl
