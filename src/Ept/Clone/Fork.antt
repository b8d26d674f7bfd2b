-- ===== src/Ept/Clone/Fork.antt =====
-- The whole of `clone_for_fork`, on page tables that are a tree.
use bedrock.Base.{
  ℕ, zero, suc, ◌+◌, ◌≤◌, ◌≡◌, ◌≢◌, refl, sym, ap, ◌∙◌, inl, inr, none, some, List, [], ◌∷◌, ◌++◌,
  length, length-append, Bool-cases, arith,
}
use mathlib.Core.Path.{subst}
use bedrock.Base.Result.{Result, ok, err, ok-injective}
use bedrock.Memory.{pt_index, pml4_index_lem, pdpt_index_lem, pd_index_lem, pt_index_lem}
use bedrock.Ept.Entry.{is_present, addr}
use bedrock.Ept.Frames.{FrameAllocator, TableMemory, zero_table}
use bedrock.Ept.Walk.{walk, walk-append}
use bedrock.Ept.Table.{EptPageTable, lookup}
use bedrock.Ept.Tree.{IsTree, Listed}
use bedrock.Ept.Map.{path}
use bedrock.Ept.Clone.{clone_for_fork, begin_clone, finish_clone, clone_table}
use bedrock.Ept.Clone.View.{view, read_only, AllTables, AllTables-map, AllTables-agree, view-agree}
use bedrock.Ept.Clone.Leaves.{InRange, Clonable, Cloned, Made}
use bedrock.Ept.Clone.Levels.{clone_table-Cloned, zero_table_off, zero_table_self}

lookup-view : (m : TableMemory) (root g : ℕ) → lookup m root g ≡ view m root (path g) (pt_index g)
unfolding lookup
lookup-view m root g = refl

path-InRange : (g : ℕ) → InRange (path g) (pt_index g)
path-InRange g = (
  omega (arith, pml4_index_lem g),
  (omega (arith, pdpt_index_lem g), (omega (arith, pd_index_lem g), omega (arith, pt_index_lem g))),
)

-- A walk stays in the tree.
AllTables-walk :
    (level : ℕ) (m : TableMemory) (Q : ℕ → Type 0) (t a : ℕ) (p : List ℕ)
    → AllTables level m Q t
    → length p ≤ level
    → walk m t p ≡ some a
    → Q a
AllTables-walk zero m Q t a [] h n e = let same : t ≡ a = cc in subst Q same h
AllTables-walk zero m Q t a (i ∷ p) h n e = absurd (omega arith)
AllTables-walk (suc level) m Q t a [] h n e = let same : t ≡ a = cc in subst Q same h.0
AllTables-walk (suc level) m Q t a (i ∷ p) h n e = elim (Bool-cases (is_present (m t i))) [
  | inl y ↦ AllTables-walk level m Q (addr (m t i)) a p (h.1 i y) (omega arith) (rw y at e)
  | inr x ↦ let none_eq : none ≡ some a = rw x at e in absurd (cc)
]

module _ (A : FrameAllocator) where
  open A use {State, Error, Frame, frame_phys_addr, allocate_frame, Live}

  tree-AllTables :
      (w : EptPageTable A)
      → IsTree A w
      → (level : ℕ) (p : List ℕ) (t : ℕ) → length p + level ≡ 3
      → walk w.memory w.pml4_phys p ≡ some t
      → AllTables level w.memory (Live w.alloc) t
  tree-AllTables w v zero p t n e = v.live t (v.reached p t (omega (arith, n)) e)
  tree-AllTables w v (suc level) p t n e = (
    v.live t (v.reached p t (omega (arith, n)) e),
    λ i y.
        tree-AllTables w v level (p ++ (i ∷ [])) (addr (w.memory t i))
          (omega (arith, n, length-append {A = ℕ} p (i ∷ [])))
          (walk-append w.memory w.pml4_phys t p (i ∷ []) e ∙ rw y refl),
  )

  module _ (w : EptPageTable A) (v : IsTree A w) (f : Frame)
      (h : (allocate_frame w.alloc).0 ≡ ok f) where
    abbrev new : ℕ
    new = frame_phys_addr f

    -- The state in which the loop over the root begins.
    abbrev start : EptPageTable A
    start = record {
      pml4_phys = new;
      frames = f ∷ [];
      memory = zero_table w.memory new;
      alloc = (allocate_frame w.alloc).1;
    }

    tables : AllTables 3 w.memory (Live w.alloc) w.pml4_phys
    tables = tree-AllTables w v 3 [] w.pml4_phys refl refl

    new_off : (a : ℕ) → Live w.alloc a → a ≢ new
    new_off a l p = A.fresh w.alloc f h (subst (Live w.alloc) p l)

    start_same : (a : ℕ) → Live w.alloc a → (i : ℕ) → start.memory a i ≡ w.memory a i
    start_same a l i = zero_table_off w.memory new a i (new_off a l)

    start-Clonable : Clonable A 3 w.pml4_phys new start
    start-Clonable = record {
      source =
          AllTables-map 3 start.memory (Live w.alloc) (λ a. Live start.alloc a × (a ≢ new))
            w.pml4_phys (λ a l. (A.kept w.alloc a l, new_off a l))
            (AllTables-agree 3 w.memory start.memory (Live w.alloc) w.pml4_phys start_same tables);
      owned = A.owned w.alloc f h;
      blank = zero_table_self w.memory new;
    }

    abbrev out : Result Error (Unit {0}) × EptPageTable A
    out = clone_table A 3 w.pml4_phys new start

    cloned : Cloned A 3 w.pml4_phys new start out
    cloned = clone_table-Cloned A 3 w.pml4_phys new start start-Clonable

    same_source : (a : ℕ) → Live w.alloc a → (i : ℕ) → out.1.memory a i ≡ w.memory a i
    same_source a l i = cloned.kept.same a (A.kept w.alloc a l) (new_off a l) i ∙ start_same a l i

    source_lookup : (g : ℕ) → lookup out.1.memory w.pml4_phys g ≡ lookup w.memory w.pml4_phys g
    source_lookup g =
        lookup-view out.1.memory w.pml4_phys g
        ∙ view-agree (path g) w.memory out.1.memory (Live w.alloc) w.pml4_phys (pt_index g)
            same_source tables
        ∙ sym (lookup-view w.memory w.pml4_phys g)

    clone_lookup :
        out.0 ≡ ok tt
        → (g : ℕ)
        → lookup out.1.memory out.1.pml4_phys g ≡ read_only (lookup w.memory w.pml4_phys g)
    clone_lookup e g =
        ap (λ t. lookup out.1.memory t g) cloned.kept.root
        ∙ lookup-view out.1.memory new g
        ∙ cloned.views e (path g) (pt_index g) refl (path-InRange g)
        ∙ ap read_only (
            view-agree (path g) w.memory start.memory (Live w.alloc) w.pml4_phys (pt_index g)
              start_same tables
            ∙ sym (lookup-view w.memory w.pml4_phys g))

    apart :
        out.0 ≡ ok tt
        → (p : List ℕ) (a : ℕ) → length p ≤ 3
        → walk out.1.memory out.1.pml4_phys p ≡ some a
        → ¬ Listed A a w.frames
    apart e p a n walked listed =
        let l = v.live a listed in
        elim (AllTables-walk 3 out.1.memory (Made A new start out.1) new a p (cloned.made e) n
          (subst (λ (t : ℕ). walk out.1.memory t p ≡ some a) cloned.kept.root walked)).1 [
            | inl not_live ↦ not_live (A.kept w.alloc a l)
            | inr same ↦ new_off a l same
          ]

  -- What holds of the answer, whichever it is.
  module _ (w : EptPageTable A) (v : IsTree A w) where
    abbrev Forked : Result Error (EptPageTable A) × TableMemory × State → Type 0
    Forked (r, m', s') =
        ((g : ℕ) → lookup m' w.pml4_phys g ≡ lookup w.memory w.pml4_phys g)
        × ((c : EptPageTable A)
            → r ≡ ok c
            → (c.memory ≡ m')
              × ((g : ℕ)
                  → lookup c.memory c.pml4_phys g ≡ read_only (lookup w.memory w.pml4_phys g))
              × ((p : List ℕ) (a : ℕ)
                  → length p ≤ 3
                  → walk c.memory c.pml4_phys p ≡ some a
                  → ¬ Listed A a w.frames))

    finish-Forked :
        (out : Result Error (Unit {0}) × EptPageTable A)
        → ((g : ℕ) → lookup out.1.memory w.pml4_phys g ≡ lookup w.memory w.pml4_phys g)
        → (out.0 ≡ ok tt
            → (g : ℕ)
            → lookup out.1.memory out.1.pml4_phys g ≡ read_only (lookup w.memory w.pml4_phys g))
        → (out.0 ≡ ok tt
            → (p : List ℕ) (a : ℕ) → length p ≤ 3
            → walk out.1.memory out.1.pml4_phys p ≡ some a
            → ¬ Listed A a w.frames)
        → Forked (finish_clone A out)
    unfolding finish_clone
    finish-Forked (ok u, x) source copy away = (
      source,
      λ c e.
          let same : x ≡ c = ok-injective e in
          subst
            (λ t.
              (t.memory ≡ x.memory)
              × ((g : ℕ)
                  → lookup t.memory t.pml4_phys g ≡ read_only (lookup w.memory w.pml4_phys g))
              × ((p : List ℕ) (a : ℕ)
                  → length p ≤ 3
                  → walk t.memory t.pml4_phys p ≡ some a
                  → ¬ Listed A a w.frames))
            same (refl, copy refl, away refl),
    )
    finish-Forked (err y, x) source copy away = (source, λ c e. absurd (cc))

    answered-Forked :
        (answer : Result Error Frame)
        → (allocate_frame w.alloc).0 ≡ answer
        → Forked (begin_clone A w answer (allocate_frame w.alloc).1)
    unfolding begin_clone
    answered-Forked (ok f) h =
        finish-Forked (out w v f h) (source_lookup w v f h) (clone_lookup w v f h) (apart w v f h)
    answered-Forked (err y) h = (λ g. refl, λ c e. absurd (cc))

    clone_for_fork-Forked : Forked (clone_for_fork A w)
    unfolding clone_for_fork
    clone_for_fork-Forked = answered-Forked (allocate_frame w.alloc).0 refl

    -- Whether `clone_for_fork` succeeds or runs out of frames, the source, which is a tree, maps in the
    -- memory afterwards what it mapped before.
    pub clone_for_fork-source :
        (g : ℕ) → lookup (clone_for_fork A w).1 w.pml4_phys g ≡ lookup w.memory w.pml4_phys g
    clone_for_fork-source = clone_for_fork-Forked.0

    -- A clone that `clone_for_fork` makes of a tree maps every page to the frame that the source maps it
    -- to, to be read and executed only, and has no table in common with the source.
    pub clone_for_fork-lookup :
        (c : EptPageTable A)
        → (clone_for_fork A w).0 ≡ ok c
        → (c.memory ≡ (clone_for_fork A w).1)
          × ((g : ℕ) → lookup c.memory c.pml4_phys g ≡ read_only (lookup w.memory w.pml4_phys g))
          × ((p : List ℕ) (a : ℕ)
              → length p ≤ 3
              → walk c.memory c.pml4_phys p ≡ some a
              → ¬ Listed A a w.frames)
    clone_for_fork-lookup = clone_for_fork-Forked.1
