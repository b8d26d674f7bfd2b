-- ===== src/Ept/Tree.antt =====
-- The invariant of a page table, and that every method keeps it: the tables are a tree of depth
-- four whose nodes are frames of the page table's own list.
use bedrock.Base.{
  ℕ, ◌≤◌, ◌<◌, ◌≡◌, refl, sym, ap, ◌∙◌, ◌⊎◌, inl, inr, true, false, some, List, [], ◌∷◌, ◌++◌,
  length, Bool-cases,
}
use bedrock.Base.Result.{Result, ok, err, ok-injective}
use bedrock.Ept.Entry.{is_present, addr, permissions, table_entry, table_entry_fields}
use bedrock.Ept.Frames.{FrameAllocator, TableMemory, write, zero_table}
use bedrock.Ept.Walk.{walk, walk-append}
use bedrock.Ept.Table.{EptPageTable, add_table, ensure_table}
use bedrock.Ept.Grow.{leaf, grown-new, grown-leaf, grown_cases}

module _ (A : FrameAllocator) where
  open A use {State, Error, Frame, frame_phys_addr, allocate_frame, Live}

  -- The address is that of a frame of the list.
  abbrev pub Listed : ℕ → List Frame → Type 0
  Listed a [] = ⊥
  Listed a (f ∷ fs) = (a ≡ frame_phys_addr f) ⊎ Listed a fs

  pub Listed-old : (a : ℕ) (fs gs : List Frame) → Listed a fs → Listed a (fs ++ gs)
  Listed-old a [] gs h = elim h [ ]
  Listed-old a (f ∷ fs) gs (inl h) = inl h
  Listed-old a (f ∷ fs) gs (inr h) = inr (Listed-old a fs gs h)

  pub Listed-new : (f : Frame) (fs : List Frame) → Listed (frame_phys_addr f) (fs ++ (f ∷ []))
  Listed-new f [] = inl refl
  Listed-new f (g ∷ fs) = inr (Listed-new f fs)

  pub Listed-cases :
      (a : ℕ) (f : Frame) (fs : List Frame)
      → Listed a (fs ++ (f ∷ []))
      → Listed a fs ⊎ (a ≡ frame_phys_addr f)
  Listed-cases a f [] (inl h) = inr h
  Listed-cases a f [] (inr h) = elim h [ ]
  Listed-cases a f (g ∷ fs) (inl h) = inl (inl h)
  Listed-cases a f (g ∷ fs) (inr h) = elim (Listed-cases a f fs h) [
    | inl k ↦ inl (inr k)
    | inr k ↦ inr k
  ]

  pub record IsTree (w : EptPageTable A) : Type 0 where
    -- Every table that a walk reaches is freed with the page table, and not before.
    pub reached :
        (p : List ℕ) (a : ℕ)
        → length p ≤ 3
        → walk w.memory w.pml4_phys p ≡ some a
        → Listed a w.frames
    -- Every table is reached by one path only.
    pub once :
        (p q : List ℕ) (a : ℕ)
        → length p ≤ 3
        → length q ≤ 3
        → walk w.memory w.pml4_phys p ≡ some a
        → walk w.memory w.pml4_phys q ≡ some a
        → p ≡ q
    pub live : (a : ℕ) → Listed a w.frames → Live w.alloc a

  -- What `ensure_table` does at the end of path `p` and index `i`, on both results.
  pub record Ensured (w : EptPageTable A) (p : List ℕ) (i : ℕ)
      (out : Result Error ℕ × EptPageTable A) : Type 0 where
    pub tree : IsTree out.1
    pub root : out.1.pml4_phys ≡ w.pml4_phys
    pub leaves :
        (q : List ℕ) (k : ℕ)
        → length q ≡ 3
        → leaf out.1.memory out.1.pml4_phys q k ≡ leaf w.memory w.pml4_phys q k
    pub found : (t : ℕ) → out.0 ≡ ok t → walk out.1.memory out.1.pml4_phys (p ++ (i ∷ [])) ≡ some t

  module _ (w : EptPageTable A) (v : IsTree w) (t i perms : ℕ) (p : List ℕ) (short : length p ≤ 2)
      (here : walk w.memory w.pml4_phys p ≡ some t) (some_perms : 0 < perms)
      (perms_bits : perms < 8) where
    failed-Ensured :
        (e : Error)
        → (allocate_frame w.alloc).0 ≡ err e
        → Ensured w p i (add_table A t i perms w (err e) (allocate_frame w.alloc).1)
    unfolding add_table
    failed-Ensured e h = record {
      tree = record {
        reached = v.reached;
        once = v.once;
        live = λ a l. A.kept w.alloc a (v.live a l);
      };
      root = refl;
      leaves = λ q k n. refl;
      found = λ u f. cc;
    }

    module _ (f : Frame) (h : (allocate_frame w.alloc).0 ≡ ok f)
        (absent : is_present (w.memory t i) ≡ false) where
      abbrev new : ℕ
      new = frame_phys_addr f

      fields :
          (is_present (table_entry new perms) ≡ true)
          × (addr (table_entry new perms) ≡ new)
          × (permissions (table_entry new perms) ≡ perms)
      fields = table_entry_fields new perms (A.aligned w.alloc f h) some_perms perms_bits

      fresh : ¬ Listed new w.frames
      fresh l = A.fresh w.alloc f h (v.live new l)

      abbrev m' : TableMemory
      m' = write (zero_table w.memory new) t i (table_entry new perms)

      cases :
          (q : List ℕ) (a : ℕ)
          → length q ≤ 3
          → walk m' w.pml4_phys q ≡ some a
          → ((q ≡ p ++ (i ∷ [])) × (a ≡ new)) ⊎ (walk w.memory w.pml4_phys q ≡ some a)
      cases =
          grown_cases w.memory w.pml4_phys (λ a. Listed a w.frames) v.reached v.once t i new
            (table_entry new perms) p short here absent fresh fields.0 fields.1

      added-reached :
          (q : List ℕ) (a : ℕ)
          → length q ≤ 3
          → walk m' w.pml4_phys q ≡ some a
          → Listed a (w.frames ++ (f ∷ []))
      added-reached q a n r = elim (cases q a n r) [
        | inl (e, g) ↦ rw g (Listed-new f w.frames)
        | inr old ↦ Listed-old a w.frames (f ∷ []) (v.reached q a n old)
      ]

      added-once :
          (q r : List ℕ) (a : ℕ)
          → length q ≤ 3
          → length r ≤ 3
          → walk m' w.pml4_phys q ≡ some a
          → walk m' w.pml4_phys r ≡ some a
          → q ≡ r
      added-once q r a n k x y = both (cases q a n x) (cases r a k y)
        where
          both :
              ((q ≡ p ++ (i ∷ [])) × (a ≡ new)) ⊎ (walk w.memory w.pml4_phys q ≡ some a)
              → ((r ≡ p ++ (i ∷ [])) × (a ≡ new)) ⊎ (walk w.memory w.pml4_phys r ≡ some a)
              → q ≡ r
          both (inl (e, _)) (inl (e', _)) = e ∙ sym e'
          both (inl (_, g)) (inr old) = absurd (fresh (rw (← g) (v.reached r a k old)))
          both (inr old) (inl (_, g)) = absurd (fresh (rw (← g) (v.reached q a n old)))
          both (inr old) (inr old') = v.once q r a n k old old'

      added-Ensured : Ensured w p i (add_table A t i perms w (ok f) (allocate_frame w.alloc).1)
      unfolding add_table
      added-Ensured = record {
        tree = record {
          reached = added-reached;
          once = added-once;
          live = λ a l. elim (Listed-cases a f w.frames l) [
            | inl old ↦ A.kept w.alloc a (v.live a old)
            | inr e ↦ rw e (A.owned w.alloc f h)
          ];
        };
        root = refl;
        leaves =
            grown-leaf w.memory w.pml4_phys (λ a. Listed a w.frames) v.reached v.once t i new
              (table_entry new perms) p short here absent fresh fields.0 fields.1;
        found = λ u e.
            grown-new w.memory w.pml4_phys (λ a. Listed a w.frames) v.reached v.once t i new
              (table_entry new perms) p short here absent fresh fields.0 fields.1
            ∙ ap some (ok-injective e);
      }

    present-Ensured : is_present (w.memory t i) ≡ true → Ensured w p i (ok (addr (w.memory t i)), w)
    present-Ensured y = record {
      tree = v;
      root = refl;
      leaves = λ q k n. refl;
      found = λ u e.
          walk-append w.memory w.pml4_phys t p (i ∷ []) here ∙ (rw y (ap some (ok-injective e)));
    }

    -- `ensure_table` keeps the tree and every mapping, also where the allocation fails; where it
    -- does not, the table that it returns is the one at the end of the longer path.
    pub ensure_table-Ensured : Ensured w p i (ensure_table A t i perms w)
    unfolding ensure_table
    ensure_table-Ensured = elim (Bool-cases (is_present (w.memory t i))) [
      | inl y ↦ rw y (present-Ensured y)
      | inr n ↦ rw n (answered (allocate_frame w.alloc).0 refl n)
    ]
      where
        answered :
            (r : Result Error Frame)
            → (allocate_frame w.alloc).0 ≡ r
            → is_present (w.memory t i) ≡ false
            → Ensured w p i (add_table A t i perms w r (allocate_frame w.alloc).1)
        answered (ok f) h n = added-Ensured f h n
        answered (err e) h n = failed-Ensured e h
