-- ===== src/Ept/Map.antt =====
-- `map_4k` and `lookup` as a map from guest pages to host frames.
use bedrock.Base.{
  ℕ, ◌*◌, ◌/◌, ◌%◌, ◌^◌, ◌≤◌, ◌<◌, ◌≡◌, ◌≢◌, refl, sym, ap, ◌∙◌, inl, inr, false, Option, some,
  List, [], ◌∷◌, length, if◌then◌else◌, ◌==◌, Bool-cases, Option-cases, arith, ==→eq,
}
use bedrock.Base.Result.{Result, ok, err}
use bedrock.Memory.{pml4_index, pdpt_index, pd_index, pt_index, page_of_indices, indices_of_page}
use bedrock.Ept.Entry.{MemoryType, page_entry_4k, page_entry_4k_fields}
use bedrock.Ept.Frames.{FrameAllocator, TableMemory, write}
use bedrock.Ept.Walk.{walk, walk-write_off}
use bedrock.Ept.Table.{EptPageTable, M, ensure_table, set_entry, map_4k, lookup}
use bedrock.Ept.Grow.{leaf, read_entry, leaf-some, leaf-none, prefix_length}
use bedrock.Ept.Tree.{IsTree, Ensured, ensure_table-Ensured}

-- The path of a guest address to its last table.
abbrev pub path : ℕ → List ℕ
path g = pml4_index g ∷ pdpt_index g ∷ pd_index g ∷ []

pub lookup-leaf :
    (m : TableMemory) (root g : ℕ) → lookup m root g ≡ leaf m root (path g) (pt_index g)
unfolding lookup
lookup-leaf m root g = ground arith

pub other_page :
    (g g' : ℕ)
    → (g / 2 ^ 12 % 2 ^ 36 == g' / 2 ^ 12 % 2 ^ 36) ≡ false
    → path g' ≡ path g
    → pt_index g' ≡ pt_index g
    → ⊥
other_page g g' n f i = let same = page_of_indices g g' (cc) (cc) (cc) (sym i) in ground arith

module _ (A : FrameAllocator) where
  open A use {Error}

  abbrev pub leaf_of : EptPageTable A → List ℕ → ℕ → Option (ℕ × ℕ)
  leaf_of w = leaf w.memory w.pml4_phys

  -- What `map_4k` does at path `p` and index `k`.
  pub record Mapped (w : EptPageTable A) (p : List ℕ) (k : ℕ) (target : Option (ℕ × ℕ))
      (out : Result Error (Unit {0}) × EptPageTable A) : Type 0 where
    pub tree : IsTree A out.1
    pub root : out.1.pml4_phys ≡ w.pml4_phys
    pub stored : out.0 ≡ ok tt → leaf_of out.1 p k ≡ target
    pub others :
        out.0 ≡ ok tt
        → (q : List ℕ) (j : ℕ) → length q ≡ 3
        → ¬ ((q ≡ p) × (j ≡ k))
        → leaf_of out.1 q j ≡ leaf_of w q j
    pub failed :
        (e : Error)
        → out.0 ≡ err e
        → (q : List ℕ) (j : ℕ) → length q ≡ 3
        → leaf_of out.1 q j ≡ leaf_of w q j

  module _ (w : EptPageTable A) (v : IsTree A w) (t k e : ℕ) (p : List ℕ) (deep : length p ≡ 3)
      (here : walk w.memory w.pml4_phys p ≡ some t) where
    abbrev pub m' : TableMemory
    m' = write w.memory t k e

    -- No walk to a table reads an entry of a last table.
    walks : (q : List ℕ) → length q ≤ 3 → walk m' w.pml4_phys q ≡ walk w.memory w.pml4_phys q
    walks q h = walk-write_off w.memory w.pml4_phys t k e q λ a b j f g. absurd (
        omega (
          arith,
          prefix_length q a b j f,
          ap length (v.once a p t (omega (arith, prefix_length q a b j f)) (omega arith) g here),
        ))

    pub set-others :
        (q : List ℕ) (j : ℕ)
        → length q ≡ 3
        → ¬ ((q ≡ p) × (j ≡ k))
        → leaf m' w.pml4_phys q j ≡ leaf_of w q j
    set-others q j h ne = elim (Option-cases (walk w.memory w.pml4_phys q)) [
      | inl n ↦
          leaf-none m' w.pml4_phys q j (walks q (omega arith) ∙ n)
          ∙ sym (leaf-none w.memory w.pml4_phys q j n)
      | inr (u, g) ↦
          leaf-some m' w.pml4_phys q j u (walks q (omega arith) ∙ g)
          ∙ ap read_entry (same u g)
          ∙ sym (leaf-some w.memory w.pml4_phys q j u g)
    ]
      where
        same : (u : ℕ) → walk w.memory w.pml4_phys q ≡ some u → m' u j ≡ w.memory u j
        same u g =
            let apart : u ≡ t → j ≢ k =
              λ f i. ne (v.once q p t (omega arith) (omega arith) (g ∙ ap some f) here, i) in
            ground (arith, apart)

    pub set_entry-Mapped : Mapped w p k (read_entry e) (set_entry A t k e w)
    unfolding set_entry
    set_entry-Mapped = record {
      tree = record {
        reached = λ q a h g. v.reached q a h (sym (walks q h) ∙ g);
        once = λ q r a h i f g. v.once q r a h i (sym (walks q h) ∙ f) (sym (walks r i) ∙ g);
        live = v.live;
      };
      root = refl;
      stored = λ h.
          leaf-some m' w.pml4_phys p k t (walks p (omega arith) ∙ here)
          ∙ ap read_entry (ground arith);
      others = λ h. set-others;
      failed = λ x h. cc;
    }

  -- A mapping that was stored at the path of `g` is what the page of `g` now looks up.
  pub Mapped-lookup :
      (w : EptPageTable A) (g : ℕ) (target : Option (ℕ × ℕ))
      (out : Result Error (Unit {0}) × EptPageTable A)
      → Mapped w (path g) (pt_index g) target out
      → out.0 ≡ ok tt
      → (g' : ℕ)
      → lookup out.1.memory out.1.pml4_phys g' ≡ (
          if g / 2 ^ 12 % 2 ^ 36 == g' / 2 ^ 12 % 2 ^ 36
          then target
          else lookup w.memory w.pml4_phys g')
  Mapped-lookup w g target out d e g' =
      elim (Bool-cases (g / 2 ^ 12 % 2 ^ 36 == g' / 2 ^ 12 % 2 ^ 36)) [
        | inl y ↦
            let (i4, i3, i2, i1) = indices_of_page g g' (==→eq _ _ y) in
            lookup-leaf _ _ g' ∙ (rw (y, ← i4, ← i3, ← i2, ← i1) (d.stored e))
        | inr n ↦
            lookup-leaf _ _ g'
            ∙ d.others e (path g') (pt_index g') refl (λ d. other_page g g' n d.0 d.1)
            ∙ sym (lookup-leaf w.memory w.pml4_phys g')
            ∙ (rw n)
      ]

  -- A step that keeps the mappings comes before one that sets a mapping.
  after-Ensured :
      (w : EptPageTable A) (p : List ℕ) (k i : ℕ) (target : Option (ℕ × ℕ)) (q : List ℕ)
      (r : Result Error ℕ) (w' : EptPageTable A) (next : ℕ → M A (Unit {0}))
      → Ensured A w q i (r, w')
      → ((t : ℕ) → r ≡ ok t → Mapped w' p k target (next t w'))
      → Mapped w p k target (elim r [ ok x ↦ next x w' | err e ↦ (err e, w') ])
  after-Ensured w p k i target q (ok t) w' next s f =
      let d = f t refl in
      record {
        tree = d.tree;
        root = d.root ∙ s.root;
        stored = d.stored;
        others = λ h a j n ne. d.others h a j n ne ∙ s.leaves a j n;
        failed = λ e h a j n. d.failed e h a j n ∙ s.leaves a j n;
      }
  after-Ensured w p k i target q (err e) w' next s f = record {
    tree = s.tree;
    root = s.root;
    stored = λ h. cc;
    others = λ h. cc;
    failed = λ x h a j n. s.leaves a j n;
  }

  module _ (w : EptPageTable A) (v : IsTree A w) (g h perms : ℕ) (mem_type : MemoryType)
      (some_perms : 0 < perms) (perms_bits : perms < 8) where
    abbrev pub target : Option (ℕ × ℕ)
    target = some (h / 2 ^ 12 % 2 ^ 40 * 2 ^ 12, perms)

    pub entry-target : read_entry (page_entry_4k h perms mem_type) ≡ target
    entry-target =
        let f = page_entry_4k_fields h perms mem_type some_perms perms_bits in rw (f.0, f.1, f.2)

    -- The rest of `map_4k` after each table.
    abbrev put : ℕ → M A (Unit {0})
    put t = set_entry A t (pt_index g) (page_entry_4k h perms mem_type)

    abbrev from_pd : ℕ → M A (Unit {0})
    from_pd t x =
        let (r, y) = ensure_table A t (pd_index g) perms x in
        elim r [ ok u ↦ put u y | err e ↦ (err e, y) ]

    abbrev from_pdpt : ℕ → M A (Unit {0})
    from_pdpt t x =
        let (r, y) = ensure_table A t (pdpt_index g) perms x in
        elim r [ ok u ↦ from_pd u y | err e ↦ (err e, y) ]

    put-Mapped :
        (x : EptPageTable A) (u : IsTree A x) (t : ℕ)
        → walk x.memory x.pml4_phys (path g) ≡ some t
        → Mapped x (path g) (pt_index g) target (put t x)
    put-Mapped x u t here =
        rw (← entry-target)
          (set_entry-Mapped x u t (pt_index g) (page_entry_4k h perms mem_type) (path g) refl here)

    from_pd-Mapped :
        (x : EptPageTable A) (u : IsTree A x) (t : ℕ)
        → walk x.memory x.pml4_phys (pml4_index g ∷ pdpt_index g ∷ []) ≡ some t
        → Mapped x (path g) (pt_index g) target (from_pd t x)
    from_pd-Mapped x u t here =
        let (r, y) = ensure_table A t (pd_index g) perms x in
        let before = pml4_index g ∷ pdpt_index g ∷ [] in
        let s =
          ensure_table-Ensured A x u t (pd_index g) perms before (omega arith) here some_perms
            perms_bits in
        after-Ensured x (path g) (pt_index g) (pd_index g) target before r y put s
          (λ b e. put-Mapped y s.tree b (s.found b e))

    from_pdpt-Mapped :
        (x : EptPageTable A) (u : IsTree A x) (t : ℕ)
        → walk x.memory x.pml4_phys (pml4_index g ∷ []) ≡ some t
        → Mapped x (path g) (pt_index g) target (from_pdpt t x)
    from_pdpt-Mapped x u t here =
        let (r, y) = ensure_table A t (pdpt_index g) perms x in
        let before = pml4_index g ∷ [] in
        let s =
          ensure_table-Ensured A x u t (pdpt_index g) perms before (omega arith) here some_perms
            perms_bits in
        after-Ensured x (path g) (pt_index g) (pdpt_index g) target before r y from_pd s
          (λ b e. from_pd-Mapped y s.tree b (s.found b e))

    map_4k-Mapped : Mapped w (path g) (pt_index g) target (map_4k A g h perms mem_type w)
    unfolding map_4k
    map_4k-Mapped =
        let (r, y) = ensure_table A w.pml4_phys (pml4_index g) perms w in
        let s =
          ensure_table-Ensured A w v w.pml4_phys (pml4_index g) perms [] (omega arith) refl
            some_perms perms_bits in
        after-Ensured w (path g) (pt_index g) (pml4_index g) target [] r y from_pdpt s
          (λ b e. from_pdpt-Mapped y s.tree b (s.found b e))

    -- With the frame list of the cargo build, which always grows, `map_4k` keeps the page tables a tree of
    -- frames of the list, whether it succeeds or runs out of frames, and the root where it is; the
    -- permissions are some of the three.
    pub map_4k-IsTree :
        IsTree A (map_4k A g h perms mem_type w).1
        × ((map_4k A g h perms mem_type w).1.pml4_phys ≡ w.pml4_phys)
    map_4k-IsTree = (map_4k-Mapped.tree, map_4k-Mapped.root)

    -- A `map_4k` that succeeds maps the page of its guest address to the frame with the
    -- permissions given, some of the three, and no other page; the tables are a tree before.
    pub map_4k-lookup :
        (g' : ℕ)
        → (map_4k A g h perms mem_type w).0 ≡ ok tt
        → let w' = (map_4k A g h perms mem_type w).1 in
          lookup w'.memory w'.pml4_phys g' ≡ (
            if g / 2 ^ 12 % 2 ^ 36 == g' / 2 ^ 12 % 2 ^ 36
            then some (h / 2 ^ 12 % 2 ^ 40 * 2 ^ 12, perms)
            else lookup w.memory w.pml4_phys g')
    map_4k-lookup g' e = Mapped-lookup w g target _ map_4k-Mapped e g'

    -- A `map_4k` that runs out of frames changes no mapping, if the tables are a tree and the
    -- permissions some of the three.
    pub map_4k-failed_lookup :
        (g' : ℕ) (e : Error)
        → (map_4k A g h perms mem_type w).0 ≡ err e
        → let w' = (map_4k A g h perms mem_type w).1 in
          lookup w'.memory w'.pml4_phys g' ≡ lookup w.memory w.pml4_phys g'
    map_4k-failed_lookup g' e f =
        lookup-leaf _ _ g'
        ∙ map_4k-Mapped.failed e f (path g') (pt_index g') refl
        ∙ sym (lookup-leaf w.memory w.pml4_phys g')
