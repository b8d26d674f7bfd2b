-- ===== src/Ept/Remap.antt =====
-- A fresh page table, and `remap_4k`, which changes one mapping that is there.
use bedrock.Base.{
  ℕ, ◌*◌, ◌/◌, ◌%◌, ◌^◌, ◌<◌, ◌≡◌, refl, sym, ◌∙◌, inl, inr, true, Option, none, some, List, [],
  ◌∷◌, if◌then◌else◌, ◌==◌, Bool-cases, arith,
}
use bedrock.Base.Result.{Result, ok, err, ok-injective}
use bedrock.Memory.{pml4_index, pdpt_index, pd_index, pt_index}
use bedrock.Ept.Entry.{MemoryType, page_entry_4k, is_present, addr, permissions, is_present-zero}
use bedrock.Ept.Frames.{FrameAllocator, TableMemory, write, zero_table}
use bedrock.Ept.Walk.{walk}
use bedrock.Ept.Table.{
  EptPageTable, RemapError, new, init_root, remap_4k, lookup, not_mapped, set_entry,
}
use bedrock.Ept.Grow.{read_entry, leaf-some, leaf-none}
use bedrock.Ept.Tree.{IsTree}
use bedrock.Ept.Map.{path, lookup-leaf, Mapped-lookup, set_entry-Mapped, entry-target}

-- What `remap_4k` does once it has the last table.
abbrev remap_at : TableMemory → ℕ → ℕ → ℕ → Result RemapError (Unit {0}) × TableMemory
remap_at m t k e = if is_present (m t k) then (ok tt, write m t k e) else (err not_mapped, m)

abbrev remap_found : TableMemory → ℕ → ℕ → Option ℕ → Result RemapError (Unit {0}) × TableMemory
remap_found m k e none = (err not_mapped, m)
remap_found m k e (some t) = remap_at m t k e

remap_4k-walk :
    (m : TableMemory) (root g h perms : ℕ) (mem_type : MemoryType)
    → remap_4k m root g h perms mem_type
      ≡ remap_found m (pt_index g) (page_entry_4k h perms mem_type) (walk m root (path g))
unfolding remap_4k
remap_4k-walk m root g h perms mem_type = elim (Bool-cases (is_present (m root (pml4_index g)))) [
  | inr n ↦ rw n
  | inl y4 ↦
      let pdpt = addr (m root (pml4_index g)) in
      elim (Bool-cases (is_present (m pdpt (pdpt_index g)))) [
        | inr n ↦ rw (y4, n)
        | inl y3 ↦
            let pd = addr (m pdpt (pdpt_index g)) in
            elim (Bool-cases (is_present (m pd (pd_index g)))) [
              | inr n ↦ rw (y4, y3, n)
              | inl y2 ↦ rw (y4, y3, y2)
            ]
      ]
]

-- `remap_4k` of a page that is not mapped reports it and changes nothing.
pub remap_4k_unmapped :
    (m : TableMemory) (root g h perms : ℕ) (mem_type : MemoryType)
    → lookup m root g ≡ none
    → remap_4k m root g h perms mem_type ≡ (err not_mapped, m)
remap_4k_unmapped m root g h perms mem_type e =
    remap_4k-walk m root g h perms mem_type ∙ at_walk (walk m root (path g)) refl
  where
    at_walk :
        (o : Option ℕ)
        → walk m root (path g) ≡ o
        → remap_found m (pt_index g) (page_entry_4k h perms mem_type) o ≡ (err not_mapped, m)
    at_walk none w = refl
    at_walk (some t) w = elim (Bool-cases (is_present (m t (pt_index g)))) [
      | inr n ↦ rw n
      | inl y ↦
          let k : read_entry (m t (pt_index g)) ≡ none =
            sym (leaf-some m root (path g) (pt_index g) t w) ∙ sym (lookup-leaf m root g) ∙ e in
          let k' : ◌≡◌ {A = Option (ℕ × ℕ)}
              (some (addr (m t (pt_index g)), permissions (m t (pt_index g)))) none =
            rw y at k in
          cc
    ]

-- A page that is mapped has its last table, and a present entry in it.
mapped_entry :
    (m : TableMemory) (root g : ℕ) (old : ℕ × ℕ)
    → lookup m root g ≡ some old
    → (t : ℕ) × (walk m root (path g) ≡ some t) × (is_present (m t (pt_index g)) ≡ true)
mapped_entry m root g old e = at_walk (walk m root (path g)) refl
  where
    at_walk :
        (o : Option ℕ)
        → walk m root (path g) ≡ o
        → (t : ℕ) × (walk m root (path g) ≡ some t) × (is_present (m t (pt_index g)) ≡ true)
    at_walk none w =
        let k : ◌≡◌ {A = Option (ℕ × ℕ)} none (some old) =
          sym (leaf-none m root (path g) (pt_index g) w) ∙ sym (lookup-leaf m root g) ∙ e in
        absurd (cc)
    at_walk (some t) w = elim (Bool-cases (is_present (m t (pt_index g)))) [
      | inl y ↦ (t, w, y)
      | inr n ↦
          let k : read_entry (m t (pt_index g)) ≡ some old =
            sym (leaf-some m root (path g) (pt_index g) t w) ∙ sym (lookup-leaf m root g) ∙ e in
          let k' : ◌≡◌ {A = Option (ℕ × ℕ)} none (some old) = rw n at k in absurd (cc)
    ]

module _ (A : FrameAllocator) (w : EptPageTable A) (v : IsTree A w) (g h perms : ℕ)
    (mem_type : MemoryType) (some_perms : 0 < perms) (perms_bits : perms < 8) where
  -- The result of a `remap_4k` that has done its work, as page `g'` sees it.
  abbrev pub Remapped : ℕ → Result RemapError (Unit {0}) × TableMemory → Type 0
  Remapped g' (r, m') =
      (r ≡ ok tt)
      × IsTree A (record w { memory = m' })
      × (lookup m' w.pml4_phys g' ≡ (
          if g / 2 ^ 12 % 2 ^ 36 == g' / 2 ^ 12 % 2 ^ 36
          then some (h / 2 ^ 12 % 2 ^ 40 * 2 ^ 12, perms)
          else lookup w.memory w.pml4_phys g'))

  -- `remap_4k` of a page that is mapped succeeds, keeps the tables a tree, and gives that page,
  -- and no other, the new frame and permissions, which are some of the three.
  pub remap_4k-lookup :
      (old : ℕ × ℕ) (g' : ℕ)
      → lookup w.memory w.pml4_phys g ≡ some old
      → let (r, m') = remap_4k w.memory w.pml4_phys g h perms mem_type in
        (r ≡ ok tt)
        × IsTree A (record w { memory = m' })
        × (lookup m' w.pml4_phys g' ≡ (
            if g / 2 ^ 12 % 2 ^ 36 == g' / 2 ^ 12 % 2 ^ 36
            then some (h / 2 ^ 12 % 2 ^ 40 * 2 ^ 12, perms)
            else lookup w.memory w.pml4_phys g'))
  unfolding set_entry
  remap_4k-lookup old g' e =
      let (t, here, y) = mapped_entry w.memory w.pml4_phys g old e in
      let entry = page_entry_4k h perms mem_type in
      let runs : remap_4k w.memory w.pml4_phys g h perms mem_type
          ≡ (ok tt, write w.memory t (pt_index g) entry) =
        remap_4k-walk w.memory w.pml4_phys g h perms mem_type ∙ (rw here (rw y)) in
      let d = set_entry-Mapped A w v t (pt_index g) entry (path g) refl here in
      rw runs (
        refl,
        d.tree,
        rw (← entry-target A w v g h perms mem_type some_perms perms_bits)
            (Mapped-lookup A w g (read_entry entry) (set_entry A t (pt_index g) entry w) d refl g'),
      )

module _ (A : FrameAllocator) where
  open A use {State, Error, Frame, frame_phys_addr, allocate_frame}

  -- The root of a new page table is blank.
  root_only :
      (m : TableMemory) (root a : ℕ) (p : List ℕ)
      → walk (zero_table m root) root p ≡ some a
      → (p ≡ []) × (a ≡ root)
  root_only m root a [] e = (refl, cc)
  root_only m root a (i ∷ p) e =
      let blank : zero_table m root root i ≡ 0 = ground arith in
      let k : none ≡ some a = rw (blank, is_present-zero) at e in absurd (cc)

  module _ (m : TableMemory) (s : State) where
    -- A new page table, where the allocator has a frame for its root, is a tree and maps nothing.
    pub new-IsTree :
        (w : EptPageTable A) (g : ℕ)
        → (new A m s).0 ≡ ok w
        → IsTree A w × (lookup w.memory w.pml4_phys g ≡ none)
    unfolding new
    new-IsTree w g e = go (allocate_frame s).0 refl e
      where
        go :
            (r : Result Error Frame)
            → (allocate_frame s).0 ≡ r
            → (init_root A m r (allocate_frame s).1).0 ≡ ok w
            → IsTree A w × (lookup w.memory w.pml4_phys g ≡ none)
        go (err x) h e = cc
        go (ok f) h e =
            let root = frame_phys_addr f in
            let blank : zero_table m root root (pml4_index g) ≡ 0 = ground arith in
            rw (← ok-injective e) (
              record {
                reached = λ p a n k. inl (root_only m root a p k).1;
                once = λ p q a n l k j. (root_only m root a p k).0 ∙ sym (root_only m root a q j).0;
                live = λ a l. elim l [ inl k ↦ rw k (A.owned s f h) | inr k ↦ absurd k ];
              },
              unfold lookup in rw (blank, is_present-zero),
            )
