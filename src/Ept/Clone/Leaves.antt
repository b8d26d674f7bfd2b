-- ===== src/Ept/Clone/Leaves.antt =====
-- What it is to clone a tree of tables, and the loop over the entries of a last table.
use bedrock.Base.{
  ℕ, zero, ◌*◌, ◌/◌, ◌%◌, ◌^◌, ◌<◌, ◌≡◌, ◌≢◌, ◌⊎◌, refl, sym, ap, ◌∙◌, inr, true, false, none, List,
  [], ◌∷◌, length, if-cases, arith,
}
use bedrock.Base.Result.{Result, ok}
use bedrock.Ept.Entry.{
  is_present, addr, read_execute, page_entry_4k, write_back, page_entry_4k_fields, addr-eq,
  is_present-zero,
}
use bedrock.Ept.Frames.{FrameAllocator, TableMemory, write}
use bedrock.Ept.Table.{EptPageTable, set_entry}
use bedrock.Ept.Grow.{read_entry}
use bedrock.Ept.Clone.{copy_leaf, clone_table, for_each}
use bedrock.Ept.Clone.View.{view, read_only, AllTables}
use bedrock.Ept.Clone.Loop.{Kept, Kept-refl, Before, Round, for_each-Looped}

-- Indices of tables of 512 entries.
abbrev pub InRange : List ℕ → ℕ → Type 0
InRange [] k = k < 512
InRange (i ∷ q) k = (i < 512) × InRange q k

read_entry-leaf :
    (e : ℕ)
    → is_present e ≡ true
    → read_entry (page_entry_4k (addr e) read_execute write_back) ≡ read_only (read_entry e)
read_entry-leaf e y =
    let (here, where_to, rights) =
      page_entry_4k_fields (addr e) read_execute write_back (omega arith) (omega arith) in
    let same : addr e / 2 ^ 12 % 2 ^ 40 * 2 ^ 12 ≡ addr e = omega (arith, addr-eq e) in
    rw (here, y, where_to, rights, same) refl

pub read_entry-absent : (e : ℕ) → is_present e ≡ false → read_entry e ≡ none
read_entry-absent e n = rw n refl

pub write_self : (m : TableMemory) (t i e : ℕ) → write m t i e t i ≡ e
write_self m t i e = ground arith

pub write_table : (m : TableMemory) (t i e a j : ℕ) → a ≢ t → write m t i e a j ≡ m a j
write_table m t i e a j n = ground (arith, n)

pub write_index : (m : TableMemory) (t i e a j : ℕ) → j ≢ i → write m t i e a j ≡ m a j
write_index m t i e a j n = ground (arith, n)

module _ (A : FrameAllocator) where
  open A use {Error, Live}

  -- Before: the source's tables are owned and are not `dst`, which is owned and empty.
  pub record Clonable (level src dst : ℕ) (w : EptPageTable A) : Type 0 where
    pub source : AllTables level w.memory (λ a. Live w.alloc a × (a ≢ dst)) src
    pub owned : Live w.alloc dst
    pub blank : (i : ℕ) → w.memory dst i ≡ 0

  -- A table that is owned now, and is `dst` or was not owned at the start.
  abbrev pub Made : ℕ → EptPageTable A → EptPageTable A → ℕ → Type 0
  Made dst start w a = Live w.alloc a × ((¬ Live start.alloc a) ⊎ (a ≡ dst))

  -- After: what `dst` maps, and that its tables are new.
  pub record Cloned (level src dst : ℕ) (start : EptPageTable A)
      (out : Result Error (Unit {0}) × EptPageTable A) : Type 0 where
    pub kept : Kept A dst start out.1
    pub views :
        out.0 ≡ ok tt
        → (q : List ℕ) (k : ℕ) → length q ≡ level
        → InRange q k
        → view out.1.memory dst q k ≡ read_only (view start.memory src q k)
    pub made : out.0 ≡ ok tt → AllTables level out.1.memory (Made dst start out.1) dst

  module _ (src dst : ℕ) (start : EptPageTable A) (c : Clonable zero src dst start) where
    abbrev LeafCell : ℕ → EptPageTable A → Type 0
    LeafCell j w = read_entry (w.memory dst j) ≡ read_only (read_entry (start.memory src j))

    copy_leaf-Round :
        (i : ℕ) (w : EptPageTable A)
        → Before A dst start LeafCell i w
        → Round A dst start LeafCell i w (copy_leaf A src dst i w)
    unfolding copy_leaf set_entry
    copy_leaf-Round i w b =
        let e = w.memory src i in
        let new = page_entry_4k (addr e) read_execute write_back in
        let unchanged : e ≡ start.memory src i = b.kept.same src c.source.0 c.source.1 i in
        if-cases (Round A dst start LeafCell i w) (is_present e)
          (λ y. record {
            kept = record {
              live = λ a h. h;
              same = λ a h n j. write_table w.memory dst i new a j n;
              root = refl;
            };
            others = λ j n. write_index w.memory dst i new dst j n;
            cell = λ h.
                ap read_entry (write_self w.memory dst i new)
                ∙ read_entry-leaf e y
                ∙ ap (λ t. read_only (read_entry t)) unchanged;
          })
          (λ n. record {
            kept = Kept-refl A dst w;
            others = λ j h. refl;
            cell = λ h.
                ap read_entry (b.rest i (omega arith))
                ∙ read_entry-absent 0 is_present-zero
                ∙ ap read_only (sym (read_entry-absent e n))
                ∙ ap (λ t. read_only (read_entry t)) unchanged;
          })

    leaf_lasts :
        (j : ℕ) (w w' : EptPageTable A)
        → Kept A dst start w
        → Kept A dst w w'
        → w'.memory dst j ≡ w.memory dst j
        → LeafCell j w
        → LeafCell j w'
    leaf_lasts j w w' k k' e h = ap read_entry e ∙ h

    pub leaves-Cloned : Cloned zero src dst start (clone_table A zero src dst start)
    unfolding clone_table
    leaves-Cloned =
        let first : Before A dst start LeafCell 0 start = record {
          kept = Kept-refl A dst start;
          done = λ j h. absurd (omega arith);
          rest = λ j h. c.blank j;
        } in
        let l =
          for_each-Looped A dst start LeafCell (copy_leaf A src dst) leaf_lasts copy_leaf-Round 512
            0 start first in
        record {
          kept = l.kept;
          views = λ h q k n r. path_nil q k n r (l.after h);
          made = λ h. (l.kept.live dst c.owned, inr refl);
        }
      where
        path_nil :
            (q : List ℕ) (k : ℕ)
            → length q ≡ zero
            → InRange q k
            → Before A dst start LeafCell 512 (for_each A 512 0 (copy_leaf A src dst) start).1
            → view (for_each A 512 0 (copy_leaf A src dst) start).1.memory dst q k
              ≡ read_only (view start.memory src q k)
        path_nil [] k n r b = b.done k r
        path_nil (i ∷ q) k n r b = absurd (omega (arith, n))
