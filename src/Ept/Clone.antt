-- ===== src/Ept/Clone.antt =====
-- `EptPageTable::clone_for_fork`: crates/bedrock-ept/src/table.rs. The loops over the PML4, the PDPTs and
-- the PDs have the same body, which is `clone_entry`, and the level says which loop comes next. Frames of
-- a clone that is given up are dropped, which no operation of the allocator sees.
pub mod View
pub mod Loop
pub mod Leaves
pub mod Levels
pub mod Fork
use bedrock.Base.{ℕ, zero, suc, List, [], ◌∷◌, if◌then◌else◌}
use bedrock.Base.Result.{Result, ok, err}
use bedrock.Ept.Entry.{write_back, page_entry_4k, is_present, addr, permissions, read_execute}
use bedrock.Ept.Frames.{FrameAllocator, TableMemory, zero_table}
use bedrock.Ept.Table.{EptPageTable, M, add_table, set_entry}

module _ (A : FrameAllocator) where
  open A use {State, Error, Frame, frame_phys_addr, allocate_frame}

  -- `for idx in first..first + count`, left by `?` on an error.
  unfoldable pub for_each : ℕ → ℕ → (ℕ → M A (Unit {0})) → M A (Unit {0})
  for_each zero first body w = (ok tt, w)
  for_each (suc count) first body w =
      let (r, w') = body first w in
      elim r [ ok u ↦ for_each count (suc first) body w' | err e ↦ (err e, w') ]

  -- A round of the loop over a page table.
  unfoldable pub copy_leaf : ℕ → ℕ → ℕ → M A (Unit {0})
  copy_leaf src dst idx w =
      let e = w.memory src idx in
      if is_present e
      then set_entry A dst idx (page_entry_4k (addr e) read_execute write_back) w
      else (ok tt, w)

  -- A round of a loop over an upper table: a new table, then the next loop.
  unfoldable pub clone_entry : (ℕ → ℕ → M A (Unit {0})) → ℕ → ℕ → ℕ → M A (Unit {0})
  clone_entry next src dst idx w =
      let e = w.memory src idx in
      let (answer, s') = allocate_frame w.alloc in
      let (r, w') = add_table A dst idx (permissions e) w answer s' in
      let cloned : Result Error (Unit {0}) × EptPageTable A = elim r [
        | ok new_phys ↦ next (addr e) new_phys w'
        | err x ↦ (err x, w')
      ] in
      if is_present e then cloned else (ok tt, w)

  unfoldable pub clone_table : ℕ → ℕ → ℕ → M A (Unit {0})
  clone_table zero src dst = for_each 512 0 (copy_leaf src dst)
  clone_table (suc level) src dst = for_each 512 0 (clone_entry (clone_table level) src dst)

  unfoldable pub finish_clone :
      Result Error (Unit {0}) × EptPageTable A → Result Error (EptPageTable A) × TableMemory × State
  finish_clone (ok u, c) = (ok c, c.memory, c.alloc)
  finish_clone (err e, c) = (err e, c.memory, c.alloc)

  -- From the allocator's answer for the root table on.
  unfoldable pub begin_clone :
      EptPageTable A
      → Result Error Frame
      → State
      → Result Error (EptPageTable A) × TableMemory × State
  begin_clone w (ok new_pml4_frame) s' =
      let new_pml4_phys = frame_phys_addr new_pml4_frame in
      finish_clone (
        clone_table 3 w.pml4_phys new_pml4_phys (record {
          pml4_phys = new_pml4_phys;
          frames = new_pml4_frame ∷ [];
          memory = zero_table w.memory new_pml4_phys;
          alloc = s';
        }))
  begin_clone w (err e) s' = (err e, w.memory, s')

  unfoldable pub clone_for_fork :
      EptPageTable A → Result Error (EptPageTable A) × TableMemory × State
  clone_for_fork w = let (answer, s') = allocate_frame w.alloc in begin_clone w answer s'
