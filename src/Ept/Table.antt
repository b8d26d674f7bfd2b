-- ===== src/Ept/Table.antt =====
-- `EptPageTable`: crates/bedrock-ept/src/table.rs. A method changes the page table, the memory and
-- the allocator, also where it fails: the three are one state, passed on beside the result.
use bedrock.Base.{ℕ, Option, none, some, List, [], ◌∷◌, ◌++◌, length, if◌then◌else◌, bit_or, shl}
use bedrock.Base.Result.{Result, ok, err}
use bedrock.Memory.{pml4_index, pdpt_index, pd_index, pt_index}
use bedrock.Ept.Entry.{MemoryType, table_entry, page_entry_4k, is_present, addr, permissions}
use bedrock.Ept.Frames.{FrameAllocator, TableMemory, write, zero_table}

pub data RemapError : Type 0 where
  not_mapped : RemapError

-- Walk to the last table, then read the entry there.
module _ (m : TableMemory) (pml4_phys guest_phys : ℕ) where
  unfoldable pub lookup : Option (ℕ × ℕ)
  lookup =
      let pml4e = m pml4_phys (pml4_index guest_phys) in
      if is_present pml4e
      then (let pdpte = m (addr pml4e) (pdpt_index guest_phys) in
          if is_present pdpte
          then (let pde = m (addr pdpte) (pd_index guest_phys) in
              if is_present pde
              then (let pte = m (addr pde) (pt_index guest_phys) in
                  if is_present pte then some (addr pte, permissions pte) else none)
              else none)
          else none)
      else none

  unfoldable pub remap_4k : ℕ → ℕ → MemoryType → Result RemapError (Unit {0}) × TableMemory
  remap_4k new_host_phys perms mem_type =
      let pml4e = m pml4_phys (pml4_index guest_phys) in
      if is_present pml4e
      then (let pdpte = m (addr pml4e) (pdpt_index guest_phys) in
          if is_present pdpte
          then (let pde = m (addr pdpte) (pd_index guest_phys) in
              if is_present pde
              then (if is_present (m (addr pde) (pt_index guest_phys))
                  then (
                    ok tt,
                    write m (addr pde) (pt_index guest_phys)
                        (page_entry_4k new_host_phys perms mem_type),
                  )
                  else (err not_mapped, m))
              else (err not_mapped, m))
          else (err not_mapped, m))
      else (err not_mapped, m)

-- `mem_type` 6 in bits 2:0, the walk length 3 in bits 5:3.
pub eptp : ℕ → ℕ
eptp pml4_phys = bit_or (bit_or pml4_phys (shl 64 3 3)) 6

module _ (A : FrameAllocator) where
  open A use {State, Error, Frame, frame_phys_addr, allocate_frame}

  pub record EptPageTable : Type 0 where
    pub pml4_phys : ℕ
    pub frames : List Frame
    pub memory : TableMemory
    pub alloc : State

  abbrev pub M : Type 0 → Type 0
  M X = EptPageTable → Result Error X × EptPageTable

  infixl 5 ◌>>=◌
  abbrev pub ◌>>=◌ : {X Y : Type 0} → M X → (X → M Y) → M Y
  ◌>>=◌ m k w = let (r, w') = m w in elim r [ ok x ↦ k x w' | err e ↦ (err e, w') ]

  -- `new`, from the allocator's answer on: zero the root table.
  unfoldable pub init_root :
      TableMemory → Result Error Frame → State → Result Error EptPageTable × TableMemory × State
  init_root m (ok pml4_frame) s' =
      let pml4_phys = frame_phys_addr pml4_frame in
      let m' = zero_table m pml4_phys in
      (
        ok (record { pml4_phys = pml4_phys; frames = pml4_frame ∷ []; memory = m'; alloc = s' }),
        m',
        s',
      )
  init_root m (err e) s' = (err e, m, s')

  unfoldable pub new : TableMemory → State → Result Error EptPageTable × TableMemory × State
  unfolding init_root
  new m s = let (answer, s') = allocate_frame s in init_root m answer s'

  -- `ept_vec_push` of the cargo build, whose list always grows.
  abbrev pub ept_vec_push : List Frame → Frame → List Frame
  ept_vec_push frames val = frames ++ (val ∷ [])

  -- The second branch of `ensure_table`, from the allocator's answer on: zero the new frame, point
  -- the entry at it, keep the frame.
  unfoldable pub add_table :
      ℕ → ℕ → ℕ → EptPageTable → Result Error Frame → State → Result Error ℕ × EptPageTable
  add_table table_phys index perms w (ok new_frame) s' =
      let new_phys = frame_phys_addr new_frame in
      (
        ok new_phys,
        record w {
          frames = ept_vec_push w.frames new_frame;
          memory =
              write (zero_table w.memory new_phys) table_phys index (table_entry new_phys perms);
          alloc = s';
        },
      )
  add_table table_phys index perms w (err e) s' = (err e, record w { alloc = s' })

  -- The entry is `index` of the table at `table_phys`: a pointer of `get_entry_mut`.
  unfoldable pub ensure_table : ℕ → ℕ → ℕ → M ℕ
  ensure_table table_phys index perms w =
      let current = w.memory table_phys index in
      let (answer, s') = allocate_frame w.alloc in
      if is_present current
      then (ok (addr current), w)
      else add_table table_phys index perms w answer s'

  unfoldable pub set_entry : ℕ → ℕ → ℕ → M (Unit {0})
  set_entry table_phys index e w = (ok tt, record w { memory = write w.memory table_phys index e })

  unfoldable pub map_4k : ℕ → ℕ → ℕ → MemoryType → M (Unit {0})
  map_4k guest_phys host_phys perms mem_type w =
      let chain : M (Unit {0}) = (do
        pdpt_phys ← ensure_table w.pml4_phys (pml4_index guest_phys) perms
        pd_phys ← ensure_table pdpt_phys (pdpt_index guest_phys) perms
        pt_phys ← ensure_table pd_phys (pd_index guest_phys) perms
        set_entry pt_phys (pt_index guest_phys) (page_entry_4k host_phys perms mem_type)) in
      chain w

  pub frame_count : EptPageTable → ℕ
  frame_count w = length w.frames
