-- ===== src/Forked.antt =====
-- A forked VM and its memory: crates/bedrock-vmx/src/vm/forked.rs, with the trait `ParentVm` as root.rs and
-- forked.rs implement it, a chain of parents that ends at the root. `ram` is the host's memory by virtual
-- address, which all VMs share. The map of copied pages is that of the kernel's build: `memory` is the
-- answer of the kernel's allocator to an insertion. Invalidations of the TLB and log messages are left out.
pub mod Pages
pub mod Reads
pub mod Overlay
pub mod Writes
pub mod Memory
pub mod Rounds
pub mod Copies
pub mod Remapped
pub mod Faults
pub mod Resolve
pub mod Isolation
pub mod Steps
use bedrock.Base.{
  ℕ, zero, suc, ◌+◌, ◌-◌, ◌*◌, ◌≡◌, ◌≤◌, ◌<◌, ◌%◌, ◌&&◌, ◌==◌, Bool, true, false, Option, none,
  some, List, [], ◌∷◌, ◌++◌, length, take, drop, get_or, bit_and, ltb, leb, if◌then◌else◌, u64,
}
use bedrock.Base.Result.{Result, ok, err}
use bedrock.Ept.Entry.{IsFrame, write_back, read_write_execute}
use bedrock.Ept.Frames.{FrameAllocator}
use bedrock.Ept.Table.{EptPageTable, remap_4k}
use bedrock.Ept.Clone.{clone_for_fork}
use bedrock.Cow.{CowPageMap, page_aligned, get, contains, kernel_insert}

pub record Page : Type 0 where
  pub physical_address : ℕ
  pub virtual_address : ℕ

pub data MemoryError : Type 0 where
  out_of_range not_mapped permission_denied : MemoryError

pub data ParentVm : Type 0 where
  root : ℕ → ℕ → ParentVm
  forked : CowPageMap Page → ParentVm → ParentVm

-- `read_page` of either VM: the virtual address of a guest page. The root has its memory in one piece, at
-- an address and of a size; the sums wrap at 64 bits, as where overflow is not checked.
unfoldable pub read_page : ParentVm → ℕ → Option ℕ
read_page (root as_ptr size) gpa =
    if leb (u64 (page_aligned gpa + 4096)) size
    then some (u64 (as_ptr + page_aligned gpa))
    else none
read_page (forked cow_pages parent) gpa = elim (get cow_pages (page_aligned gpa)) [
  | some page ↦ some page.virtual_address
  | none ↦ read_page parent (page_aligned gpa)
]

unfoldable pub memory_size : ParentVm → ℕ
memory_size (root as_ptr size) = size
memory_size (forked cow_pages parent) = memory_size parent

-- `copy_nonoverlapping`, out of the host's memory, into it, and within it.
unfoldable pub load : (ℕ → ℕ) → ℕ → ℕ → List ℕ
load ram p zero = []
load ram p (suc n) = ram p ∷ load ram (p + 1) n

unfoldable pub store : (ℕ → ℕ) → ℕ → List ℕ → ℕ → ℕ
store ram p bytes a = if leb p a && ltb a (p + length bytes) then get_or bytes (a - p) 0 else ram a

unfoldable pub copy_page : (ℕ → ℕ) → ℕ → ℕ → ℕ → ℕ
copy_page ram from dst a = if leb dst a && ltb a (dst + 4096) then ram (from + (a - dst)) else ram a

module _ (A : FrameAllocator) where
  open A use {State, Error}

  -- The trait `CowAllocator`, with what its documentation promises: a page owns its memory, and no other
  -- allocation takes that away. `Owned s v` says that the page at the virtual address `v` is owned.
  pub record CowAllocator : Type 1 where
    pub allocate_cow_page : State → Result Error Page × State
    pub Owned : State → ℕ → Type 0
    pub live : (s : State) (a : ℕ) → A.Live s a → A.Live (allocate_cow_page s).1 a
    pub kept : (s : State) (v : ℕ) → Owned s v → Owned (allocate_cow_page s).1 v
    pub fresh :
        (s : State) (p : Page) → (allocate_cow_page s).0 ≡ ok p → ¬ Owned s p.virtual_address
    pub owned :
        (s : State) (p : Page)
        → (allocate_cow_page s).0 ≡ ok p
        → Owned (allocate_cow_page s).1 p.virtual_address
    pub aligned : (s : State) (v : ℕ) → Owned s v → v % 4096 ≡ 0
    pub frame : (s : State) (p : Page) → (allocate_cow_page s).0 ≡ ok p → IsFrame p.physical_address

  pub record ForkedVm : Type 0 where
    pub ept : EptPageTable A
    pub cow_pages : CowPageMap Page
    pub parent : ParentVm
    pub ram : ℕ → ℕ
    pub stale_tlb_faults : ℕ
    pub io_page_gpa : ℕ
    pub feedback_buffers : ℕ → Option (List ℕ)

  -- The VM as the parent of another.
  abbrev pub as_parent : ForkedVm → ParentVm
  as_parent w = forked w.cow_pages w.parent

  -- The page that `read_guest_memory` finds: its own copy, else the parent's.
  unfoldable pub source_page : ForkedVm → ℕ → Option ℕ
  source_page w page_gpa = elim (get w.cow_pages page_gpa) [
    | some page ↦ some page.virtual_address
    | none ↦ read_page w.parent page_gpa
  ]

  -- `fuel` bounds the pages that are visited; `not_mapped` stands for its end.
  unfoldable pub read_pages : ℕ → ForkedVm → ℕ → ℕ → Result MemoryError (List ℕ)
  read_pages zero w gpa len = err not_mapped
  read_pages (suc fuel) w gpa len =
      let page_gpa = page_aligned gpa in
      let page_offset = bit_and gpa 0xFFF in
      let available = 4096 - page_offset in
      let rest = read_pages fuel w (page_gpa + 4096) (len - available) in
      elim (source_page w page_gpa) [
        | none ↦ err out_of_range
        | some page ↦
            if leb len available then ok (load w.ram (page + page_offset) len) else elim rest [
              | err e ↦ err e
              | ok bytes ↦ ok (load w.ram (page + page_offset) available ++ bytes)
            ]
      ]

  unfoldable pub read_guest_memory : ForkedVm → ℕ → ℕ → Result MemoryError (List ℕ)
  read_guest_memory w gpa len = read_pages (suc len) w gpa len

  unfoldable pub write_pages : ℕ → ℕ → List ℕ → ForkedVm → Result MemoryError (Unit {0}) × ForkedVm
  write_pages zero gpa buf w = (err not_mapped, w)
  write_pages (suc fuel) gpa buf w =
      let page_gpa = page_aligned gpa in
      let page_offset = bit_and gpa 0xFFF in
      let available = 4096 - page_offset in
      elim (get w.cow_pages page_gpa) [
        | none ↦ (err permission_denied, w)
        | some page ↦
            let at = page.virtual_address + page_offset in
            let rest =
              write_pages fuel (page_gpa + 4096) (drop available buf)
                (record w { ram = store w.ram at (take available buf) }) in
            if leb (length buf) available
            then (ok tt, record w { ram = store w.ram at buf })
            else rest
      ]

  unfoldable pub write_guest_memory :
      ℕ → List ℕ → ForkedVm → Result MemoryError (Unit {0}) × ForkedVm
  write_guest_memory gpa buf w = write_pages (suc (length buf)) gpa buf w

  -- The copy of a page, which three methods have in common, from its last step back to its first: whether
  -- it was made, and the VM after it.
  unfoldable pub remap_page : ℕ → Page → ForkedVm → Bool × ForkedVm
  remap_page page_gpa page w =
      let (r, m) =
        remap_4k w.ept.memory w.ept.pml4_phys page_gpa page.physical_address read_write_execute
          write_back in
      let w' : ForkedVm = record w { ept = record w.ept { memory = m } } in
      elim r [ ok _ ↦ (true, w') | err _ ↦ (false, w') ]

  unfoldable pub insert_page : Bool → ℕ → Page → ForkedVm → Bool × ForkedVm
  insert_page memory page_gpa page w =
      let (r, m) = kernel_insert memory page_gpa page w.cow_pages in
      elim r [ ok _ ↦ remap_page page_gpa page (record w { cow_pages = m }) | err _ ↦ (false, w) ]

  unfoldable pub fill_page : Bool → ℕ → Result Error Page → ForkedVm → Bool × ForkedVm
  fill_page memory page_gpa (err e) w = (false, w)
  fill_page memory page_gpa (ok page) w = elim (read_page w.parent page_gpa) [
    | none ↦ (false, w)
    | some from ↦
        insert_page memory page_gpa page
          (record w { ram = copy_page w.ram from page.virtual_address })
  ]

  module _ (C : CowAllocator) where
    unfoldable pub copy_on_write : Bool → ℕ → ForkedVm → Bool × ForkedVm
    copy_on_write memory page_gpa w =
        let (answer, s') = C.allocate_cow_page w.ept.alloc in
        fill_page memory page_gpa answer (record w { ept = record w.ept { alloc = s' } })

    -- Whether the guest goes on, and the VM.
    unfoldable pub handle_cow_fault : Bool → ℕ → ForkedVm → Bool × ForkedVm
    handle_cow_fault memory gpa w =
        let page_gpa = page_aligned gpa in
        if contains w.cow_pages page_gpa
        then (true, record w { stale_tlb_faults = w.stale_tlb_faults + 1 })
        else copy_on_write memory page_gpa w

    -- A page that is there is left as it is.
    unfoldable pub cow_once : Bool → ℕ → ForkedVm → ForkedVm
    cow_once memory page_gpa w =
        if contains w.cow_pages page_gpa then w else (copy_on_write memory page_gpa w).1

    unfoldable pub pre_cow_io_channel_page : Bool → ForkedVm → ForkedVm
    pre_cow_io_channel_page memory w =
        if w.io_page_gpa == 0 then w else cow_once memory (page_aligned w.io_page_gpa) w

    unfoldable pub cow_each : Bool → List ℕ → ForkedVm → ForkedVm
    cow_each memory [] w = w
    cow_each memory (page_gpa ∷ gpas) w = cow_each memory gpas (cow_once memory page_gpa w)

    unfoldable pub cow_feedback_buffer_for_mapping : Bool → ℕ → ForkedVm → ForkedVm
    cow_feedback_buffer_for_mapping memory index w = elim (w.feedback_buffers index) [
      | none ↦ w
      | some gpas ↦ cow_each memory gpas w
    ]
