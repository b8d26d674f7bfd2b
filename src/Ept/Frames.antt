-- ===== src/Ept/Frames.antt =====
-- The memory that page tables live in, and the allocator that they take their frames from:
-- the trait `FrameAllocator` of crates/bedrock-ept/src/traits.rs.
use bedrock.Base.{ℕ, ◌≡◌, ◌&&◌, ◌==◌, if◌then◌else◌}
use bedrock.Base.Result.{Result, ok}
use bedrock.Ept.Entry.{IsFrame}

-- The trait's operations, with what its documentation promises of them: a frame is 4KB-aligned,
-- the caller owns it alone, and it stays the caller's until it is freed. `Live s a` says that
-- the frame at `a` is owned by a caller in the allocator's state `s`.
pub record FrameAllocator : Type 1 where
  pub State : Type 0
  pub Error : Type 0
  pub Frame : Type 0
  pub frame_phys_addr : Frame → ℕ
  pub allocate_frame : State → Result Error Frame × State
  pub Live : State → ℕ → Type 0
  pub kept : (s : State) (a : ℕ) → Live s a → Live (allocate_frame s).1 a
  pub fresh : (s : State) (f : Frame) → (allocate_frame s).0 ≡ ok f → ¬ Live s (frame_phys_addr f)
  pub owned :
      (s : State) (f : Frame)
      → (allocate_frame s).0 ≡ ok f
      → Live (allocate_frame s).1 (frame_phys_addr f)
  pub aligned : (s : State) (f : Frame) → (allocate_frame s).0 ≡ ok f → IsFrame (frame_phys_addr f)

-- Physical memory read as tables of entries: the entry at an index of the frame at an address.
-- `phys_to_virt` gives the frames of distinct addresses distinct memory.
abbrev pub TableMemory : Type 0
TableMemory = ℕ → ℕ → ℕ

-- `*entry = e`
abbrev pub write : TableMemory → ℕ → ℕ → ℕ → TableMemory
write m t i e t' i' = if t == t' && i == i' then e else m t' i'

-- `write_bytes(virt, 0, 4096)`
abbrev pub zero_table : TableMemory → ℕ → TableMemory
zero_table m t t' i' = if t == t' then 0 else m t' i'
