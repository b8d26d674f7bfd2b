-- ===== src/Tests/Forked.antt =====
-- A fork of a root VM of 64KB, whose parent maps one of its pages, at host addresses from 2GB on. Pages are
-- given out in order, by an allocator that has 16 of them, at 4GB.
use mathlib.Core.Option.{some-injective}
use bedrock.Base.{
  u64, ℕ, suc, ◌+◌, ◌*◌, ◌/◌, ◌%◌, ◌^◌, ◌<◌, ◌≤◌, ◌==◌, ◌≡◌, ◌≢◌, refl, sym, ap, ◌∙◌, Bool, true,
  false, Option, none, some, [], ◌∷◌, leb, ltb, if◌then◌else◌, Bool-cases, inl, inr, ltb→lt, arith,
}
use bedrock.Base.Result.{Result, ok, err, ok-injective}
use bedrock.Base.Bits.Field.{bit_and_field}
use bedrock.Cow.{page_aligned, get, contains, find, put, kernel_insert}
use bedrock.Ept.Entry.{
  permissions, from_bits, write_back, is_present, addr, table_entry, page_entry_4k, to_bits,
}
use bedrock.Ept.Table.{remap_4k, lookup, map_4k, new, init_root, ensure_table, add_table, set_entry}
use bedrock.Memory.{pml4_index, pdpt_index, pd_index, pt_index}
use bedrock.Ept.Tree.{IsTree}
use bedrock.Ept.Map.{map_4k-IsTree, map_4k-lookup}
use bedrock.Ept.Remap.{new-IsTree}
use bedrock.Forked.{
  Page, store, not_mapped, root, read_page, CowAllocator, ForkedVm, handle_cow_fault,
  read_guest_memory, write_guest_memory, copy_on_write, fill_page, insert_page, remap_page,
}
use bedrock.Forked.Remapped.{Faulted}
use bedrock.Forked.Rounds.{rounds_enough}
use bedrock.Forked.Resolve.{handle_cow_fault-Faulted, handle_cow_fault-Resolved}
use bedrock.Forked.Writes.{IsApart, Written}
use bedrock.Forked.Memory.{
  write_guest_memory-Written, read_guest_memory-write_guest_memory, Refused,
  write_guest_memory-Refused,
}
use bedrock.Forked.Reads.{bytes_from, read_guest_memory-byte_at}
use bedrock.Forked.Steps.{Keeps, Steps-Keeps, none_yet, and_step, fault, guest_store, device_write}
use bedrock.Forked.Pages.{page_aligned_lem, byte_at, contains_of_page}
use bedrock.Forked.Copies.{IsForked, IsForked-IsApart, mapped}
use bedrock.Tests.Ept.{counter, table, table_3, blank}

abbrev pub at : ℕ → Page
at s = record { physical_address = s * 4096; virtual_address = 2 ^ 32 + s * 4096 }

abbrev pub next_page : ℕ → Result (Unit {0}) Page × ℕ
next_page s = if ltb s 16 then (ok (at s), suc s) else (err tt, s)

pub given_page :
    (s : ℕ) (p : Page) → (next_page s).0 ≡ ok p → (p ≡ at s) × (s < 16) × ((next_page s).1 ≡ suc s)
given_page s p e = elim (Bool-cases (ltb s 16)) [
  | inl t ↦
      let k : ◌≡◌ {A = Result (Unit {0}) Page} (ok (at s)) (ok p) = rw t at e in
      (sym (ok-injective k), ltb→lt _ _ t, rw t refl)
  | inr t ↦ let k : ◌≡◌ {A = Result (Unit {0}) Page} (err tt) (ok p) = rw t at e in absurd cc
]

-- Pages that are given out are those below the next one.
abbrev pub IsTaken : ℕ → ℕ → Type 0
IsTaken s v = (v % 4096 ≡ 0) × (v < 2 ^ 32 + s * 4096)

pub kept-IsTaken : (s v : ℕ) → IsTaken s v → IsTaken (next_page s).1 v
kept-IsTaken s v o = elim (Bool-cases (ltb s 16)) [
  | inl t ↦ rw t (o.0, omega (arith, o.1))
  | inr t ↦ rw t o
]

pub fresh-IsTaken : (s : ℕ) (p : Page) → (next_page s).0 ≡ ok p → ¬ IsTaken s p.virtual_address
fresh-IsTaken s p e o =
    let g = given_page s p e in
    absurd (omega (arith, ap (λ (q : Page). q.virtual_address) g.0, o.1))

pub owned-IsTaken :
    (s : ℕ) (p : Page) → (next_page s).0 ≡ ok p → IsTaken (next_page s).1 p.virtual_address
owned-IsTaken s p e =
    let g = given_page s p e in
    let v : p.virtual_address ≡ 2 ^ 32 + s * 4096 = ap (λ (q : Page). q.virtual_address) g.0 in
    (omega (arith, v), omega (arith, v, g.2))

pub live_page : (s a : ℕ) → a < s * 4096 → a < (next_page s).1 * 4096
live_page s a l = elim (Bool-cases (ltb s 16)) [ inl t ↦ rw t (omega arith) | inr t ↦ rw t l ]

abbrev pub pages : CowAllocator counter
pages = record {
  allocate_cow_page = next_page;
  Owned = IsTaken;
  live = live_page;
  kept = kept-IsTaken;
  fresh = fresh-IsTaken;
  owned = owned-IsTaken;
  aligned = λ s v o. o.0;
  frame = λ s p e.
      let g = given_page s p e in
      bit_and_field 12 40 p.physical_address
      ∙ omega (arith, ap (λ (q : Page). q.physical_address) g.0, g.1);
}

-- The parent maps the page at 20KB.
abbrev shared : ℕ → Option (ℕ × ℕ)
shared g = if 20480 / 2 ^ 12 % 2 ^ 36 == g / 2 ^ 12 % 2 ^ 36 then some (40960, 7) else none

abbrev pub child : ForkedVm counter
child = record {
  ept = (map_4k counter 20480 40960 5 write_back (table 3)).1;
  cow_pages = record { pages = []; count = 0 };
  parent = root (2 ^ 31) 65536;
  ram = λ a. a % 251;
  stale_tlb_faults = 0;
  io_page_gpa = 0;
  feedback_buffers = λ i. none;
}

root_page : (g v : ℕ) → read_page (root (2 ^ 31) 65536) g ≡ some v → (v % 4096 ≡ 0) × (v < 2 ^ 32)
unfolding read_page
root_page g v e = elim (Bool-cases (leb (u64 (page_aligned g + 4096)) 65536)) [
  | inl y ↦
      let k : ◌≡◌ {A = Option ℕ} (some (u64 (2 ^ 31 + page_aligned g))) (some v) = rw y at e in
      let inside : u64 (page_aligned g + 4096) ≤ 65536 = ground (arith, y) in
      let at_g : u64 (2 ^ 31 + page_aligned g) ≡ v = cc in
      (omega (arith, at_g, page_aligned_lem g), omega (arith, at_g, inside, page_aligned_lem g))
  | inr n ↦ let k : ◌≡◌ {A = Option ℕ} none (some v) = rw n at e in absurd (cc)
]

no_page : (g : ℕ) (p : Page) → get child.cow_pages g ≡ some p → ⊥
unfolding get find
no_page g p e = absurd (cc)

child_ept : IsTree counter child.ept
child_ept =
    (map_4k-IsTree counter (table 3) table_3 20480 40960 5 write_back (omega arith) (omega arith)).0

child_maps : (map_4k counter 20480 40960 5 write_back (table 3)).0 ≡ ok tt
unfolding map_4k ensure_table add_table set_entry is_present
child_maps = refl

child_agrees : (g : ℕ) → lookup child.ept.memory child.ept.pml4_phys g ≡ mapped none (shared g)
unfolding new init_root
child_agrees g =
    map_4k-lookup counter (table 3) table_3 20480 40960 5 write_back (omega arith) (omega arith) g
      child_maps
    ∙ by_page (20480 / 2 ^ 12 % 2 ^ 36 == g / 2 ^ 12 % 2 ^ 36)
  where
    by_page :
        (b : Bool)
        → (if b
            then some (40960 / 2 ^ 12 % 2 ^ 40 * 2 ^ 12, 5)
            else lookup (table 3).memory (table 3).pml4_phys g)
          ≡ mapped none (if b then some (40960, 7) else none)
    by_page true = refl
    by_page false = (new-IsTree counter blank 3 (table 3) g refl).1

child-IsForked : IsForked counter pages shared child
unfolding get find
child-IsForked = record {
  tree = child_ept;
  own = λ g p e. absurd (no_page g p e);
  parents = λ g v e. let r = root_page g v e in (r.0, omega (arith, r.1));
  single = λ g h p q e f s. absurd (no_page g p e);
  foreign = λ g h v p e r. absurd (no_page g p e);
  agrees = λ g al low. child_agrees g;
}

handle_cow_fault-Faulted_example :
    Faulted counter pages shared child
      (page_aligned 20485)
      (handle_cow_fault counter pages true 20485 child)
handle_cow_fault-Faulted_example =
    handle_cow_fault-Faulted counter pages shared child child-IsForked 20485 (omega arith) true

child_page : (next_page child.ept.alloc).0 ≡ ok (at 7)
unfolding map_4k ensure_table add_table set_entry is_present
child_page = refl

child_source : read_page child.parent (page_aligned 20485) ≡ some (2 ^ 31 + 20480)
unfolding read_page page_aligned
child_source = refl

child_shared : shared (page_aligned 20485) ≡ some (40960, 7)
unfolding page_aligned
child_shared = refl

handle_cow_fault-Resolved_example :
    let (r, w') = handle_cow_fault counter pages true 20485 child in
    (r ≡ true)
    × ((p : Page) × (get w'.cow_pages (page_aligned 20485) ≡ some p)
        × (lookup w'.ept.memory w'.ept.pml4_phys (page_aligned 20485)
            ≡ some (p.physical_address, 7)))
handle_cow_fault-Resolved_example =
    handle_cow_fault-Resolved counter pages shared child child-IsForked 20485 (omega arith) (at 7)
      (2 ^ 31 + 20480) (40960, 7) child_page child_source child_shared

-- The child once it has the page.
copied : ForkedVm counter
copied = (handle_cow_fault counter pages true 20485 child).1

copied-IsApart : IsApart counter copied
unfolding copied
copied-IsApart =
    IsForked-IsApart counter pages shared copied
      (handle_cow_fault-Faulted counter pages shared child child-IsForked 20485 (omega arith)
        true).kept

copied_page : contains copied.cow_pages 20485 ≡ true
unfolding copied handle_cow_fault copy_on_write fill_page insert_page remap_page kernel_insert
    contains find put page_aligned read_page remap_4k map_4k ensure_table add_table set_entry
    is_present addr pml4_index pdpt_index pd_index pt_index table_entry page_entry_4k to_bits
copied_page = refl

copied_bytes : (a : ℕ) → 20485 ≤ a → a < 20488 → contains copied.cow_pages a ≡ true
copied_bytes a lo hi =
    contains_of_page copied.cow_pages a 20485
      (omega (arith, page_aligned_lem a, page_aligned_lem 20485, lo, hi))
    ∙ copied_page

write_guest_memory-Written_example :
    Written counter copied 20485
      (1 ∷ 2 ∷ 3 ∷ [])
      (write_guest_memory counter 20485 (1 ∷ 2 ∷ 3 ∷ []) copied)
write_guest_memory-Written_example =
    write_guest_memory-Written counter copied copied-IsApart 20485 (1 ∷ 2 ∷ 3 ∷ []) (omega arith)
      (omega arith) copied_bytes

read_guest_memory-write_guest_memory_example :
    read_guest_memory counter (write_guest_memory counter 20485 (1 ∷ 2 ∷ 3 ∷ []) copied).1 20485 3
    ≡ ok (1 ∷ 2 ∷ 3 ∷ [])
read_guest_memory-write_guest_memory_example =
    read_guest_memory-write_guest_memory counter copied copied-IsApart 20485 (1 ∷ 2 ∷ 3 ∷ [])
      (omega arith) (omega arith) copied_bytes

next_absent : contains copied.cow_pages 24576 ≡ false
unfolding copied handle_cow_fault copy_on_write fill_page insert_page remap_page kernel_insert
    contains find put page_aligned read_page remap_4k map_4k ensure_table add_table set_entry
    is_present addr pml4_index pdpt_index pd_index pt_index table_entry page_entry_4k to_bits
next_absent = refl

-- Two bytes go into the page, the next page refuses the third.
write_guest_memory-Refused_example :
    Refused counter copied (write_guest_memory counter 24574 (1 ∷ 2 ∷ 3 ∷ []) copied)
write_guest_memory-Refused_example =
    write_guest_memory-Refused counter copied copied-IsApart 24574 (1 ∷ 2 ∷ 3 ∷ []) (omega arith)
      24576 (omega arith) (omega arith) next_absent

read_guest_memory-byte_at_example :
    read_guest_memory counter child 24574 4 ≡ bytes_from (byte_at counter child) 24574 4
read_guest_memory-byte_at_example =
    read_guest_memory-byte_at counter child 24574 4 (omega arith) (omega arith)

-- The host's address of the frame that the guest's page has.
copied_host :
    (p : Page)
    → get copied.cow_pages (page_aligned 20488) ≡ some p
    → p.physical_address ≡ 28672
    → p.virtual_address ≡ 2 ^ 32 + 28672
unfolding copied handle_cow_fault copy_on_write fill_page insert_page remap_page kernel_insert get
    find put page_aligned read_page remap_4k map_4k ensure_table add_table set_entry is_present addr
    pml4_index pdpt_index pd_index pt_index table_entry page_entry_4k to_bits contains
copied_host p e f = sym (ap (λ q. q.virtual_address) (some-injective (at 7) p e))

copied_lookup : lookup copied.ept.memory copied.ept.pml4_phys (page_aligned 20488) ≡ some (28672, 7)
unfolding copied handle_cow_fault copy_on_write fill_page insert_page remap_page kernel_insert find
    put page_aligned read_page remap_4k map_4k ensure_table add_table set_entry is_present addr
    pml4_index pdpt_index pd_index pt_index table_entry page_entry_4k to_bits lookup contains
    permissions from_bits
copied_lookup = refl

Steps-Keeps_example :
    Keeps counter pages shared child
      (write_guest_memory counter 20485
        (1 ∷ 2 ∷ [])
        (record copied { ram = store copied.ram (2 ^ 32 + 28672 + 8) (7 ∷ []) })).1
unfolding copied
Steps-Keeps_example =
    Steps-Keeps counter pages shared
      (and_step
        (and_step (and_step none_yet (fault true 20485 child (omega arith))) (
          guest_store 20488 28672 7 (2 ^ 32 + 28672) (7 ∷ []) copied (omega arith) (omega arith)
            copied_lookup refl copied_host))
        (device_write 20485 (1 ∷ 2 ∷ [])
          (record copied { ram = store copied.ram (2 ^ 32 + 28672 + 8) (7 ∷ []) }) (omega arith)
          (omega arith)))
      child-IsForked

rounds_enough_example :
    (read_guest_memory counter child 24574 10000 ≢ err not_mapped)
    × ((write_guest_memory counter 24574 (1 ∷ 2 ∷ 3 ∷ []) child).0 ≢ err not_mapped)
rounds_enough_example = rounds_enough counter child 24574 10000 (1 ∷ 2 ∷ 3 ∷ [])
