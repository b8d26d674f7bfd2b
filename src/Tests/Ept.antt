-- ===== src/Tests/Ept.antt =====
-- Page tables on an allocator that gives out the 16 frames of the first 64KB in order.
use bedrock.Base.{
  ap, List, length, ◌≤◌, ◌/◌, Bool-cases, inl, inr, sym, ◌∙◌, ltb→lt, ℕ, suc, ◌*◌, ◌%◌, ◌^◌, ◌<◌,
  ◌≡◌, ◌==◌, refl, none, some, [], ◌∷◌, if◌then◌else◌, ltb, arith,
}
use bedrock.Base.Result.{Result, ok, err, ok-injective}
use bedrock.Base.Bits.Field.{bit_and_field}
use bedrock.Ept.Entry.{is_present, write_back}
use bedrock.Ept.Frames.{FrameAllocator, TableMemory, zero_table}
use bedrock.Ept.Table.{
  EptPageTable, new, init_root, add_table, ensure_table, set_entry, map_4k, lookup,
}
use bedrock.Memory.{pml4_index, pdpt_index, pd_index, pt_index}
use bedrock.Ept.Tree.{IsTree, Listed}
use bedrock.Ept.Walk.{walk}
use bedrock.Ept.Entry.{addr, permissions, from_bits, page_entry_4k, table_entry, to_bits}
use bedrock.Ept.Clone.{
  clone_for_fork, begin_clone, finish_clone, clone_table, clone_entry, copy_leaf, for_each,
}
use bedrock.Ept.Clone.View.{read_only}
use bedrock.Ept.Clone.Fork.{clone_for_fork-source, clone_for_fork-lookup}
use bedrock.Ept.Map.{map_4k-IsTree, map_4k-lookup, map_4k-failed_lookup}
use bedrock.Ept.Remap.{new-IsTree}

abbrev pub next_frame : ℕ → Result (Unit {0}) ℕ × ℕ
next_frame s = if ltb s 16 then (ok s, suc s) else (err tt, s)

pub given : (s f : ℕ) → (next_frame s).0 ≡ ok f → (f ≡ s) × (s < 16) × ((next_frame s).1 ≡ suc s)
given s f e = elim (Bool-cases (ltb s 16)) [
  | inl t ↦
      let k : ◌≡◌ {A = Result (Unit {0}) ℕ} (ok s) (ok f) = rw t at e in
      (sym (ok-injective k), ltb→lt _ _ t, rw t refl)
  | inr t ↦ let k : ◌≡◌ {A = Result (Unit {0}) ℕ} (err tt) (ok f) = rw t at e in absurd cc
]

pub kept_lem : (s a : ℕ) → a < s * 4096 → a < (next_frame s).1 * 4096
kept_lem s a l = elim (Bool-cases (ltb s 16)) [ inl t ↦ rw t (omega arith) | inr t ↦ rw t l ]

abbrev pub counter : FrameAllocator
counter = record {
  State = ℕ;
  Error = Unit {0};
  Frame = ℕ;
  frame_phys_addr = λ f. f * 4096;
  allocate_frame = next_frame;
  Live = λ s a. a < s * 4096;
  kept = kept_lem;
  fresh = λ s f e l. let g = given s f e in absurd (omega (arith, g.0, l));
  owned = λ s f e. let g = given s f e in omega (arith, g.0, g.2);
  aligned =
      λ s f e. let g = given s f e in bit_and_field 12 40 (f * 4096) ∙ omega (arith, g.0, g.1);
}

abbrev pub blank : TableMemory
blank = λ t i. 0

-- A page table with frames left, and one that has the last frame.
abbrev pub table : ℕ → EptPageTable counter
table f = record {
  pml4_phys = f * 4096;
  frames = f ∷ [];
  memory = zero_table blank (f * 4096);
  alloc = suc f;
}

table_15 : IsTree counter (table 15) × (lookup (table 15).memory (table 15).pml4_phys 20480 ≡ none)
unfolding new init_root
table_15 = new-IsTree counter blank 15 (table 15) 20480 refl

pub table_3 : IsTree counter (table 3)
unfolding new init_root
table_3 = (new-IsTree counter blank 3 (table 3) 20480 refl).0

map_4k-IsTree_example :
    IsTree counter (map_4k counter 20480 40960 7 write_back (table 3)).1
    × ((map_4k counter 20480 40960 7 write_back (table 3)).1.pml4_phys ≡ 12288)
map_4k-IsTree_example =
    map_4k-IsTree counter (table 3) table_3 20480 40960 7 write_back (omega arith) (omega arith)

maps : (map_4k counter 20480 40960 7 write_back (table 3)).0 ≡ ok tt
unfolding map_4k ensure_table add_table set_entry is_present
maps = refl

abbrev pub mapped : EptPageTable counter
mapped = (map_4k counter 20480 40960 7 write_back (table 3)).1

map_4k-lookup_example : lookup mapped.memory mapped.pml4_phys 20485 ≡ (
    if 20480 / 2 ^ 12 % 2 ^ 36 == 20485 / 2 ^ 12 % 2 ^ 36
    then some (40960 / 2 ^ 12 % 2 ^ 40 * 2 ^ 12, 7)
    else lookup (table 3).memory (table 3).pml4_phys 20485)
map_4k-lookup_example =
    map_4k-lookup counter (table 3) table_3 20480 40960 7 write_back (omega arith) (omega arith)
      20485 maps

fails : (map_4k counter 20480 40960 7 write_back (table 15)).0 ≡ err tt
unfolding map_4k ensure_table add_table set_entry is_present
fails = refl

map_4k-failed_lookup_example :
    lookup
      (map_4k counter 20480 40960 7 write_back (table 15)).1.memory
      (map_4k counter 20480 40960 7 write_back (table 15)).1.pml4_phys
      20485
    ≡ lookup (table 15).memory (table 15).pml4_phys 20485
map_4k-failed_lookup_example =
    map_4k-failed_lookup counter (table 15) table_15.0 20480 40960 7 write_back (omega arith)
      (omega arith) 20485 tt fails

mapped_page : lookup mapped.memory mapped.pml4_phys 20480 ≡ some (40960, 7)
mapped_page =
    map_4k-lookup counter (table 3) table_3 20480 40960 7 write_back (omega arith) (omega arith)
      20480 maps

clone_for_fork-source_example :
    lookup (clone_for_fork counter mapped).1 mapped.pml4_phys 20485
    ≡ lookup mapped.memory mapped.pml4_phys 20485
clone_for_fork-source_example = clone_for_fork-source counter mapped map_4k-IsTree_example.0 20485

abbrev or_else :
    Result (Unit {0}) (EptPageTable counter) → EptPageTable counter → EptPageTable counter
or_else (ok c) d = c
or_else (err e) d = d

forked : EptPageTable counter
forked = or_else (clone_for_fork counter mapped).0 mapped

forks : (clone_for_fork counter mapped).0 ≡ ok forked
unfolding forked map_4k ensure_table add_table set_entry is_present addr clone_for_fork begin_clone
    finish_clone clone_table clone_entry copy_leaf for_each pml4_index pdpt_index pd_index pt_index
    permissions from_bits table_entry page_entry_4k to_bits
forks = refl

clone_for_fork-lookup_example :
    (forked.memory ≡ (clone_for_fork counter mapped).1)
    × ((g : ℕ)
        → lookup forked.memory forked.pml4_phys g
          ≡ read_only (lookup mapped.memory mapped.pml4_phys g))
    × ((p : List ℕ) (a : ℕ)
        → length p ≤ 3
        → walk forked.memory forked.pml4_phys p ≡ some a
        → ¬ Listed counter a mapped.frames)
clone_for_fork-lookup_example =
    clone_for_fork-lookup counter mapped map_4k-IsTree_example.0 forked forks

forked_page : lookup forked.memory forked.pml4_phys 20480 ≡ some (40960, 5)
forked_page =
    (clone_for_fork-lookup counter mapped map_4k-IsTree_example.0 forked forks).1 20480
    ∙ ap read_only mapped_page
