-- ===== src/Forked/Rounds.antt =====
-- The recursion of `read_guest_memory` and `write_guest_memory` over the pages comes to an end.
use bedrock.Base.{
  ℕ, zero, suc, ◌+◌, ◌-◌, ◌<◌, ◌≢◌, List, ◌++◌, length, length-drop, drop, bit_and, leb, if-cases,
  some-cases, arith,
}
use bedrock.Base.Result.{Result, ok, err}
use bedrock.Cow.{page_aligned, get}
use bedrock.Ept.Frames.{FrameAllocator}
use bedrock.Forked.{
  MemoryError, not_mapped, out_of_range, permission_denied, ForkedVm, load, source_page, read_pages,
  read_guest_memory, write_pages, write_guest_memory,
}
use bedrock.Forked.Pages.{page_offset_lem}

module _ (A : FrameAllocator) where
  -- More bytes than `fuel` is not asked for, and each round takes one at least.
  read_pages-ne-not_mapped :
      (fuel : ℕ) (w : ForkedVm A) (gpa len : ℕ)
      → len < fuel
      → read_pages A fuel w gpa len ≢ err not_mapped
  unfolding read_pages
  read_pages-ne-not_mapped zero w gpa len f = absurd (omega arith)
  read_pages-ne-not_mapped (suc fuel) w gpa len f =
      some-cases (λ r. r ≢ err not_mapped) (source_page A w (page_aligned gpa)) (err out_of_range) _
        (λ n e. absurd (cc))
        (λ page here.
          if-cases (λ r. r ≢ err not_mapped) (leb len (4096 - bit_and gpa 0xFFF))
            (λ y e. absurd (cc))
            (λ n.
              let more : len - (4096 - bit_and gpa 0xFFF) < fuel =
                ground (arith, n, page_offset_lem gpa, f) in
              behind_rest _ (load w.ram (page + bit_and gpa 0xFFF) (4096 - bit_and gpa 0xFFF)) (
                read_pages-ne-not_mapped fuel w (page_aligned gpa + 4096)
                  (len - (4096 - bit_and gpa 0xFFF)) more)))
    where
      behind_rest :
          (r : Result MemoryError (List ℕ)) (front : List ℕ)
          → r ≢ err not_mapped
          → ◌≢◌ {A = Result MemoryError (List ℕ)}
              (elim r [ err e ↦ err e | ok bytes ↦ ok (front ++ bytes) ])
              (err not_mapped)
      behind_rest (err x) front h = h
      behind_rest (ok bytes) front h = λ e. absurd (cc)

  write_pages-ne-not_mapped :
      (fuel gpa : ℕ) (buf : List ℕ) (w : ForkedVm A)
      → length buf < fuel
      → (write_pages A fuel gpa buf w).0 ≢ err not_mapped
  unfolding write_pages
  write_pages-ne-not_mapped zero gpa buf w f = absurd (omega arith)
  write_pages-ne-not_mapped (suc fuel) gpa buf w f =
      some-cases (λ (r : Result MemoryError (Unit {0}) × ForkedVm A). r.0 ≢ err not_mapped)
        (get w.cow_pages (page_aligned gpa)) (err permission_denied, w) _ (λ n e. absurd (cc))
        (λ page here.
          if-cases (λ (r : Result MemoryError (Unit {0}) × ForkedVm A). r.0 ≢ err not_mapped)
            (leb (length buf) (4096 - bit_and gpa 0xFFF)) (λ y e. absurd (cc))
            (λ n.
              write_pages-ne-not_mapped fuel (page_aligned gpa + 4096)
                (drop (4096 - bit_and gpa 0xFFF) buf) _
                (ground
                  (arith, n, page_offset_lem gpa, f, length-drop (4096 - bit_and gpa 0xFFF) buf))))

  -- The rounds that a read and a write of guest memory are given are enough, for any address and any
  -- number of bytes: the answer is never that of the fuel's end, which is `NotMapped` here.
  pub rounds_enough :
      (w : ForkedVm A) (gpa len : ℕ) (buf : List ℕ)
      → (read_guest_memory A w gpa len ≢ err not_mapped)
        × ((write_guest_memory A gpa buf w).0 ≢ err not_mapped)
  unfolding read_guest_memory write_guest_memory
  rounds_enough w gpa len buf = (
    read_pages-ne-not_mapped (suc len) w gpa len (omega arith),
    write_pages-ne-not_mapped (suc (length buf)) gpa buf w (omega arith),
  )
