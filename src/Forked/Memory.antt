-- ===== src/Forked/Memory.antt =====
-- Guest memory of a forked VM as its devices use it: what was written is read, what may not be is refused.
use bedrock.Base.{
  ℕ, zero, suc, ◌+◌, ◌-◌, ◌*◌, ◌/◌, ◌%◌, ◌^◌, ◌<◌, ◌≤◌, ◌≡◌, refl, ap, ◌∙◌, true, false, Option,
  some, List, [], ◌∷◌, length, length-take, length-drop, take, drop, get_or, bit_and, leb, if-cases,
  Bool-cases, inl, inr, ℕ_discrete, arith,
}
use bedrock.Base.Result.{Result, ok, err}
use bedrock.Cow.{page_aligned, contains}
use bedrock.Ept.Frames.{FrameAllocator}
use bedrock.Forked.{
  MemoryError, permission_denied, ForkedVm, read_page, read_guest_memory, write_pages,
  write_guest_memory,
}
use bedrock.Forked.Pages.{
  page_aligned-eq, page_offset_lem, contains-get, not_contains-get, contains_of_page, byte_of,
  byte_at,
}
use bedrock.Forked.Reads.{and_then, bytes_from, read_guest_memory-byte_at}
use bedrock.Forked.Overlay.{overlay_in}
use bedrock.Forked.Writes.{IsApart, IsApart-ram, Written, after, after-Written, write_pages-Written}

bytes_from-overlay :
    (f : ℕ → Option ℕ) (from : ℕ) (buf : List ℕ)
    → ((i : ℕ) → i < length buf → f (from + i) ≡ some (get_or buf i 0))
    → bytes_from f from (length buf) ≡ ok buf
bytes_from-overlay f from [] h = refl
bytes_from-overlay f from (b ∷ buf) h =
    let first : f (from + 0) ≡ some b = h 0 (omega arith) in
    let e : from + 0 ≡ from = omega arith in
    rw (rw e at first) (
      ap (and_then (some b)) (
        bytes_from-overlay f (from + 1) buf (λ i n.
          let shift : from + 1 + i ≡ from + suc i = omega arith in
          rw shift (h (suc i) (omega (arith, n))))))

module _ (A : FrameAllocator) (w : ForkedVm A) (i : IsApart A w) (gpa : ℕ) (buf : List ℕ)
    (some_bytes : 0 < length buf) (top : gpa + length buf ≤ 2 ^ 64) where
  module _ (own : (a : ℕ) → gpa ≤ a → a < gpa + length buf → contains w.cow_pages a ≡ true) where
    -- A write to pages that the VM has copied is done; each guest address has the byte written there, or
    -- the one from before, and the VM's parents have the bytes they had. The VM's copies are pages apart,
    -- and the bytes, one at least, end below 2^64.
    pub write_guest_memory-Written : Written A w gpa buf (write_guest_memory A gpa buf w)
    unfolding write_guest_memory
    write_guest_memory-Written =
        write_pages-Written A (suc (length buf)) gpa buf w (omega arith) some_bytes top i own

    -- What was written is read back, under the same conditions.
    pub read_guest_memory-write_guest_memory :
        read_guest_memory A (write_guest_memory A gpa buf w).1 gpa (length buf) ≡ ok buf
    read_guest_memory-write_guest_memory =
        let w' = (write_guest_memory A gpa buf w).1 in
        read_guest_memory-byte_at A w' gpa (length buf) some_bytes top
        ∙ bytes_from-overlay (byte_at A w') gpa buf (λ k n.
          let e : gpa + k - gpa ≡ k = omega arith in
          write_guest_memory-Written.bytes (gpa + k) (omega (arith, n, top))
          ∙ overlay_in gpa buf (byte_at A w) (gpa + k) (omega arith) (omega (arith, n))
          ∙ ap (λ (t : ℕ). some (get_or buf t 0)) e)

module _ (A : FrameAllocator) where
  pub record Refused (w : ForkedVm A) (out : Result MemoryError (Unit {0}) × ForkedVm A)
      : Type 0 where
    pub refused : out.0 ≡ err permission_denied
    pub parents :
        (a : ℕ)
        → byte_of out.1.ram a (read_page w.parent a) ≡ byte_of w.ram a (read_page w.parent a)

  write_pages-Refused :
      (fuel gpa : ℕ) (buf : List ℕ) (w : ForkedVm A)
      → length buf < fuel
      → gpa + length buf ≤ 2 ^ 64
      → IsApart A w
      → (a : ℕ) → gpa ≤ a
      → a < gpa + length buf
      → contains w.cow_pages a ≡ false
      → Refused w (write_pages A fuel gpa buf w)
  unfolding write_pages
  write_pages-Refused zero gpa buf w f top i a lo hi no_page = absurd (omega arith)
  write_pages-Refused (suc fuel) gpa buf w f top i a lo hi no_page =
      elim (Bool-cases (contains w.cow_pages gpa)) [
        | inr n ↦
            rw (write_pages, not_contains-get w.cow_pages gpa n)
              (record { refused = refl; parents = λ x. refl })
        | inl y ↦
            let small : gpa < 2 ^ 64 = omega (arith, top, lo, hi) in
            let (p, here) = contains-get w.cow_pages gpa y in
            let o : bit_and gpa 0xFFF ≡ gpa % 4096 = page_offset_lem gpa in
            let ahead = 4096 - bit_and gpa 0xFFF in
            let e : page_aligned gpa ≡ gpa / 4096 * 4096 = page_aligned-eq gpa small in
            let next : page_aligned gpa + 4096 ≡ gpa + ahead = omega (arith, e, o) in
            let beyond : gpa + ahead ≤ a = elim (ℕ_discrete (page_aligned a) (page_aligned gpa)) [
              | yes same ↦ absurd (cc (contains_of_page w.cow_pages a gpa same))
              | no other ↦
                  ground (arith, e, o, other, lo, page_aligned-eq a (omega (arith, hi, top)))
            ] in
            rw (write_pages, here)
              (if-cases (Refused w) (leb (length buf) ahead)
                (λ s. absurd (ground (arith, s, beyond, hi)))
                (λ m.
                  let more : ahead < length buf = ground (arith, m) in
                  let left : length (drop ahead buf) ≡ length buf - ahead = length-drop ahead buf in
                  let part : length (take ahead buf) ≡ ahead =
                    omega (arith, length-take ahead buf, more) in
                  let w' = after A w i gpa p small here (take ahead buf) in
                  let first =
                    after-Written A w i gpa p small here (take ahead buf)
                      (omega (arith, part, o)) in
                  let rest =
                    write_pages-Refused fuel (gpa + ahead) (drop ahead buf) w'
                      (omega (arith, left, f, more, o)) (omega (arith, left, top, more))
                      (IsApart-ram A w w'.ram i) a beyond (omega (arith, hi, left, more)) no_page in
                  rw next (record {
                    refused = rest.refused;
                    parents = λ x. rest.parents x ∙ first.parents x;
                  })))
      ]

  -- A write that runs into a page that the VM has not copied is refused, wherever it stops, and its parents
  -- have the bytes they had. The VM's copies are pages apart and the bytes end below 2^64.
  pub write_guest_memory-Refused :
      (w : ForkedVm A)
      → IsApart A w
      → (gpa : ℕ) (buf : List ℕ) → gpa + length buf ≤ 2 ^ 64
      → (a : ℕ) → gpa ≤ a
      → a < gpa + length buf
      → contains w.cow_pages a ≡ false
      → Refused w (write_guest_memory A gpa buf w)
  unfolding write_guest_memory
  write_guest_memory-Refused w i gpa buf top a lo hi n =
      write_pages-Refused (suc (length buf)) gpa buf w (omega arith) top i a lo hi n
