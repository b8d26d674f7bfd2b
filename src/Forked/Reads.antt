-- ===== src/Forked/Reads.antt =====
-- `read_guest_memory` reads byte by byte.
use bedrock.Base.{
  ℕ, zero, suc, ◌+◌, ◌-◌, ◌*◌, ◌/◌, ◌%◌, ◌^◌, ◌<◌, ◌≤◌, ◌≡◌, refl, sym, ap, ◌∙◌, Option, none, some,
  List, [], ◌∷◌, ◌++◌, bit_and, leb, if-cases, some-cases, arith,
}
use mathlib.Core.List.{append-nil}
use bedrock.Base.Result.{Result, ok, err}
use bedrock.Cow.{page_aligned}
use bedrock.Ept.Frames.{FrameAllocator}
use bedrock.Forked.{
  MemoryError, out_of_range, ForkedVm, load, source_page, read_pages, read_guest_memory,
}
use bedrock.Forked.Pages.{page_aligned-eq, page_offset_lem, byte_at}

-- The bytes at one address after another, as far as there are any.
abbrev pub and_then : Option ℕ → Result MemoryError (List ℕ) → Result MemoryError (List ℕ)
and_then none r = err out_of_range
and_then (some b) (err e) = err e
and_then (some b) (ok bytes) = ok (b ∷ bytes)

abbrev pub bytes_from : (ℕ → Option ℕ) → ℕ → ℕ → Result MemoryError (List ℕ)
bytes_from f a zero = ok []
bytes_from f a (suc n) = and_then (f a) (bytes_from f (a + 1) n)

abbrev behind : List ℕ → Result MemoryError (List ℕ) → Result MemoryError (List ℕ)
behind xs r = elim r [ err e ↦ err e | ok ys ↦ ok (xs ++ ys) ]

behind-nil : (r : Result MemoryError (List ℕ)) → behind [] r ≡ r
behind-nil (err e) = refl
behind-nil (ok ys) = refl

and_then-behind :
    (b : ℕ) (xs : List ℕ) (r : Result MemoryError (List ℕ))
    → and_then (some b) (behind xs r) ≡ behind (b ∷ xs) r
and_then-behind b xs (err e) = refl
and_then-behind b xs (ok ys) = refl

module _ (A : FrameAllocator) (w : ForkedVm A) (page_gpa page : ℕ) (whole : page_gpa % 4096 ≡ 0)
    (fits : page_gpa < 2 ^ 64) (here : source_page A w page_gpa ≡ some page) where
  byte_here : (i : ℕ) → i < 4096 → byte_at A w (page_gpa + i) ≡ some (w.ram (page + i))
  byte_here i h =
      let e : page_aligned (page_gpa + i) ≡ page_gpa =
        omega (arith, page_aligned-eq (page_gpa + i)) in
      let o : (page_gpa + i) % 4096 ≡ i = omega arith in rw (e, here, o) refl

  -- Inside the page, with what comes after it.
  bytes_here :
      (n off k : ℕ)
      → off + n ≤ 4096
      → bytes_from (byte_at A w) (page_gpa + off) (n + k)
        ≡ behind (load w.ram (page + off) n) (bytes_from (byte_at A w) (page_gpa + (off + n)) k)
  unfolding load
  bytes_here zero off k h =
      let e : zero + k ≡ k = omega arith in
      let f : off + zero ≡ off = omega arith in
      rw (e, f) (sym (behind-nil (bytes_from (byte_at A w) (page_gpa + off) k)))
  bytes_here (suc n) off k h =
      let e : suc n + k ≡ suc (n + k) = omega arith in
      let a : page_gpa + off + 1 ≡ page_gpa + (off + 1) = omega arith in
      let b : off + suc n ≡ off + 1 + n = omega arith in
      let c : page + off + 1 ≡ page + (off + 1) = omega arith in
      rw (e, byte_here off (omega (arith, h)), a, b, c)
        (ap (and_then (some (w.ram (page + off)))) (bytes_here n (off + 1) k (omega (arith, h)))
          ∙ and_then-behind _ _ _)

module _ (A : FrameAllocator) (w : ForkedVm A) where
  bytes_missing :
      (a n : ℕ)
      → 0 < n
      → source_page A w (page_aligned a) ≡ none
      → bytes_from (byte_at A w) a n ≡ err out_of_range
  bytes_missing a zero h e = absurd (omega arith)
  bytes_missing a (suc n) h e = rw e refl

  -- From any address, as far as its page goes.
  bytes_within :
      (gpa page n k : ℕ)
      → gpa < 2 ^ 64
      → gpa % 4096 + n ≤ 4096
      → source_page A w (page_aligned gpa) ≡ some page
      → bytes_from (byte_at A w) gpa (n + k)
        ≡ behind (load w.ram (page + bit_and gpa 0xFFF) n) (bytes_from (byte_at A w) (gpa + n) k)
  bytes_within gpa page n k small fits here =
      let e : page_aligned gpa ≡ gpa / 4096 * 4096 = page_aligned-eq gpa small in
      let start : page_aligned gpa + gpa % 4096 ≡ gpa = omega (arith, e) in
      let next : page_aligned gpa + (gpa % 4096 + n) ≡ gpa + n = omega (arith, e) in
      let o : bit_and gpa 0xFFF ≡ gpa % 4096 = page_offset_lem gpa in
      let b =
        bytes_here A w (page_aligned gpa) page (omega (arith, e)) (omega (arith, e)) here n
          (gpa % 4096) k fits in
      rw o (rw (start, next) at b)

  read_pages-bytes_from :
      (fuel gpa len : ℕ)
      → len < fuel
      → 0 < len
      → gpa + len ≤ 2 ^ 64
      → read_pages A fuel w gpa len ≡ bytes_from (byte_at A w) gpa len
  unfolding read_pages
  read_pages-bytes_from zero gpa len f p top = absurd (omega arith)
  read_pages-bytes_from (suc fuel) gpa len f p top =
      some-cases (λ r. r ≡ bytes_from (byte_at A w) gpa len) (source_page A w (page_aligned gpa))
        (err out_of_range) _ (λ e. sym (bytes_missing gpa len p e))
        (λ page e.
          if-cases (λ r. r ≡ bytes_from (byte_at A w) gpa len) (leb len (4096 - bit_and gpa 0xFFF))
            (λ y.
              let short : gpa % 4096 + len ≤ 4096 = ground (arith, y, page_offset_lem gpa) in
              let n : len + 0 ≡ len = omega arith in
              sym (
                rw n at (bytes_within gpa page len 0 (omega (arith, top, p)) short e)
                ∙ ap ok (append-nil _)))
            (λ n.
              let long : 4096 - gpa % 4096 < len = ground (arith, n, page_offset_lem gpa) in
              let ahead = 4096 - bit_and gpa 0xFFF in
              let o : bit_and gpa 0xFFF ≡ gpa % 4096 = page_offset_lem gpa in
              let whole : ahead + (len - ahead) ≡ len = omega (arith, long, o) in
              let small : gpa < 2 ^ 64 = omega (arith, top, p) in
              let next : page_aligned gpa + 4096 ≡ gpa + ahead =
                omega (arith, page_aligned-eq gpa small, o) in
              let rest =
                read_pages-bytes_from fuel (gpa + ahead) (len - ahead) (omega (arith, f, long, o))
                  (omega (arith, long, o)) (omega (arith, top, whole)) in
              rw (next, rest)
                (sym (
                  rw whole at
                    (bytes_within gpa page ahead (len - ahead) small (omega (arith, o)) e)))))

  -- `read_guest_memory` of some bytes below 2^64 gives the byte that the VM has at each address, its own
  -- copy of the page before that of its parents, and fails where one of them has no page.
  pub read_guest_memory-byte_at :
      (gpa len : ℕ)
      → 0 < len
      → gpa + len ≤ 2 ^ 64
      → read_guest_memory A w gpa len ≡ bytes_from (byte_at A w) gpa len
  unfolding read_guest_memory
  read_guest_memory-byte_at gpa len p top =
      read_pages-bytes_from (suc len) gpa len (omega arith) p top
