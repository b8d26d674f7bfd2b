-- ===== src/Vpid/Laws.antt =====
-- The allocator's contract: what `allocate_vpid` and `deallocate_vpid` do to the set of VPIDs in use.
use native.Mathlib.Decide.{dec_lt}
use bedrock.Base.{
  Bool-cases, inl, inr, ltb, ℕ, zero, suc, ◌+◌, ◌-◌, ◌/◌, ◌^◌, ◌≤◌, ◌<◌, ◌≡◌, ◌≢◌, refl, sym, ap,
  ◌∙◌, ◌==◌, Option, none, some, if◌then◌else◌, arith,
}
use bedrock.Vpid.{Bitmap, bitmap_words, try_allocate_in_word, search_words, allocate_any, word_fuel}
use bedrock.Vpid.{Vpids, allocate_vpid, deallocate_vpid, reset_vpid_counter, reset}
use bedrock.Vpid.InUse.{in_use, IsBitmap, deallocate-IsBitmap, in_use-deallocate}
use bedrock.Vpid.Search.{Outcome}
use bedrock.Vpid.Outcome.{Outcome-Agree, word-Outcome}

-- A search that fails, then another, on what the first one left.
then-Outcome :
    (b : Bitmap) (first n m k : ℕ) (c : Bitmap) (r : Option ℕ × Bitmap)
    → k ≡ n + m
    → Outcome b first n (none, c)
    → Outcome c (first + n) m r
    → Outcome b first k r
then-Outcome b first n m k c (none, d) e (w, same, all) (w', same', all') = (
  w',
  λ u nz. same' u nz ∙ same u nz,
  λ u nz lo hi. elim (dec_lt (u / 64) (first + n)) [
    | yes l ↦ all u nz lo l
    | no l ↦ sym (same u nz) ∙ all' u nz (omega arith) (omega arith)
  ],
)
then-Outcome b first n m k c (some v, d) e (w, same, all) o =
    Outcome-Agree b c first k (some v, d) same o

search_words-Outcome :
    (count first : ℕ) (b : Bitmap)
    → IsBitmap b
    → first + count ≤ bitmap_words
    → Outcome b first count (search_words count first b)
unfolding search_words
search_words-Outcome zero first b h k = (h, λ u nz. refl, λ u nz lo hi. absurd (omega arith))
search_words-Outcome (suc count) first b h k =
    go (try_allocate_in_word word_fuel first b) refl (word-Outcome b first h (omega arith))
      (λ c w. search_words-Outcome count (first + 1) c w (omega arith))
  where
    go :
        (r : Option ℕ × Bitmap)
        → try_allocate_in_word word_fuel first b ≡ r
        → Outcome b first 1 r
        → ((c : Bitmap)
            → IsBitmap c
            → Outcome c (first + 1) count (search_words count (first + 1) c))
        → Outcome b first (suc count) (search_words (suc count) first b)
    go (some v, c) e o rest =
        rw
          (
            ap (λ (p : Option ℕ × Bitmap). p.0) e,
            ap (λ (p : Option ℕ × Bitmap). p.1) e,
            search_words,
          )
          o
    go (none, c) e (w, same, all) rest =
        rw
          (
            ap (λ (p : Option ℕ × Bitmap). p.0) e,
            ap (λ (p : Option ℕ × Bitmap). p.1) e,
            search_words,
          )
          (then-Outcome b first 1 count (suc count) c (search_words count (first + 1) c)
            (omega arith) (w, same, all) (rest c w))

-- The whole bitmap: the words from the hint's on, then the words before it.
abbrev pub Whole : Bitmap → Option ℕ × Bitmap → Type 0
Whole b r = Outcome b 0 bitmap_words r

allocate_any-Outcome :
    (hint : ℕ) (b : Bitmap) → IsBitmap b → hint < 2 ^ 16 → Whole b (allocate_any hint b)
unfolding allocate_any
allocate_any-Outcome hint b h k =
    go (search_words (bitmap_words - (hint / 64)) (hint / 64) b) refl
      (search_words-Outcome (bitmap_words - (hint / 64)) (hint / 64) b h (omega arith))
  where
    go :
        (r : Option ℕ × Bitmap)
        → search_words (bitmap_words - (hint / 64)) (hint / 64) b ≡ r
        → Outcome b (hint / 64) (bitmap_words - (hint / 64)) r
        → Whole b (allocate_any hint b)
    go (some v, c) e o =
        rw
          (
            ap (λ (p : Option ℕ × Bitmap). p.0) e,
            ap (λ (p : Option ℕ × Bitmap). p.1) e,
            allocate_any,
          )
          o
    go (none, c) e (w, same, all) =
        rw
          (
            ap (λ (p : Option ℕ × Bitmap). p.0) e,
            ap (λ (p : Option ℕ × Bitmap). p.1) e,
            allocate_any,
          )
          (wrap (search_words (hint / 64) 0 c)
            (search_words-Outcome (hint / 64) 0 c w (omega arith)))
      where
        wrap : (r : Option ℕ × Bitmap) → Outcome c 0 (hint / 64) r → Whole b r
        wrap (some v, d) o = Outcome-Agree b c 0 bitmap_words (some v, d) same o
        wrap (none, d) (w', same', all') = (
          w',
          λ u nz. same' u nz ∙ same u nz,
          λ u nz lo hi. elim (dec_lt (u / 64) (hint / 64)) [
            | yes k' ↦ sym (same u nz) ∙ all' u nz lo (omega (arith, k'))
            | no k' ↦ all u nz (omega arith) (omega arith)
          ],
        )

-- The two statics are in order.
pub record IsVpids (s : Vpids) : Type 0 where
  pub words : IsBitmap s.bitmap
  pub hint : s.search_hint < 2 ^ 16

vpid-Whole :
    (s : Vpids) → IsVpids s → Whole s.bitmap ((allocate_vpid s).0, (allocate_vpid s).1.bitmap)
unfolding allocate_vpid
vpid-Whole s w =
    go (allocate_any s.search_hint s.bitmap) refl
      (allocate_any-Outcome s.search_hint s.bitmap w.words w.hint)
  where
    go :
        (r : Option ℕ × Bitmap)
        → allocate_any s.search_hint s.bitmap ≡ r
        → Whole s.bitmap r
        → Whole s.bitmap ((allocate_vpid s).0, (allocate_vpid s).1.bitmap)
    go (some v, c) e o =
        rw
          (
            ap (λ (p : Option ℕ × Bitmap). p.0) e,
            ap (λ (p : Option ℕ × Bitmap). p.1) e,
            allocate_vpid,
          )
          o
    go (none, c) e o =
        rw
          (
            ap (λ (p : Option ℕ × Bitmap). p.0) e,
            ap (λ (p : Option ℕ × Bitmap). p.1) e,
            allocate_vpid,
          )
          o

-- What `allocate_vpid` hands out, the statics in order, is a 16-bit VPID other than 0 that was free.
pub allocate_vpid_fresh :
    (s : Vpids) (v : ℕ)
    → IsVpids s
    → (allocate_vpid s).0 ≡ some v
    → (v ≢ 0) × (v < 2 ^ 16) × (in_use s.bitmap v ≡ 0)
allocate_vpid_fresh s v w e = go ((allocate_vpid s).0) e (vpid-Whole s w)
  where
    go :
        (r : Option ℕ)
        → r ≡ some v
        → Whole s.bitmap (r, (allocate_vpid s).1.bitmap)
        → (v ≢ 0) × (v < 2 ^ 16) × (in_use s.bitmap v ≡ 0)
    go none e o = absurd cc
    go (some x) e (iw, nz, lt, free, only) =
        let x≡v : x ≡ v = cc in (rw (sym x≡v) nz, rw (sym x≡v) lt, rw (sym x≡v) free)

-- `allocate_vpid`, the statics in order, marks the VPID it hands out as in use, and changes no other
-- but 0.
pub in_use-allocate_vpid :
    (s : Vpids) (v u : ℕ)
    → IsVpids s
    → (allocate_vpid s).0 ≡ some v
    → u ≢ 0
    → in_use (allocate_vpid s).1.bitmap u ≡ (if u == v then 1 else in_use s.bitmap u)
in_use-allocate_vpid s v u w e nz = go ((allocate_vpid s).0) e (vpid-Whole s w)
  where
    go :
        (r : Option ℕ)
        → r ≡ some v
        → Whole s.bitmap (r, (allocate_vpid s).1.bitmap)
        → in_use (allocate_vpid s).1.bitmap u ≡ (if u == v then 1 else in_use s.bitmap u)
    go none e o = absurd cc
    go (some x) e (iw, xnz, lt, free, only) = let x≡v : x ≡ v = cc in rw (sym x≡v) (only u nz)

-- If a 16-bit VPID other than 0 is free, and the statics are in order, then `allocate_vpid` does not
-- panic.
pub allocate_vpid_available :
    (s : Vpids) (u : ℕ)
    → IsVpids s
    → u ≢ 0
    → u < 2 ^ 16
    → in_use s.bitmap u ≡ 0
    → (v : ℕ) × ((allocate_vpid s).0 ≡ some v)
allocate_vpid_available s u w nz lt free = go ((allocate_vpid s).0) refl (vpid-Whole s w)
  where
    go :
        (r : Option ℕ)
        → (allocate_vpid s).0 ≡ r
        → Whole s.bitmap (r, (allocate_vpid s).1.bitmap)
        → (v : ℕ) × ((allocate_vpid s).0 ≡ some v)
    go none e (iw, same, all) = absurd (omega (arith, free, all u nz (omega arith) (omega arith)))
    go (some x) e o = (x, e)

-- `deallocate_vpid` frees the VPID other than 0 that it is given and no other.
pub in_use-deallocate_vpid :
    (s : Vpids) (v u : ℕ)
    → v ≢ 0
    → in_use (deallocate_vpid v s).bitmap u ≡ (if u == v then 0 else in_use s.bitmap u)
unfolding deallocate_vpid
in_use-deallocate_vpid s v u nz = in_use-deallocate v u s.bitmap nz

allocated : (s : Vpids) → IsVpids s → IsVpids (allocate_vpid s).1
unfolding allocate_vpid
allocated s w =
    go (allocate_any s.search_hint s.bitmap) refl
      (allocate_any-Outcome s.search_hint s.bitmap w.words w.hint)
  where
    go :
        (r : Option ℕ × Bitmap)
        → allocate_any s.search_hint s.bitmap ≡ r
        → Whole s.bitmap r
        → IsVpids (allocate_vpid s).1
    go (some v, c) e o =
        rw
          (
            ap (λ (p : Option ℕ × Bitmap). p.0) e,
            ap (λ (p : Option ℕ × Bitmap). p.1) e,
            allocate_vpid,
          )
          (record { words = o.0; hint = omega arith })
    go (none, c) e o =
        rw
          (
            ap (λ (p : Option ℕ × Bitmap). p.0) e,
            ap (λ (p : Option ℕ × Bitmap). p.1) e,
            allocate_vpid,
          )
          (record { words = o.0; hint = w.hint })

-- The words keep their 64 bits and the hint its 16 when a VPID is allocated, when a 16-bit VPID is
-- freed, and when all are.
pub IsVpids-operations :
    (s : Vpids) (v : ℕ)
    → IsVpids s
    → v < 2 ^ 16
    → IsVpids (allocate_vpid s).1 × IsVpids (deallocate_vpid v s) × IsVpids (reset_vpid_counter s)
unfolding deallocate_vpid reset_vpid_counter reset
IsVpids-operations s v w lt = (
  allocated s w,
  record {
    words = deallocate-IsBitmap v s.bitmap w.words;
    hint = elim (Bool-cases (ltb v s.search_hint)) [ inl t ↦ rw t lt | inr t ↦ rw t w.hint ];
  },
  record { words = λ i. ground arith; hint = omega arith },
)
