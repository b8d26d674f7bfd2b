-- ===== src/Vpid/Search.antt =====
-- The search for a free VPID: in a word, in a run of words, in the whole bitmap.
use bedrock.Base.{
  ℕ, suc, ◌+◌, ◌-◌, ◌*◌, ◌/◌, ◌%◌, ◌^◌, ◌≤◌, ◌<◌, ◌≡◌, ◌≢◌, refl, ap, ◌∙◌, ◌==◌, true, Option, none,
  some, bit_not, if◌then◌else◌, eq→==, ==-false, u16, arith,
}
use bedrock.Base.Bits.Digit.{test_bit, test_bit-zero, test_bit-not}
use bedrock.Base.Bits.Scan.{trailing_zeros, trailing_zeros-lt, test_bit-trailing_zeros}
use bedrock.Vpid.{Bitmap, bitmap_words, try_allocate, try_allocate_in_word}
use bedrock.Vpid.InUse.{in_use, IsBitmap, try_allocate_won}

-- What a search of the VPIDs of words `first .. first + count` gives: a free VPID, now in use and
-- the only one changed, or the news that all of them are in use. VPID 0 does not count.
abbrev pub Outcome : Bitmap → ℕ → ℕ → Option ℕ × Bitmap → Type 0
Outcome b first count (none, b') =
    IsBitmap b'
    × ((u : ℕ) → u ≢ 0 → in_use b' u ≡ in_use b u)
    × ((u : ℕ) → u ≢ 0 → first ≤ u / 64 → u / 64 < first + count → in_use b u ≡ 1)
Outcome b first count (some v, b') =
    IsBitmap b'
    × (v ≢ 0)
    × (v < 2 ^ 16)
    × (in_use b v ≡ 0)
    × ((u : ℕ) → u ≢ 0 → in_use b' u ≡ (if u == v then 1 else in_use b u))

-- The bit that a scan of word `i` finds.
abbrev pub scanned : Bitmap → ℕ → ℕ
scanned b i = trailing_zeros 64 (bit_not 64 (b i))

module _ (b : Bitmap) (h : IsBitmap b) (i : ℕ) (low : i < bitmap_words) where
  pub full_word : b i ≡ 2 ^ 64 - 1 → (u : ℕ) → u / 64 ≡ i → in_use b u ≡ 1
  full_word e u f =
      let d = u % 64 in
      let one : test_bit (2 ^ 64 - 1) d ≡ 1 =
        test_bit-not 64 0 d (omega arith) (omega arith) ∙ ap (λ (t : ℕ). 1 - t) (test_bit-zero d) in
      ap (λ (t : ℕ). test_bit (b t) d) f ∙ ap (λ (t : ℕ). test_bit t d) e ∙ one

  module _ (room : b i ≢ 2 ^ 64 - 1) where
    scanned-lt : scanned b i < 64
    scanned-lt = trailing_zeros-lt 64 (bit_not 64 (b i)) (omega arith) (omega (arith, h i))

    scanned_free : test_bit (b i) (scanned b i) ≡ 0
    scanned_free = omega (
      arith,
      test_bit-trailing_zeros 64 (bit_not 64 (b i)) (omega arith) (omega (arith, h i)),
      test_bit-not 64 (b i) (scanned b i) (h i) scanned-lt,
    )

    -- No u16 arithmetic wraps.
    candidate : u16 (i * 64 + scanned b i) ≡ i * 64 + scanned b i
    candidate = omega (arith, scanned-lt, low)

    pub candidate_free : in_use b (u16 (i * 64 + scanned b i)) ≡ 0
    candidate_free =
        let v = u16 (i * 64 + scanned b i) in
        let row : v / 64 ≡ i = omega (arith, candidate, scanned-lt) in
        let col : v % 64 ≡ scanned b i = omega (arith, candidate, scanned-lt) in
        ap (λ (t : ℕ). test_bit (b t) (v % 64)) row
        ∙ ap (λ (t : ℕ). test_bit (b i) t) col
        ∙ scanned_free

    pub taken :
        (fuel : ℕ)
        → u16 (i * 64 + scanned b i) ≢ 0
        → try_allocate_in_word (suc fuel) i b
          ≡ (some (u16 (i * 64 + scanned b i)), (try_allocate (u16 (i * 64 + scanned b i)) b).1)
    unfolding try_allocate_in_word
    taken fuel ne =
        let v = u16 (i * 64 + scanned b i) in
        let won : (try_allocate v b).0 ≡ true = try_allocate_won v b ∙ eq→== _ _ candidate_free in
        rw (==-false _ _ room, ==-false _ _ ne, won) refl

    pub skipped :
        (fuel : ℕ)
        → u16 (i * 64 + scanned b i) ≡ 0
        → try_allocate_in_word (suc fuel) i b ≡ try_allocate_in_word fuel i (try_allocate 0 b).1
    unfolding try_allocate_in_word try_allocate
    skipped fuel e = rw (==-false _ _ room, e) refl

  pub exhausted : (fuel : ℕ) → b i ≡ 2 ^ 64 - 1 → try_allocate_in_word (suc fuel) i b ≡ (none, b)
  unfolding try_allocate_in_word
  exhausted fuel e = rw (eq→== _ _ e) refl
