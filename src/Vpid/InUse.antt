-- ===== src/Vpid/InUse.antt =====
-- The bitmap as a set of VPIDs, and what one operation on a bit does to it.
use native.Mathlib.Nat.{one-le-pow}
use native.Mathlib.Decide.{ℕ_discrete}
use bedrock.Base.{
  ℕ, ◌/◌, ◌%◌, ◌^◌, ◌<◌, ◌≡◌, ◌≢◌, ap, ◌∙◌, ◌==◌, bit_and, bit_or, bit_not, store, if◌then◌else◌,
  arith,
}
use bedrock.Base.Bits.Digit.{
  test_bit, test_bit_le, test_bit-and, test_bit-or, test_bit-not, test_bit-pow, bit_or-lt,
  bit_and-lt, pow_lt,
}
use bedrock.Base.Bits.Field.{bit_and_single}
use bedrock.Vpid.{Bitmap, try_allocate, deallocate}

-- 1 if the VPID's bit is set, else 0.
abbrev pub in_use : Bitmap → ℕ → ℕ
in_use b v = test_bit (b (v / 64)) (v % 64)

-- Every word has 64 bits.
abbrev pub IsBitmap : Bitmap → Type 0
IsBitmap b = (i : ℕ) → b i < 2 ^ 64

mask-lt : (v : ℕ) → 2 ^ (v % 64) < 2 ^ 64
mask-lt v = pow_lt (v % 64) 64 (omega arith)

-- `try_allocate` succeeds exactly when the VPID was free.
pub try_allocate_won : (v : ℕ) (b : Bitmap) → (try_allocate v b).0 ≡ (in_use b v == 0)
unfolding try_allocate
try_allocate_won v b = ground (
  arith,
  bit_and_single (v % 64) (b (v / 64)),
  test_bit_le (b (v / 64)) (v % 64),
  one-le-pow (v % 64) 2,
)

pub try_allocate-IsBitmap : (v : ℕ) (b : Bitmap) → IsBitmap b → IsBitmap (try_allocate v b).1
unfolding try_allocate
try_allocate-IsBitmap v b h i =
    ground (arith, h i, bit_or-lt 64 (b (v / 64)) (2 ^ (v % 64)) (h (v / 64)) (mask-lt v))

-- `try_allocate` sets the VPID's bit and no other.
pub in_use-try_allocate :
    (v u : ℕ) (b : Bitmap) → in_use (try_allocate v b).1 u ≡ (if u == v then 1 else in_use b u)
unfolding try_allocate
in_use-try_allocate v u b = elim (ℕ_discrete (v / 64) (u / 64)) [
  | no ne ↦ ground arith
  | yes e ↦
      let x = bit_or (b (v / 64)) (2 ^ (v % 64)) in
      let row : store b (v / 64) x (u / 64) ≡ x = ground arith in
      ap (λ (t : ℕ). test_bit t (u % 64)) row
      ∙ ground (
        arith,
        test_bit-or (b (v / 64)) (2 ^ (v % 64)) (u % 64),
        test_bit-pow (v % 64) (u % 64),
        test_bit_le (b (v / 64)) (u % 64),
        ap (λ (t : ℕ). test_bit (b t) (u % 64)) e,
      )
]

pub deallocate-IsBitmap : (v : ℕ) (b : Bitmap) → IsBitmap b → IsBitmap (deallocate v b)
unfolding deallocate
deallocate-IsBitmap v b h i =
    ground (arith, h i, bit_and-lt 64 (b (v / 64)) (bit_not 64 (2 ^ (v % 64))) (h (v / 64)))

-- `deallocate` clears the VPID's bit and no other; VPID 0 is left alone.
pub in_use-deallocate :
    (v u : ℕ) (b : Bitmap) → v ≢ 0 → in_use (deallocate v b) u ≡ (if u == v then 0 else in_use b u)
unfolding deallocate
in_use-deallocate v u b nz = elim (ℕ_discrete (v / 64) (u / 64)) [
  | no ne ↦ ground arith
  | yes e ↦
      let x = bit_and (b (v / 64)) (bit_not 64 (2 ^ (v % 64))) in
      let row : (if v == 0 then b else store b (v / 64) x) (u / 64) ≡ x = ground arith in
      ap (λ (t : ℕ). test_bit t (u % 64)) row
      ∙ ground (
        arith,
        test_bit-and (b (v / 64)) (bit_not 64 (2 ^ (v % 64))) (u % 64),
        test_bit-not 64 (2 ^ (v % 64)) (u % 64) (mask-lt v) (omega arith),
        test_bit-pow (v % 64) (u % 64),
        test_bit_le (b (v / 64)) (u % 64),
        ap (λ (t : ℕ). test_bit (b t) (u % 64)) e,
      )
]
