-- ===== src/Base/Bits/Scan.antt =====
-- `leading_zeros` and `trailing_zeros` of a word: they find its highest and its lowest digit.
use Prim.Native.Nat.{ℕ, zero, suc, ◌-◌, ◌/◌, ◌%◌, ◌^◌, ◌≤◌, ◌<◌}
use mathlib.Core.Path.{◌≡◌}
use mathlib.Core.Logic.{◌≢◌, inl, inr}
use native.Mathlib.Nat.{pow-suc}
use native.Mathlib.Decide.{ℕ_discrete}
use native.Mathlib.Omega.{arith}
use bedrock.Base.Tests.{◌==◌, if◌then◌else◌, Bool-cases}
use bedrock.Base.Bits.Digit.{test_bit, test_bit-zero}

-- The number of digits of `a`, at most `w`.
unfoldable pub bit_length : ℕ → ℕ → ℕ
bit_length zero a = 0
bit_length (suc w) a = if a == 0 then 0 else suc (bit_length w (a / 2))

unfoldable pub leading_zeros : ℕ → ℕ → ℕ
leading_zeros w a = w - bit_length w a

-- `w` for 0, as in Rust.
unfoldable pub trailing_zeros : ℕ → ℕ → ℕ
trailing_zeros zero a = 0
trailing_zeros (suc w) a = if a % 2 == 1 then 0 else suc (trailing_zeros w (a / 2))

pub bit_length_le : (w a : ℕ) → bit_length w a ≤ w
unfolding bit_length
bit_length_le zero a = omega arith
bit_length_le (suc w) a = ground (arith, bit_length_le w (a / 2))

pub bit_length_pos : (w a : ℕ) → a < 2 ^ w → a ≢ 0 → 0 < bit_length w a
unfolding bit_length
bit_length_pos zero a h ne = absurd (omega arith)
bit_length_pos (suc w) a h ne = ground arith

-- The highest digit is 1.
pub test_bit-bit_length : (w a n : ℕ) → a < 2 ^ w → bit_length w a ≡ suc n → test_bit a n ≡ 1
unfolding bit_length
test_bit-bit_length zero a n h e = absurd (omega arith)
test_bit-bit_length (suc w) a zero h e =
    ground (arith, bit_length_pos w (a / 2) (omega (arith, pow-suc 2 w)))
test_bit-bit_length (suc w) a (suc n) h e =
    test_bit-bit_length w (a / 2) n (omega (arith, pow-suc 2 w)) (ground arith)

-- Every digit above it is 0.
pub above-bit_length : (w a j : ℕ) → a < 2 ^ w → bit_length w a ≤ j → test_bit a j ≡ 0
unfolding bit_length
above-bit_length zero a j h k = let e : a ≡ 0 = omega arith in rw e (test_bit-zero j)
above-bit_length (suc w) a zero h k = ground arith
above-bit_length (suc w) a (suc j) h k = elim (ℕ_discrete a 0) [
  | yes e ↦ rw e (test_bit-zero j)
  | no ne ↦ above-bit_length w (a / 2) j (omega (arith, pow-suc 2 w)) (ground arith)
]

-- A word with a digit 1 has its lowest one at `trailing_zeros`.
pub test_bit-trailing_zeros : (w a : ℕ) → a < 2 ^ w → a ≢ 0 → test_bit a (trailing_zeros w a) ≡ 1
unfolding trailing_zeros
test_bit-trailing_zeros zero a h ne = absurd (omega arith)
test_bit-trailing_zeros (suc w) a h ne = elim (Bool-cases (a % 2 == 1)) [
  | inl odd ↦ rw odd (ground arith)
  | inr even ↦
      rw even (test_bit-trailing_zeros w (a / 2) (omega (arith, pow-suc 2 w)) (ground arith))
]

pub trailing_zeros-lt : (w a : ℕ) → a < 2 ^ w → a ≢ 0 → trailing_zeros w a < w
unfolding trailing_zeros
trailing_zeros-lt zero a h ne = absurd (omega arith)
trailing_zeros-lt (suc w) a h ne =
    ground (arith, trailing_zeros-lt w (a / 2) (omega (arith, pow-suc 2 w)))
