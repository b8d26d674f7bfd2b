-- ===== src/Base/Bits/Digit.antt =====
-- A word as the set of its binary digits: what each operation does to every digit.
use Prim.Native.Nat.{
  ℕ, zero, suc, ◌-◌, ◌/◌, ◌%◌, ◌^◌, ◌≤◌, ◌<◌, min, max, bit_and, bit_or, bit_xor, differ,
  bit_and-bitwise,
}
use mathlib.Core.Path.{◌≡◌, refl, ◌∙◌}
use native.Mathlib.Nat.{pow-suc, one-le-pow}
use native.Mathlib.Decide.{ℕ_discrete}
use native.Mathlib.Omega.{arith}
use bedrock.Base.Tests.{◌==◌, if◌then◌else◌}
use bedrock.Base.Word.{bit_not}
use bedrock.Base.Bits.Step.{bit_and_step, bit_or_step, bit_xor_step}

-- Digit `i` of `a`, counted from the lowest.
abbrev pub test_bit : ℕ → ℕ → ℕ
test_bit a zero = a % 2
test_bit a (suc i) = test_bit (a / 2) i

pub test_bit_le : (a i : ℕ) → test_bit a i ≤ 1
test_bit_le a zero = omega arith
test_bit_le a (suc i) = test_bit_le (a / 2) i

bit_and-half : (a b : ℕ) → bit_and a b / 2 ≡ bit_and (a / 2) (b / 2)
bit_and-half a b = omega (arith, bit_and_step a b)

bit_or-half : (a b : ℕ) → bit_or a b / 2 ≡ bit_or (a / 2) (b / 2)
bit_or-half a b = omega (arith, bit_or_step a b)

differ_le : (a b : ℕ) → differ (a % 2) (b % 2) ≤ 1
differ_le a b = bits (a % 2) (b % 2) (omega arith) (omega arith)
  where
    bits : (x y : ℕ) → x < 2 → y < 2 → differ x y ≤ 1
    bits zero y h k = omega arith
    bits (suc x) zero h k = omega arith
    bits (suc x) (suc zero) h k = let e : x ≡ 0 = omega arith in rw e (omega arith)
    bits (suc x) (suc (suc y)) h k = absurd (omega arith)

bit_xor-half : (a b : ℕ) → bit_xor a b / 2 ≡ bit_xor (a / 2) (b / 2)
bit_xor-half a b = omega (arith, bit_xor_step a b, differ_le a b)

pub test_bit-and : (a b i : ℕ) → test_bit (bit_and a b) i ≡ min (test_bit a i) (test_bit b i)
test_bit-and a b zero = omega (arith, bit_and_step a b)
test_bit-and a b (suc i) = rw (bit_and-half a b) (test_bit-and (a / 2) (b / 2) i)

pub test_bit-or : (a b i : ℕ) → test_bit (bit_or a b) i ≡ max (test_bit a i) (test_bit b i)
test_bit-or a b zero = omega (arith, bit_or_step a b)
test_bit-or a b (suc i) = rw (bit_or-half a b) (test_bit-or (a / 2) (b / 2) i)

pub test_bit-xor : (a b i : ℕ) → test_bit (bit_xor a b) i ≡ differ (test_bit a i) (test_bit b i)
test_bit-xor a b zero = omega (arith, bit_xor_step a b, differ_le a b)
test_bit-xor a b (suc i) = rw (bit_xor-half a b) (test_bit-xor (a / 2) (b / 2) i)

pub test_bit-zero : (i : ℕ) → test_bit 0 i ≡ 0
test_bit-zero zero = refl
test_bit-zero (suc i) = test_bit-zero i

pub pow_half : (k : ℕ) → 2 ^ suc k / 2 ≡ 2 ^ k
pow_half k = omega (arith, pow-suc 2 k)

-- A power of two has one digit.
pub test_bit-pow : (k i : ℕ) → test_bit (2 ^ k) i ≡ (if k == i then 1 else 0)
test_bit-pow zero zero = refl
test_bit-pow zero (suc i) = test_bit-zero i ∙ ground arith
test_bit-pow (suc k) zero = ground (arith, pow-suc 2 k)
test_bit-pow (suc k) (suc i) = rw (pow_half k) (test_bit-pow k i ∙ ground arith)

-- `!x` turns every digit of the word over.
pub test_bit-not : (w x i : ℕ) → x < 2 ^ w → i < w → test_bit (bit_not w x) i ≡ 1 - test_bit x i
test_bit-not zero x i h k = absurd (omega arith)
test_bit-not (suc w) x zero h k = omega (arith, pow-suc 2 w)
test_bit-not (suc w) x (suc i) h k =
    let e : bit_not (suc w) x / 2 ≡ bit_not w (x / 2) = omega (arith, pow-suc 2 w) in
    rw e (test_bit-not w (x / 2) i (omega (arith, pow-suc 2 w)) (omega arith))

-- A `w`-bit word has no digit from `w` on.
pub test_bit-eq-zero : (w a i : ℕ) → a < 2 ^ w → w ≤ i → test_bit a i ≡ 0
test_bit-eq-zero zero a i h k = let e : a ≡ 0 = omega arith in rw e (test_bit-zero i)
test_bit-eq-zero (suc w) a zero h k = absurd (omega arith)
test_bit-eq-zero (suc w) a (suc i) h k =
    test_bit-eq-zero w (a / 2) i (omega (arith, pow-suc 2 w)) (omega arith)

-- Two words with the same digits are equal.
pub eq_of_bits :
    (w a b : ℕ) → a < 2 ^ w → b < 2 ^ w → ((i : ℕ) → test_bit a i ≡ test_bit b i) → a ≡ b
eq_of_bits zero a b h k e = omega arith
eq_of_bits (suc w) a b h k e = omega (
  arith,
  e 0,
  eq_of_bits w (a / 2) (b / 2) (omega (arith, pow-suc 2 w)) (omega (arith, pow-suc 2 w))
      (λ i. e (suc i)),
)

pub bit_or-lt : (w a b : ℕ) → a < 2 ^ w → b < 2 ^ w → bit_or a b < 2 ^ w
bit_or-lt zero a b h k =
    let e : a ≡ 0 = omega arith in let f : b ≡ 0 = omega arith in rw (e, f) (omega arith)
bit_or-lt (suc w) a b h k = omega (
  arith,
  bit_or_step a b,
  pow-suc 2 w,
  bit_or-lt w (a / 2) (b / 2) (omega (arith, pow-suc 2 w)) (omega (arith, pow-suc 2 w)),
)

pub bit_xor-lt : (w a b : ℕ) → a < 2 ^ w → b < 2 ^ w → bit_xor a b < 2 ^ w
bit_xor-lt zero a b h k =
    let e : a ≡ 0 = omega arith in let f : b ≡ 0 = omega arith in rw (e, f) (omega arith)
bit_xor-lt (suc w) a b h k = omega (
  arith,
  bit_xor_step a b,
  differ_le a b,
  pow-suc 2 w,
  bit_xor-lt w (a / 2) (b / 2) (omega (arith, pow-suc 2 w)) (omega (arith, pow-suc 2 w)),
)

pub bit_and-lt : (w a b : ℕ) → a < 2 ^ w → bit_and a b < 2 ^ w
bit_and-lt zero a b h =
    let e : a ≡ 0 = omega arith in
    let f : bit_and 0 b ≡ 0 = simp bit_and-bitwise in rw (e, f) (omega arith)
bit_and-lt (suc w) a b h = omega (
  arith,
  bit_and_step a b,
  pow-suc 2 w,
  bit_and-lt w (a / 2) (b / 2) (omega (arith, pow-suc 2 w)),
)

pub pow_lt : (k w : ℕ) → k < w → 2 ^ k < 2 ^ w
pow_lt k zero h = absurd (omega arith)
pow_lt k (suc w) h = elim (ℕ_discrete k w) [
  | yes e ↦ rw e (omega (arith, pow-suc 2 w, one-le-pow w 2))
  | no ne ↦ omega (arith, pow_lt k w (omega arith), pow-suc 2 w)
]
