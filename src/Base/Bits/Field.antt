-- ===== src/Base/Bits/Field.antt =====
-- Masks and fields as arithmetic, at every width.
use Prim.Native.Nat.{
  ℕ, zero, suc, ◌+◌, ◌-◌, ◌*◌, ◌/◌, ◌%◌, ◌^◌, ◌<◌, bit_and, bit_or, bit_xor, differ,
}
use mathlib.Core.Path.{◌≡◌, refl, ◌∙◌, ap, sym}
use native.Mathlib.Nat.{pow-suc, one-le-pow, div-div-eq-div-mul}
use native.Mathlib.Omega.{arith}
use bedrock.Base.Bits.Digit.{test_bit}
use bedrock.Base.Bits.Step.{bit_and_step, bit_or_step, bit_xor_step}

bit_and-zero_fuel : (w a : ℕ) → a < 2 ^ w → bit_and a 0 ≡ 0
bit_and-zero_fuel zero a h = let e : a ≡ 0 = omega arith in rw e refl
bit_and-zero_fuel (suc w) a h =
    omega (arith, bit_and_step a 0, bit_and-zero_fuel w (a / 2) (omega (arith, pow-suc 2 w)))

lt-pow : (a : ℕ) → a < 2 ^ a
lt-pow zero = omega arith
lt-pow (suc a) = omega (arith, lt-pow a, pow-suc 2 a)

pub bit_and-zero : (a : ℕ) → bit_and a 0 ≡ 0
bit_and-zero a = bit_and-zero_fuel a a (lt-pow a)

bit_or-zero_fuel : (w a : ℕ) → a < 2 ^ w → bit_or a 0 ≡ a
bit_or-zero_fuel zero a h = let e : a ≡ 0 = omega arith in rw e refl
bit_or-zero_fuel (suc w) a h =
    omega (arith, bit_or_step a 0, bit_or-zero_fuel w (a / 2) (omega (arith, pow-suc 2 w)))

pub bit_or-zero : (a : ℕ) → bit_or a 0 ≡ a
bit_or-zero a = bit_or-zero_fuel a a (lt-pow a)

double : (q k : ℕ) → q * 2 ^ suc k ≡ 2 * (q * 2 ^ k)
double q k = omega (arith, ap (λ (t : ℕ). q * t) (pow-suc 2 k))

bit_and_split : (k q r : ℕ) → r < 2 ^ k → bit_and (q * 2 ^ k + r) (2 ^ k - 1) ≡ r
bit_and_split zero q r h = bit_and-zero (q * 2 ^ 0 + r) ∙ omega arith
bit_and_split (suc k) q r h = ground (
  arith,
  bit_and_step (q * 2 ^ suc k + r) (2 ^ suc k - 1),
  double q k,
  pow-suc 2 k,
  one-le-pow k 2,
  bit_and_split k q (r / 2) (omega (arith, pow-suc 2 k)),
)

-- `a & (2^k - 1)` keeps the low `k` bits.
pub bit_and_low : (k a : ℕ) → bit_and a (2 ^ k - 1) ≡ a % 2 ^ k
bit_and_low k a = ground (arith, one-le-pow k 2, bit_and_split k (a / 2 ^ k) (a % 2 ^ k))

-- `(q << k) | r` is a sum when `r` fits in `k` bits.
pub bit_or_sum : (k q r : ℕ) → r < 2 ^ k → bit_or (q * 2 ^ k) r ≡ q * 2 ^ k + r
bit_or_sum zero q r h = ground (arith, bit_or-zero q)
bit_or_sum (suc k) q r h = ground (
  arith,
  bit_or_step (q * 2 ^ suc k) r,
  double q k,
  bit_or_sum k q (r / 2) (omega (arith, pow-suc 2 k)),
)

half_div : (a s : ℕ) → a / 2 / 2 ^ s ≡ a / 2 ^ suc s
half_div a s = div-div-eq-div-mul a 2 (2 ^ s) ∙ ap (λ (t : ℕ). a / t) (omega (arith, pow-suc 2 s))

-- A field of `k` bits at bit `s`, taken out in place.
pub bit_and_field : (s k a : ℕ) → bit_and a ((2 ^ k - 1) * 2 ^ s) ≡ a / 2 ^ s % 2 ^ k * 2 ^ s
bit_and_field zero k a =
    let e : (2 ^ k - 1) * 2 ^ 0 ≡ 2 ^ k - 1 = omega arith in rw e (bit_and_low k a ∙ ground arith)
bit_and_field (suc s) k a = ground (
  arith,
  bit_and_step a ((2 ^ k - 1) * 2 ^ suc s),
  double (2 ^ k - 1) s,
  double (a / 2 ^ suc s % 2 ^ k) s,
  bit_and_field s k (a / 2),
  ap (λ (t : ℕ). t % 2 ^ k * 2 ^ s) (half_div a s),
)

eq_of_differ : (x y : ℕ) → differ x y ≡ 0 → x ≡ y
eq_of_differ zero y h = sym h
eq_of_differ (suc x) zero h = h
eq_of_differ (suc x) (suc y) h = ap suc (eq_of_differ x y h)

-- Only equal words have no differing bit.
pub eq_of_xor : (w a b : ℕ) → a < 2 ^ w → b < 2 ^ w → bit_xor a b ≡ 0 → a ≡ b
eq_of_xor zero a b h k e = omega arith
eq_of_xor (suc w) a b h k e = omega (
  arith,
  bit_xor_step a b,
  eq_of_xor w (a / 2) (b / 2) (omega (arith, pow-suc 2 w)) (omega (arith, pow-suc 2 w))
      (omega (arith, bit_xor_step a b)),
  digit,
)
  where
    digit : a % 2 ≡ b % 2
    digit = eq_of_differ (a % 2) (b % 2) (omega (arith, bit_xor_step a b))

-- `a & (1 << k)` is the digit in its place.
pub bit_and_single : (k a : ℕ) → bit_and a (2 ^ k) ≡ test_bit a k * 2 ^ k
bit_and_single zero a = omega (arith, bit_and_low 1 a)
bit_and_single (suc k) a = ground (
  arith,
  bit_and_step a (2 ^ suc k),
  pow-suc 2 k,
  bit_and_single k (a / 2),
  ap (λ (t : ℕ). test_bit (a / 2) k * t) (pow-suc 2 k),
)
