-- ===== src/Base/Bits/Step.antt =====
-- The binary operations, one digit at a time: the fuel of the library's definition dropped.
use Prim.Native.Nat.{
  ℕ, zero, suc, ◌+◌, ◌*◌, ◌/◌, ◌%◌, ◌≤◌, min, max, bit_and, bit_or, bit_xor, digits, differ,
  bit_and-bitwise, bit_or-bitwise, bit_xor-bitwise,
}
use mathlib.Core.Path.{◌≡◌, refl, sym, ap, ◌∙◌}
use native.Mathlib.Omega.{arith}

module _ (rest : ℕ → ℕ) (op : ℕ → ℕ → ℕ) where
  no_digits : (m y : ℕ) → digits rest op m zero y ≡ rest y
  no_digits zero y = refl
  no_digits (suc m) y = refl

  -- Any fuel that is at least the first number gives the same digits.
  fuel_irrelevant : (m n x y : ℕ) → x ≤ m → x ≤ n → digits rest op m x y ≡ digits rest op n x y
  fuel_irrelevant m n zero y h k = no_digits m y ∙ sym (no_digits n y)
  fuel_irrelevant (suc m) (suc n) (suc x) y h k =
      ap (λ (t : ℕ). t * 2 + op (suc x % 2) (y % 2))
        (fuel_irrelevant m n (suc x / 2) (y / 2) (omega arith) (omega arith))
  fuel_irrelevant zero n (suc x) y h k = absurd (omega arith)
  fuel_irrelevant (suc m) zero (suc x) y h k = absurd (omega arith)

  unroll :
      (x y : ℕ)
      → digits rest op (suc x) (suc x) y
        ≡ 2 * digits rest op (suc x / 2) (suc x / 2) (y / 2) + op (suc x % 2) (y % 2)
  unroll x y =
      ap (λ (t : ℕ). t * 2 + op (suc x % 2) (y % 2))
        (fuel_irrelevant x (suc x / 2) (suc x / 2) (y / 2) (omega arith) (omega arith))
      ∙ omega arith

pub bit_xor_step : (x y : ℕ) → bit_xor x y ≡ 2 * bit_xor (x / 2) (y / 2) + differ (x % 2) (y % 2)
bit_xor_step zero y = simp bit_xor-bitwise (omega arith)
bit_xor_step (suc x) y = simp bit_xor-bitwise (unroll (λ t. t) differ x y)

pub bit_or_step : (x y : ℕ) → bit_or x y ≡ 2 * bit_or (x / 2) (y / 2) + max (x % 2) (y % 2)
bit_or_step zero y = simp bit_or-bitwise (omega arith)
bit_or_step (suc x) y = simp bit_or-bitwise (unroll (λ t. t) max x y)

pub bit_and_step : (x y : ℕ) → bit_and x y ≡ 2 * bit_and (x / 2) (y / 2) + min (x % 2) (y % 2)
bit_and_step zero y = simp bit_and-bitwise (omega arith)
bit_and_step (suc x) y = simp bit_and-bitwise (unroll (λ t. 0) min x y)
