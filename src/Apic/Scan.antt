-- ===== src/Apic/Scan.antt =====
-- Eight words of 32 digits as a set of interrupt vectors, and its highest member.
use native.Mathlib.Decide.{ℕ_discrete}
use bedrock.Base.{
  ℕ, suc, ◌-◌, ◌/◌, ◌%◌, ◌^◌, ◌<◌, ◌≡◌, ◌≢◌, ap, ◌∙◌, ◌==◌, bit_and, bit_or, bit_not, Words, store,
  if◌then◌else◌, arith,
}
use bedrock.Base.Bits.Digit.{
  test_bit, test_bit_le, test_bit-and, test_bit-or, test_bit-not, test_bit-pow, pow_lt,
}
use bedrock.Base.Bits.Scan.{
  bit_length, leading_zeros, bit_length_le, bit_length_pos, test_bit-bit_length, above-bit_length,
}
use bedrock.Apic.{top_bit}

-- 1 if the vector is in the set, else 0.
abbrev pub member : Words → ℕ → ℕ
member words v = test_bit (words (v / 32)) (v % 32)

abbrev pub IsVectors : Words → Type 0
IsVectors words = (i : ℕ) → words i < 2 ^ 32

-- The highest digit of a word, and nothing above it.
pub top_bit_lem :
    (x : ℕ)
    → x < 2 ^ 32
    → x ≢ 0
    → (top_bit x < 32) × (test_bit x (top_bit x) ≡ 1) × ((j : ℕ) → top_bit x < j → test_bit x j ≡ 0)
unfolding top_bit leading_zeros
top_bit_lem x h nz =
    let pos = bit_length_pos 32 x h nz in
    let le = bit_length_le 32 x in
    let n : bit_length 32 x ≡ suc (31 - (32 - bit_length 32 x)) = omega (arith, pos, le) in
    (
      omega arith,
      test_bit-bit_length 32 x _ h n,
      λ j k. above-bit_length 32 x j h (omega (arith, n, k)),
    )

-- Setting a vector's digit, and clearing it.
pub member-set :
    (words : Words) (v u : ℕ)
    → member (store words (v / 32) (bit_or (words (v / 32)) (2 ^ (v % 32)))) u
      ≡ (if u == v then 1 else member words u)
member-set words v u = elim (ℕ_discrete (v / 32) (u / 32)) [
  | no ne ↦ ground arith
  | yes e ↦
      let x = bit_or (words (v / 32)) (2 ^ (v % 32)) in
      let row : store words (v / 32) x (u / 32) ≡ x = ground arith in
      ap (λ (t : ℕ). test_bit t (u % 32)) row
      ∙ ground (
        arith,
        test_bit-or (words (v / 32)) (2 ^ (v % 32)) (u % 32),
        test_bit-pow (v % 32) (u % 32),
        test_bit_le (words (v / 32)) (u % 32),
        ap (λ (t : ℕ). test_bit (words t) (u % 32)) e,
      )
]

pub member-clear :
    (words : Words) (v u : ℕ)
    → member (store words (v / 32) (bit_and (words (v / 32)) (bit_not 32 (2 ^ (v % 32))))) u
      ≡ (if u == v then 0 else member words u)
member-clear words v u = elim (ℕ_discrete (v / 32) (u / 32)) [
  | no ne ↦ ground arith
  | yes e ↦
      let x = bit_and (words (v / 32)) (bit_not 32 (2 ^ (v % 32))) in
      let row : store words (v / 32) x (u / 32) ≡ x = ground arith in
      ap (λ (t : ℕ). test_bit t (u % 32)) row
      ∙ ground (
        arith,
        test_bit-and (words (v / 32)) (bit_not 32 (2 ^ (v % 32))) (u % 32),
        test_bit-not 32 (2 ^ (v % 32)) (u % 32) (pow_lt (v % 32) 32 (omega arith)) (omega arith),
        test_bit-pow (v % 32) (u % 32),
        test_bit_le (words (v / 32)) (u % 32),
        ap (λ (t : ℕ). test_bit (words t) (u % 32)) e,
      )
]
