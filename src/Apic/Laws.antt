-- ===== src/Apic/Laws.antt =====
-- The highest vector of a set, and the EOI register, which clears it.
use native.Mathlib.Decide.{ℕ_discrete, dec_lt}
use bedrock.Base.{
  ℕ, zero, suc, ◌+◌, ◌*◌, ◌/◌, ◌%◌, ◌^◌, ◌≤◌, ◌<◌, ◌≡◌, ◌≢◌, ◌⊎◌, ap, ◌∙◌, ◌==◌, bit_and, bit_not,
  Words, store, shl, if◌then◌else◌, eq→==, ==-false, arith, inl, inr, false,
}
use bedrock.Base.Bits.Digit.{test_bit, test_bit-zero, pow_lt}
use bedrock.Apic.{ApicState, top_bit, clear_highest, write_apic_register}
use bedrock.Apic.Scan.{member, IsVectors, top_bit_lem, member-clear}

-- The vector is in the set, and none above it in the first `n` words is.
pub record IsHighest (n : ℕ) (words : Words) (v : ℕ) : Type 0 where
  pub below : v < n * 32
  pub present : member words v ≡ 1
  pub above : (u : ℕ) → v < u → u < n * 32 → member words u ≡ 0

-- It is the highest digit of the last word, or that word is empty.
pub IsHighest-suc :
    (i : ℕ) (words : Words) (v : ℕ)
    → IsVectors words
    → IsHighest (suc i) words v
    → ((words i ≡ 0) × IsHighest i words v) ⊎ ((words i ≢ 0) × (v ≡ i * 32 + top_bit (words i)))
IsHighest-suc i words v w h = elim (ℕ_discrete (words i) 0) [
  | yes e ↦
      let other : v / 32 ≢ i = λ f.
        let z : member words v ≡ 0 =
          ap (λ (t : ℕ). test_bit (words t) (v % 32)) f
          ∙ ap (λ (t : ℕ). test_bit t (v % 32)) e
          ∙ test_bit-zero (v % 32) in
        omega (arith, z, h.present) in
      inl (
        e,
        record {
          below = omega (arith, h.below, other);
          present = h.present;
          above = λ u k l. h.above u k (omega arith);
        },
      )
  | no ne ↦
      let (lt, digit, zeros) = top_bit_lem (words i) (w i) ne in
      let t = i * 32 + top_bit (words i) in
      let row : t / 32 ≡ i = omega (arith, lt) in
      let col : t % 32 ≡ top_bit (words i) = omega (arith, lt) in
      let top : member words t ≡ 1 =
        ap (λ (k : ℕ). test_bit (words k) (t % 32)) row ∙ ap (test_bit (words i)) col ∙ digit in
      let not_below : t ≤ v = elim (dec_lt v t) [
        | yes k ↦ absurd (omega (arith, top, h.above t k (omega (arith, lt))))
        | no k ↦ omega (arith, k)
      ] in
      let not_above : v ≤ t = elim (dec_lt t v) [
        | yes k ↦
            let f : v / 32 ≡ i = omega (arith, h.below, k) in
            let z : member words v ≡ 0 =
              ap (λ (k : ℕ). test_bit (words k) (v % 32)) f
              ∙ zeros (v % 32) (omega (arith, f, k)) in
            absurd (omega (arith, z, h.present))
        | no k ↦ omega (arith, k)
      ] in
      inr (ne, omega (arith, not_below, not_above))
]

clear_highest_lem :
    (n : ℕ) (words : Words) (v u : ℕ)
    → IsVectors words
    → IsHighest n words v
    → member (clear_highest n words) u ≡ (if u == v then 0 else member words u)
unfolding clear_highest
clear_highest_lem zero words v u w h = absurd (omega (arith, h.below))
clear_highest_lem (suc i) words v u w h = elim (IsHighest-suc i words v w h) [
  | inl (e, g) ↦ let z = eq→== (words i) 0 e in rw z (clear_highest_lem i words v u w g)
  | inr (ne, e) ↦
      let lt = (top_bit_lem (words i) (w i) ne).0 in
      let row : i ≡ v / 32 = omega (arith, lt, e) in
      let col : top_bit (words i) ≡ v % 32 = omega (arith, lt, e) in
      let z : (words i == 0) ≡ false = ==-false _ _ ne in
      let mask : shl 32 1 (top_bit (words i)) ≡ 2 ^ (v % 32) =
        ap (λ (k : ℕ). shl 32 1 k) col ∙ omega (arith, pow_lt (v % 32) 32 (omega arith)) in
      rw z (
        ap (λ (m : ℕ). member (store words i (bit_and (words i) (bit_not 32 m))) u) mask
        ∙ ap (λ (k : ℕ). member (store words k (bit_and (words k) (bit_not 32 (2 ^ (v % 32))))) u)
            row
        ∙ member-clear words v u)
]

-- A write to the EOI register takes the highest vector in service out of service, and no other; the
-- words of the ISR have 32 bits.
pub write_apic_register_eoi :
    (apic : ApicState) (value tsc v u : ℕ)
    → IsVectors apic.isr
    → IsHighest 8 apic.isr v
    → member (write_apic_register apic 176 value tsc).isr u
      ≡ (if u == v then 0 else member apic.isr u)
unfolding write_apic_register
write_apic_register_eoi apic value tsc v u w h = clear_highest_lem 8 apic.isr v u w h
