-- ===== src/GuestPaging/Pages.antt =====
-- A page is translated as a whole, and so is a buffer.
use bedrock.Base.{
  ℕ, ◌+◌, ◌*◌, ◌/◌, ◌%◌, ◌^◌, ◌==◌, ◌≡◌, refl, ap, Bool, true, false, not, Option, none, some,
  bit_and, if◌then◌else◌, arith,
}
use bedrock.Memory.{
  pml4_index, pdpt_index, pd_index, pt_index, pml4_index_lem, pdpt_index_lem, pd_index_lem,
  pt_index_lem,
}
use bedrock.Base.Bits.Field.{bit_and_low, bit_and_field, bit_or_sum}
use bedrock.GuestPaging.{
  ◌>>=◌, address_mask, page_4k, page_2m, page_1g, in_pt, in_pd, in_pdpt, translate_gva_to_gpa,
}

-- The same place in the frame of another address.
abbrev pub moved : ℕ → ℕ → ℕ
moved gva p = p / 4096 * 4096 + gva % 4096

abbrev pub moved_to : ℕ → Option ℕ → Option ℕ
moved_to gva none = none
moved_to gva (some p) = some (moved gva p)

pub page_4k-eq : (e gva : ℕ) → page_4k e gva ≡ e / 2 ^ 12 % 2 ^ 40 * 2 ^ 12 + gva % 4096
unfolding page_4k
page_4k-eq e gva =
    rw (bit_and_field 12 40 e, bit_and_low 12 gva)
      (bit_or_sum 12 (e / 2 ^ 12 % 2 ^ 40) (gva % 2 ^ 12) (omega arith))

pub page_2m-eq : (e gva : ℕ) → page_2m e gva ≡ e / 2 ^ 21 % 2 ^ 31 * 2 ^ 21 + gva % 2 ^ 21
unfolding page_2m
page_2m-eq e gva =
    rw (bit_and_field 21 31 e, bit_and_low 21 gva)
      (bit_or_sum 21 (e / 2 ^ 21 % 2 ^ 31) (gva % 2 ^ 21) (omega arith))

pub page_1g-eq : (e gva : ℕ) → page_1g e gva ≡ e / 2 ^ 30 % 2 ^ 22 * 2 ^ 30 + gva % 2 ^ 30
unfolding page_1g
page_1g-eq e gva =
    rw (bit_and_field 30 22 e, bit_and_low 30 gva)
      (bit_or_sum 30 (e / 2 ^ 30 % 2 ^ 22) (gva % 2 ^ 30) (omega arith))

bind_moved :
    (gva : ℕ) (o : Option ℕ) (k k' : ℕ → Option ℕ)
    → ((e : ℕ) → k' e ≡ moved_to gva (k e))
    → (o >>= k') ≡ moved_to gva (o >>= k)
bind_moved gva none k k' h = refl
bind_moved gva (some e) k k' h = h e

if_moved :
    (gva : ℕ) (b : Bool) (x y x' y' : Option ℕ)
    → x' ≡ moved_to gva x
    → y' ≡ moved_to gva y
    → (if b then x' else y') ≡ moved_to gva (if b then x else y)
if_moved gva true x y x' y' h k = h
if_moved gva false x y x' y' h k = k

module _ (cr3 : Option ℕ) (read : ℕ → Option ℕ) (a b : ℕ) (same : a / 4096 ≡ b / 4096) where
  in_pt_moved : (t : ℕ) → in_pt cr3 read b t ≡ moved_to b (in_pt cr3 read a t)
  unfolding in_pt
  in_pt_moved t =
      let i : pt_index b ≡ pt_index a = omega (arith, pt_index_lem a, pt_index_lem b) in
      rw i (
        bind_moved b (read (t + pt_index a * 8)) _ _ (λ e.
          if_moved b (bit_and e 1 == 0) none _ none _ refl
            (ap some (omega (arith, page_4k-eq e a, page_4k-eq e b)))))

  in_pd_moved : (t : ℕ) → in_pd cr3 read b t ≡ moved_to b (in_pd cr3 read a t)
  unfolding in_pd
  in_pd_moved t =
      let i : pd_index b ≡ pd_index a = omega (arith, pd_index_lem a, pd_index_lem b, same) in
      rw i (
        bind_moved b (read (t + pd_index a * 8)) _ _ (λ e.
          if_moved b (bit_and e 1 == 0) none _ none _ refl (
            if_moved b (not (bit_and e (2 ^ 7) == 0)) _ _ _ _
              (ap some (omega (arith, page_2m-eq e a, page_2m-eq e b, same)))
              (in_pt_moved (bit_and e address_mask)))))

  in_pdpt_moved : (t : ℕ) → in_pdpt cr3 read b t ≡ moved_to b (in_pdpt cr3 read a t)
  unfolding in_pdpt
  in_pdpt_moved t =
      let i : pdpt_index b ≡ pdpt_index a =
        omega (arith, pdpt_index_lem a, pdpt_index_lem b, same) in
      rw i (
        bind_moved b (read (t + pdpt_index a * 8)) _ _ (λ e.
          if_moved b (bit_and e 1 == 0) none _ none _ refl (
            if_moved b (not (bit_and e (2 ^ 7) == 0)) _ _ _ _
              (ap some (omega (arith, page_1g-eq e a, page_1g-eq e b, same)))
              (in_pd_moved (bit_and e address_mask)))))

  pub translate_gva_to_gpa-moved :
      translate_gva_to_gpa cr3 read b ≡ moved_to b (translate_gva_to_gpa cr3 read a)
  unfolding translate_gva_to_gpa
  translate_gva_to_gpa-moved =
      let i : pml4_index b ≡ pml4_index a =
        omega (arith, pml4_index_lem a, pml4_index_lem b, same) in
      rw i (
        bind_moved b cr3 _ _ (λ c.
          bind_moved b (read (bit_and c address_mask + pml4_index a * 8)) _ _ (λ e.
            if_moved b (bit_and e 1 == 0) none _ none _ refl
              (in_pdpt_moved (bit_and e address_mask)))))
