-- ===== src/GuestPaging/Range.antt =====
-- A buffer is translated byte by byte: `translate_gva_range_to_gpas` against `translate_gva_to_gpa`.
use bedrock.Base.{
  ℕ, zero, suc, ◌+◌, ◌-◌, ◌*◌, ◌/◌, ◌%◌, ◌^◌, ◌<◌, ◌≤◌, ◌==◌, ◌≡◌, ap, ◌∙◌, Bool, true, false, not,
  Option, none, some, List, ◌∷◌, bit_and, bit_not, ltb, leb, if◌then◌else◌, get_or, arith, if-cases,
  some-cases,
}
use bedrock.Base.Bits.Field.{bit_and_field}
use bedrock.GuestPaging.{
  ◌>>=◌, page_4k, page_2m, page_1g, in_pt, in_pd, in_pdpt, translate_gva_to_gpa, translate_pages,
  translate_gva_range_to_gpas,
}
use bedrock.GuestPaging.Pages.{
  moved_to, page_4k-eq, page_2m-eq, page_1g-eq, translate_gva_to_gpa-moved,
}

abbrev Small : Option ℕ → Type 0
Small o = (p : ℕ) → o ≡ some p → p < 2 ^ 64

none-Small : Small none
none-Small p e = absurd (cc)

bind-Small : (o : Option ℕ) (k : ℕ → Option ℕ) → ((e : ℕ) → Small (k e)) → Small (o >>= k)
bind-Small none k h = none-Small
bind-Small (some x) k h = h x

if-Small : (b : Bool) (x y : Option ℕ) → Small x → Small y → Small (if b then x else y)
if-Small true x y h k = h
if-Small false x y h k = k

some-Small : (q : ℕ) → q < 2 ^ 64 → Small (some q)
some-Small q h p e = ground (arith, h, e)

module _ (cr3 : Option ℕ) (read : ℕ → Option ℕ) where
  translate_gva_to_gpa-Small : (a : ℕ) → Small (translate_gva_to_gpa cr3 read a)
  unfolding translate_gva_to_gpa in_pdpt in_pd in_pt
  translate_gva_to_gpa-Small a = bind-Small cr3 _ λ c. bind-Small (read _) _ λ e4.
      if-Small (bit_and e4 1 == 0) _ _ none-Small (
        bind-Small (read _) _ λ e3. if-Small (bit_and e3 1 == 0) _ _ none-Small (
          if-Small (not (bit_and e3 (2 ^ 7) == 0)) _ _
            (some-Small (page_1g e3 a) (omega (arith, page_1g-eq e3 a)))
            (bind-Small (read _) _ λ e2. if-Small (bit_and e2 1 == 0) _ _ none-Small (
              if-Small (not (bit_and e2 (2 ^ 7) == 0)) _ _
                (some-Small (page_2m e2 a) (omega (arith, page_2m-eq e2 a)))
                (bind-Small (read _) _ λ e1.
                  if-Small (bit_and e1 1 == 0) _ _ none-Small
                    (some-Small (page_4k e1 a) (omega (arith, page_4k-eq e1 a))))))))

  -- What one turn of the loop leaves when the loop succeeds.
  record Turn (s i n : ℕ) (gpas : List ℕ) : Type 0 where
    page : ℕ
    rest : List ℕ
    page_eq : translate_gva_to_gpa cr3 read (s + i * 4096) ≡ some page
    rest_eq : translate_pages cr3 read n s (suc i) ≡ some rest
    gpas_eq : gpas ≡ bit_and page (bit_not 64 0xFFF) ∷ rest

  turn :
      (n s i : ℕ) (gpas : List ℕ)
      → translate_pages cr3 read (suc n) s i ≡ some gpas
      → Turn s i n gpas
  unfolding translate_pages
  turn n s i gpas =
      some-cases (λ o. o ≡ some gpas → Turn s i n gpas)
        (translate_gva_to_gpa cr3 read (s + i * 4096)) none _ (λ t e. absurd (cc))
        (λ p t.
          some-cases (λ o. o ≡ some gpas → Turn s i n gpas) (translate_pages cr3 read n s (suc i))
            none _ (λ r e. absurd (cc))
            (λ gs r e. record { page = p; rest = gs; page_eq = t; rest_eq = r; gpas_eq = cc }))

  first_page :
      (a x p : ℕ)
      → translate_gva_to_gpa cr3 read a ≡ some p
      → a / 4096 ≡ x / 4096
      → translate_gva_to_gpa cr3 read x ≡ some (bit_and p (bit_not 64 0xFFF) + x % 4096)
  first_page a x p t same =
      let small : p < 2 ^ 64 = translate_gva_to_gpa-Small a p t in
      let page : p / 4096 * 4096 ≡ bit_and p (bit_not 64 0xFFF) =
        omega (arith, bit_and_field 12 52 p) in
      translate_gva_to_gpa-moved cr3 read a x same
      ∙ ap (moved_to x) t
      ∙ ap (λ q. some (q + x % 4096)) page

  -- The pages of the loop, one by one.
  pages_at :
      (n s i : ℕ) (gpas : List ℕ)
      → s % 4096 ≡ 0
      → translate_pages cr3 read n s i ≡ some gpas
      → (j x : ℕ) → j < n
      → x / 4096 ≡ s / 4096 + i + j
      → translate_gva_to_gpa cr3 read x ≡ some (get_or gpas j 0 + x % 4096)
  pages_at zero s i gpas al ok j x b at = absurd (omega arith)
  pages_at (suc n) s i gpas al ok zero x b at =
      let t = turn n s i gpas ok in
      rw (t.gpas_eq) (first_page (s + i * 4096) x (t.page) (t.page_eq) (omega (arith, at, al)))
  pages_at (suc n) s i gpas al ok (suc j) x b at =
      let t = turn n s i gpas ok in
      rw (t.gpas_eq)
        (pages_at n s (suc i) (t.rest) al (t.rest_eq) j x (omega (arith, b)) (omega (arith, at)))

  -- Where a buffer is translated, every byte of it has a guest physical address by the page walk, and that
  -- is its offset in the page that the list has for it, over all the pages of the buffer. The address is
  -- 64-bit, the memory and CR3 any.
  pub translate_gva_range_to_gpas-translate_gva_to_gpa :
      (gva size len : ℕ) (gpas : List ℕ)
      → gva < 2 ^ 64
      → translate_gva_range_to_gpas cr3 read gva size len ≡ some gpas
      → (x : ℕ) → gva ≤ x
      → x < gva + size
      → translate_gva_to_gpa cr3 read x ≡ some (get_or gpas (x / 4096 - gva / 4096) 0 + x % 4096)
  unfolding translate_gva_range_to_gpas
  translate_gva_range_to_gpas-translate_gva_to_gpa gva size len gpas fits ok x lo hi =
      let P : Option (List ℕ) → Type 0 = λ o.
        o ≡ some gpas
        → translate_gva_to_gpa cr3 read x
          ≡ some (get_or gpas (x / 4096 - gva / 4096) 0 + x % 4096) in
      let last = gva + (size - 1) in
      let start = bit_and gva (bit_not 64 0xFFF) in
      let num_pages = (bit_and last (bit_not 64 0xFFF) - start) / 4096 + 1 in
      let start_eq : start ≡ gva / 4096 * 4096 = omega (arith, fits, bit_and_field 12 52 gva) in
      if-cases P (size == 0) (λ z e. absurd (ground (arith, z, lo, hi)))
        (λ nz.
          if-cases P (leb (2 ^ 64) last) (λ o e. absurd (cc))
            (λ inside.
              if-cases P (ltb len num_pages) (λ o e. absurd (cc))
                (λ room e.
                  let last_fits : last < 2 ^ 64 = ground (arith, inside) in
                  let last_eq : bit_and last (bit_not 64 0xFFF) ≡ last / 4096 * 4096 =
                    omega (arith, last_fits, bit_and_field 12 52 last) in
                  pages_at num_pages start 0 gpas (omega (arith, start_eq)) e
                    (x / 4096 - gva / 4096) x (omega (arith, start_eq, last_eq, lo, hi))
                    (omega (arith, start_eq, lo)))))
        ok
