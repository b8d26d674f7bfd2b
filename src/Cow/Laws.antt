-- ===== src/Cow/Laws.antt =====
-- The map of copied pages: what is inserted is found, and the count is that of the pages.
use bedrock.Base.{
  ℕ, ◌+◌, ◌==◌, ◌≡◌, refl, ap, ◌∙◌, Bool, true, false, some, List, [], ◌∷◌, length, if◌then◌else◌,
  Bool-cases, ==→eq, inl, inr, arith,
}
use bedrock.Cow.{
  CowPageMap, page_aligned, find, put, is_some, get, contains, cargo_insert, kernel_insert,
}

module _ {P : Type 0} where
  find-put :
      (k j : ℕ) (p : P) (l : List (ℕ × P))
      → find j (put k p l) ≡ (if j == k then some p else find j l)
  unfolding find put
  find-put k j p [] = refl
  find-put k j p ((i, q) ∷ l) = elim (Bool-cases (k == i)) [
    | inl t ↦
        let e : k ≡ i = ==→eq k i t in
        elim (Bool-cases (j == k)) [
          | inl u ↦ rw (t, u) refl
          | inr u ↦ let v : (j == i) ≡ false = ground arith in rw (t, u, v) refl
        ]
    | inr t ↦ elim (Bool-cases (j == i)) [
      | inl u ↦ let v : (j == k) ≡ false = ground arith in rw (t, u, v) refl
      | inr u ↦ rw (t, u) (find-put k j p l)
    ]
  ]

  length-put :
      (k : ℕ) (p : P) (l : List (ℕ × P))
      → length (put k p l) ≡ (if is_some (find k l) then length l else length l + 1)
  unfolding find put
  length-put k p [] = omega arith
  length-put k p ((i, q) ∷ l) = elim (Bool-cases (k == i)) [
    | inl t ↦ rw t (omega arith)
    | inr t ↦ rw t (ground (arith, length-put k p l))
  ]

-- A page that is inserted is found at every address of its page, and at no other page; it is the same
-- in both builds when there is memory.
pub get-insert :
    {P : Type 0} (m : CowPageMap P) (gpa other : ℕ) (page : P)
    → (get (cargo_insert gpa page m).1 other
        ≡ (if page_aligned other == page_aligned gpa then some page else get m other))
      × (get (kernel_insert true gpa page m).1 other
          ≡ (if page_aligned other == page_aligned gpa then some page else get m other))
unfolding get cargo_insert kernel_insert
get-insert m gpa other page = (find-put _ _ page m.pages, find-put _ _ page m.pages)

-- The count is the number of pages after a cargo insertion; after a kernel insertion it is if the page
-- was not there before.
pub count-insert :
    {P : Type 0} (m : CowPageMap P) (memory : Bool) (gpa : ℕ) (page : P)
    → m.count ≡ length m.pages
    → contains m gpa ≡ false
    → ((cargo_insert gpa page m).1.count ≡ length (cargo_insert gpa page m).1.pages)
      × ((kernel_insert memory gpa page m).1.count
          ≡ length (kernel_insert memory gpa page m).1.pages)
unfolding contains cargo_insert kernel_insert
count-insert m true gpa page e f =
    let grown : length (put (page_aligned gpa) page m.pages) ≡ length m.pages + 1 =
      length-put (page_aligned gpa) page m.pages
      ∙ ap (λ t. if t then length m.pages else length m.pages + 1) f in
    (rw f (omega (arith, e, grown)), omega (arith, e, grown))
count-insert m false gpa page e f =
    let grown : length (put (page_aligned gpa) page m.pages) ≡ length m.pages + 1 =
      length-put (page_aligned gpa) page m.pages
      ∙ ap (λ t. if t then length m.pages else length m.pages + 1) f in
    (rw f (omega (arith, e, grown)), e)
