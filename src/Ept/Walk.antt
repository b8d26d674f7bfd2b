-- ===== src/Ept/Walk.antt =====
-- Walks down a page table, by a path of indices from the root: the view in which the methods are
-- verified.
use bedrock.Base.{
  ℕ, ◌≡◌, ◌≢◌, refl, ap, inl, inr, true, Option, none, some, List, [], ◌∷◌, ◌++◌, if◌then◌else◌,
  Bool-cases, arith,
}
use bedrock.Ept.Entry.{is_present, addr}
use bedrock.Ept.Frames.{TableMemory, write, zero_table}

abbrev pub walk : TableMemory → ℕ → List ℕ → Option ℕ
walk m t [] = some t
walk m t (i ∷ p) = if is_present (m t i) then walk m (addr (m t i)) p else none

module _ (m : TableMemory) where
  pub walk_enter :
      (t i : ℕ) (p : List ℕ)
      → is_present (m t i) ≡ true
      → walk m t (i ∷ p) ≡ walk m (addr (m t i)) p
  walk_enter t i p h = rw h

  -- A walk that ends goes through every prefix of its path.
  pub walk-append : (t u : ℕ) (p q : List ℕ) → walk m t p ≡ some u → walk m t (p ++ q) ≡ walk m u q
  walk-append t u [] q h = let e : t ≡ u = cc in rw e refl
  walk-append t u (i ∷ p) q h = elim (Bool-cases (is_present (m t i))) [
    | inl y ↦ rw y (walk-append (addr (m t i)) u p q (rw y at h))
    | inr n ↦ let absent : none ≡ some u = rw n at h in cc
  ]

  -- A write changes no walk that does not read the entry.
  pub walk-write_off :
      (s t i e : ℕ) (p : List ℕ)
      → ((a b : List ℕ) (j : ℕ) → p ≡ a ++ (j ∷ b) → walk m s a ≡ some t → j ≢ i)
      → walk (write m t i e) s p ≡ walk m s p
  walk-write_off s t i e [] h = refl
  walk-write_off s t i e (j ∷ p) h =
      let apart : s ≡ t → j ≢ i = λ q. h [] p j refl (ap some q) in
      let entry : write m t i e s j ≡ m s j = ground (arith, apart) in
      rw entry (elim (Bool-cases (is_present (m s j))) [
        | inl y ↦ rw y (
            walk-write_off (addr (m s j)) t i e p
              (λ a b k q w. h (j ∷ a) b k (ap (λ l. j ∷ l) q) (rw y w)))
        | inr n ↦ rw n
      ])

  -- Zeroing a table changes no walk that does not come through it.
  pub walk-zero_off :
      (s t : ℕ) (p : List ℕ)
      → ((a b : List ℕ) (j : ℕ) → p ≡ a ++ (j ∷ b) → walk m s a ≢ some t)
      → walk (zero_table m t) s p ≡ walk m s p
  walk-zero_off s t [] h = refl
  walk-zero_off s t (j ∷ p) h =
      let apart : s ≢ t = λ q. h [] p j refl (ap some q) in
      let entry : zero_table m t s j ≡ m s j = ground (arith, apart) in
      rw entry (elim (Bool-cases (is_present (m s j))) [
        | inl y ↦ rw y (
            walk-zero_off (addr (m s j)) t p
              (λ a b k q w. h (j ∷ a) b k (ap (λ l. j ∷ l) q) (rw y w)))
        | inr n ↦ rw n
      ])
