-- ===== src/Ept/Grow.antt =====
-- Adding an empty table below an entry that was not present: which walks and which leaf entries
-- change. This is the step that `ensure_table` makes.
use mathlib.Core.List.{List-discrete, append_assoc, append-nil}
use bedrock.Base.{
  ℕ, suc, ◌≤◌, ◌<◌, ◌≡◌, ◌≢◌, refl, sym, ap, ◌∙◌, ◌⊎◌, inl, inr, true, false, Option, none, some,
  List, [], ◌∷◌, ◌++◌, length, take, drop, if◌then◌else◌, Option-cases, arith, length-append,
  length-take, take-append-drop, ℕ_discrete,
}
use bedrock.Ept.Entry.{is_present, addr, permissions, is_present-zero}
use bedrock.Ept.Frames.{TableMemory, write, zero_table}
use bedrock.Ept.Walk.{walk, walk-append, walk-write_off, walk-zero_off}

-- What an entry maps to.
abbrev pub read_entry : ℕ → Option (ℕ × ℕ)
read_entry e = if is_present e then some (addr e, permissions e) else none

-- The leaf entry at index `k` of the table at the end of a path.
abbrev pub leaf : TableMemory → ℕ → List ℕ → ℕ → Option (ℕ × ℕ)
leaf m root p k = elim (walk m root p) [ some t ↦ read_entry (m t k) | none ↦ none ]

module _ (m : TableMemory) (root : ℕ) (p : List ℕ) (k : ℕ) where
  pub leaf-some : (t : ℕ) → walk m root p ≡ some t → leaf m root p k ≡ read_entry (m t k)
  leaf-some t h = rw (h, leaf)

  pub leaf-none : walk m root p ≡ none → leaf m root p k ≡ none
  leaf-none h = rw (h, leaf)

pub prefix_length : (q a b : List ℕ) (j : ℕ) → q ≡ a ++ (j ∷ b) → length a < length q
prefix_length q a b j h = omega (arith, ap length h, length-append a (j ∷ b))

take_step : (p b : List ℕ) (i : ℕ) → take (suc (length p)) (p ++ (i ∷ b)) ≡ p ++ (i ∷ [])
take_step [] b i = refl
take_step (x ∷ p) b i = ap (λ l. x ∷ l) (take_step p b i)

-- A path that does not begin with `p ++ [i]` never goes on from `p` by `i`.
not_through :
    (q p a b : List ℕ) (i j : ℕ)
    → take (suc (length p)) q ≢ p ++ (i ∷ [])
    → q ≡ a ++ (j ∷ b)
    → a ≡ p
    → j ≢ i
not_through q p a b i j ne e f g = ne (rw (e, f, g) (take_step p b i))

module _ (m : TableMemory) (root : ℕ) (Owned : ℕ → Type 0)
    (reached : (p : List ℕ) (a : ℕ) → length p ≤ 3 → walk m root p ≡ some a → Owned a)
    (once : (p q : List ℕ) (a : ℕ)
      → length p ≤ 3
      → length q ≤ 3
      → walk m root p ≡ some a
      → walk m root q ≡ some a
      → p ≡ q)
    (t i new e : ℕ) (p : List ℕ) (short : length p ≤ 2) (here : walk m root p ≡ some t)
    (absent : is_present (m t i) ≡ false) (fresh : ¬ Owned new) (present : is_present e ≡ true)
    (to_new : addr e ≡ new) where
  abbrev pub grown : TableMemory
  grown = write (zero_table m new) t i e

  new-ne : new ≢ t
  new-ne h = fresh (rw h (reached p t (omega arith) here))

  zeroed : (q : List ℕ) → length q ≤ 3 → walk (zero_table m new) root q ≡ walk m root q
  zeroed q h =
      walk-zero_off m root new q
        λ a b j e w. fresh (reached a new (omega (arith, prefix_length q a b j e)) w)

  -- Paths that do not go through the new entry are walked as before.
  grown_off :
      (q : List ℕ)
      → length q ≤ 3
      → take (suc (length p)) q ≢ p ++ (i ∷ [])
      → walk grown root q ≡ walk m root q
  grown_off q h ne =
      walk-write_off (zero_table m new) root t i e q (λ a b j f w.
        let short_a : length a ≤ 3 = omega (arith, prefix_length q a b j f) in
        not_through q p a b i j ne f
          (once a p t short_a (omega arith) (sym (zeroed a short_a) ∙ w) here))
      ∙ zeroed q h

  grown_here : walk grown root p ≡ some t
  grown_here =
      grown_off p (omega arith) (λ h.
        absurd
          (omega (arith, ap length h, length-take (suc (length p)) p, length-append p (i ∷ []))))
      ∙ here

  entry : grown t i ≡ e
  entry = ground arith

  blank : (k : ℕ) → grown new k ≡ 0
  blank k = ground (arith, new-ne)

  pub grown-new : walk grown root (p ++ (i ∷ [])) ≡ some new
  grown-new = walk-append grown root t p (i ∷ []) grown_here ∙ rw (entry, present, to_new)

  -- Below the new table there is nothing.
  grown_below :
      (k : ℕ) (b : List ℕ) → walk grown root (p ++ (i ∷ k ∷ b)) ≡ walk m root (p ++ (i ∷ k ∷ b))
  grown_below k b =
      walk-append grown root t p (i ∷ k ∷ b) grown_here
      ∙ (rw (entry, present, to_new, blank k, is_present-zero, absent))
      ∙ sym (walk-append m root t p (i ∷ k ∷ b) here)

  -- Every other table is where it was.
  pub grown_other :
      (q : List ℕ) → length q ≤ 3 → q ≢ p ++ (i ∷ []) → walk grown root q ≡ walk m root q
  grown_other q h ne = elim (List-discrete ℕ_discrete (take (suc (length p)) q) (p ++ (i ∷ []))) [
    | no off ↦ grown_off q h off
    | yes on ↦
        go (drop (suc (length p)) q)
          (sym (take-append-drop (suc (length p)) q) ∙ ap (λ l. l ++ drop (suc (length p)) q) on)
  ]
    where
      go : (b : List ℕ) → q ≡ (p ++ (i ∷ [])) ++ b → walk grown root q ≡ walk m root q
      go [] f = absurd (ne (f ∙ append-nil (p ++ (i ∷ []))))
      go (k ∷ b) f = rw (f, append_assoc) (grown_below k b)

  -- No leaf entry changes: the new table has none yet.
  pub grown-leaf : (q : List ℕ) (k : ℕ) → length q ≡ 3 → leaf grown root q k ≡ leaf m root q k
  grown-leaf q k h = elim (List-discrete ℕ_discrete q (p ++ (i ∷ []))) [
    | yes e ↦
        let none_there : walk m root q ≡ none =
          rw e (walk-append m root t p (i ∷ []) here ∙ (rw absent)) in
        leaf-some grown root q k new (rw e grown-new)
        ∙ (rw (blank k, is_present-zero))
        ∙ sym (leaf-none m root q k none_there)
    | no ne ↦ elim (Option-cases (walk m root q)) [
      | inl w ↦
          leaf-none grown root q k (grown_other q (omega arith) ne ∙ w)
          ∙ sym (leaf-none m root q k w)
      | inr (u, w) ↦
          leaf-some grown root q k u (grown_other q (omega arith) ne ∙ w)
          ∙ ap read_entry (same u w)
          ∙ sym (leaf-some m root q k u w)
    ]
  ]
    where
      same : (u : ℕ) → walk m root q ≡ some u → grown u k ≡ m u k
      same u w =
          let off_new : u ≢ new = λ f. fresh (rw (← f) (reached q u (omega arith) w)) in
          let off_t : u ≢ t = λ f. absurd (
            omega
              (arith, ap length (once q p t (omega arith) (omega arith) (w ∙ ap some f) here))) in
          ground (arith, off_new, off_t)

  -- A walk now ends where it ended before, or at the new table.
  pub grown_cases :
      (q : List ℕ) (a : ℕ)
      → length q ≤ 3
      → walk grown root q ≡ some a
      → ((q ≡ p ++ (i ∷ [])) × (a ≡ new)) ⊎ (walk m root q ≡ some a)
  grown_cases q a h w = elim (List-discrete ℕ_discrete q (p ++ (i ∷ []))) [
    | yes f ↦ let g : some a ≡ some new = sym w ∙ (rw f grown-new) in inl (f, cc)
    | no ne ↦ inr (sym (grown_other q h ne) ∙ w)
  ]
