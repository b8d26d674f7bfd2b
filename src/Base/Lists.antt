-- ===== src/Base/Lists.antt =====
-- Lists measured and indexed by native numbers, under the library's names.
use Prim.Native.Nat.{ℕ, zero, suc, ◌+◌, ◌-◌, ◌≤◌, ◌<◌, min}
use mathlib.Core.Path.{◌≡◌, refl, sym, ap, ◌∙◌}
use mathlib.Core.Logic.{◌≢◌}
use mathlib.Core.List.{List, [], ◌∷◌, ◌++◌}
use mathlib.Core.Option.{Option, none, some}
use native.Mathlib.Omega.{arith}
use native.Mathlib.Decide.{dec_lt}
use bedrock.Base.Tests.{◌==◌, if◌then◌else◌}

module _ {ℓ} {A : Type ℓ} where
  abbrev pub length : List A → ℕ
  length [] = 0
  length (x ∷ xs) = suc (length xs)

  abbrev pub get_elem? : List A → ℕ → Option A
  get_elem? [] i = none
  get_elem? (x ∷ xs) zero = some x
  get_elem? (x ∷ xs) (suc i) = get_elem? xs i

  abbrev pub get_or : List A → ℕ → A → A
  get_or [] i d = d
  get_or (x ∷ xs) zero d = x
  get_or (x ∷ xs) (suc i) d = get_or xs i d

  -- A write out of bounds changes nothing.
  abbrev pub set : List A → ℕ → A → List A
  set [] i v = []
  set (x ∷ xs) zero v = v ∷ xs
  set (x ∷ xs) (suc i) v = x ∷ set xs i v

  abbrev pub take : ℕ → List A → List A
  take zero xs = []
  take (suc n) [] = []
  take (suc n) (x ∷ xs) = x ∷ take n xs

  abbrev pub drop : ℕ → List A → List A
  drop zero xs = xs
  drop (suc n) [] = []
  drop (suc n) (x ∷ xs) = drop n xs

  abbrev pub replicate : ℕ → A → List A
  replicate zero a = []
  replicate (suc n) a = a ∷ replicate n a

  pub length-append : (xs ys : List A) → length (xs ++ ys) ≡ length xs + length ys
  length-append [] ys = omega arith
  length-append (x ∷ xs) ys = omega (arith, length-append xs ys)

  pub take-append : (xs ys : List A) → take (length xs) (xs ++ ys) ≡ xs
  take-append [] ys = refl
  take-append (x ∷ xs) ys = ap (λ l. x ∷ l) (take-append xs ys)

  pub drop-append : (xs ys : List A) → drop (length xs) (xs ++ ys) ≡ ys
  drop-append [] ys = refl
  drop-append (x ∷ xs) ys = drop-append xs ys

  pub length-take : (n : ℕ) (xs : List A) → length (take n xs) ≡ min n (length xs)
  length-take zero xs = omega arith
  length-take (suc n) [] = omega arith
  length-take (suc n) (x ∷ xs) = omega (arith, length-take n xs)

  pub length-drop : (n : ℕ) (xs : List A) → length (drop n xs) ≡ length xs - n
  length-drop zero xs = omega arith
  length-drop (suc n) [] = omega arith
  length-drop (suc n) (x ∷ xs) = omega (arith, length-drop n xs)

  pub length-replicate : (n : ℕ) (a : A) → length (replicate n a) ≡ n
  length-replicate zero a = refl
  length-replicate (suc n) a = ap suc (length-replicate n a)

  pub take_all : (n : ℕ) (xs : List A) → length xs ≤ n → take n xs ≡ xs
  take_all zero [] h = refl
  take_all zero (x ∷ xs) h = absurd (omega arith)
  take_all (suc n) [] h = refl
  take_all (suc n) (x ∷ xs) h = ap (λ l. x ∷ l) (take_all n xs (omega arith))

  pub take-append-drop : (n : ℕ) (xs : List A) → take n xs ++ drop n xs ≡ xs
  take-append-drop zero xs = refl
  take-append-drop (suc n) [] = refl
  take-append-drop (suc n) (x ∷ xs) = ap (λ l. x ∷ l) (take-append-drop n xs)

module _ {ℓ} {A : Type ℓ} where
  pub length-set : (xs : List A) (i : ℕ) (v : A) → length (set xs i v) ≡ length xs
  length-set [] i v = refl
  length-set (x ∷ xs) zero v = refl
  length-set (x ∷ xs) (suc i) v = ap suc (length-set xs i v)

  pub get_or-set_self :
      (xs : List A) (i : ℕ) (v d : A) → i < length xs → get_or (set xs i v) i d ≡ v
  get_or-set_self [] i v d h = absurd (omega arith)
  get_or-set_self (x ∷ xs) zero v d h = refl
  get_or-set_self (x ∷ xs) (suc i) v d h = get_or-set_self xs i v d (omega arith)

  pub get_or-set_ne :
      (xs : List A) (i j : ℕ) (v d : A) → i ≢ j → get_or (set xs i v) j d ≡ get_or xs j d
  get_or-set_ne [] i j v d h = refl
  get_or-set_ne (x ∷ xs) zero zero v d h = absurd (h refl)
  get_or-set_ne (x ∷ xs) zero (suc j) v d h = refl
  get_or-set_ne (x ∷ xs) (suc i) zero v d h = refl
  get_or-set_ne (x ∷ xs) (suc i) (suc j) v d h = get_or-set_ne xs i j v d (λ e. h (ap suc e))

-- A Rust `match` on numbers: the first arm with the key, else the last one.
abbrev pub match_key : {A : Type 0} → ℕ → List (ℕ × A) → A → A
match_key n [] last = last
match_key n ((k, a) ∷ arms) last = if n == k then a else match_key n arms last

pub take-min : {A : Type 0} (c : ℕ) (xs : List A) → take (min (length xs) c) xs ≡ take c xs
take-min c xs = elim (dec_lt (length xs) c) [
  | yes h ↦
      let e : min (length xs) c ≡ length xs = omega arith in
      ap (λ (t : ℕ). take t xs) e
      ∙ take_all (length xs) xs (omega arith)
      ∙ sym (take_all c xs (omega arith))
  | no h ↦ let e : min (length xs) c ≡ c = omega arith in ap (λ (t : ℕ). take t xs) e
]

-- What is read back of a list that was copied to the front of a buffer of size `c`.
pub take-copy :
    {A : Type 0} (c : ℕ) (xs r : List A)
    → take (min (length xs) c) (take (min (length xs) c) xs ++ r) ≡ take c xs
take-copy c xs r =
    let n = min (length xs) c in
    let e : n ≡ length (take n xs) = omega (arith, length-take n xs) in
    ap (λ (t : ℕ). take t (take n xs ++ r)) e ∙ take-append (take n xs) r ∙ take-min c xs

take_of_append :
    {A : Type 0} (c : ℕ) (xs ys : List A) → take c (xs ++ ys) ≡ take c xs ++ take (c - length xs) ys
take_of_append zero [] ys = refl
take_of_append zero (x ∷ xs) ys = let e : 0 - suc (length xs) ≡ 0 = omega arith in rw e refl
take_of_append (suc c) [] ys = let e : suc c - 0 ≡ suc c = omega arith in rw e refl
take_of_append (suc c) (x ∷ xs) ys =
    let e : suc c - suc (length xs) ≡ c - length xs = omega arith in
    rw e (ap (λ l. x ∷ l) (take_of_append c xs ys))

-- Two lists that are copied to a buffer of size `c`, one behind the other, are their first `c` elements.
pub take-copies :
    {A : Type 0} (c : ℕ) (xs ys : List A)
    → take (min (length xs) c) xs ++ take (min (length ys) (c - min (length xs) c)) ys
      ≡ take c (xs ++ ys)
take-copies c xs ys =
    let left : c - min (length xs) c ≡ c - length xs = omega arith in
    rw (left, take-min c xs, take-min (c - length xs) ys) (sym (take_of_append c xs ys))
