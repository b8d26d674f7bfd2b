-- ===== src/Forked/Overlay.antt =====
-- Bytes put over memory, for `write_guest_memory`: the host's memory, and what a guest sees.
use bedrock.Base.{
  ℕ, zero, suc, ◌+◌, ◌-◌, ◌<◌, ◌≤◌, ◌&&◌, ◌≡◌, refl, ap, ◌∙◌, true, Option, some, List, [], ◌∷◌,
  length, length-take, length-drop, take, drop, get_or, ltb, leb, if◌then◌else◌, ◌⊎◌, inl, dec_lt,
  arith,
}
use bedrock.Forked.{store}

-- Guest memory with some bytes put over it.
abbrev pub overlay : ℕ → List ℕ → (ℕ → Option ℕ) → ℕ → Option ℕ
overlay from bytes f a =
    if leb from a && ltb a (from + length bytes) then some (get_or bytes (a - from) 0) else f a

pub overlay_in :
    (from : ℕ) (bytes : List ℕ) (f : ℕ → Option ℕ) (a : ℕ)
    → from ≤ a
    → a < from + length bytes
    → overlay from bytes f a ≡ some (get_or bytes (a - from) 0)
overlay_in from bytes f a lo hi = ground arith

pub overlay_out :
    (from : ℕ) (bytes : List ℕ) (f : ℕ → Option ℕ) (a : ℕ)
    → ((a < from) ⊎ (from + length bytes ≤ a))
    → overlay from bytes f a ≡ f a
overlay_out from bytes f a h = ground arith

pub store_in :
    (ram : ℕ → ℕ) (p : ℕ) (bs : List ℕ) (i : ℕ)
    → i < length bs
    → store ram p bs (p + i) ≡ get_or bs i 0
unfolding store
store_in ram p bs i h =
    let e : p + i - p ≡ i = omega arith in
    let t : (leb p (p + i) && ltb (p + i) (p + length bs)) ≡ true = ground (arith, h) in
    rw (t, e) refl

pub store_out :
    (ram : ℕ → ℕ) (p : ℕ) (bs : List ℕ) (a : ℕ)
    → ((a < p) ⊎ (p + length bs ≤ a))
    → store ram p bs a ≡ ram a
unfolding store
store_out ram p bs a h = ground arith

get_or-take : (n : ℕ) (xs : List ℕ) (i : ℕ) → i < n → get_or (take n xs) i 0 ≡ get_or xs i 0
get_or-take zero xs i h = absurd (omega arith)
get_or-take (suc n) [] i h = refl
get_or-take (suc n) (x ∷ xs) zero h = refl
get_or-take (suc n) (x ∷ xs) (suc i) h = get_or-take n xs i (omega (arith, h))

get_or-drop : (n : ℕ) (xs : List ℕ) (i : ℕ) → get_or (drop n xs) i 0 ≡ get_or xs (n + i) 0
get_or-drop zero xs i = let e : zero + i ≡ i = omega arith in rw e refl
get_or-drop (suc n) [] i = refl
get_or-drop (suc n) (x ∷ xs) i =
    let e : suc n + i ≡ suc (n + i) = omega arith in rw e (get_or-drop n xs i)

-- One part of the bytes after the other.
pub overlay-overlay :
    (from n : ℕ) (bytes : List ℕ) (f : ℕ → Option ℕ) (a : ℕ)
    → n ≤ length bytes
    → overlay (from + n) (drop n bytes) (overlay from (take n bytes) f) a ≡ overlay from bytes f a
overlay-overlay from n bytes f a h =
    let t : length (take n bytes) ≡ n = omega (arith, length-take n bytes, h) in
    let d : length (drop n bytes) ≡ length bytes - n = length-drop n bytes in
    elim (dec_lt a (from + n)) [
      | yes low ↦
          overlay_out (from + n) (drop n bytes) (overlay from (take n bytes) f) a (inl low)
          ∙ ground (arith, t, h, low, get_or-take n bytes (a - from))
      | no high ↦
          let index : n + (a - (from + n)) ≡ a - from = omega (arith, high) in
          let later : get_or (drop n bytes) (a - (from + n)) 0 ≡ get_or bytes (a - from) 0 =
            get_or-drop n bytes (a - (from + n)) ∙ ap (λ (k : ℕ). get_or bytes k 0) index in
          ground (arith, t, d, h, high, later)
    ]
