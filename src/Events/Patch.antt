-- ===== src/Events/Patch.antt =====
-- What a write of bytes into a record's payload leaves as it is.
use bedrock.Base.{
  ℕ, zero, suc, ◌+◌, ◌≤◌, ◌<◌, ◌≡◌, refl, ap, ◌∙◌, List, [], ◌∷◌, ◌++◌, length, set, length-set,
  arith,
}
use bedrock.Base.Bytes.{to_le}
use bedrock.Events.{overwrite, patch_exit, memory_hash_offset, cow_page_count_offset}

set-append_right : (xs ys : List ℕ) (k v : ℕ) → set (xs ++ ys) (length xs + k) v ≡ xs ++ set ys k v
set-append_right [] ys k v = let e : 0 + k ≡ k = omega arith in rw e refl
set-append_right (x ∷ xs) ys k v =
    let e : suc (length xs) + k ≡ suc (length xs + k) = omega arith in
    rw e (ap (λ l. x ∷ l) (set-append_right xs ys k v))

set-append_left : (xs ys : List ℕ) (k v : ℕ) → k < length xs → set (xs ++ ys) k v ≡ set xs k v ++ ys
set-append_left [] ys k v h = absurd (omega arith)
set-append_left (x ∷ xs) ys zero v h = refl
set-append_left (x ∷ xs) ys (suc k) v h = ap (λ l. x ∷ l) (set-append_left xs ys k v (omega arith))

pub length-overwrite : (xs : List ℕ) (k : ℕ) (bs : List ℕ) → length (overwrite xs k bs) ≡ length xs
length-overwrite xs k [] = refl
length-overwrite xs k (b ∷ bs) = length-overwrite (set xs k b) (suc k) bs ∙ length-set xs k b

overwrite-append_right :
    (xs ys : List ℕ) (k : ℕ) (bs : List ℕ)
    → overwrite (xs ++ ys) (length xs + k) bs ≡ xs ++ overwrite ys k bs
overwrite-append_right xs ys k [] = refl
overwrite-append_right xs ys k (b ∷ bs) =
    let e : suc (length xs + k) ≡ length xs + suc k = omega arith in
    rw (set-append_right xs ys k b, e) (overwrite-append_right xs (set ys k b) (suc k) bs)

overwrite-append_left :
    (xs ys : List ℕ) (k : ℕ) (bs : List ℕ)
    → k + length bs ≤ length xs
    → overwrite (xs ++ ys) k bs ≡ overwrite xs k bs ++ ys
overwrite-append_left xs ys k [] h = refl
overwrite-append_left xs ys k (b ∷ bs) h =
    rw (set-append_left xs ys k b (omega arith))
      (overwrite-append_left (set xs k b) ys (suc k) bs (omega (arith, length-set xs k b)))

pub length-patch_exit : (h c k : ℕ) (xs : List ℕ) → length (patch_exit h c k xs) ≡ length xs
unfolding patch_exit
length-patch_exit h c k xs =
    length-overwrite (overwrite xs (k + memory_hash_offset) (to_le 8 h)) (k + cow_page_count_offset)
      (to_le 4 c)
    ∙ length-overwrite xs (k + memory_hash_offset) (to_le 8 h)

-- A patch of a payload that has bytes before it and behind it.
pub patch_exit-append :
    (h c : ℕ) (pre payload post : List ℕ)
    → cow_page_count_offset + 4 ≤ length payload
    → patch_exit h c (length pre) (pre ++ (payload ++ post))
      ≡ pre ++ (patch_exit h c 0 payload ++ post)
unfolding patch_exit
patch_exit-append h c pre payload post enough =
    let hash = overwrite payload memory_hash_offset (to_le 8 h) in
    rw
      (
        overwrite-append_right pre (payload ++ post) memory_hash_offset (to_le 8 h),
        overwrite-append_left payload post memory_hash_offset (to_le 8 h) (omega arith),
        overwrite-append_right pre (hash ++ post) cow_page_count_offset (to_le 4 c),
        overwrite-append_left hash post cow_page_count_offset (to_le 4 c)
            (omega (arith, length-overwrite payload memory_hash_offset (to_le 8 h))),
      )
      refl
