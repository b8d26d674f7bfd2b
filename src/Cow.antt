-- ===== src/Cow.antt =====
-- `CowPageMap`: crates/bedrock-vmx/src/cow.rs, in its two builds. The tree map of either build is an
-- association list with one entry for a key.
pub mod Laws
use bedrock.Base.{
  ℕ, zero, suc, ◌+◌, ◌==◌, Bool, true, false, Option, none, some, List, [], ◌∷◌, bit_and, bit_not,
  if◌then◌else◌,
}
use bedrock.Base.Result.{Result, ok, err}

pub data CowInsertError : Type 0 where
  cow_insert_error : CowInsertError

-- `gpa & !0xFFF`
unfoldable pub page_aligned : ℕ → ℕ
page_aligned gpa = bit_and gpa (bit_not 64 4095)

module _ {P : Type 0} where
  unfoldable pub find : ℕ → List (ℕ × P) → Option P
  find k [] = none
  find k ((j, p) ∷ rest) = if k == j then some p else find k rest

  -- The entry of the key replaced, or a new one.
  unfoldable pub put : ℕ → P → List (ℕ × P) → List (ℕ × P)
  put k p [] = (k, p) ∷ []
  put k p ((j, q) ∷ rest) = if k == j then (k, p) ∷ rest else (j, q) ∷ put k p rest

  abbrev pub is_some : Option P → Bool
  is_some none = false
  is_some (some p) = true

pub record CowPageMap (P : Type 0) : Type 0 where
  pub pages : List (ℕ × P)
  pub count : ℕ

module _ {P : Type 0} where
  unfoldable pub get : CowPageMap P → ℕ → Option P
  get m gpa = find (page_aligned gpa) m.pages

  unfoldable pub contains : CowPageMap P → ℕ → Bool
  contains m gpa = is_some (find (page_aligned gpa) m.pages)

  -- The cargo build counts a key that was not there.
  unfoldable pub cargo_insert :
      ℕ → P → CowPageMap P → Result CowInsertError (Unit {0}) × CowPageMap P
  cargo_insert gpa page m = (
    ok tt,
    record m {
      pages = put (page_aligned gpa) page m.pages;
      count = if is_some (find (page_aligned gpa) m.pages) then m.count else m.count + 1;
    },
  )

  -- The kernel build counts every insertion; `memory` is the allocator's answer.
  unfoldable pub kernel_insert :
      Bool → ℕ → P → CowPageMap P → Result CowInsertError (Unit {0}) × CowPageMap P
  kernel_insert memory gpa page m =
      if memory
      then (ok tt, record m { pages = put (page_aligned gpa) page m.pages; count = m.count + 1 })
      else (err cow_insert_error, m)
