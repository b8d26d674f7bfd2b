-- ===== src/Ept/Clone/View.antt =====
-- What a tree of tables maps, by paths of indices, and which tables it is made of.
use bedrock.Base.{
  ℕ, zero, suc, ◌≡◌, refl, ap, inl, inr, true, Option, none, some, List, [], ◌∷◌, length,
  if◌then◌else◌, Bool-cases,
}
use bedrock.Ept.Entry.{is_present, addr, read_execute}
use bedrock.Ept.Frames.{TableMemory}
use bedrock.Ept.Grow.{read_entry}

-- The mapping at the end of a path of upper indices and a last one.
abbrev pub view : TableMemory → ℕ → List ℕ → ℕ → Option (ℕ × ℕ)
view m t [] k = read_entry (m t k)
view m t (i ∷ q) k = if is_present (m t i) then view m (addr (m t i)) q k else none

-- The same mapping with no right to write.
abbrev pub read_only : Option (ℕ × ℕ) → Option (ℕ × ℕ)
read_only none = none
read_only (some (host_phys, perms)) = some (host_phys, read_execute)

-- Every table of a tree of so many levels below `t`.
abbrev pub AllTables : ℕ → TableMemory → (ℕ → Type 0) → ℕ → Type 0
AllTables zero m Q t = Q t
AllTables (suc level) m Q t =
    Q t × ((i : ℕ) → is_present (m t i) ≡ true → AllTables level m Q (addr (m t i)))

pub AllTables-map :
    (level : ℕ) (m : TableMemory) (Q R : ℕ → Type 0) (t : ℕ)
    → ((a : ℕ) → Q a → R a)
    → AllTables level m Q t
    → AllTables level m R t
AllTables-map zero m Q R t f h = f t h
AllTables-map (suc level) m Q R t f (h, below) =
    (f t h, λ i y. AllTables-map level m Q R (addr (m t i)) f (below i y))

pub AllTables-agree :
    (level : ℕ) (m m' : TableMemory) (Q : ℕ → Type 0) (t : ℕ)
    → ((a : ℕ) → Q a → (i : ℕ) → m' a i ≡ m a i)
    → AllTables level m Q t
    → AllTables level m' Q t
AllTables-agree zero m m' Q t f h = h
AllTables-agree (suc level) m m' Q t f (h, below) = (
  h,
  λ i y. rw (f t h i) (AllTables-agree level m m' Q (addr (m t i)) f (below i (rw (f t h i) at y))),
)

pub view-agree :
    (q : List ℕ) (m m' : TableMemory) (Q : ℕ → Type 0) (t k : ℕ)
    → ((a : ℕ) → Q a → (i : ℕ) → m' a i ≡ m a i)
    → AllTables (length q) m Q t
    → view m' t q k ≡ view m t q k
view-agree [] m m' Q t k f h = ap read_entry (f t h k)
view-agree (i ∷ q) m m' Q t k f (h, below) = rw (f t h i) (elim (Bool-cases (is_present (m t i))) [
  | inl y ↦ rw y (view-agree q m m' Q (addr (m t i)) k f (below i y))
  | inr n ↦ rw n refl
])
