-- ===== src/Vpid/Outcome.antt =====
-- What the searches give: `try_allocate_in_word`, its use on a run of words, `allocate_any`.
use native.Mathlib.Decide.{ℕ_discrete}
use bedrock.Base.{
  ℕ, suc, ◌+◌, ◌-◌, ◌*◌, ◌^◌, ◌<◌, ◌≡◌, ◌≢◌, refl, sym, ap, ◌∙◌, ◌==◌, Option, none, some,
  if◌then◌else◌, u16, arith, ==-false,
}
use bedrock.Vpid.{Bitmap, bitmap_words, try_allocate, try_allocate_in_word}
use bedrock.Vpid.{word_fuel}
use bedrock.Vpid.InUse.{in_use, IsBitmap, try_allocate-IsBitmap, in_use-try_allocate}
use bedrock.Vpid.Search.{Outcome, scanned, full_word, candidate_free, taken, skipped, exhausted}

-- The same VPIDs are in use, 0 aside.
abbrev pub Agree : Bitmap → Bitmap → Type 0
Agree b b' = (u : ℕ) → u ≢ 0 → in_use b' u ≡ in_use b u

pub Outcome-Agree :
    (b b' : Bitmap) (first count : ℕ) (r : Option ℕ × Bitmap)
    → Agree b b'
    → Outcome b' first count r
    → Outcome b first count r
Outcome-Agree b b' first count (none, c) g (w, same, all) =
    (w, λ u nz. same u nz ∙ g u nz, λ u nz lo hi. sym (g u nz) ∙ all u nz lo hi)
Outcome-Agree b b' first count (some v, c) g (w, nz, lt, free, only) = (
  w,
  nz,
  lt,
  sym (g v nz) ∙ free,
  λ u un. only u un ∙ ap (λ (t : ℕ). if u == v then 1 else t) (g u un),
)

-- One round at a word that is full or whose candidate is not VPID 0.
module _ (b : Bitmap) (h : IsBitmap b) (i : ℕ) (low : i < bitmap_words) (fuel : ℕ) where
  exhausted-Outcome : b i ≡ 2 ^ 64 - 1 → Outcome b i 1 (try_allocate_in_word (suc fuel) i b)
  exhausted-Outcome e =
      rw (exhausted b h i low fuel e)
        ((h, λ u nz. refl, λ u nz lo hi. full_word b h i low e u (omega arith)))

  taken-Outcome :
      b i ≢ 2 ^ 64 - 1
      → u16 (i * 64 + scanned b i) ≢ 0
      → Outcome b i 1 (try_allocate_in_word (suc fuel) i b)
  taken-Outcome room nz = rw (taken b h i low room fuel nz) (
      (
        try_allocate-IsBitmap _ b h,
        nz,
        omega arith,
        candidate_free b h i low room,
        λ u un. in_use-try_allocate _ u b,
      ))

marked-Agree : (b : Bitmap) → Agree b (try_allocate 0 b).1
marked-Agree b u nz =
    in_use-try_allocate 0 u b ∙ ap (λ t. if t then 1 else in_use b u) (==-false u 0 nz)

-- Two rounds are enough: after the first, VPID 0 is in use and no candidate.
pub word-Outcome :
    (b : Bitmap) (i : ℕ)
    → IsBitmap b
    → i < bitmap_words
    → Outcome b i 1 (try_allocate_in_word word_fuel i b)
word-Outcome b i h low = elim (ℕ_discrete (b i) (2 ^ 64 - 1)) [
  | yes e ↦ exhausted-Outcome b h i low 1 e
  | no room ↦ elim (ℕ_discrete (u16 (i * 64 + scanned b i)) 0) [
    | no nz ↦ taken-Outcome b h i low 1 room nz
    | yes z ↦
        let c = (try_allocate 0 b).1 in
        let hc = try_allocate-IsBitmap 0 b h in
        let second : Outcome c i 1 (try_allocate_in_word 1 i c) =
          elim (ℕ_discrete (c i) (2 ^ 64 - 1)) [
            | yes e ↦ exhausted-Outcome c hc i low 0 e
            | no room' ↦
                let nz : u16 (i * 64 + scanned c i) ≢ 0 = λ z'.
                  let free : in_use c 0 ≡ 0 =
                    ap (in_use c) (sym z') ∙ candidate_free c hc i low room' in
                  let taken0 : in_use c 0 ≡ 1 = in_use-try_allocate 0 0 b in
                  omega (arith, free, taken0) in
                taken-Outcome c hc i low 0 room' nz
          ] in
        rw (skipped b h i low room 1 z) (Outcome-Agree b c i 1 _ (marked-Agree b) second)
  ]
]
