-- ===== src/Ept/Clone/Loop.antt =====
-- A loop over the entries of a new table: what it keeps, and that every round's result lasts.
use bedrock.Base.{ℕ, zero, suc, ◌+◌, ◌<◌, ◌≤◌, ◌≡◌, ◌≢◌, refl, ◌∙◌, arith, dec_lt}
use mathlib.Core.Path.{subst}
use bedrock.Base.Result.{Result, ok, err}
use bedrock.Ept.Frames.{FrameAllocator}
use bedrock.Ept.Table.{EptPageTable, M}
use bedrock.Ept.Clone.{for_each}

module _ (A : FrameAllocator) where
  open A use {Error, Live}

  -- Frames stay owned, and of the tables that were owned only `dst` is written to.
  pub record Kept (dst : ℕ) (w w' : EptPageTable A) : Type 0 where
    pub live : (a : ℕ) → Live w.alloc a → Live w'.alloc a
    pub same : (a : ℕ) → Live w.alloc a → a ≢ dst → (i : ℕ) → w'.memory a i ≡ w.memory a i
    pub root : w'.pml4_phys ≡ w.pml4_phys

  pub Kept-refl : (dst : ℕ) (w : EptPageTable A) → Kept dst w w
  Kept-refl dst w = record { live = λ a h. h; same = λ a h n i. refl; root = refl }

  pub Kept-trans : (dst : ℕ) (u v w : EptPageTable A) → Kept dst u v → Kept dst v w → Kept dst u w
  Kept-trans dst u v w f g = record {
    live = λ a h. g.live a (f.live a h);
    same = λ a h n i. g.same a (f.live a h) n i ∙ f.same a h n i;
    root = g.root ∙ f.root;
  }

  -- A loop that began in the state `start`, and the property that round `j` establishes.
  module _ (dst : ℕ) (start : EptPageTable A) (Cell : ℕ → EptPageTable A → Type 0) where
    pub record Before (i : ℕ) (w : EptPageTable A) : Type 0 where
      pub kept : Kept dst start w
      pub done : (j : ℕ) → j < i → Cell j w
      pub rest : (j : ℕ) → i ≤ j → w.memory dst j ≡ 0

    -- What a round does from a state before it.
    pub record Round (i : ℕ) (w : EptPageTable A) (out : Result Error (Unit {0}) × EptPageTable A)
        : Type 0 where
      pub kept : Kept dst w out.1
      pub others : (j : ℕ) → j ≢ i → out.1.memory dst j ≡ w.memory dst j
      pub cell : out.0 ≡ ok tt → Cell i out.1

    pub record Looped (i : ℕ) (out : Result Error (Unit {0}) × EptPageTable A) : Type 0 where
      pub kept : Kept dst start out.1
      pub after : out.0 ≡ ok tt → Before i out.1

    module _ (body : ℕ → M A (Unit {0}))
        (lasts : (j : ℕ) (w w' : EptPageTable A)
          → Kept dst start w
          → Kept dst w w'
          → w'.memory dst j ≡ w.memory dst j
          → Cell j w
          → Cell j w')
        (round : (i : ℕ) (w : EptPageTable A) → Before i w → Round i w (body i w)) where
      next_Before :
          (i : ℕ) (w : EptPageTable A)
          → Before i w
          → (body i w).0 ≡ ok tt
          → Before (suc i) (body i w).1
      next_Before i w b e =
          let r = round i w b in
          record {
            kept = Kept-trans dst start w (body i w).1 b.kept r.kept;
            done = λ j h. elim (dec_lt j i) [
              | yes l ↦ lasts j w (body i w).1 b.kept r.kept (r.others j (omega arith)) (b.done j l)
              | no l ↦
                  let here : i ≡ j = omega arith in subst (λ x. Cell x (body i w).1) here (r.cell e)
            ];
            rest = λ j h. r.others j (omega arith) ∙ b.rest j (omega arith);
          }

      pub for_each-Looped :
          (count i : ℕ) (w : EptPageTable A)
          → Before i w
          → Looped (i + count) (for_each A count i body w)
      unfolding for_each
      for_each-Looped zero i w b =
          let e : i + 0 ≡ i = omega arith in record { kept = b.kept; after = λ h. rw e b }
      for_each-Looped (suc count) i w b =
          rounds (body i w) (Kept-trans dst start w (body i w).1 b.kept (round i w b).kept)
            (next_Before i w b)
            (λ w' b'.
              let e : i + suc count ≡ suc i + count = omega arith in
              rw e (for_each-Looped count (suc i) w' b'))
        where
          rounds :
              (out : Result Error (Unit {0}) × EptPageTable A)
              → Kept dst start out.1
              → (out.0 ≡ ok tt → Before (suc i) out.1)
              → ((w' : EptPageTable A)
                  → Before (suc i) w'
                  → Looped (i + suc count) (for_each A count (suc i) body w'))
              → Looped (i + suc count) (elim out.0 [
                | ok u ↦ for_each A count (suc i) body out.1
                | err e ↦ (err e, out.1)
              ])
          rounds (ok tt, w') k b' go = go w' (b' refl)
          rounds (err e, w') k b' go = record { kept = k; after = λ h. cc }
