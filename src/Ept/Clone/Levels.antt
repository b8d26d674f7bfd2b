-- ===== src/Ept/Clone/Levels.antt =====
-- The loop over the entries of an upper table, by the loop over the tables below.
use bedrock.Base.{
  ℕ, zero, suc, ◌≡◌, ◌≢◌, refl, sym, ap, ◌∙◌, inl, inr, true, false, none, List, [], ◌∷◌, ◌++◌,
  length, Bool-cases, if-cases, arith, dec_lt,
}
use mathlib.Core.Path.{subst}
use bedrock.Base.Result.{Result, ok, err}
use bedrock.Ept.Entry.{
  is_present, addr, permissions, table_entry, table_entry_fields, permissions-eq, is_present-pos,
  is_present-zero,
}
use bedrock.Ept.Frames.{FrameAllocator, TableMemory, write, zero_table}
use bedrock.Ept.Table.{EptPageTable, M, add_table}
use bedrock.Ept.Clone.{clone_entry, clone_table, for_each}
use bedrock.Ept.Clone.View.{view, read_only, AllTables, AllTables-map, AllTables-agree, view-agree}
use bedrock.Ept.Clone.Loop.{Kept, Kept-refl, Before, Round, for_each-Looped}
use bedrock.Ept.Clone.Leaves.{
  InRange, Clonable, Cloned, Made, write_self, write_table, write_index, leaves-Cloned,
}

view_absent :
    (m : TableMemory) (t i : ℕ) (q : List ℕ) (k : ℕ)
    → is_present (m t i) ≡ false
    → view m t (i ∷ q) k ≡ none
view_absent m t i q k n = rw n refl

view_present :
    (m : TableMemory) (t i : ℕ) (q : List ℕ) (k : ℕ)
    → is_present (m t i) ≡ true
    → view m t (i ∷ q) k ≡ view m (addr (m t i)) q k
view_present m t i q k y = rw y refl

pub zero_table_off : (m : TableMemory) (t a j : ℕ) → a ≢ t → zero_table m t a j ≡ m a j
zero_table_off m t a j n = ground (arith, n)

pub zero_table_self : (m : TableMemory) (t j : ℕ) → zero_table m t t j ≡ 0
zero_table_self m t j = ground arith

absent : (e : ℕ) → e ≡ 0 → is_present e ≡ false
absent e h = rw h is_present-zero

module _ (A : FrameAllocator) (level : ℕ) (next : ℕ → ℕ → M A (Unit {0}))
    (ih : (src dst : ℕ) (w : EptPageTable A)
      → Clonable A level src dst w
      → Cloned A level src dst w (next src dst w))
    (src dst : ℕ) (start : EptPageTable A) (c : Clonable A (suc level) src dst start) where
  open A use {Error, Frame, frame_phys_addr, allocate_frame, Live}

  -- A table that is owned and was not at the start.
  abbrev Fresh : EptPageTable A → ℕ → Type 0
  Fresh w a = Live w.alloc a × (¬ Live start.alloc a)

  abbrev UpperCell : ℕ → EptPageTable A → Type 0
  UpperCell j w =
      ((q : List ℕ) (k : ℕ)
        → length q ≡ level
        → InRange q k
        → view w.memory dst (j ∷ q) k ≡ read_only (view start.memory src (j ∷ q) k))
      × (is_present (w.memory dst j) ≡ true
          → AllTables level w.memory (Fresh w) (addr (w.memory dst j)))

  Fresh-off : (w : EptPageTable A) (a : ℕ) → Fresh w a → a ≢ dst
  Fresh-off w a f e = f.1 (subst (Live start.alloc) (sym e) c.owned)

  upper_lasts :
      (j : ℕ) (w w' : EptPageTable A)
      → Kept A dst start w
      → Kept A dst w w'
      → w'.memory dst j ≡ w.memory dst j
      → UpperCell j w
      → UpperCell j w'
  upper_lasts j w w' k k' e (views, fresh) =
      let agree : (a : ℕ) → Fresh w a → (i : ℕ) → w'.memory a i ≡ w.memory a i =
        λ a f i. k'.same a f.0 (Fresh-off w a f) i in
      let views' : (q : List ℕ) (x : ℕ)
          → length q ≡ level
          → view w'.memory dst (j ∷ q) x ≡ view w.memory dst (j ∷ q) x =
        λ q x n. elim (Bool-cases (is_present (w.memory dst j))) [
          | inl y ↦
              rw (e, y)
                (view-agree q w.memory w'.memory (Fresh w) (addr (w.memory dst j)) x agree
                  (rw n (fresh y)))
          | inr n ↦ rw (e, n) refl
        ] in
      (
        λ q x n r. views' q x n ∙ views q x n r,
        λ y. rw e (
            AllTables-map level w'.memory (Fresh w) (Fresh w') (addr (w.memory dst j))
              (λ a f. (k'.live a f.0, f.1))
              (AllTables-agree level w.memory w'.memory (Fresh w) (addr (w.memory dst j)) agree
                (fresh (rw e at y)))),
      )

  module _ (i : ℕ) (w : EptPageTable A) (b : Before A dst start UpperCell i w) where
    unchanged : w.memory src i ≡ start.memory src i
    unchanged = b.kept.same src c.source.0.0 c.source.0.1 i

    absent-Round : is_present (w.memory src i) ≡ false → Round A dst start UpperCell i w (ok tt, w)
    absent-Round n =
        let gone : is_present (w.memory dst i) ≡ false =
          absent (w.memory dst i) (b.rest i (omega arith)) in
        record {
          kept = Kept-refl A dst w;
          others = λ j h. refl;
          cell = λ h. (
            λ q k l r.
                view_absent w.memory dst i q k gone
                ∙ sym (ap read_only (view_absent start.memory src i q k (rw (sym unchanged) n))),
            λ y. absurd (ground (arith, gone, y)),
          );
        }

    failed-Round :
        (x : Error)
        → Round A dst start UpperCell i w (err x, record w { alloc = (allocate_frame w.alloc).1 })
    failed-Round x = record {
      kept = record { live = λ a h. A.kept w.alloc a h; same = λ a h n j. refl; root = refl };
      others = λ j h. refl;
      cell = λ h. cc;
    }

    module _ (f : Frame) (h : (allocate_frame w.alloc).0 ≡ ok f)
        (here : is_present (w.memory src i) ≡ true) where
      abbrev new : ℕ
      new = frame_phys_addr f

      abbrev e : ℕ
      e = w.memory src i

      -- The state in which the next loop begins.
      abbrev w1 : EptPageTable A
      w1 = record w {
        frames = w.frames ++ (f ∷ []);
        memory = write (zero_table w.memory new) dst i (table_entry new (permissions e));
        alloc = (allocate_frame w.alloc).1;
      }

      new_off : (a : ℕ) → Live w.alloc a → a ≢ new
      new_off a l p = A.fresh w.alloc f h (subst (Live w.alloc) p l)

      dst_live : Live w.alloc dst
      dst_live = b.kept.live dst c.owned

      w1_same : (a : ℕ) → Live w.alloc a → a ≢ dst → (j : ℕ) → w1.memory a j ≡ w.memory a j
      w1_same a l n j =
          write_table (zero_table w.memory new) dst i (table_entry new (permissions e)) a j n
          ∙ zero_table_off w.memory new a j (new_off a l)

      w1_blank : (j : ℕ) → w1.memory new j ≡ 0
      w1_blank j =
          write_table (zero_table w.memory new) dst i (table_entry new (permissions e)) new j
            (λ p. new_off dst dst_live (sym p))
          ∙ zero_table_self w.memory new j

      w1_source :
          (a : ℕ) → Live start.alloc a × (a ≢ dst) → (j : ℕ) → w1.memory a j ≡ start.memory a j
      w1_source a (l, n) j = w1_same a (b.kept.live a l) n j ∙ b.kept.same a l n j

      below : AllTables level start.memory (λ a. Live start.alloc a × (a ≢ dst)) (addr e)
      below = rw unchanged (c.source.1 i (rw unchanged at here))

      child : Clonable A level (addr e) new w1
      child = record {
        source =
            AllTables-map level w1.memory (λ a. Live start.alloc a × (a ≢ dst))
              (λ a. Live w1.alloc a × (a ≢ new)) (addr e)
              (λ a p. (A.kept w.alloc a (b.kept.live a p.0), new_off a (b.kept.live a p.0)))
              (AllTables-agree level start.memory w1.memory (λ a. Live start.alloc a × (a ≢ dst))
                (addr e) w1_source below);
        owned = A.owned w.alloc f h;
        blank = w1_blank;
      }

      abbrev out : Result Error (Unit {0}) × EptPageTable A
      out = next (addr e) new w1

      r : Cloned A level (addr e) new w1 out
      r = ih (addr e) new w1 child

      fields :
          (is_present (table_entry new (permissions e)) ≡ true)
          × (addr (table_entry new (permissions e)) ≡ new)
          × (permissions (table_entry new (permissions e)) ≡ permissions e)
      fields =
          table_entry_fields new (permissions e) (A.aligned w.alloc f h)
            (omega (arith, permissions-eq e, is_present-pos e here))
            (omega (arith, permissions-eq e))

      out_entry : out.1.memory dst i ≡ table_entry new (permissions e)
      out_entry =
          r.kept.same dst (A.kept w.alloc dst dst_live) (new_off dst dst_live) i
          ∙ write_self (zero_table w.memory new) dst i (table_entry new (permissions e))

      out_present : is_present (out.1.memory dst i) ≡ true
      out_present = ap is_present out_entry ∙ fields.0

      out_addr : addr (out.1.memory dst i) ≡ new
      out_addr = ap addr out_entry ∙ fields.1

      out_views :
          out.0 ≡ ok tt
          → (q : List ℕ) (k : ℕ) → length q ≡ level
          → InRange q k
          → view out.1.memory dst (i ∷ q) k ≡ read_only (view start.memory src (i ∷ q) k)
      out_views g q k n range =
          view_present out.1.memory dst i q k out_present
          ∙ ap (λ t. view out.1.memory t q k) out_addr
          ∙ r.views g q k n range
          ∙ ap read_only (
              view-agree q start.memory w1.memory (λ a. Live start.alloc a × (a ≢ dst)) (addr e) k
                w1_source (rw n below)
              ∙ ap (λ t. view start.memory (addr t) q k) unchanged
              ∙ sym (view_present start.memory src i q k (ap is_present (sym unchanged) ∙ here)))

      Made-Fresh : (a : ℕ) → Made A new w1 out.1 a → Fresh out.1 a
      Made-Fresh a (l, inl n) = (l, λ s. n (A.kept w.alloc a (b.kept.live a s)))
      Made-Fresh a (l, inr p) = (l, λ s. new_off a (b.kept.live a s) p)

      child-Round : Round A dst start UpperCell i w out
      child-Round = record {
        kept = record {
          live = λ a l. r.kept.live a (A.kept w.alloc a l);
          same = λ a l n j. r.kept.same a (A.kept w.alloc a l) (new_off a l) j ∙ w1_same a l n j;
          root = r.kept.root;
        };
        others = λ j n.
            r.kept.same dst (A.kept w.alloc dst dst_live) (new_off dst dst_live) j
            ∙ write_index (zero_table w.memory new) dst i (table_entry new (permissions e)) dst j n
            ∙ zero_table_off w.memory new dst j (new_off dst dst_live);
        cell = λ g. (
          out_views g,
          λ y. subst (AllTables level out.1.memory (Fresh out.1)) (sym out_addr) (
              AllTables-map level out.1.memory (Made A new w1 out.1) (Fresh out.1) new Made-Fresh
                (r.made g)),
        );
      }

    -- By the allocator's answer.
    answered-Round :
        (answer : Result Error Frame)
        → (allocate_frame w.alloc).0 ≡ answer
        → is_present (w.memory src i) ≡ true
        → let (x, w') =
            add_table A dst i (permissions (w.memory src i)) w answer (allocate_frame w.alloc).1 in
          Round A dst start UpperCell i w (elim x [
            | ok new_phys ↦ next (addr (w.memory src i)) new_phys w'
            | err y ↦ (err y, w')
          ])
    unfolding add_table
    answered-Round (ok f) h here = child-Round f h here
    answered-Round (err x) h here = failed-Round x

    clone_entry-Round : Round A dst start UpperCell i w (clone_entry A next src dst i w)
    unfolding clone_entry
    clone_entry-Round =
        if-cases (Round A dst start UpperCell i w) (is_present (w.memory src i))
          (λ y. answered-Round (allocate_frame w.alloc).0 refl y) (λ n. absent-Round n)

  upper-Cloned :
      Cloned A (suc level) src dst start (for_each A 512 0 (clone_entry A next src dst) start)
  upper-Cloned =
      let first : Before A dst start UpperCell 0 start = record {
        kept = Kept-refl A dst start;
        done = λ j h. absurd (omega arith);
        rest = λ j h. c.blank j;
      } in
      let l =
        for_each-Looped A dst start UpperCell (clone_entry A next src dst) upper_lasts
          clone_entry-Round 512 0 start first in
      let w' = (for_each A 512 0 (clone_entry A next src dst) start).1 in
      record {
        kept = l.kept;
        views = λ h q k n range. by_path q k n range (l.after h);
        made = λ h. (
          (l.kept.live dst c.owned, inr refl),
          λ i y. elim (dec_lt i 512) [
            | yes s ↦
                AllTables-map level w'.memory (Fresh w') (Made A dst start w')
                  (addr (w'.memory dst i)) (λ a f. (f.0, inl f.1)) (((l.after h).done i s).1 y)
            | no s ↦
                absurd
                  (ground (arith, y, absent (w'.memory dst i) ((l.after h).rest i (omega arith))))
          ],
        );
      }
    where
      by_path :
          (q : List ℕ) (k : ℕ)
          → length q ≡ suc level
          → InRange q k
          → Before A dst start UpperCell 512 (for_each A 512 0 (clone_entry A next src dst) start).1
          → view (for_each A 512 0 (clone_entry A next src dst) start).1.memory dst q k
            ≡ read_only (view start.memory src q k)
      by_path [] k n range b = absurd (omega (arith, n))
      by_path (i ∷ q) k n range b = (b.done i range.0).0 q k (omega (arith, n)) range.1

-- At every level.
pub clone_table-Cloned :
    (A : FrameAllocator) (level src dst : ℕ) (w : EptPageTable A)
    → Clonable A level src dst w
    → Cloned A level src dst w (clone_table A level src dst w)
unfolding clone_table
clone_table-Cloned A zero src dst w c = leaves-Cloned A src dst w c
clone_table-Cloned A (suc level) src dst w c =
    upper-Cloned A level (clone_table A level) (λ s d v p. clone_table-Cloned A level s d v p) src
      dst w c
