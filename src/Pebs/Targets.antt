-- ===== src/Pebs/Targets.antt =====
-- The earliest of the targets, and the steps of one instruction before each.
use bedrock.Base.{
  ℕ, dec_lt, zero, suc, ◌+◌, ◌-◌, ◌^◌, ◌<◌, ◌≤◌, ◌≡◌, ◌≢◌, ◌⊎◌, ◌==◌, inl, inr, refl, sym, ap, ◌∙◌,
  Bool, true, false, ◌||◌, Option, none, some, List, [], ◌∷◌, bit_and, ==-false, arith,
}
use mathlib.Core.Option.{map, some-injective}
use bedrock.Apic.{ApicState}
use bedrock.Idle.{nearer, next_io_channel_target_tsc}
use bedrock.Pebs.{
  RunState, current, earliest, nonzero, targets, next_timer_exit_count, next_io_channel_exit_count,
  stop_at_count, next_single_step_start_tsc, next_single_step_start_count,
}
use bedrock.Pebs.Entry.{in_margin, near_target}

-- A target of a list.
pub data Among (t : ℕ) : List (Option ℕ) → Type 0 where
  here : (ts : List (Option ℕ)) → Among t (some t ∷ ts)
  later : (o : Option ℕ) (ts : List (Option ℕ)) → Among t ts → Among t (o ∷ ts)

Among-cons :
    (t : ℕ) (o : Option ℕ) (ts : List (Option ℕ)) → Among t (o ∷ ts) → (o ≡ some t) ⊎ Among t ts
Among-cons t _ _ (here ts) = inl refl
Among-cons t _ _ (later o ts h) = inr h

earliest-first :
    (t : ℕ) (o : Option ℕ)
    → (nearer t o ≤ t)
      × ((nearer t o ≡ t) ⊎ (o ≡ some (nearer t o)))
      × ((b : ℕ) → o ≡ some b → nearer t o ≤ b)
unfolding nearer
earliest-first t none = (omega arith, inl refl, λ b e. absurd (cc))
earliest-first t (some u) = (
  omega arith,
  elim (dec_lt t u) [ yes l ↦ inl (omega arith) | no l ↦ inr (ap some (omega arith)) ],
  λ b e. let same : u ≡ b = some-injective u b e in omega (arith, same),
)

pub earliest-least :
    (t : ℕ) (ts : List (Option ℕ)) → Among t ts → (c : ℕ) × (earliest ts ≡ some c) × (c ≤ t)
unfolding earliest
earliest-least t _ (here ts) = (_, refl, (earliest-first t (earliest ts)).0)
earliest-least t _ (later none ts h) = earliest-least t ts h
earliest-least t _ (later (some u) ts h) =
    let (b, e, l) = earliest-least t ts h in
    let le : nearer u (earliest ts) ≤ b = (earliest-first u (earliest ts)).2 b e in
    (_, refl, omega (arith, l, le))

pub earliest-Among : (ts : List (Option ℕ)) (c : ℕ) → earliest ts ≡ some c → Among c ts
unfolding earliest
earliest-Among [] c e = absurd (cc)
earliest-Among (none ∷ ts) c e = later none ts (earliest-Among ts c e)
earliest-Among (some t ∷ ts) c e = elim ((earliest-first t (earliest ts)).1) [
  | inl first ↦
      let eq : t ≡ c = sym first ∙ some-injective (nearer t (earliest ts)) c e in rw eq (here ts)
  | inr rest ↦ later (some t) ts (earliest-Among ts c (rest ∙ e))
]

no_target : (t : ℕ) → ¬ Among t []
unfolding earliest
no_target t h = let (c, e, l) = earliest-least t [] h in absurd (cc)

-- The timer is off, or its interrupt is let through.
unfoldable pub IsAudible : ApicState → Type 0
IsAudible apic =
    (apic.timer_deadline ≡ 0)
    ⊎ (((bit_and apic.svr (2 ^ 8) == 0) ≡ false) × ((bit_and apic.lvt_timer (2 ^ 16) == 0) ≡ true))

in_margin-near :
    (m : ℕ) (s : RunState) (o : Option ℕ) (c : ℕ)
    → s.last_instruction_count + s.tsc_offset < 2 ^ 64
    → current s < c
    → c - current s < 257 + m
    → o ≡ some c
    → in_margin m s (map (λ t. t - s.tsc_offset) o) ≡ true
unfolding in_margin current
in_margin-near m s o c small ahead near e = rw e (ground arith)

nonzero-some : (d c : ℕ) → nonzero d ≡ some c → (d ≡ c) × (d ≢ 0)
unfolding nonzero
nonzero-some zero c e = absurd (cc)
nonzero-some (suc d) c e = (some-injective (suc d) c e, omega arith)

pub timer-counted :
    (s : RunState) (c : ℕ)
    → IsAudible s.machine.vm.apic
    → nonzero s.machine.vm.apic.timer_deadline ≡ some c
    → next_timer_exit_count s ≡ map (λ t. t - s.tsc_offset) (some c)
unfolding next_timer_exit_count IsAudible
timer-counted s c audible e =
    let (eq, nz) = nonzero-some _ c e in
    elim audible [
      | inl off ↦ absurd (nz off)
      | inr (enabled, unmasked) ↦ rw (==-false _ 0 nz, enabled, unmasked, eq) refl
    ]

pub any_of_four :
    (a b c d : Bool)
    → (a ≡ true) ⊎ ((b ≡ true) ⊎ ((c ≡ true) ⊎ (d ≡ true)))
    → (a || (b || (c || d))) ≡ true
any_of_four true b c d h = refl
any_of_four false true c d h = refl
any_of_four false false true d h = refl
any_of_four false false false true h = refl
any_of_four false false false false h = elim h [
  | inl e ↦ e
  | inr k ↦ elim k [ inl e ↦ e | inr l ↦ elim l [ inl e ↦ e | inr e ↦ e ] ]
]

-- Which of the four a target is.
pub targets-cases :
    (s : RunState) (c : ℕ)
    → Among c (targets s)
    → (nonzero s.machine.vm.apic.timer_deadline ≡ some c)
      ⊎ ((next_io_channel_target_tsc s.machine.vm ≡ some c)
          ⊎ ((s.stop_at_tsc ≡ some c) ⊎ (next_single_step_start_tsc s ≡ some c)))
unfolding targets
targets-cases s c h = elim (Among-cons c _ _ h) [
  | inl e ↦ inl e
  | inr h ↦ inr (elim (Among-cons c _ _ h) [
    | inl e ↦ inl e
    | inr h ↦ inr (elim (Among-cons c _ _ h) [
      | inl e ↦ inl e
      | inr h ↦ inr (elim (Among-cons c _ _ h) [ inl e ↦ e | inr h ↦ absurd (no_target c h) ])
    ])
  ])
]

-- Where a target is nearer than the counter can be set up for, a step of one instruction is due.
pub near_target-Among :
    (m : ℕ) (s : RunState) (c : ℕ)
    → s.last_instruction_count + s.tsc_offset < 2 ^ 64
    → IsAudible s.machine.vm.apic
    → Among c (targets s)
    → current s < c
    → c - current s < 257 + m
    → near_target m s ≡ true
unfolding near_target next_io_channel_exit_count stop_at_count next_single_step_start_count
near_target-Among m s c small audible h ahead near =
    let margin : (o : Option ℕ)
        → o ≡ some c
        → in_margin m s (map (λ t. t - s.tsc_offset) o) ≡ true =
      λ o. in_margin-near m s o c small ahead near in
    any_of_four (in_margin m s (next_timer_exit_count s))
      (in_margin m s (next_io_channel_exit_count s)) (in_margin m s (stop_at_count s))
      (in_margin m s (next_single_step_start_count s))
      (elim (targets-cases s c h) [
        | inl e ↦ inl (rw (timer-counted s c audible e) (margin (some c) refl))
        | inr h ↦ inr (elim h [
          | inl e ↦ inl (margin _ e)
          | inr h ↦ inr (elim h [ inl e ↦ inl (margin _ e) | inr e ↦ inr (margin _ e) ])
        ])
      ])
