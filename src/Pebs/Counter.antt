-- ===== src/Pebs/Counter.antt =====
-- What `arm_for_next_iteration` sets the counter up for.
use bedrock.Base.{
  ℕ, ◌+◌, ◌-◌, ◌^◌, ◌%◌, ◌<◌, ◌≤◌, ◌≡◌, ◌==◌, refl, Option, none, some, ltb, if-cases, arith,
}
use bedrock.Base.Bits.Field.{bit_and_low}
use bedrock.Pebs.{
  PebsAction, PebsState, ArmResult, armed, already_past, below_min_delta, not_registered, arm,
  arm_precise_exit, disarm_precise_exit, RunState, current, earliest, targets,
}
use bedrock.Pebs.Entry.{
  next_iteration, unless_armed, arm_or_disarm, count_result, arm_registered, arm_for_next_iteration,
}

count_result-kept :
    (r : Option ArmResult) (s : RunState)
    → ((count_result r s).mtf_enabled ≡ s.mtf_enabled)
      × ((count_result r s).pebs_state ≡ s.pebs_state)
unfolding count_result
count_result-kept none s = (refl, refl)
count_result-kept (some armed) s = (refl, refl)
count_result-kept (some already_past) s = (refl, refl)
count_result-kept (some below_min_delta) s = (refl, refl)
count_result-kept (some not_registered) s = (refl, refl)

-- A registered VM keeps its flag, and the counter is set up as `arm_or_disarm` has it.
pub arm_for_next_iteration-kept :
    (m : ℕ) (s : RunState) (pebs : PebsState)
    → s.pebs_state ≡ some pebs
    → ((arm_for_next_iteration m s).mtf_enabled ≡ s.mtf_enabled)
      × ((arm_for_next_iteration m s).pebs_state ≡ some (arm_or_disarm m s (next_iteration pebs)).1)
unfolding arm_for_next_iteration arm_registered
arm_for_next_iteration-kept m s pebs e = rw e (count_result-kept _ _)

-- What the counter is set up for: nothing, or the earliest target, if that is far enough.
pub data Setup (m now c : ℕ) (pebs : PebsState) : Type 0 where
  off : pebs.armed_action ≡ none → c < now + (257 + m) → Setup m now c pebs
  on :
      now + (257 + m) ≤ c
      → (action : PebsAction) → pebs.armed_action ≡ some action
      → pebs.counter_reload ≡ (2 ^ 64 - (c - now - m)) % 2 ^ 64 % 2 ^ 48
      → Setup m now c pebs

pub arm_or_disarm-Setup :
    (m : ℕ) (s : RunState) (pebs : PebsState) (c : ℕ)
    → earliest (targets s) ≡ some c
    → Setup m (current s) c (arm_or_disarm m s pebs).1
unfolding arm_or_disarm arm_precise_exit arm unless_armed disarm_precise_exit
arm_or_disarm-Setup m s pebs c e = rw e (
    if-cases (λ (r : Option ArmResult × PebsState). Setup m (current s) c r.1) (c == 0)
      (λ z. off refl (ground arith))
      (λ nz.
        if-cases (λ (r : ArmResult × PebsState). Setup m (current s) c (unless_armed r).1)
          (ltb c (current s)) {x = (already_past, pebs)} (λ past. off refl (ground arith))
          (λ ahead.
            if-cases (λ (r : ArmResult × PebsState). Setup m (current s) c (unless_armed r).1)
              (ltb (c - current s) (257 + m)) {x = (below_min_delta, pebs)}
              (λ near. off refl (ground arith))
              (λ far. on (ground arith) _ refl (bit_and_low 48 _)))))
