-- ===== src/Pebs/Approach.antt =====
-- Round after round of the guest, up to the earliest target.
use bedrock.Base.{ℕ, suc, ◌≤◌, ◌≡◌, ◌≢◌}
use bedrock.Base.Result.{ok}
use bedrock.Pebs.{RunState, current}
use bedrock.Pebs.Entry.{update_mtf_state, arm_for_next_iteration}
use bedrock.Pebs.Rounds.{Ran}
use bedrock.Pebs.Aim.{after_run}

-- `n` rounds from one VM to another, none of which begins at `c`, and in each of which the guest retires an
-- instruction at least; the VMCS is accessed without an error.
pub data Approach (m c : ℕ) : ℕ → RunState → RunState → Type 0 where
  arrived : (s : RunState) → Approach m c 0 s s
  round :
      (n k : ℕ) (s s' : RunState)
      → current s ≢ c
      → (update_mtf_state m s).0 ≡ ok tt
      → 1 ≤ k
      → Ran m (arm_for_next_iteration m (update_mtf_state m s).1) k
      → Approach m c n (after_run m k s) s'
      → Approach m c (suc n) s s'
