-- ===== src/Idle/Laws.antt =====
-- Idling moves the emulated time forward to a wake-up, and no further.
use bedrock.Base.{
  ℕ, ◌+◌, ◌^◌, ◌≤◌, ◌<◌, ◌≡◌, Option, none, some, max, ltb, Bool-cases, ltb→lt, inl, inr, arith,
}
use bedrock.Idle.{IdleState, next_io_channel_target_tsc, nearer, advance_to, idle}

nearer_le : (t : ℕ) (b : Option ℕ) → nearer t b ≤ t
unfolding nearer
nearer_le t none = omega arith
nearer_le t (some b) = omega arith

-- The time reached, and the offset between it and the count of instructions.
record Advanced (target : ℕ) (s t : IdleState) : Type 0 where
  forward : s.vm.emulated_tsc ≤ t.vm.emulated_tsc
  within : t.vm.emulated_tsc ≤ max s.vm.emulated_tsc target
  offset : t.tsc_offset + s.vm.emulated_tsc ≡ s.tsc_offset + t.vm.emulated_tsc

advance_to-Advanced :
    (target : ℕ) (s : IdleState)
    → s.tsc_offset + target < 2 ^ 64
    → Advanced target s (advance_to target s)
unfolding advance_to
advance_to-Advanced target s h = elim (Bool-cases (ltb s.vm.emulated_tsc target)) [
  | inl t ↦
      let l = ltb→lt _ _ t in
      rw t
        (record { forward = omega (arith, l); within = omega arith; offset = omega (arith, l, h) })
  | inr t ↦ rw t (record { forward = omega arith; within = omega arith; offset = omega arith })
]

-- Idling never moves the time back, nor past the timer's deadline, and keeps the count of instructions
-- retired, which is the time less the offset. The offset and the deadline fit into 64 bits together.
pub idle_bounds :
    (s : IdleState)
    → s.tsc_offset + s.vm.apic.timer_deadline < 2 ^ 64
    → (s.vm.emulated_tsc ≤ (idle s).vm.emulated_tsc)
      × ((idle s).vm.emulated_tsc ≤ max s.vm.emulated_tsc s.vm.apic.timer_deadline)
      × ((idle s).tsc_offset + s.vm.emulated_tsc ≡ s.tsc_offset + (idle s).vm.emulated_tsc)
unfolding idle
idle_bounds s h =
    let wake = nearer s.vm.apic.timer_deadline (next_io_channel_target_tsc s.vm) in
    let target = nearer wake s.stop_at_tsc in
    let low : target ≤ s.vm.apic.timer_deadline = omega (
      arith,
      nearer_le wake s.stop_at_tsc,
      nearer_le s.vm.apic.timer_deadline (next_io_channel_target_tsc s.vm),
    ) in
    elim (Bool-cases (ltb 0 s.vm.apic.timer_deadline)) [
      | inl t ↦
          let a = advance_to-Advanced target s (omega (arith, low, h)) in
          rw t (a.forward, omega (arith, a.within, low), a.offset)
      | inr t ↦ rw t (omega arith, omega arith, omega arith)
    ]
