-- ===== src/Interrupts/Delivery.antt =====
-- From an interrupt's source to the local APIC, and from there to the guest.
use native.Mathlib.Decide.{ℕ_discrete}
use bedrock.Base.{
  ℕ, zero, suc, ◌+◌, ◌*◌, ◌/◌, ◌%◌, ◌^◌, ◌≤◌, ◌<◌, ◌≡◌, ◌≢◌, ◌⊎◌, refl, sym, ap, ◌∙◌, ◌==◌, Bool,
  true, false, not, ◌&&◌, some, bit_and, Words, u8, shr, ltb, if◌then◌else◌, eq→==, ==-false,
  lt→ltb, Bool-cases, arith, inl, inr,
}
use bedrock.Base.Bits.Digit.{bit_or-lt, pow_lt}
use bedrock.Base.Bits.Field.{bit_and_low}
use bedrock.Apic.{ApicState, apic_timer_divisor, write_apic_register}
use bedrock.Apic.Scan.{member, IsVectors, member-set, member-clear}
use bedrock.Apic.Laws.{IsHighest, IsHighest-suc, write_apic_register_eoi}
use bedrock.Interrupts.{
  VmState, set_vector, clear_vector, fire_timer, check_apic_timer, blocked, ioapic_deliver_irq,
  check_io_channel, signal_request, highest, apic_pending_vector, acknowledge, io_channel_irq,
}

highest_lem :
    (n : ℕ) (words : Words) (v : ℕ)
    → n ≤ 8
    → IsVectors words
    → IsHighest n words v
    → highest n words ≡ some v
unfolding highest
highest_lem zero words v l w h = absurd (omega (arith, h.below))
highest_lem (suc i) words v l w h = elim (IsHighest-suc i words v w h) [
  | inl (e, g) ↦ let z = eq→== (words i) 0 e in rw z (highest_lem i words v (omega arith) w g)
  | inr (ne, e) ↦
      let z : (words i == 0) ≡ false = ==-false _ _ ne in rw z (ap some (omega (arith, h.below, e)))
]

-- With the APIC enabled, the vector that is selected is the highest one requested; the words of the
-- IRR have 32 bits.
pub apic_pending_vector_highest :
    (apic : ApicState) (v : ℕ)
    → bit_and apic.svr (2 ^ 8) ≢ 0
    → IsVectors apic.irr
    → IsHighest 8 apic.irr v
    → apic_pending_vector apic ≡ some v
unfolding apic_pending_vector
apic_pending_vector_highest apic v on w h =
    let z : (bit_and apic.svr (2 ^ 8) == 0) ≡ false = ==-false _ _ on in
    rw z (highest_lem 8 apic.irr v (omega arith) w h)

set_vector-IsVectors : (words : Words) (v : ℕ) → IsVectors words → IsVectors (set_vector words v)
unfolding set_vector
set_vector-IsVectors words v w i = ground (
  arith,
  w i,
  bit_or-lt 32 (words (v / 32)) (2 ^ (v % 32)) (w (v / 32)) (pow_lt (v % 32) 32 (omega arith)),
)

-- An interrupt is served and ended: after the vector was moved from the IRR to the ISR, and the guest
-- wrote to the EOI register, the same vectors are in service as before and the vector is requested no
-- more. Only lower vectors were in service, in words of 32 bits, and the vector is below 256.
pub eoi-acknowledge :
    (apic : ApicState) (value tsc v : ℕ)
    → IsVectors apic.isr
    → v < 256
    → ((x : ℕ) → v ≤ x → x < 256 → member apic.isr x ≡ 0)
    → (u : ℕ)
    → (member (write_apic_register (acknowledge apic v) 176 value tsc).isr u ≡ member apic.isr u)
      × (member (acknowledge apic v).irr u ≡ (if u == v then 0 else member apic.irr u))
unfolding acknowledge set_vector clear_vector
eoi-acknowledge apic value tsc v w lt lower u =
    let served = acknowledge apic v in
    let restored : (if u == v then 0 else member served.isr u) ≡ member apic.isr u =
      elim (ℕ_discrete u v) [
        | yes e ↦ ground (arith, lower v (omega arith) lt, ap (member apic.isr) e)
        | no ne ↦ ground (arith, member-set apic.isr v u)
      ] in
    let top : IsHighest 8 served.isr v = record {
      below = omega arith;
      present = member-set apic.isr v v ∙ ground arith;
      above =
          λ x k l. member-set apic.isr v x ∙ ground (arith, lower x (omega arith) (omega arith));
    } in
    (
      write_apic_register_eoi served value tsc v u (set_vector-IsVectors apic.isr v w) top
          ∙ restored,
      member-clear apic.irr v u,
    )

-- The early returns of the two checks.
returns :
    {A : Type 0} (a b c d : Bool) (x y : A)
    → let r = if a then x else (if b then x else (if c then x else (if d then x else y))) in
      (r ≡ x) ⊎ ((a ≡ false) × (b ≡ false) × (c ≡ false) × (d ≡ false) × (r ≡ y))
returns true b c d x y = inl refl
returns false true c d x y = inl refl
returns false false true d x y = inl refl
returns false false false true x y = inl refl
returns false false false false x y = inr (refl, refl, refl, refl, refl)

timer_cases :
    (s : VmState)
    → (check_apic_timer s ≡ s)
      ⊎ ((check_apic_timer s ≡ fire_timer s) × (s.apic.timer_deadline ≤ s.emulated_tsc))
unfolding check_apic_timer
timer_cases s =
    elim (returns (s.apic.timer_deadline == 0) (ltb s.emulated_tsc s.apic.timer_deadline)
      (bit_and s.apic.svr (2 ^ 8) == 0) (not (bit_and s.apic.lvt_timer (2 ^ 16) == 0)) s
      (fire_timer s)) [ inl e ↦ inl e | inr (a, b, c, d, e) ↦ inr (e, ground arith) ]

-- Without an expired timer nothing happens; a timer that fires makes the vector of its LVT entry
-- pending, and no other.
pub check_apic_timer_cases :
    (s : VmState) (u : ℕ)
    → (check_apic_timer s ≡ s)
      ⊎ ((s.apic.timer_deadline ≤ s.emulated_tsc)
          × (member (check_apic_timer s).apic.irr u
              ≡ (if u == s.apic.lvt_timer % 256 then 1 else member s.apic.irr u)))
unfolding fire_timer set_vector
check_apic_timer_cases s u = elim (timer_cases s) [
  | inl e ↦ inl e
  | inr (e, late) ↦
      let vector = u8 (bit_and s.apic.lvt_timer 255) in
      let low : vector ≡ s.apic.lvt_timer % 256 = omega (arith, bit_and_low 8 s.apic.lvt_timer) in
      inr (
        late,
        ap (λ (t : VmState). member t.apic.irr u) e
            ∙ member-set s.apic.irr vector u
            ∙ ap (λ (t : ℕ). if u == t then 1 else member s.apic.irr u) low,
      )
]

timer_quiet :
    (s : VmState)
    → (s.apic.timer_deadline ≡ 0) ⊎ (s.emulated_tsc < s.apic.timer_deadline)
    → check_apic_timer s ≡ s
unfolding check_apic_timer
timer_quiet s (inl e) = let z = eq→== _ _ e in rw z refl
timer_quiet s (inr l) =
    let z : (s.apic.timer_deadline == 0) ≡ false = ==-false _ _ (omega arith) in
    let y = lt→ltb _ _ l in rw (z, y) refl

-- A timer fires at most once at an instant: a second check does nothing, when the timer is one-shot, or
-- when its period is positive and its next deadline fits into 64 bits.
pub check_apic_timer_once :
    (s : VmState)
    → (bit_and s.apic.lvt_timer (2 ^ 17) ≡ 0)
      ⊎ ((0 < s.apic.timer_initial * apic_timer_divisor s.apic.timer_divide)
          × (s.emulated_tsc + s.apic.timer_initial * apic_timer_divisor s.apic.timer_divide
              < 2 ^ 64))
    → check_apic_timer (check_apic_timer s) ≡ check_apic_timer s
unfolding fire_timer
check_apic_timer_once s h = elim (timer_cases s) [
  | inl e ↦ ap check_apic_timer e
  | inr (e, late) ↦
      let quiet : check_apic_timer (fire_timer s) ≡ fire_timer s =
        timer_quiet (fire_timer s) (elim h [
          | inl one_shot ↦ let z = eq→== _ _ one_shot in inl (rw z refl)
          | inr (pos, fits) ↦ elim (Bool-cases (bit_and s.apic.lvt_timer (2 ^ 17) == 0)) [
            | inl t ↦ inl (rw t refl)
            | inr t ↦ inr (rw t (omega (arith, pos, fits)))
          ]
        ]) in
      ap check_apic_timer e ∙ quiet ∙ sym e
]

deliver_lem :
    (s : VmState)
    → blocked (s.ioapic.redtbl io_channel_irq) ≡ false
    → (ioapic_deliver_irq s io_channel_irq).apic.irr
      ≡ set_vector s.apic.irr (s.ioapic.redtbl io_channel_irq % 256)
unfolding ioapic_deliver_irq blocked
deliver_lem s h =
    let entry = s.ioapic.redtbl io_channel_irq in
    let low : u8 (bit_and entry 255) ≡ entry % 256 = omega (arith, bit_and_low 8 entry) in
    let a : not (bit_and (shr entry 16) 1 == 0) ≡ false = ground arith in
    let b : ltb (u8 (bit_and entry 255)) 16 ≡ false = ground (arith, bit_and_low 8 entry) in
    let c : ltb (u8 (bit_and entry 255) / 32) 8 ≡ true = ground arith in
    rw (a, b, c) (ap (set_vector s.apic.irr) low)

channel_cases :
    (s : VmState)
    → (check_io_channel s ≡ s)
      ⊎ ((check_io_channel s ≡ signal_request s)
          × (blocked (s.ioapic.redtbl io_channel_irq) ≡ false))
unfolding check_io_channel
channel_cases s =
    elim (returns (s.io_channel.page_gpa == 0) (s.io_channel.request_len == 0)
      s.io_channel.request_delivered
      (not (s.io_channel.request_target_tsc == 0)
        && ltb s.emulated_tsc s.io_channel.request_target_tsc)
      s (if blocked (s.ioapic.redtbl io_channel_irq) then s else signal_request s)) [
        | inl e ↦ inl e
        | inr (a, b, c, d, e) ↦ elim (Bool-cases (blocked (s.ioapic.redtbl io_channel_irq))) [
          | inl t ↦ inl (e ∙ (rw t refl))
          | inr t ↦ inr (e ∙ (rw t refl), t)
        ]
      ]

channel_quiet : (s : VmState) → s.io_channel.request_delivered ≡ true → check_io_channel s ≡ s
unfolding check_io_channel
channel_quiet s h = elim (Bool-cases (s.io_channel.page_gpa == 0)) [
  | inl a ↦ rw a refl
  | inr a ↦ elim (Bool-cases (s.io_channel.request_len == 0)) [
    | inl b ↦ rw (a, b) refl
    | inr b ↦ simp (a, b, h)
  ]
]

-- A second check of the I/O channel does nothing: a request is signalled at most once.
pub check_io_channel_once :
    (s : VmState) → check_io_channel (check_io_channel s) ≡ check_io_channel s
unfolding signal_request
check_io_channel_once s = elim (channel_cases s) [
  | inl e ↦ ap check_io_channel e
  | inr (e, free) ↦ ap check_io_channel e ∙ channel_quiet (signal_request s) refl ∙ sym e
]

-- The request is marked as delivered only if its interrupt is pending: either the check changes nothing,
-- or the vector of pin 9 is now in the IRR, with no other change there, and the mark is set.
pub check_io_channel_pending :
    (s : VmState) (u : ℕ)
    → (check_io_channel s ≡ s)
      ⊎ (((check_io_channel s).io_channel.request_delivered ≡ true)
          × (member (check_io_channel s).apic.irr u
              ≡ (if u == s.ioapic.redtbl io_channel_irq % 256 then 1 else member s.apic.irr u)))
unfolding signal_request set_vector
check_io_channel_pending s u = elim (channel_cases s) [
  | inl e ↦ inl e
  | inr (e, free) ↦ inr (
    ap (λ (t : VmState). t.io_channel.request_delivered) e,
    ap (λ (t : VmState). member t.apic.irr u) e
        ∙ ap (λ (t : Words). member t u) (deliver_lem s free)
        ∙ member-set s.apic.irr (s.ioapic.redtbl io_channel_irq % 256) u,
  )
]
