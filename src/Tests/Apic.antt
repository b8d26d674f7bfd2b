-- ===== src/Tests/Apic.antt =====
-- The interrupt path with vectors 33 and 40 requested, an expired timer and a request in the channel.
use bedrock.Base.{ℕ, ◌%◌, ◌<◌, ◌≡◌, ◌==◌, refl, ◌∙◌, [], if◌then◌else◌, arith, Words, store}
use bedrock.Base.Bits.Digit.{test_bit-zero}
use bedrock.Apic.{ApicState, default_apic, write_apic_register}
use bedrock.Apic.Scan.{member, member-set, IsVectors}
use bedrock.Apic.Laws.{IsHighest}
use bedrock.IoApic.{IoApicState, default_ioapic}
use bedrock.IoChannel.{new}
use bedrock.Interrupts.{VmState, acknowledge}
use bedrock.Interrupts.Delivery.{eoi-acknowledge}

-- Vector 32 only, in either register; the APIC and its one-shot timer are on.
abbrev one_vector : Words
one_vector = store (λ i. 0) 1 1

abbrev apic : ApicState
apic = record default_apic {
  svr = 511;
  isr = one_vector;
  irr = one_vector;
  lvt_timer = 48;
  timer_deadline = 100;
}

one_vector-IsVectors : IsVectors one_vector
one_vector-IsVectors i = ground arith

above_32 : (u : ℕ) → 32 < u → member one_vector u ≡ 0
above_32 u k =
    let e : member one_vector u ≡ (if u == 32 then 1 else member (λ i. 0) u) =
      member-set (λ i. 0) 32 u in
    e ∙ ground (arith, test_bit-zero (u % 32))

one_vector-IsHighest : IsHighest 8 one_vector 32
one_vector-IsHighest = record { below = omega arith; present = refl; above = λ u k l. above_32 u k }

eoi-acknowledge_example :
    (member (write_apic_register (acknowledge apic 40) 176 0 50).isr 32 ≡ member apic.isr 32)
    × (member (acknowledge apic 40).irr 32 ≡ (if 32 == 40 then 0 else member apic.irr 32))
eoi-acknowledge_example =
    eoi-acknowledge apic 0 50 40 one_vector-IsVectors (omega arith)
      (λ x k l. above_32 x (omega (arith, k))) 32

-- Pin 9 is routed to vector 48, unmasked.
abbrev ioapic : IoApicState
ioapic = record default_ioapic { redtbl = λ i. 48 }

abbrev vm : VmState
vm = record {
  emulated_tsc = 120;
  apic = apic;
  ioapic = ioapic;
  io_channel = record new { page_gpa = 4096; request_len = 3 };
  apic_timer_late_inject = 0;
  emitted = [];
}
