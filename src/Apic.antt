-- ===== src/Apic.antt =====
-- The local APIC's registers: crates/bedrock-vmx/src/devices/apic.rs and the register map of
-- crates/bedrock-vmx/src/exits/apic.rs.
pub mod Scan
pub mod Laws
use bedrock.Base.{
  ℕ, zero, suc, ◌+◌, ◌-◌, ◌*◌, ◌/◌, ◌%◌, ◌^◌, ◌==◌, Bool, true, false, ◌&&◌, not, Option, none,
  some, [], ◌∷◌, bit_and, bit_or, bit_not, Words, store, shl, shr, u64, leb, match_key,
  if◌then◌else◌,
}
use bedrock.Base.Bits.Scan.{leading_zeros}

pub record ApicState : Type 0 where
  pub base : ℕ
  pub id : ℕ
  pub version : ℕ
  pub tpr : ℕ
  pub ldr : ℕ
  pub dfr : ℕ
  pub svr : ℕ
  pub isr : Words
  pub tmr : Words
  pub irr : Words
  pub esr : ℕ
  pub icr_lo : ℕ
  pub icr_hi : ℕ
  pub lvt_timer : ℕ
  pub lvt_thermal : ℕ
  pub lvt_perf : ℕ
  pub lvt_lint0 : ℕ
  pub lvt_lint1 : ℕ
  pub lvt_error : ℕ
  pub timer_initial : ℕ
  pub timer_divide : ℕ
  pub timer_deadline : ℕ

unfoldable pub default_apic : ApicState
default_apic = record {
  base = 4276095232;
  id = 0;
  version = 327700;
  tpr = 0;
  ldr = 0;
  dfr = 4294967295;
  svr = 255;
  isr = λ i. 0;
  tmr = λ i. 0;
  irr = λ i. 0;
  esr = 0;
  icr_lo = 0;
  icr_hi = 0;
  lvt_timer = 65536;
  lvt_thermal = 65536;
  lvt_perf = 65536;
  lvt_lint0 = 65536;
  lvt_lint1 = 65536;
  lvt_error = 65536;
  timer_initial = 0;
  timer_divide = 0;
  timer_deadline = 0;
}

unfoldable pub read_apic_register : ApicState → ℕ → ℕ
read_apic_register apic offset =
    if leb 256 offset && leb offset 368
    then apic.isr (shr (offset - 256) 4)
    else (if leb 384 offset && leb offset 496
        then apic.tmr (shr (offset - 384) 4)
        else (if leb 512 offset && leb offset 624
            then apic.irr (shr (offset - 512) 4)
            else match_key offset
                ((32, shl 32 apic.id 24)
                  ∷ (48, apic.version)
                  ∷ (128, apic.tpr)
                  ∷ (144, 0)
                  ∷ (160, bit_and apic.tpr 240)
                  ∷ (176, 0)
                  ∷ (192, 0)
                  ∷ (208, apic.ldr)
                  ∷ (224, apic.dfr)
                  ∷ (240, apic.svr)
                  ∷ (640, apic.esr)
                  ∷ (768, apic.icr_lo)
                  ∷ (784, apic.icr_hi)
                  ∷ (800, apic.lvt_timer)
                  ∷ (816, apic.lvt_thermal)
                  ∷ (832, apic.lvt_perf)
                  ∷ (848, apic.lvt_lint0)
                  ∷ (864, apic.lvt_lint1)
                  ∷ (880, apic.lvt_error)
                  ∷ (896, apic.timer_initial)
                  ∷ (912, 0)
                  ∷ (992, apic.timer_divide)
                  ∷ [])
                0))

unfoldable pub apic_timer_divisor : ℕ → ℕ
apic_timer_divisor dcr =
    match_key (bit_or (bit_and (shr dcr 1) 4) (bit_and dcr 3))
      ((0, 2) ∷ (1, 4) ∷ (2, 8) ∷ (3, 16) ∷ (4, 32) ∷ (5, 64) ∷ (6, 128) ∷ (7, 1) ∷ []) 1

-- `31 - x.leading_zeros()`
unfoldable pub top_bit : ℕ → ℕ
top_bit x = 31 - leading_zeros 32 x

-- The loop of the EOI register, over the indices below `n` from the highest down.
unfoldable pub clear_highest : ℕ → Words → Words
clear_highest zero isr = isr
clear_highest (suc i) isr =
    let rest = clear_highest i isr in
    if isr i == 0
    then rest
    else store isr i (bit_and (isr i) (bit_not 32 (shl 32 1 (top_bit (isr i)))))

-- The Initial Count register. The u64 sum wraps.
unfoldable pub start_timer : ℕ → ℕ → ApicState → ApicState
start_timer value current_tsc apic =
    let ticks = value * apic_timer_divisor apic.timer_divide in
    record apic {
      timer_initial = value;
      timer_deadline = if not (value == 0) then u64 (current_tsc + ticks) else 0;
    }

unfoldable pub write_apic_register : ApicState → ℕ → ℕ → ℕ → ApicState
write_apic_register apic offset value current_tsc =
    match_key offset
      ((32, record apic { id = bit_and (shr value 24) 255 })
        ∷ (128, record apic { tpr = bit_and value 255 })
        ∷ (176, record apic { isr = clear_highest 8 apic.isr })
        ∷ (208, record apic { ldr = value })
        ∷ (224, record apic { dfr = bit_or value 268435455 })
        ∷ (240, record apic { svr = value })
        ∷ (640, record apic { esr = 0 })
        ∷ (768, record apic { icr_lo = value })
        ∷ (784, record apic { icr_hi = value })
        ∷ (800, record apic { lvt_timer = value })
        ∷ (816, record apic { lvt_thermal = value })
        ∷ (832, record apic { lvt_perf = value })
        ∷ (848, record apic { lvt_lint0 = value })
        ∷ (864, record apic { lvt_lint1 = value })
        ∷ (880, record apic { lvt_error = value })
        ∷ (896, start_timer value current_tsc apic)
        ∷ (992, record apic { timer_divide = value })
        ∷ [])
      apic
