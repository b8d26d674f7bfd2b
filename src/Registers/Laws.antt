-- ===== src/Registers/Laws.antt =====
-- A register that is set is read back, and the time stamp is in EDX:EAX.
use bedrock.Base.{ℕ, ◌+◌, ◌*◌, ◌%◌, ◌^◌, ◌<◌, ◌==◌, ◌≡◌, refl, Words, if◌then◌else◌, lt→ltb, arith}
use bedrock.Base.Bits.Field.{bit_and_low}
use bedrock.Registers.{get_gpr_value, set_gpr_value, rdtsc, rdtscp, rax, rcx, rdx}

-- Setting one of the 16 registers changes that register, and no other.
pub get_gpr_value-set_gpr_value :
    (gprs : Words) (i j value : ℕ)
    → i < 16
    → j < 16
    → get_gpr_value (set_gpr_value gprs i value) j
      ≡ (if i == j then value else get_gpr_value gprs j)
unfolding get_gpr_value set_gpr_value
get_gpr_value-set_gpr_value gprs i j value h k =
    let a = lt→ltb i 16 h in let b = lt→ltb j 16 k in rw (a, b) refl

-- RDTSCP returns the time stamp in EDX:EAX, as RDTSC does, and TSC_AUX in ECX.
pub rdtscp_values :
    (tsc aux : ℕ) (gprs : Words)
    → (get_gpr_value (rdtscp tsc aux gprs) rdx * 2 ^ 32 + get_gpr_value (rdtscp tsc aux gprs) rax
        ≡ tsc)
      × (get_gpr_value (rdtsc tsc gprs) rdx * 2 ^ 32 + get_gpr_value (rdtsc tsc gprs) rax ≡ tsc)
      × (get_gpr_value (rdtscp tsc aux gprs) rcx ≡ aux % 2 ^ 32)
unfolding get_gpr_value rdtscp rdtsc
rdtscp_values tsc aux gprs =
    (omega (arith, bit_and_low 32 tsc), omega (arith, bit_and_low 32 tsc), bit_and_low 32 aux)
