-- ===== src/Random/Destination.antt =====
-- The destination register of RDRAND and RDSEED, at the three operand sizes.
use bedrock.Base.{
  ℕ, ◌+◌, ◌*◌, ◌/◌, ◌%◌, ◌^◌, ◌<◌, ◌==◌, ◌≡◌, refl, ap, ◌∙◌, Words, bit_and, bit_or, bit_not,
  if◌then◌else◌, lt→ltb, arith,
}
use bedrock.Base.Bits.Field.{bit_and_low, bit_and_field, bit_or_sum}
use bedrock.Random.{write_gpr, write_gpr_by_index, size16, size32, size64}

merged :
    (reg value : ℕ)
    → reg < 2 ^ 64
    → write_gpr size16 reg value ≡ reg / 2 ^ 16 * 2 ^ 16 + value % 2 ^ 16
unfolding write_gpr
merged reg value h =
    let high : bit_and reg (bit_not 64 65535) ≡ reg / 2 ^ 16 * 2 ^ 16 =
      bit_and_field 16 48 reg ∙ omega arith in
    let low : bit_and value 65535 ≡ value % 2 ^ 16 = bit_and_low 16 value in
    ap (λ (t : ℕ). bit_or t (bit_and value 65535)) high
    ∙ ap (bit_or (reg / 2 ^ 16 * 2 ^ 16)) low
    ∙ bit_or_sum 16 (reg / 2 ^ 16) (value % 2 ^ 16) (omega arith)

dword : (reg value : ℕ) → write_gpr size32 reg value ≡ value % 2 ^ 32
unfolding write_gpr
dword reg value = bit_and_low 32 value

qword : (reg value : ℕ) → write_gpr size64 reg value ≡ value
unfolding write_gpr
qword reg value = refl

-- The value is written to one of the 16 registers and to no other: a 16-bit one keeps the register's
-- upper 48 bits, a 32-bit one clears the upper 32, a 64-bit one replaces it. The
-- register has 64 bits.
pub write_gpr_by_index_values :
    (gprs : Words) (i j value : ℕ)
    → i < 16
    → gprs i < 2 ^ 64
    → (write_gpr_by_index gprs i value size16 j
        ≡ (if i == j then gprs i / 2 ^ 16 * 2 ^ 16 + value % 2 ^ 16 else gprs j))
      × (write_gpr_by_index gprs i value size32 j ≡ (if i == j then value % 2 ^ 32 else gprs j))
      × (write_gpr_by_index gprs i value size64 j ≡ (if i == j then value else gprs j))
unfolding write_gpr_by_index
write_gpr_by_index_values gprs i j value h k =
    let a = lt→ltb i 16 h in
    (
      (rw a (ap (λ (t : ℕ). if i == j then t else gprs j) (merged (gprs i) value k))),
      (rw a (ap (λ (t : ℕ). if i == j then t else gprs j) (dword (gprs i) value))),
      (rw a (ap (λ (t : ℕ). if i == j then t else gprs j) (qword (gprs i) value))),
    )
