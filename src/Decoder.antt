-- ===== src/Decoder.antt =====
-- The MMIO instruction decoder: crates/bedrock-vmx/src/decoder.rs. A position in the buffer is the
-- number of bytes before it and the bytes from it on.
pub mod Local
pub mod Bounds
use bedrock.Base.{
  ℕ, zero, suc, ◌+◌, ◌==◌, Bool, true, false, ◌&&◌, ◌||◌, not, Option, none, some, List, [], ◌∷◌,
  length, drop, ltb, if◌then◌else◌, bit_and, bit_or, shr, u8,
}
use bedrock.Base.Result.{Result, ok, err, ◌>>=◌}

pub data MemoryOperation : Type 0 where
  load store : MemoryOperation

pub record DecodedInstruction : Type 0 where
  pub length : ℕ
  pub operation : MemoryOperation
  pub register : ℕ
  pub operand_size : ℕ

pub data DecodeError : Type 0 where
  buffer_too_short unsupported_opcode unsupported_addressing : DecodeError

pub record RexPrefix : Type 0 where
  pub w : Bool
  pub r : Bool
  pub x : Bool
  pub b : Bool

unfoldable pub from_byte : ℕ → Option RexPrefix
from_byte byte =
    if bit_and byte 240 == 64
    then some (record {
      w = not (bit_and byte 8 == 0);
      r = not (bit_and byte 4 == 0);
      x = not (bit_and byte 2 == 0);
      b = not (bit_and byte 1 == 0);
    })
    else none

abbrev pub no_rex : RexPrefix
no_rex = record { w = false; r = false; x = false; b = false }

-- The other legacy prefixes: address size, segments, LOCK and REP.
unfoldable pub is_ignored_prefix : ℕ → Bool
is_ignored_prefix byte =
    byte == 103
    || byte == 38
    || byte == 46
    || byte == 54
    || byte == 62
    || byte == 100
    || byte == 101
    || byte == 240
    || byte == 242
    || byte == 243

-- A position: `pos` and `bytes[pos..]`.
abbrev pub Position : Type 0
Position = ℕ × List ℕ

-- The `while` loop over the legacy prefixes; the flag is `has_operand_size_prefix`.
unfoldable pub skip_prefixes : List ℕ → Bool → ℕ → Bool × Position
skip_prefixes [] size16 pos = (size16, (pos, []))
skip_prefixes (byte ∷ rest) size16 pos =
    let after_66 = skip_prefixes rest true (pos + 1) in
    let after_ignored = skip_prefixes rest size16 (pos + 1) in
    if byte == 102
    then after_66
    else (if is_ignored_prefix byte then after_ignored else (size16, (pos, byte ∷ rest)))

-- `bytes[pos]; pos += 1`, with the test that stands before it.
unfoldable pub next_byte : Position → Result DecodeError (ℕ × Position)
next_byte (pos, []) = err buffer_too_short
next_byte (pos, byte ∷ rest) = ok (byte, (pos + 1, rest))

-- `bytes[pos]` and the REX prefix, which is stepped over if it is one.
unfoldable pub take_rex : Position → Result DecodeError (RexPrefix × Position)
take_rex (pos, []) = err buffer_too_short
take_rex (pos, byte ∷ rest) = elim (from_byte byte) [
  | none ↦ ok (no_rex, (pos, byte ∷ rest))
  | some rex ↦ ok (rex, (pos + 1, rest))
]

-- The SIB byte, `remaining[0]`, and the displacement that its base asks for: the length so far.
unfoldable pub sib_bytes : ℕ → List ℕ → Result DecodeError ℕ
sib_bytes mod_bits [] = err buffer_too_short
sib_bytes mod_bits (sib ∷ rest) =
    if mod_bits == 0 && bit_and sib 7 == 5
    then (if ltb (length (sib ∷ rest)) (1 + 4) then err buffer_too_short else ok (1 + 4))
    else ok 1

unfoldable pub sib_length : ℕ → ℕ → List ℕ → Result DecodeError ℕ
sib_length mod_bits rm remaining =
    if rm == 4 && not (mod_bits == 3) then sib_bytes mod_bits remaining else ok 0

-- `if remaining.len() < len + n { return Err } len += n`
unfoldable pub add_displacement : ℕ → List ℕ → ℕ → Result DecodeError ℕ
add_displacement n remaining len =
    if ltb (length remaining) (len + n) then err buffer_too_short else ok (len + n)

unfoldable pub displacement_size : ℕ → ℕ → Bool → ℕ
displacement_size mod_bits rm has_sib =
    if mod_bits == 0 && rm == 5 && not has_sib
    then 4
    else (if mod_bits == 1 then 1 else (if mod_bits == 2 then 4 else 0))

unfoldable pub modrm_displacement_length : ℕ → ℕ → List ℕ → Result DecodeError ℕ
modrm_displacement_length mod_bits rm remaining = do
  len ← sib_length mod_bits rm remaining
  add_displacement (displacement_size mod_bits rm (rm == 4 && not (mod_bits == 3))) remaining len

-- The end of an arm of the `match`, from the ModR/M byte on: the same in all the arms.
unfoldable pub modrm_operand :
    RexPrefix → MemoryOperation → ℕ → ℕ → Position → Result DecodeError DecodedInstruction
modrm_operand rex operation operand_size modrm at =
    let (pos, rest) = at in
    let reg = bit_or (bit_and (shr modrm 3) 7) (if rex.r then 8 else 0) in
    let mod_bits = shr modrm 6 in
    let rm = bit_or (bit_and modrm 7) (if rex.b then 8 else 0) in
    modrm_displacement_length mod_bits (bit_and rm 7) rest >>= (λ modrm_len.
      if mod_bits == 3
      then err unsupported_addressing
      else ok (record {
        length = u8 (pos + modrm_len);
        operation = operation;
        register = reg;
        operand_size = operand_size;
      }))

unfoldable pub modrm_arm :
    RexPrefix → MemoryOperation → ℕ → Position → Result DecodeError DecodedInstruction
modrm_arm rex operation operand_size at =
    next_byte at >>= (λ r. modrm_operand rex operation operand_size r.0 r.1)

-- The second `match`, in the arm of 0x0F: MOVZX.
unfoldable pub movzx_arm : RexPrefix → ℕ → Position → Result DecodeError DecodedInstruction
movzx_arm rex opcode2 at =
    if opcode2 == 182 || opcode2 == 183
    then modrm_arm rex load (if opcode2 == 182 then 1 else 2) at
    else err unsupported_opcode

-- `match opcode`
unfoldable pub opcode_arm : RexPrefix → ℕ → ℕ → Position → Result DecodeError DecodedInstruction
opcode_arm rex operand_size opcode at =
    if opcode == 139
    then modrm_arm rex load operand_size at
    else (if opcode == 137
        then modrm_arm rex store operand_size at
        else (if opcode == 138
            then modrm_arm rex load 1 at
            else (if opcode == 136
                then modrm_arm rex store 1 at
                else (if opcode == 15
                    then next_byte at >>= (λ r. movzx_arm rex r.0 r.1)
                    else err unsupported_opcode))))

-- From the REX prefix on.
unfoldable pub after_prefixes : Bool → Position → Result DecodeError DecodedInstruction
after_prefixes size16 start = take_rex start >>= (λ s.
    next_byte s.1
    >>= (λ r. opcode_arm s.0 (if s.0.w then 8 else (if size16 then 2 else 4)) r.0 r.1))

unfoldable pub decode_instruction : List ℕ → Result DecodeError DecodedInstruction
decode_instruction bytes =
    let (size16, start) = skip_prefixes bytes false 0 in after_prefixes size16 start
