-- ===== src/Tests/Decoder.antt =====
-- The decoder on `mov 0x10(%rbx), %r9d` (44 8B 4B 10), with another instruction behind it.
use bedrock.Base.{ℕ, ◌≤◌, ◌<◌, ◌≡◌, refl, List, [], ◌∷◌, length, true, arith}
use bedrock.Base.Result.{ok}
use bedrock.Decoder.{
  DecodedInstruction, load, decode_instruction, skip_prefixes, is_ignored_prefix, after_prefixes,
  take_rex, from_byte, next_byte, opcode_arm, modrm_arm, modrm_operand, modrm_displacement_length,
  sib_length, sib_bytes, add_displacement, displacement_size,
}
use bedrock.Decoder.Local.{is_size}
use bedrock.Decoder.Bounds.{decode_instruction-bounds, decode_instruction-local}

abbrev code : List ℕ
code = 68 ∷ 139 ∷ 75 ∷ 16 ∷ 144 ∷ 144 ∷ []

abbrev decoded : DecodedInstruction
decoded = record { length = 4; operation = load; register = 9; operand_size = 4 }

decodes : decode_instruction code ≡ ok decoded
unfolding decode_instruction skip_prefixes is_ignored_prefix after_prefixes take_rex from_byte
    next_byte opcode_arm modrm_arm modrm_operand modrm_displacement_length sib_length sib_bytes
    add_displacement displacement_size
decodes = refl

decode_instruction-bounds_example :
    (decoded.length ≤ length code) × (decoded.register < 16) × (is_size decoded.operand_size ≡ true)
decode_instruction-bounds_example = decode_instruction-bounds code decoded decodes

decode_instruction-local_example : decode_instruction (68 ∷ 139 ∷ 75 ∷ 16 ∷ 15 ∷ []) ≡ ok decoded
decode_instruction-local_example =
    decode_instruction-local code (68 ∷ 139 ∷ 75 ∷ 16 ∷ 15 ∷ []) decoded (omega arith) decodes refl
