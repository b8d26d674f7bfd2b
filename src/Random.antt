-- ===== src/Random.antt =====
-- The controlled-randomness device: crates/bedrock-vmx/src/devices/random.rs, and the register write
-- of crates/bedrock-vmx/src/exits/rdrand.rs.
pub mod Xorshift
pub mod Requests
pub mod Destination
use bedrock.Base.{
  ℕ, zero, ◌^◌, ◌==◌, ◌&&◌, Bool, true, false, not, Option, none, some, List, ◌++◌, length, take,
  drop, min, bit_and, bit_or, bit_not, bit_xor, replicate, shl, shr, ltb, Words, store,
  if◌then◌else◌,
}

pub data RdrandMode : Type 0 where
  seeded_rng exit_to_userspace : RdrandMode

abbrev pub random_reply_max : ℕ
random_reply_max = 256

pub record RandomState : Type 0 where
  pub mode : RdrandMode
  pub seed : ℕ
  pub pending_value : Option ℕ
  pub awaiting : Bool
  pub buf_gva : ℕ
  pub req_len : ℕ
  pub pid : ℕ
  pub reply : List ℕ
  pub reply_len : ℕ
  pub reply_valid : Bool

unfoldable pub default_random : RandomState
default_random = record {
  mode = seeded_rng;
  seed = 11400714819323198485;
  pending_value = none;
  awaiting = false;
  buf_gva = 0;
  req_len = 0;
  pid = 0;
  reply = replicate random_reply_max 0;
  reply_len = 0;
  reply_valid = false;
}

unfoldable pub with_seed : ℕ → RandomState
with_seed seed = record default_random { mode = seeded_rng; seed = if seed == 0 then 1 else seed }

unfoldable pub with_exits : RandomState
with_exits = record default_random { mode = exit_to_userspace }

unfoldable pub clear_request : RandomState → RandomState
clear_request s = record s {
  awaiting = false;
  buf_gva = 0;
  req_len = 0;
  pid = 0;
  reply_len = 0;
  reply_valid = false;
}

unfoldable pub configure : RdrandMode → ℕ → RandomState → RandomState
configure mode seed s =
    clear_request
      (record s { mode = mode; seed = if seed == 0 then 1 else seed; pending_value = none })

-- The three lines that change `x`.
unfoldable pub xorshift : ℕ → ℕ
xorshift seed =
    let x = bit_xor seed (shl 64 seed 13) in let y = bit_xor x (shr x 7) in bit_xor y (shl 64 y 17)

unfoldable pub next_seeded_u64 : RandomState → ℕ × RandomState
next_seeded_u64 s = let x = xorshift s.seed in (x, record s { seed = x })

unfoldable pub generate_by : RdrandMode → RandomState → Option ℕ × RandomState
generate_by seeded_rng s = let (x, s') = next_seeded_u64 s in (some x, s')
generate_by exit_to_userspace s = (s.pending_value, record s { pending_value = none })

unfoldable pub generate : RandomState → Option ℕ × RandomState
generate s = generate_by s.mode s

unfoldable pub set_pending_value : ℕ → RandomState → RandomState
set_pending_value value s = record s { pending_value = some value }

abbrev is_exit : RdrandMode → Bool
is_exit seeded_rng = false
is_exit exit_to_userspace = true

abbrev is_none : Option ℕ → Bool
is_none none = true
is_none (some x) = false

unfoldable pub needs_rdrand_exit : RandomState → Bool
needs_rdrand_exit s = is_exit s.mode && is_none s.pending_value

unfoldable pub begin_request : ℕ → ℕ → ℕ → RandomState → RandomState
begin_request buf_gva req_len pid s = record s {
  buf_gva = buf_gva;
  req_len = req_len;
  pid = pid;
  awaiting = true;
  reply_valid = false;
  reply_len = 0;
}

unfoldable pub stage_reply : List ℕ → RandomState → RandomState
stage_reply bytes s =
    let n = min (length bytes) random_reply_max in
    record s { reply = take n bytes ++ drop n s.reply; reply_len = n; reply_valid = true }

unfoldable pub needs_get_random_exit : RandomState → Bool
needs_get_random_exit s = is_exit s.mode && not s.reply_valid

pub data RdrandOperandSize : Type 0 where
  size16 size32 size64 : RdrandOperandSize

-- The value that `write_gpr_by_index` puts into the register that holds `reg`.
unfoldable pub write_gpr : RdrandOperandSize → ℕ → ℕ → ℕ
write_gpr size16 reg value = bit_or (bit_and reg (bit_not 64 65535)) (bit_and value 65535)
write_gpr size32 reg value = bit_and value 4294967295
write_gpr size64 reg value = value

-- The registers by index, in the order of the `match`.
unfoldable pub write_gpr_by_index : Words → ℕ → ℕ → RdrandOperandSize → Words
write_gpr_by_index gprs index value size =
    if ltb index 16 then store gprs index (write_gpr size (gprs index) value) else gprs
