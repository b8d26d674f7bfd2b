-- ===== src/Registers.antt =====
-- The guest's general purpose registers by number: `get_gpr_value` and `set_gpr_value` of
-- crates/bedrock-vmx/src/exits/cr.rs, and the instructions of crates/bedrock-vmx/src/exits/time.rs that
-- return values in them. The registers are a function of their number in the order of the `match`.
pub mod Laws
use bedrock.Base.{ℕ, ◌^◌, bit_and, shr, Words, store, ltb, if◌then◌else◌}

abbrev pub rax : ℕ
rax = 0

abbrev pub rcx : ℕ
rcx = 1

abbrev pub rdx : ℕ
rdx = 2

unfoldable pub get_gpr_value : Words → ℕ → ℕ
get_gpr_value gprs index = if ltb index 16 then gprs index else 0

unfoldable pub set_gpr_value : Words → ℕ → ℕ → Words
set_gpr_value gprs index value = if ltb index 16 then store gprs index value else gprs

-- The register changes of `handle_rdtsc`, `handle_rdtscp` and `handle_rdpmc`.
unfoldable pub rdtsc : ℕ → Words → Words
rdtsc tsc gprs = store (store gprs rax (bit_and tsc 4294967295)) rdx (shr tsc 32)

unfoldable pub rdtscp : ℕ → ℕ → Words → Words
rdtscp tsc tsc_aux gprs = store (rdtsc tsc gprs) rcx (bit_and tsc_aux 4294967295)

unfoldable pub rdpmc : Words → Words
rdpmc gprs = store (store gprs rax 0) rdx 0
