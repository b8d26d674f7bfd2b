-- ===== src/Memory.antt =====
-- Addresses: crates/bedrock-memory/src/addr.rs.
-- `PhysAddr` and `VirtAddr` wrap a u64; both are a number here, `new` and `as_u64` the identity.
use bedrock.Base.{ℕ, ◌/◌, ◌%◌, ◌^◌, ◌≡◌, bit_and, shr, arith}
use bedrock.Base.Bits.Field.{bit_and_low}

-- Bits 47:39, 38:30, 29:21 and 20:12 of a virtual address.
unfoldable pub pml4_index : ℕ → ℕ
pml4_index a = bit_and (shr a 39) 0x1FF

unfoldable pub pdpt_index : ℕ → ℕ
pdpt_index a = bit_and (shr a 30) 0x1FF

unfoldable pub pd_index : ℕ → ℕ
pd_index a = bit_and (shr a 21) 0x1FF

unfoldable pub pt_index : ℕ → ℕ
pt_index a = bit_and (shr a 12) 0x1FF

pub pml4_index_lem : (a : ℕ) → pml4_index a ≡ a / 2 ^ 39 % 2 ^ 9
unfolding pml4_index
pml4_index_lem a = bit_and_low 9 (shr a 39)

pub pdpt_index_lem : (a : ℕ) → pdpt_index a ≡ a / 2 ^ 30 % 2 ^ 9
unfolding pdpt_index
pdpt_index_lem a = bit_and_low 9 (shr a 30)

pub pd_index_lem : (a : ℕ) → pd_index a ≡ a / 2 ^ 21 % 2 ^ 9
unfolding pd_index
pd_index_lem a = bit_and_low 9 (shr a 21)

pub pt_index_lem : (a : ℕ) → pt_index a ≡ a / 2 ^ 12 % 2 ^ 9
unfolding pt_index
pt_index_lem a = bit_and_low 9 (shr a 12)

-- The four indices of an address name its page among the 2^36 that four levels reach.
pub page_of_indices :
    (a b : ℕ)
    → pml4_index a ≡ pml4_index b
    → pdpt_index a ≡ pdpt_index b
    → pd_index a ≡ pd_index b
    → pt_index a ≡ pt_index b
    → a / 2 ^ 12 % 2 ^ 36 ≡ b / 2 ^ 12 % 2 ^ 36
page_of_indices a b h4 h3 h2 h1 = omega (
  arith,
  h4,
  h3,
  h2,
  h1,
  pml4_index_lem a,
  pml4_index_lem b,
  pdpt_index_lem a,
  pdpt_index_lem b,
  pd_index_lem a,
  pd_index_lem b,
  pt_index_lem a,
  pt_index_lem b,
)

pub indices_of_page :
    (a b : ℕ)
    → a / 2 ^ 12 % 2 ^ 36 ≡ b / 2 ^ 12 % 2 ^ 36
    → (pml4_index a ≡ pml4_index b)
      × (pdpt_index a ≡ pdpt_index b)
      × (pd_index a ≡ pd_index b)
      × (pt_index a ≡ pt_index b)
indices_of_page a b h = omega (
  arith,
  pml4_index_lem a,
  pml4_index_lem b,
  pdpt_index_lem a,
  pdpt_index_lem b,
  pd_index_lem a,
  pd_index_lem b,
  pt_index_lem a,
  pt_index_lem b,
)
