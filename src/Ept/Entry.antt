-- ===== src/Ept/Entry.antt =====
-- EPT entries: crates/bedrock-ept/src/entry.rs. An entry is its raw u64, permissions are three
-- bits, and the one memory type is its encoding 6.
use bedrock.Base.{
  ℕ, ◌+◌, ◌*◌, ◌/◌, ◌%◌, ◌^◌, ◌<◌, ◌≡◌, ◌≢◌, refl, Bool, true, false, not, ◌==◌, bit_and, bit_or,
  shl, arith,
}
use bedrock.Base.Bits.Step.{bit_or_step}
use bedrock.Base.Bits.Field.{bit_and_low, bit_and_field, bit_or_sum}

abbrev pub read_write_execute : ℕ
read_write_execute = 0b111

abbrev pub read_execute : ℕ
read_execute = 0b101

unfoldable pub from_bits : ℕ → ℕ
from_bits bits = bit_and bits 0b111

-- `EptMemoryType`, with its discriminant.
pub data MemoryType : Type 0 where
  write_back : MemoryType

unfoldable pub to_bits : MemoryType → ℕ
to_bits write_back = shl 64 6 3

abbrev pub addr_mask : ℕ
addr_mask = 0x000F_FFFF_FFFF_F000

unfoldable pub table_entry : ℕ → ℕ → ℕ
table_entry addr perms = bit_or (bit_and addr addr_mask) perms

unfoldable pub page_entry_4k : ℕ → ℕ → MemoryType → ℕ
unfolding to_bits
page_entry_4k addr perms mem_type =
    bit_or (bit_or (bit_and addr addr_mask) perms) (to_bits mem_type)

unfoldable pub is_present : ℕ → Bool
is_present e = not (bit_and e 0b111 == 0)

unfoldable pub addr : ℕ → ℕ
addr e = bit_and e addr_mask

unfoldable pub permissions : ℕ → ℕ
permissions e = from_bits e

-- An address that an entry can hold: bits 51:12 and no other.
abbrev pub IsFrame : ℕ → Type 0
IsFrame a = bit_and a addr_mask ≡ a

pub addr-eq : (e : ℕ) → addr e ≡ e / 2 ^ 12 % 2 ^ 40 * 2 ^ 12
unfolding addr
addr-eq e = bit_and_field 12 40 e

pub permissions-eq : (e : ℕ) → permissions e ≡ e % 8
unfolding permissions from_bits
permissions-eq e = bit_and_low 3 e

pub table_entry-eq : (a p : ℕ) → p < 8 → table_entry a p ≡ a / 2 ^ 12 % 2 ^ 40 * 2 ^ 12 + p
unfolding table_entry
table_entry-eq a p h =
    rw (bit_and_field 12 40 a) (bit_or_sum 12 (a / 2 ^ 12 % 2 ^ 40) p (omega arith))

-- The memory type goes between the permissions and the address.
add_mem_type : (x p : ℕ) → p < 8 → bit_or (x * 2 ^ 12 + p) 48 ≡ x * 2 ^ 12 + 48 + p
add_mem_type x p h =
    let e = x * 2 ^ 12 + p in
    let q : e / 2 / 2 / 2 ≡ x * 2 ^ 9 = omega arith in
    let top : bit_or (e / 2 / 2 / 2) 6 ≡ x * 2 ^ 9 + 6 = rw q (bit_or_sum 9 x 6 (omega arith)) in
    omega (arith, top, bit_or_step e 48, bit_or_step (e / 2) 24, bit_or_step (e / 2 / 2) 12)

pub page_entry_4k-eq :
    (a p : ℕ) (t : MemoryType) → p < 8 → page_entry_4k a p t ≡ a / 2 ^ 12 % 2 ^ 40 * 2 ^ 12 + 48 + p
unfolding page_entry_4k
page_entry_4k-eq a p write_back h =
    rw (bit_and_field 12 40 a, bit_or_sum 12 (a / 2 ^ 12 % 2 ^ 40) p (omega arith))
      (add_mem_type (a / 2 ^ 12 % 2 ^ 40) p h)

pub is_present-pos : (e : ℕ) → (is_present e ≡ true) → e % 8 ≢ 0
unfolding is_present
is_present-pos e h = ground (arith, bit_and_low 3 e)

pub is_present_of : (e : ℕ) → e % 8 ≢ 0 → is_present e ≡ true
unfolding is_present
is_present_of e h = ground (arith, bit_and_low 3 e)

pub is_present-zero : is_present 0 ≡ false
unfolding is_present
is_present-zero = refl

-- What is written into an entry is read back from it.
pub table_entry_fields :
    (a p : ℕ)
    → IsFrame a
    → 0 < p
    → p < 8
    → (is_present (table_entry a p) ≡ true)
      × (addr (table_entry a p) ≡ a)
      × (permissions (table_entry a p) ≡ p)
table_entry_fields a p f h k =
    let e = table_entry a p in
    let eq = table_entry-eq a p k in
    let fa : a / 2 ^ 12 % 2 ^ 40 * 2 ^ 12 ≡ a = omega (arith, bit_and_field 12 40 a, f) in
    (
      is_present_of e (omega (arith, eq)),
      omega (arith, addr-eq e, eq, fa),
      omega (arith, permissions-eq e, eq),
    )

pub page_entry_4k_fields :
    (a p : ℕ) (t : MemoryType)
    → 0 < p
    → p < 8
    → (is_present (page_entry_4k a p t) ≡ true)
      × (addr (page_entry_4k a p t) ≡ a / 2 ^ 12 % 2 ^ 40 * 2 ^ 12)
      × (permissions (page_entry_4k a p t) ≡ p)
page_entry_4k_fields a p t h k =
    let e = page_entry_4k a p t in
    let eq = page_entry_4k-eq a p t k in
    (
      is_present_of e (omega (arith, eq)),
      omega (arith, addr-eq e, eq),
      omega (arith, permissions-eq e, eq),
    )
