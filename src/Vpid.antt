-- ===== src/Vpid.antt =====
-- VPID allocation: crates/bedrock-vmx/src/traits/vpid.rs, as one thread after another calls it.
pub mod InUse
pub mod Search
pub mod Outcome
pub mod Laws
use bedrock.Base.{
  ℕ, zero, suc, ◌+◌, ◌-◌, ◌*◌, ◌/◌, ◌%◌, ◌^◌, ◌==◌, Bool, true, false, Option, none, some, bit_and,
  bit_or, bit_not, store, ltb, if◌then◌else◌, u16,
}
use bedrock.Base.Bits.Scan.{trailing_zeros}

abbrev pub bitmap_words : ℕ
bitmap_words = 1024

-- `VpidBitmap`: 1024 words of 64 bits, by index.
abbrev pub Bitmap : Type 0
Bitmap = ℕ → ℕ

-- The two statics: the bitmap and the search hint.
pub record Vpids : Type 0 where
  pub bitmap : Bitmap
  pub search_hint : ℕ

-- `VpidBitmap::new` and the initial hint.
unfoldable pub initial : Vpids
initial = record { bitmap = λ i. 0; search_hint = 1 }

unfoldable pub try_allocate : ℕ → Bitmap → Bool × Bitmap
try_allocate vpid b =
    let word_idx = vpid / 64 in
    let mask = 2 ^ (vpid % 64) in
    let old = b word_idx in (bit_and old mask == 0, store b word_idx (bit_or old mask))

unfoldable pub deallocate : ℕ → Bitmap → Bitmap
deallocate vpid b =
    let word_idx = vpid / 64 in
    let mask = 2 ^ (vpid % 64) in
    if vpid == 0 then b else store b word_idx (bit_and (b word_idx) (bit_not 64 mask))

-- The loop of `try_allocate_in_word`, on fuel: it goes round again after it has marked VPID 0.
unfoldable pub try_allocate_in_word : ℕ → ℕ → Bitmap → Option ℕ × Bitmap
try_allocate_in_word zero word_idx b = (none, b)
try_allocate_in_word (suc fuel) word_idx b =
    let word = b word_idx in
    let bit_idx = trailing_zeros 64 (bit_not 64 word) in
    let vpid = u16 (word_idx * 64 + bit_idx) in
    let (won, b') = try_allocate vpid b in
    let skip = try_allocate_in_word fuel word_idx (store b 0 (bit_or (b 0) 1)) in
    let retry = try_allocate_in_word fuel word_idx b' in
    if word == 2 ^ 64 - 1
    then (none, b)
    else (if vpid == 0 then skip else (if won then (some vpid, b') else retry))

-- A word is tried at most twice before one of its bits is won.
abbrev pub word_fuel : ℕ
word_fuel = 2

-- `for word_idx in first..first + count`
unfoldable pub search_words : ℕ → ℕ → Bitmap → Option ℕ × Bitmap
search_words zero first b = (none, b)
search_words (suc count) first b =
    let (found, b') = try_allocate_in_word word_fuel first b in
    elim found [ some vpid ↦ (some vpid, b') | none ↦ search_words count (first + 1) b' ]

unfoldable pub allocate_any : ℕ → Bitmap → Option ℕ × Bitmap
allocate_any hint b =
    let start_word = hint / 64 in
    let (found, b') = search_words (bitmap_words - start_word) start_word b in
    elim found [ some vpid ↦ (some vpid, b') | none ↦ search_words start_word 0 b' ]

unfoldable pub reset : Bitmap → Bitmap
reset b = store (λ i. 0) 0 1

-- `none` is the panic when all VPIDs are in use.
unfoldable pub allocate_vpid : Vpids → Option ℕ × Vpids
allocate_vpid s =
    let (found, b) = allocate_any s.search_hint s.bitmap in
    elim found [
      | some vpid ↦ (some vpid, record { bitmap = b; search_hint = u16 (vpid + 1) })
      | none ↦ (none, record s { bitmap = b })
    ]

unfoldable pub deallocate_vpid : ℕ → Vpids → Vpids
deallocate_vpid vpid s = record {
  bitmap = deallocate vpid s.bitmap;
  search_hint = if ltb vpid s.search_hint then vpid else s.search_hint;
}

unfoldable pub reset_vpid_counter : Vpids → Vpids
reset_vpid_counter s = record { bitmap = reset s.bitmap; search_hint = 1 }

pub peek_next_vpid : Vpids → ℕ
peek_next_vpid s = s.search_hint
