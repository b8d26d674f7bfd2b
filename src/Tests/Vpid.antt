-- ===== src/Tests/Vpid.antt =====
-- The VPID allocator from its initial state on.
use bedrock.Base.{ℕ, ◌<◌, ◌≡◌, ◌≢◌, ◌^◌, refl, some, arith}
use bedrock.Base.Bits.Scan.{trailing_zeros}
use bedrock.Vpid.{
  initial, allocate_vpid, allocate_any, search_words, try_allocate_in_word, try_allocate,
}
use bedrock.Vpid.InUse.{in_use}
use bedrock.Vpid.Laws.{IsVpids, allocate_vpid_fresh}

initial-IsVpids : IsVpids initial
unfolding initial
initial-IsVpids = record { words = λ i. omega arith; hint = omega arith }

first_vpid : (allocate_vpid initial).0 ≡ some 1
unfolding initial allocate_vpid allocate_any search_words try_allocate_in_word try_allocate
    trailing_zeros
first_vpid = refl

allocate_vpid_fresh_example : (◌≢◌ {A = ℕ} 1 0) × (1 < 2 ^ 16) × (in_use initial.bitmap 1 ≡ 0)
allocate_vpid_fresh_example = allocate_vpid_fresh initial 1 initial-IsVpids first_vpid

free_7 : in_use initial.bitmap 7 ≡ 0
unfolding initial
free_7 = refl
