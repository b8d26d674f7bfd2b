-- ===== src/Random/Xorshift.antt =====
-- The generator never reaches the fixed point 0 of xorshift64.
use bedrock.Base.{ℕ, ◌^◌, ◌<◌, ◌≡◌, ◌≢◌, refl, bit_xor, shl, shr, arith, some}
use bedrock.Base.Bits.Digit.{bit_xor-lt}
use bedrock.Base.Bits.Field.{eq_of_xor}
use bedrock.Random.{
  RandomState, seeded_rng, xorshift, next_seeded_u64, generate, generate_by, configure,
  clear_request, RdrandMode,
}

-- A seed: a word other than 0.
abbrev pub IsSeed : ℕ → Type 0
IsSeed x = (x ≢ 0) × (x < 2 ^ 64)

left_13 : (x : ℕ) → IsSeed x → IsSeed (bit_xor x (shl 64 x 13))
left_13 x (nz, lt) =
    let below : shl 64 x 13 < 2 ^ 64 = omega arith in
    (
      λ e.
          nz
            (let f : x ≡ shl 64 x 13 = eq_of_xor 64 x (shl 64 x 13) lt below e in omega (arith, f)),
      bit_xor-lt 64 x (shl 64 x 13) lt below,
    )

left_17 : (x : ℕ) → IsSeed x → IsSeed (bit_xor x (shl 64 x 17))
left_17 x (nz, lt) =
    let below : shl 64 x 17 < 2 ^ 64 = omega arith in
    (
      λ e.
          nz
            (let f : x ≡ shl 64 x 17 = eq_of_xor 64 x (shl 64 x 17) lt below e in omega (arith, f)),
      bit_xor-lt 64 x (shl 64 x 17) lt below,
    )

right_7 : (x : ℕ) → IsSeed x → IsSeed (bit_xor x (shr x 7))
right_7 x (nz, lt) =
    let below : shr x 7 < 2 ^ 64 = omega arith in
    (
      λ e. nz (let f : x ≡ shr x 7 = eq_of_xor 64 x (shr x 7) lt below e in omega (arith, f)),
      bit_xor-lt 64 x (shr x 7) lt below,
    )

xorshift-IsSeed : (x : ℕ) → IsSeed x → IsSeed (xorshift x)
unfolding xorshift
xorshift-IsSeed x h = left_17 _ (right_7 _ (left_13 x h))

-- In seeded mode, from a 64-bit seed other than 0, every request is served, with a 64-bit value other
-- than 0 that is the next seed.
pub generate_seeded :
    (s : RandomState)
    → s.mode ≡ seeded_rng
    → IsSeed s.seed
    → ((generate s).0 ≡ some (xorshift s.seed))
      × ((generate s).1.seed ≡ xorshift s.seed)
      × IsSeed (xorshift s.seed)
unfolding generate generate_by next_seeded_u64
generate_seeded s m h = (rw m refl, rw m refl, xorshift-IsSeed s.seed h)

-- `configure` leaves a seed that the generator accepts, whatever 64-bit number it is given.
pub configure-IsSeed :
    (mode : RdrandMode) (seed : ℕ) (s : RandomState)
    → seed < 2 ^ 64
    → IsSeed (configure mode seed s).seed
unfolding configure clear_request
configure-IsSeed mode seed s h = (ground arith, ground arith)
