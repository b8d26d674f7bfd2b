-- ===== src/Base/Int.antt =====
-- Integers over the native numbers, and the 32-bit ones as words in two's complement.
use Prim.Native.Nat.{ℕ, ◌-◌, ◌^◌, ◌<◌}
use mathlib.Core.Path.{◌≡◌}
use native.Mathlib.Omega.{arith}
use bedrock.Base.Tests.{ltb, if◌then◌else◌}

pub data ℤ : Type 0 where
  pos negsuc : ℕ → ℤ

abbrev pub to_i32 : ℕ → ℤ
to_i32 word = if ltb word (2 ^ 31) then pos word else negsuc (2 ^ 32 - 1 - word)

abbrev pub of_i32 : ℤ → ℕ
of_i32 (pos n) = n
of_i32 (negsuc n) = 2 ^ 32 - 1 - n

-- The range of `i32`.
abbrev pub IsI32 : ℤ → Type 0
IsI32 (pos n) = n < 2 ^ 31
IsI32 (negsuc n) = n < 2 ^ 31

pub to_i32-of_i32 : (z : ℤ) → IsI32 z → to_i32 (of_i32 z) ≡ z
to_i32-of_i32 (pos n) h = ground arith
to_i32-of_i32 (negsuc n) h = ground arith

pub of_i32-lt : (z : ℤ) → IsI32 z → of_i32 z < 2 ^ 32
of_i32-lt (pos n) h = omega arith
of_i32-lt (negsuc n) h = omega arith
