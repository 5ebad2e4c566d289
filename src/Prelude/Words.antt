-- ===== src/Prelude/Words.antt =====
-- Unsigned machine words as numbers: the limits of `u8` to `u64`, saturating addition (saturating
-- subtraction is `-`), and the word operations on `u64`.
use Prim.Native.Nat.{ℕ, ◌+◌, ◌-◌, ◌*◌, ◌%◌, ◌^◌, ◌<◌, min}
use mathlib.Core.Path.{◌≡◌}
use mathlib.Core.Bool.{not}
use native.Mathlib.Omega.{arith}
use xfr.Prelude.Tests.{ltb, leb}
use xfr.Prelude.Bits.{bit_at, bit_at-shl, bit_at-ones, bit_at-complement}

abbrev pub u8_max : ℕ
u8_max = 255

abbrev pub u16_max : ℕ
u16_max = 65_535

abbrev pub u32_max : ℕ
u32_max = 4_294_967_295

abbrev pub u64_max : ℕ
u64_max = 18_446_744_073_709_551_615

abbrev pub u64_mod : ℕ
u64_mod = 18_446_744_073_709_551_616

-- u64::saturating_add
abbrev pub saturating_add : ℕ → ℕ → ℕ
saturating_add a b = min (a + b) u64_max

-- u32::saturating_add
abbrev pub saturating_add32 : ℕ → ℕ → ℕ
saturating_add32 a b = min (a + b) u32_max

-- u64::saturating_mul
abbrev pub saturating_mul : ℕ → ℕ → ℕ
saturating_mul a b = min (a * b) u64_max

-- `!w`
unfoldable pub complement : ℕ → ℕ
complement w = u64_max - w

-- `w << k`
unfoldable pub shl : ℕ → ℕ → ℕ
shl w k = w * 2 ^ k % u64_mod

pub bit_at-shl_max : (s k : ℕ) → k < 64 → bit_at (shl u64_max s) k ≡ leb s k
unfolding shl
bit_at-shl_max s k h =
    let inside : bit_at (2 ^ 64 - 1) (k - s) ≡ ltb (k - s) 64 = bit_at-ones 64 (k - s) in
    ground (arith, bit_at-shl 64 s u64_max k, inside)

pub bit_at-complement64 :
    (k w : ℕ) → k < 64 → w < u64_mod → bit_at (complement w) k ≡ not (bit_at w k)
unfolding complement
bit_at-complement64 k w h fits = bit_at-complement 64 k w h fits
