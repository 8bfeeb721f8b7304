-- ===== src/Base/Word.antt =====
-- uint32_t arithmetic as it wraps, and single-bit masks. A bit mask `1u << k` is `bit k`.
use Prim.Native.Nat.{ℕ, ◌+◌, ◌-◌, ◌%◌, ◌^◌, ◌<◌, bit_and, bit_or}
use mathlib.Core.Path.{◌≡◌}
use mathlib.Core.Bool.{Bool, not}
use native.Mathlib.Omega.{arith}
use stlink.Base.Tests.{◌==◌}
use stlink.Base.Bits.{bit_and-bit_or_self, bit_and-complement}

abbrev pub u32 : ℕ → ℕ
u32 n = n % 2 ^ 32

abbrev pub add32 : ℕ → ℕ → ℕ
add32 a b = (a + b) % 2 ^ 32

abbrev pub sub32 : ℕ → ℕ → ℕ
sub32 a b = (a + 2 ^ 32 - b) % 2 ^ 32

abbrev pub not32 : ℕ → ℕ
not32 m = 2 ^ 32 - 1 - m

-- `x & ~m`
abbrev pub clear_mask : ℕ → ℕ → ℕ
clear_mask x m = bit_and x (not32 m)

abbrev pub bit : ℕ → ℕ
bit k = 2 ^ k

-- `if (x & m)`
abbrev pub has_bits : ℕ → ℕ → Bool
has_bits x m = not (bit_and x m == 0)

-- A mask that was cleared reads as 0.
pub bit_and-clear_mask : (x m : ℕ) → m < 2 ^ 32 → bit_and (clear_mask x m) m ≡ 0
bit_and-clear_mask x m h = bit_and-complement 32 x m (not32 m) (omega arith)

-- A mask that was set reads as itself.
pub bit_and-set_mask : (x m : ℕ) → m < 2 ^ 32 → bit_and (bit_or x m) m ≡ m
bit_and-set_mask x m h = bit_and-bit_or_self 32 x m h
