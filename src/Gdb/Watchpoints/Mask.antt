-- ===== src/Gdb/Watchpoints/Mask.antt =====
-- The mask of a watchpoint: the loop that counts the binary digits of the length.
use stlink.Base.{
  ℕ, zero, suc, ◌+◌, ◌/◌, ◌^◌, ◌<◌, ◌≤◌, ◌≡◌, refl, ◌∙◌, ap, none, some, arith, add32,
}
use native.Mathlib.Nat.{pow-suc, one-le-pow, pow-le-pow_right}
use stlink.Gdb.Watchpoints.{mask_loop, shift_right}

-- For a length of 2G or more the loop does not end: the sign bit of the int32_t stays.
pub mask_loop-negative : (fuel i mask : ℕ) → 2 ^ 31 ≤ i → mask_loop fuel i mask ≡ none
unfolding mask_loop
mask_loop-negative zero i mask h = refl
mask_loop-negative (suc fuel) i mask h =
    ground (arith, mask_loop-negative fuel (shift_right i) (add32 mask 1))

mask_loop-counts :
    (k fuel i mask : ℕ)
    → suc k < fuel
    → 2 ^ k ≤ i
    → i < 2 ^ suc k
    → i < 2 ^ 31
    → mask_loop fuel i mask ≡ some (add32 mask (k + 1))
unfolding mask_loop
mask_loop-counts k zero i mask enough lo hi small = absurd (omega arith)
mask_loop-counts zero (suc zero) i mask enough lo hi small = absurd (omega arith)
mask_loop-counts zero (suc (suc fuel)) i mask enough lo hi small =
    let e : i ≡ 1 = omega arith in rw e (ground arith)
mask_loop-counts (suc k) (suc fuel) i mask enough lo hi small = ground (
  arith,
  pow-suc 2 k,
  pow-suc 2 (suc k),
  one-le-pow k 2,
  mask_loop-counts k fuel (i / 2) (add32 mask 1),
)

-- With 33 tests or more, the mask of a length below 2G is the exponent of the largest power of 2
-- that is not above it.
pub mask_loop-exponent :
    (k fuel len : ℕ)
    → 33 ≤ fuel
    → k < 31
    → 2 ^ k ≤ len
    → len < 2 ^ suc k
    → mask_loop fuel len 0xffffffff ≡ some k
mask_loop-exponent k fuel len enough small lo hi =
    let below : suc k ≤ 31 = omega arith in
    let top : 2 ^ suc k ≤ 2 ^ 31 = pow-le-pow_right {n = 2} (omega arith) below in
    mask_loop-counts k fuel len 0xffffffff (omega arith) lo hi (omega arith)
    ∙ (let e : add32 0xffffffff (k + 1) ≡ k = omega arith in ap (λ (n : ℕ). some n) e)
