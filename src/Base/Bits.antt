-- ===== src/Base/Bits.antt =====
-- `&`, `|` and `~` on words, from one equation for the lowest digit.
use Prim.Native.Nat.{
  ℕ, zero, suc, ◌+◌, ◌-◌, ◌*◌, ◌/◌, ◌%◌, ◌^◌, ◌≤◌, ◌<◌, min, max, bit_and, bit_or, digits, bitwise,
  bit_and-bitwise, bit_or-bitwise,
}
use mathlib.Core.Path.{◌≡◌, refl, ap, ◌∙◌}
use mathlib.Core.Logic.{◌⊎◌, inl, inr}
use native.Mathlib.Nat.{pow-suc, one-le-pow}
use native.Mathlib.Omega.{arith}

le_cases : (n m : ℕ) → (n ≤ m) ⊎ (m < n)
le_cases n m = ground arith

module _ (rest : ℕ → ℕ) (digit : ℕ → ℕ → ℕ) where
  -- With as many digits to go as the first number, one more changes nothing.
  one_more : (n x y : ℕ) → x ≤ n → digits rest digit (suc n) x y ≡ digits rest digit n x y
  one_more zero zero y h = refl
  one_more zero (suc x) y h = absurd (omega arith)
  one_more (suc n) zero y h = refl
  one_more (suc n) (suc x) y h =
      ap (λ (high : ℕ). high * 2 + digit (suc x % 2) (y % 2))
        (one_more n (suc x / 2) (y / 2) (omega arith))

  spare_digits : (m n x y : ℕ) → x ≤ n → n ≤ m → digits rest digit m x y ≡ digits rest digit n x y
  spare_digits zero zero x y h g = refl
  spare_digits zero (suc n) x y h g = absurd (omega arith)
  spare_digits (suc m) n x y h g = elim (le_cases n m) [
    | inl below ↦ one_more m x y (omega arith) ∙ spare_digits m n x y h below
    | inr above ↦ let same : suc m ≡ n = omega arith in ap (λ (k : ℕ). digits rest digit k x y) same
  ]

  lowest_digit :
      (x y : ℕ)
      → bitwise rest digit (suc x) y
        ≡ bitwise rest digit (suc x / 2) (y / 2) * 2 + digit (suc x % 2) (y % 2)
  lowest_digit x y =
      ap (λ (high : ℕ). high * 2 + digit (suc x % 2) (y % 2))
        (spare_digits x (suc x / 2) (suc x / 2) (y / 2) (omega arith) (omega arith))

pub bit_or_step : (x y : ℕ) → bit_or x y ≡ bit_or (x / 2) (y / 2) * 2 + max (x % 2) (y % 2)
bit_or_step zero y = simp bit_or-bitwise (omega arith)
bit_or_step (suc x) y = simp bit_or-bitwise (lowest_digit (λ v. v) max x y)

pub bit_and_step : (x y : ℕ) → bit_and x y ≡ bit_and (x / 2) (y / 2) * 2 + min (x % 2) (y % 2)
bit_and_step zero y = simp bit_and-bitwise (omega arith)
bit_and_step (suc x) y = simp bit_and-bitwise (lowest_digit (λ v. 0) min x y)

half_fits : (k b : ℕ) → b < 2 ^ suc k → b / 2 < 2 ^ k
half_fits k b h = omega (arith, pow-suc 2 k)

no_digits : (bound x : ℕ) → x < suc bound → bit_and x 0 ≡ 0
no_digits zero x h = let e : x ≡ 0 = omega arith in rw e refl
no_digits (suc bound) x h =
    let half = no_digits bound (x / 2) (omega arith) in omega (arith, bit_and_step x 0, half)

pub bit_and-zero_right : (x : ℕ) → bit_and x 0 ≡ 0
bit_and-zero_right x = no_digits x x (omega arith)

pub bit_and-zero_left : (b : ℕ) → bit_and 0 b ≡ 0
bit_and-zero_left b = simp bit_and-bitwise (omega arith)

-- Setting the bits of a mask makes every bit of the mask read as set.
pub bit_and-bit_or_self : (k a b : ℕ) → b < 2 ^ k → bit_and (bit_or a b) b ≡ b
bit_and-bit_or_self zero a b h =
    let e : b ≡ 0 = omega arith in rw e (bit_and-zero_right (bit_or a 0))
bit_and-bit_or_self (suc k) a b h = ground (
  arith,
  pow-suc 2 k,
  bit_or_step a b,
  bit_and_step (bit_or a b) b,
  bit_and-bit_or_self k (a / 2) (b / 2) (half_fits k b h),
)

-- Clearing the bits of a mask makes every bit of the mask read as clear.
pub bit_and-complement : (k a b c : ℕ) → b + c + 1 ≡ 2 ^ k → bit_and (bit_and a c) b ≡ 0
bit_and-complement zero a b c h =
    let e : b ≡ 0 = omega arith in rw e (bit_and-zero_right (bit_and a c))
bit_and-complement (suc k) a b c h = ground (
  arith,
  pow-suc 2 k,
  bit_and_step a c,
  bit_and_step (bit_and a c) b,
  bit_and-complement k (a / 2) (b / 2) (c / 2) (omega (arith, pow-suc 2 k)),
)

mul-two_pow : (q k : ℕ) → q * 2 ^ suc k ≡ 2 * (q * 2 ^ k)
mul-two_pow q k = omega (arith, ap (λ (t : ℕ). q * t) (pow-suc 2 k))

-- `&` works on the high and the low digits apart.
pub bit_and_fields :
    (k q r s t : ℕ)
    → r < 2 ^ k
    → t < 2 ^ k
    → bit_and (q * 2 ^ k + r) (s * 2 ^ k + t) ≡ bit_and q s * 2 ^ k + bit_and r t
bit_and_fields zero q r s t h g =
    let e : r ≡ 0 = omega arith in let f : t ≡ 0 = omega arith in rw (e, f) (ground arith)
bit_and_fields (suc k) q r s t h g = ground (
  arith,
  mul-two_pow q k,
  mul-two_pow s k,
  mul-two_pow (bit_and q s) k,
  bit_and_step (q * 2 ^ suc k + r) (s * 2 ^ suc k + t),
  bit_and_step r t,
  bit_and_fields k q (r / 2) s (t / 2) (half_fits k r h) (half_fits k t g),
)

pub bit_and_ones : (k r : ℕ) → r < 2 ^ k → bit_and r (2 ^ k - 1) ≡ r
bit_and_ones zero r h = let e : r ≡ 0 = omega arith in rw e
bit_and_ones (suc k) r h = ground (
  arith,
  pow-suc 2 k,
  one-le-pow k 2,
  bit_and_step r (2 ^ suc k - 1),
  bit_and_ones k (r / 2) (half_fits k r h),
)

-- A mask of `k` low bits is the remainder by `2 ^ k`.
pub bit_and_mask : (k a : ℕ) → bit_and a (2 ^ k - 1) ≡ a % 2 ^ k
bit_and_mask k a = ground (
  arith,
  one-le-pow k 2,
  bit_and-zero_right (a / 2 ^ k),
  bit_and_fields k (a / 2 ^ k) (a % 2 ^ k) 0 (2 ^ k - 1),
  bit_and_ones k (a % 2 ^ k),
)

pub bit_or_fits : (k a b : ℕ) → a < 2 ^ k → b < 2 ^ k → bit_or a b < 2 ^ k
bit_or_fits zero a b h g =
    let e : a ≡ 0 = omega arith in let f : b ≡ 0 = omega arith in rw (e, f) (omega arith)
bit_or_fits (suc k) a b h g = ground (
  arith,
  pow-suc 2 k,
  bit_or_step a b,
  bit_or_fits k (a / 2) (b / 2) (half_fits k a h) (half_fits k b g),
)

-- What a mask selects is at most the mask.
pub bit_and_le : (k a m : ℕ) → m < 2 ^ k → bit_and a m ≤ m
bit_and_le zero a m h = let e : m ≡ 0 = omega arith in rw e (omega (arith, bit_and-zero_right a))
bit_and_le (suc k) a m h =
    ground (arith, bit_and_step a m, bit_and_le k (a / 2) (m / 2) (half_fits k m h))

-- Digits that do not overlap are joined.
pub bit_or_join : (k a b : ℕ) → a < 2 ^ k → bit_or a (b * 2 ^ k) ≡ a + b * 2 ^ k
bit_or_join zero a b h = let e : a ≡ 0 = omega arith in rw e (simp bit_or-bitwise (omega arith))
bit_or_join (suc k) a b h = ground (
  arith,
  mul-two_pow b k,
  bit_or_step a (b * 2 ^ suc k),
  bit_or_join k (a / 2) b (half_fits k a h),
)

no_more_digits : (bound x : ℕ) → x < suc bound → bit_or x 0 ≡ x
no_more_digits zero x h = let e : x ≡ 0 = omega arith in rw e (simp bit_or-bitwise (omega arith))
no_more_digits (suc bound) x h =
    let half = no_more_digits bound (x / 2) (omega arith) in omega (arith, bit_or_step x 0, half)

bit_or-zero_right : (x : ℕ) → bit_or x 0 ≡ x
bit_or-zero_right x = no_more_digits x x (omega arith)

-- Digits that do not overlap are joined, the high ones first.
pub bit_or_fields : (k a b : ℕ) → a < 2 ^ k → bit_or (b * 2 ^ k) a ≡ b * 2 ^ k + a
bit_or_fields zero a b h =
    let e : a ≡ 0 = omega arith in rw e (omega (arith, bit_or-zero_right (b * 1)))
bit_or_fields (suc k) a b h = ground (
  arith,
  mul-two_pow b k,
  bit_or_step (b * 2 ^ suc k) a,
  bit_or_fields k (a / 2) b (half_fits k a h),
)
