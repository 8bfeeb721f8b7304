-- ===== src/Calculate/Sizes.antt =====
-- Bounds of the page sizes, and what they depend on.
use stlink.Base.{ℕ, ◌^◌, ◌<◌, ◌≤◌, ◌≡◌, refl, arith, Bool-cases, inl, inr}
use stlink.Target.{Stlink}
use stlink.Calculate.{
  pagesize_at, is_f4_like, is_f7_like, f4_pagesize, f7_pagesize, calculate_f4_sectornum,
  calculate_f7_sectornum,
}

f4_pagesize_bounds : (s : ℕ) → (0 < f4_pagesize s) × (f4_pagesize s ≤ 2 ^ 30)
unfolding f4_pagesize
f4_pagesize_bounds s = ground arith

f7_pagesize_bounds : (s : ℕ) → (0 < f7_pagesize s) × (f7_pagesize s ≤ 2 ^ 30)
unfolding f7_pagesize
f7_pagesize_bounds s = ground arith

pub pagesize_at_bounds :
    (sl : Stlink) (p : ℕ)
    → 0 < sl.flash_pgsz
    → sl.flash_pgsz ≤ 2 ^ 30
    → (0 < pagesize_at sl p) × (pagesize_at sl p ≤ 2 ^ 30)
unfolding pagesize_at
pagesize_at_bounds sl p pos small = elim (Bool-cases (is_f4_like sl.chip_id)) [
  | inl e ↦ rw e (f4_pagesize_bounds (calculate_f4_sectornum p))
  | inr e ↦ elim (Bool-cases (is_f7_like sl.chip_id)) [
    | inl f ↦ rw (e, f) (f7_pagesize_bounds (calculate_f7_sectornum p))
    | inr f ↦ rw (e, f) (pos, small)
  ]
]

pub pagesize_at-params :
    (sl sl' : Stlink) (p : ℕ)
    → sl'.chip_id ≡ sl.chip_id
    → sl'.flash_pgsz ≡ sl.flash_pgsz
    → pagesize_at sl' p ≡ pagesize_at sl p
unfolding pagesize_at
pagesize_at-params sl sl' p e f = rw (e, f) refl
