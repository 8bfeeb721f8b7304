-- ===== src/Calculate/Layout.antt =====
-- The sectors of the F4 and the F7 as lists of sizes, and that the code's sector numbers and page
-- sizes are those of the lists.
use stlink.Base.{
  ℕ, zero, suc, ◌+◌, ◌-◌, ◌*◌, ◌/◌, ◌^◌, ◌<◌, ◌≤◌, ◌≡◌, refl, List, [], ◌∷◌, ◌++◌, ◌||◌, ◌==◌,
  Bool-cases, inl, inr, passes_below, passed, ==_iff, sum, length, replicate, false, ltb,
  if◌then◌else◌, arith, bit_and_fields, bit_and_ones, clear_mask, get_or, true,
}
use stlink.Target.{Stlink}
use native.Mathlib.Nat.{div-eq-sub-div, div-eq_of_lt}
use stlink.Calculate.{
  f4_sector, f4_pagesize, f7_pagesize, stm32_flash_base, calculate_f4_sectornum,
  calculate_f7_sectornum, pagesize_at, is_f4_like, is_f7_like,
}

-- The index of the region that holds an offset, where the regions follow one another.
pub locate : List ℕ → ℕ → ℕ
locate [] off = 0
locate (size ∷ rest) off = if ltb off size then 0 else suc (locate rest (off - size))

-- One bank of an F4: 4 sectors of 16K, one of 64K, 7 of 128K.
abbrev f4_bank : List ℕ
f4_bank = replicate 4 0x4000 ++ (0x10000 ∷ replicate 7 0x20000)

abbrev pub f4_sectors : List ℕ
f4_sectors = f4_bank ++ f4_bank

-- An F7 of 2M: 4 sectors of 32K, one of 128K, 7 of 256K.
abbrev pub f7_sectors : List ℕ
f7_sectors = replicate 4 0x8000 ++ (0x20000 ∷ replicate 7 0x40000)

locate-cons :
    (x : ℕ) (xs : List ℕ) (off : ℕ)
    → locate (x ∷ xs) off ≡ (if ltb off x then 0 else suc (locate xs (off - x)))
unfolding locate
locate-cons x xs off = refl

locate-append :
    (xs ys : List ℕ) (off : ℕ)
    → locate (xs ++ ys) off
      ≡ (if ltb off (sum xs) then locate xs off else length xs + locate ys (off - sum xs))
unfolding locate
locate-append [] ys off = let e : off - 0 ≡ off = omega arith in rw e (ground arith)
locate-append (x ∷ xs) ys off =
    let e : off - x - sum xs ≡ off - (x + sum xs) = omega arith in
    rw (locate-append xs ys (off - x), e) (ground arith)

locate-replicate :
    (n size off : ℕ) → 0 < size → off < n * size → locate (replicate n size) off ≡ off / size
unfolding locate
locate-replicate zero size off h lt = absurd (omega arith)
locate-replicate (suc n) size off h lt = ground (
  arith,
  λ (p : size ≤ off). div-eq-sub-div h p,
  λ (p : off < size). div-eq_of_lt p,
  λ (p : size ≤ off). locate-replicate n size (off - size) h (grind arith),
)

locate-lt-length : (xs : List ℕ) (off : ℕ) → off < sum xs → locate xs off < length xs
unfolding locate
locate-lt-length [] off h = absurd (omega arith)
locate-lt-length (x ∷ xs) off h = ground (arith, locate-lt-length xs (off - x))

f4_closed : ℕ → ℕ
f4_closed off =
    if ltb off 0x10000 then off / 0x4000 else if ltb off 0x20000 then 4 else off / 0x20000 + 4

locate-f4_bank : (off : ℕ) → off < 0x100000 → locate f4_bank off ≡ f4_closed off
unfolding f4_closed
locate-f4_bank off h = ground (
  arith,
  locate-append (replicate 4 0x4000) (0x10000 ∷ replicate 7 0x20000) off,
  locate-cons 0x10000 (replicate 7 0x20000) (off - 0x10000),
  locate-replicate 4 0x4000 off,
  locate-replicate 7 0x20000 (off - 0x10000 - 0x10000),
)

f4_sector_closed : (k off : ℕ) → k ≤ 12 → off < 0x100000 → f4_sector k off ≡ k + f4_closed off
unfolding f4_sector f4_closed
f4_sector_closed k off h lt = ground arith

-- Masking the flash base off an address of the first 128M above it leaves the offset.
pub clear_flash_base :
    (off : ℕ) → off < 2 ^ 27 → clear_mask (stm32_flash_base + off) stm32_flash_base ≡ off
clear_flash_base off h =
    ground (arith, bit_and_fields 27 1 off 30 (2 ^ 27 - 1), bit_and_ones 27 off)

-- The F4's sector number is the index of its sector in the list.
pub calculate_f4_sectornum-locate :
    (off : ℕ)
    → off < 0x200000
    → calculate_f4_sectornum (stm32_flash_base + off) ≡ locate f4_sectors off
unfolding calculate_f4_sectornum
calculate_f4_sectornum-locate off h = rw (clear_flash_base off (omega arith)) (
    ground (
      arith,
      locate-append f4_bank f4_bank off,
      locate-f4_bank off,
      locate-f4_bank (off - 0x100000),
      f4_sector_closed 0 off,
      f4_sector_closed 12 (off - 0x100000),
    ))

-- The F7's sector number is the index of its sector in the list.
pub calculate_f7_sectornum-locate :
    (off : ℕ)
    → off < 0x200000
    → calculate_f7_sectornum (stm32_flash_base + off) ≡ locate f7_sectors off
unfolding calculate_f7_sectornum
calculate_f7_sectornum-locate off h = rw (clear_flash_base off (omega arith)) (
    ground (
      arith,
      locate-append (replicate 4 0x8000) (0x20000 ∷ replicate 7 0x40000) off,
      locate-cons 0x20000 (replicate 7 0x40000) (off - 0x20000),
      locate-replicate 4 0x8000 off,
      locate-replicate 7 0x40000 (off - 0x20000 - 0x20000),
    ))

f4_pagesize_table : passes_below (λ n. f4_pagesize n == get_or f4_sectors n 0) 24 ≡ true
unfolding passes_below f4_pagesize
f4_pagesize_table = refl

f7_pagesize_table : passes_below (λ n. f7_pagesize n == get_or f7_sectors n 0) 12 ≡ true
unfolding passes_below f7_pagesize
f7_pagesize_table = refl

f4_pagesize-sector :
    (off : ℕ)
    → off < 0x200000
    → f4_pagesize (locate f4_sectors off) ≡ get_or f4_sectors (locate f4_sectors off) 0
f4_pagesize-sector off h =
    (==_iff _ _).0
      (passed _ 24 (locate f4_sectors off) (locate-lt-length f4_sectors off h) f4_pagesize_table)

f7_pagesize-sector :
    (off : ℕ)
    → off < 0x200000
    → f7_pagesize (locate f7_sectors off) ≡ get_or f7_sectors (locate f7_sectors off) 0
f7_pagesize-sector off h =
    (==_iff _ _).0
      (passed _ 12 (locate f7_sectors off) (locate-lt-length f7_sectors off h) f7_pagesize_table)

-- The sizes of the sectors of a chip whose sectors differ in size, in order.
abbrev pub sectors : ℕ → List ℕ
sectors id = if is_f4_like id then f4_sectors else f7_sectors

-- On a chip whose sectors differ in size, the page size at an address of the first 2M is the size
-- of the sector that holds it.
pub pagesize_at-locate :
    (sl : Stlink) (off : ℕ)
    → off < 0x200000
    → (is_f4_like sl.chip_id || is_f7_like sl.chip_id) ≡ true
    → pagesize_at sl (stm32_flash_base + off)
      ≡ get_or (sectors sl.chip_id) (locate (sectors sl.chip_id) off) 0
unfolding pagesize_at
pagesize_at-locate sl off h e = elim (Bool-cases (is_f4_like sl.chip_id)) [
  | inl f4 ↦ rw (f4, calculate_f4_sectornum-locate off h) (f4_pagesize-sector off h)
  | inr other ↦
      let f7 : is_f7_like sl.chip_id ≡ true = rw other at e in
      rw (other, f7, calculate_f7_sectornum-locate off (omega arith)) (f7_pagesize-sector off h)
]

-- What one call keeps in the context does not change what a later call computes.
pub pagesize_at-resized :
    (sl : Stlink) (a b : ℕ)
    → pagesize_at (record sl { flash_pgsz = pagesize_at sl a }) b ≡ pagesize_at sl b
unfolding pagesize_at
pagesize_at-resized sl a b = ground arith

-- On the other chips the page size is the one of the chip's parameters.
pub pagesize_at-uniform :
    (sl : Stlink) (a : ℕ)
    → (is_f4_like sl.chip_id || is_f7_like sl.chip_id) ≡ false
    → pagesize_at sl a ≡ sl.flash_pgsz
unfolding pagesize_at
pagesize_at-uniform sl a e = elim (Bool-cases (is_f4_like sl.chip_id)) [
  | inl f4 ↦ let bad : true ≡ false = rw f4 at e in cc
  | inr other ↦ let f7 : is_f7_like sl.chip_id ≡ false = rw other at e in rw (other, f7)
]
