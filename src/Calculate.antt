-- ===== src/Calculate.antt =====
-- src/stlink-lib/calculate.c, and the page size of src/stlink-lib/common.c: which sector or page of
-- the flash an address lies in, and how long it is.
pub mod Layout
pub mod Sizes
use stlink.Base.{
  ℕ, ◌+◌, ◌-◌, ◌*◌, ◌/◌, ◌^◌, Bool, ◌||◌, bit_or, ltb, leb, ◌==◌, if◌then◌else◌, sub32, u32,
  clear_mask, has_bits, bit, some,
}
use stlink.Target.{Stlink, World, M, ◌>>=◌, pure, gets, Bank, bank_1, bank_2, Hardware}
use stlink.Target.Chipid.{
  chipid_f2, chipid_f4, chipid_f4_de, chipid_f4_lp, chipid_f4_hd, chipid_f411xx, chipid_f446,
  chipid_f4_dsi, chipid_f72xxx, chipid_f412, chipid_f7, chipid_f76xxx, chipid_l4,
  chipid_l496x_l4a6x, chipid_l4rx,
}
use stlink.Flash.Reg.{flash_l4_optr, flash_l4_optr_dualbank}
use stlink.Access.{load}

abbrev pub stm32_flash_base : ℕ
stm32_flash_base = 0x08000000

abbrev pub stm32_h7_flash_bank2_base : ℕ
stm32_h7_flash_bank2_base = 0x08100000

-- The sector of an offset into one bank, counted from `offset`.
f4_sector : ℕ → ℕ → ℕ
f4_sector offset flashaddr =
    if ltb flashaddr 0x4000
    then offset + 0
    else if ltb flashaddr 0x8000
    then offset + 1
    else if ltb flashaddr 0xc000
    then offset + 2
    else if ltb flashaddr 0x10000
    then offset + 3
    else if ltb flashaddr 0x20000
    then offset + 4
    else u32 (offset + flashaddr / 0x20000 + 4)

pub calculate_f4_sectornum : ℕ → ℕ
unfolding f4_sector
calculate_f4_sectornum addr =
    let flashaddr = clear_mask addr stm32_flash_base in
    if leb 0x100000 flashaddr then f4_sector 12 (flashaddr - 0x100000) else f4_sector 0 flashaddr

pub calculate_f7_sectornum : ℕ → ℕ
calculate_f7_sectornum addr =
    let flashaddr = clear_mask addr stm32_flash_base in
    if ltb flashaddr 0x20000
    then flashaddr / 0x8000
    else if ltb flashaddr 0x40000
    then 4
    else flashaddr / 0x40000 + 4

abbrev bank_base : Bank → ℕ
bank_base bank_1 = stm32_flash_base
bank_base bank_2 = stm32_h7_flash_bank2_base

-- A page size of 0, undefined in the source, gives 0 here.
pub calculate_h7_sectornum : Stlink → ℕ → Bank → ℕ
calculate_h7_sectornum sl flashaddr bank = clear_mask flashaddr (bank_base bank) / sl.flash_pgsz

-- `bker | flashaddr / sl->flash_pgsz`, from the option register and the offset into the flash.
pub l4_page : Stlink → ℕ → ℕ → ℕ
l4_page sl flashopt flashaddr =
    if (sl.chip_id == chipid_l4 || (sl.chip_id == chipid_l496x_l4a6x || sl.chip_id == chipid_l4rx))
    then (if has_bits flashopt (bit flash_l4_optr_dualbank)
        then (let banksize = sl.flash_size / 2 in
            if leb banksize flashaddr
            then bit_or 0x100 ((flashaddr - banksize) / sl.flash_pgsz)
            else flashaddr / sl.flash_pgsz)
        else flashaddr / sl.flash_pgsz)
    else flashaddr / sl.flash_pgsz

unfoldable pub calculate_l4_page : ⦃hw : Hardware⦄ → ℕ → M ℕ
calculate_l4_page flashaddr = do
  flashopt ← load flash_l4_optr
  gets (λ sl. l4_page sl flashopt (sub32 flashaddr stm32_flash_base))

-- The chips with the sectors of the F4, and those with the sectors of the F7.
unfoldable pub is_f4_like : ℕ → Bool
is_f4_like id =
    id == chipid_f2
    || (id == chipid_f4
        || (id == chipid_f4_de
            || (id == chipid_f4_lp
                || (id == chipid_f4_hd
                    || (id == chipid_f411xx
                        || (id == chipid_f446
                            || (id == chipid_f4_dsi
                                || (id == chipid_f72xxx || id == chipid_f412))))))))

unfoldable pub is_f7_like : ℕ → Bool
is_f7_like id = id == chipid_f7 || id == chipid_f76xxx

pub f4_pagesize : ℕ → ℕ
f4_pagesize sector =
    let s = if leb 12 sector then sector - 12 else sector in
    if ltb s 4 then 0x4000 else if ltb s 5 then 0x10000 else 0x20000

pub f7_pagesize : ℕ → ℕ
f7_pagesize sector = if ltb sector 4 then 0x8000 else if ltb sector 5 then 0x20000 else 0x40000

-- The size of the page at an address, and what the context's page size becomes.
unfoldable pub pagesize_at : Stlink → ℕ → ℕ
pagesize_at sl flashaddr =
    if is_f4_like sl.chip_id
    then f4_pagesize (calculate_f4_sectornum flashaddr)
    else if is_f7_like sl.chip_id
    then f7_pagesize (calculate_f7_sectornum flashaddr)
    else sl.flash_pgsz

unfoldable pub calculate_pagesize : ℕ → M ℕ
calculate_pagesize flashaddr w =
    let size = pagesize_at w.sl flashaddr in
    some (size, record w { sl = record (w.sl) { flash_pgsz = size } })
