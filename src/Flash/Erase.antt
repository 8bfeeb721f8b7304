-- ===== src/Flash/Erase.antt =====
-- src/stlink-lib/common_flash.c: `stlink_erase_flash_page` and `stlink_erase_flash_mass`, without
-- the sections, for each family of flash controllers.
pub mod Keeps
pub mod Returns
pub mod Locked
use stlink.Base.{
  ℕ, ◌+◌, ◌-◌, ◌*◌, ◌/◌, Bool, true, false, not, ◌&&◌, ◌||◌, ◌==◌, ltb, leb, bit_or, bit_and, bit,
  clear_mask, has_bits, sub32, u32, if◌then◌else◌,
}
use stlink.Target.{
  Stlink, FlashType, unknown, c0, f0_f1_f3, f1_xl, f2_f4, f7, g0, g4, h7, l0_l1, l4, l5_u5_h5,
  wb_wl, Bank, bank_1, bank_2, Status, success, failure, Hardware, M, ◌>>=◌, ◌>>◌, pure, gets, skip,
}
use stlink.Target.Chipid.{chipid_f7, chipid_f76xxx, chipid_h7ax}
use stlink.Access.{load, store, read_debug32}
use stlink.Calculate.{
  stm32_flash_base, stm32_h7_flash_bank2_base, calculate_f4_sectornum, calculate_f7_sectornum,
  calculate_h7_sectornum, calculate_l4_page, calculate_pagesize,
}
use stlink.Flash.Reg
use stlink.Flash.Control.{
  get_stm32l0_flash_base, has_dual_bank, write_flash_cr_psiz, clear_flash_cr_pg, write_flash_ar,
  write_flash_cr_snb, set_flash_cr_per, clear_flash_cr_per, write_flash_cr_bker_pnb,
  set_flash_cr_strt, set_flash_cr_mer,
}
use stlink.Flash.Status.{clear_flash_error, wait_flash_busy, check_flash_error, polls_bank_2, is_h7}
use stlink.Flash.Lock.{lock_flash, unlock_flash_if}

abbrev pub stm32_f1_flash_bank2_base : ℕ
stm32_f1_flash_bank2_base = 0x08080000

-- The F4's sector as its SNB value: those of the second bank begin at 16.
unfoldable pub f4_snb : ℕ → ℕ
f4_snb flashaddr =
    let sector = calculate_f4_sectornum flashaddr in if leb 12 sector then sector + 4 else sector

-- `(flashaddr - STM32_FLASH_BASE) / sl->flash_pgsz`
abbrev flash_page : Stlink → ℕ → ℕ
flash_page sl flashaddr = sub32 flashaddr stm32_flash_base / sl.flash_pgsz

-- The G4 needs the bank too, on parts of more than 128K.
unfoldable pub g4_cr : Stlink → ℕ → ℕ → ℕ
g4_cr sl flashaddr val =
    let page = flash_page sl flashaddr in
    let a = clear_mask val (0x7ff * bit 3) in
    let b = clear_mask a (bit_or (bit Reg.flash_gx_cr_mer1) (bit Reg.flash_gx_cr_mer2)) in
    let c = clear_mask b (bit Reg.flash_gx_cr_pg) in
    let d =
      if ltb (128 * 1024) sl.flash_size
        && leb (sl.flash_size / 2) (sub32 flashaddr stm32_flash_base)
      then bit_or c (bit Reg.flash_gx_cr_bker)
      else clear_mask c (bit Reg.flash_gx_cr_bker) in
    bit_or d (bit_or (bit_and page 0x7ff * bit 3) (bit Reg.flash_cr_per))

unfoldable pub l5_cr : Stlink → ℕ → ℕ → ℕ
l5_cr sl flashaddr val =
    let off = sub32 flashaddr stm32_flash_base in
    let second =
      (sl.flash_pgsz == 0x800 || sl.flash_pgsz == 0x2000) && leb (sl.flash_size / 2) off in
    let page =
      if second then sub32 off (sl.flash_size / 2) / sl.flash_pgsz else off / sl.flash_pgsz in
    let a =
      if second
      then bit_or val (bit Reg.flash_l5_nscr_nsbker)
      else clear_mask val (bit Reg.flash_l5_nscr_nsbker) in
    bit_or (clear_mask a (0xff * bit 3)) (bit_or (bit_and page 0xff * bit 3) (bit Reg.flash_cr_per))

-- The control register with the page to erase, on the families that number pages in it.
unfoldable pub page_cr : Stlink → FlashType → ℕ → ℕ → ℕ
page_cr sl g0 flashaddr val =
    bit_or (clear_mask val (0x3ff * bit 3))
      (bit_or (bit_and (flash_page sl flashaddr) 0x3ff * bit 3) (bit Reg.flash_cr_per))
page_cr sl g4 flashaddr val = g4_cr sl flashaddr val
page_cr sl l5_u5_h5 flashaddr val = l5_cr sl flashaddr val
page_cr sl wb_wl flashaddr val =
    bit_or (clear_mask val (0xff * bit 3)) (bit_and (flash_page sl flashaddr) 0xff * bit 3)
page_cr sl c0 flashaddr val =
    bit_or (clear_mask val (0xf * bit Reg.flash_c0_cr_pnb))
      (bit_and (flash_page sl flashaddr) 0xf * bit Reg.flash_c0_cr_pnb)
page_cr sl _ flashaddr val = val

unfoldable pub page_cr_register : FlashType → ℕ
page_cr_register l5_u5_h5 = Reg.flash_l5_nscr
page_cr_register wb_wl = Reg.flash_wb_cr
page_cr_register c0 = Reg.flash_c0_cr
page_cr_register _ = Reg.flash_gx_cr

abbrev pub is_l4 : FlashType → Bool
is_l4 l4 = true
is_l4 _ = false

module _ ⦃hw : Hardware⦄ where
  -- F2, F4, F7 and L4: the sector or page goes into the control register. The page size that is
  -- printed is computed on the way, and kept in the context.
  unfoldable pub select_sector : ℕ → M (Unit {0})
  select_sector flashaddr = do
    sl ← gets (λ sl. sl)
    if is_l4 sl.flash_type
        then (do
          page ← calculate_l4_page flashaddr
          calculate_pagesize flashaddr
          write_flash_cr_bker_pnb page)
        else (do
          calculate_pagesize flashaddr
          write_flash_cr_snb
              (if sl.chip_id == chipid_f7 || sl.chip_id == chipid_f76xxx
                then calculate_f7_sectornum flashaddr
                else f4_snb flashaddr)
              bank_1)

  -- L0 and L1: the locks are opened if either is set, and one that stays set ends the erase.
  unfoldable pub unlock_l0 : ℕ → ℕ → M (Status × ℕ)
  unlock_l0 base val =
      if has_bits val (bit 0) || has_bits val (bit 1)
      then (do
        store (base + Reg.flash_pekeyr_off) Reg.flash_l0_pekey1
        store (base + Reg.flash_pekeyr_off) Reg.flash_l0_pekey2
        r ← read_debug32 (base + Reg.flash_pecr_off) val
        if has_bits r.1 (bit 0) then pure (failure, r.1) else (do
          store (base + Reg.flash_prgkeyr_off) Reg.flash_l0_prgkey1
          store (base + Reg.flash_prgkeyr_off) Reg.flash_l0_prgkey2
          s ← read_debug32 (base + Reg.flash_pecr_off) r.1
          pure ((if has_bits s.1 (bit 1) then failure else success), s.1)))
      else pure (success, val)

module _ ⦃hw : Hardware⦄ (fuel : ℕ) where
  unfoldable pub erase_by_sector : ℕ → M (Unit {0})
  erase_by_sector flashaddr = do
    unlock_flash_if
    select_sector flashaddr
    set_flash_cr_strt bank_1
    wait_flash_busy fuel
    lock_flash

  -- The erase and program bits are set, 0 is written to the page, and the locks are set again.
  unfoldable pub erase_unlocked_l0 : ℕ → ℕ → Status × ℕ → M Status
  erase_unlocked_l0 base flashaddr (failure, val) = pure failure
  erase_unlocked_l0 base flashaddr (success, val) = do
    let armed = bit_or val (bit_or (bit 9) (bit 3))
    store (base + Reg.flash_pecr_off) armed
    store flashaddr 0
    wait_flash_busy fuel
    s ← read_debug32 (base + Reg.flash_pecr_off) armed
    store (base + Reg.flash_pecr_off) (bit_or s.1 (bit_or (bit_or (bit 0) (bit 1)) (bit 2)))
    pure success

  unfoldable pub erase_l0 : ℕ → M Status
  erase_l0 flashaddr = do
    base ← gets get_stm32l0_flash_base
    val ← load (base + Reg.flash_pecr_off)
    r ← unlock_l0 base val
    erase_unlocked_l0 base flashaddr r

  -- C0, G0, G4, L5, U5, H5, WB and WL.
  unfoldable pub erase_by_page : ℕ → M (Unit {0})
  erase_by_page flashaddr = do
    unlock_flash_if
    set_flash_cr_per bank_1
    sl ← gets (λ sl. sl)
    val ← load (page_cr_register sl.flash_type)
    store (page_cr_register sl.flash_type) (page_cr sl sl.flash_type flashaddr val)
    set_flash_cr_strt bank_1
    wait_flash_busy fuel
    clear_flash_cr_per bank_1
    lock_flash

  -- F0, F1, F3 and F1_XL: the page is given by its address.
  unfoldable pub erase_by_address : ℕ → M (Unit {0})
  erase_by_address flashaddr = do
    let bank = if ltb flashaddr stm32_f1_flash_bank2_base then bank_1 else bank_2
    unlock_flash_if
    clear_flash_cr_pg bank
    set_flash_cr_per bank
    write_flash_ar flashaddr bank
    set_flash_cr_strt bank
    wait_flash_busy fuel
    clear_flash_cr_per bank
    lock_flash

  unfoldable pub erase_h7 : ℕ → M (Unit {0})
  erase_h7 flashaddr = do
    let bank = if ltb flashaddr stm32_h7_flash_bank2_base then bank_1 else bank_2
    unlock_flash_if
    sector ← gets (λ sl. calculate_h7_sectornum sl flashaddr bank)
    write_flash_cr_snb sector bank
    set_flash_cr_strt bank
    wait_flash_busy fuel
    lock_flash

  -- The result is -1 at once for an unknown type and for an L0 that stays locked.
  unfoldable pub erase_by_type : FlashType → ℕ → M Status
  erase_by_type f2_f4 flashaddr = erase_by_sector flashaddr >> pure success
  erase_by_type f7 flashaddr = erase_by_sector flashaddr >> pure success
  erase_by_type l4 flashaddr = erase_by_sector flashaddr >> pure success
  erase_by_type l0_l1 flashaddr = erase_l0 flashaddr
  erase_by_type g0 flashaddr = erase_by_page flashaddr >> pure success
  erase_by_type g4 flashaddr = erase_by_page flashaddr >> pure success
  erase_by_type l5_u5_h5 flashaddr = erase_by_page flashaddr >> pure success
  erase_by_type wb_wl flashaddr = erase_by_page flashaddr >> pure success
  erase_by_type c0 flashaddr = erase_by_page flashaddr >> pure success
  erase_by_type f0_f1_f3 flashaddr = erase_by_address flashaddr >> pure success
  erase_by_type f1_xl flashaddr = erase_by_address flashaddr >> pure success
  erase_by_type h7 flashaddr = erase_h7 flashaddr >> pure success
  erase_by_type unknown flashaddr = pure failure

  -- `return check_flash_error(sl)` where no branch returned before.
  unfoldable pub finish_erase : Status → M Status
  finish_erase failure = pure failure
  finish_erase success = check_flash_error

  unfoldable pub erase_flash_page : ℕ → M Status
  erase_flash_page flashaddr = do
    wait_flash_busy fuel
    clear_flash_error
    t ← gets (λ sl. sl.flash_type)
    s ← erase_by_type t flashaddr
    finish_erase s

  -- Mass erase by the MER bit. Progress dots apart, the wait is `wait_flash_busy`.
  unfoldable pub erase_all_at_once : M Status
  erase_all_at_once = do
    wait_flash_busy fuel
    clear_flash_error
    unlock_flash_if
    sl ← gets (λ sl. sl)
    if is_h7 sl.flash_type && not (sl.chip_id == chipid_h7ax)
        then (do
          write_flash_cr_psiz 3 bank_1
          if has_dual_bank sl then write_flash_cr_psiz 3 bank_2 else skip)
        else skip
    set_flash_cr_mer true bank_1
    set_flash_cr_strt bank_1
    if polls_bank_2 sl then (set_flash_cr_mer true bank_2 >> set_flash_cr_strt bank_2) else skip
    wait_flash_busy fuel
    lock_flash
    set_flash_cr_mer false bank_1
    if polls_bank_2 sl then set_flash_cr_mer false bank_2 else skip
    check_flash_error
