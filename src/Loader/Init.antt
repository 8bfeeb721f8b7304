-- ===== src/Loader/Init.antt =====
-- src/stlink-lib/flash_loader.c: the choice of the program, and its transfer to SRAM.
use stlink.Base.{
  ℕ, ◌%◌, ◌^◌, Bool, false, ◌==◌, ◌||◌, ltb, Option, none, some, List, [], ◌∷◌, length, add32, bit,
  bit_or, if◌then◌else◌,
}
use stlink.Target.{
  FlashType, h7, Stlink, Status, success, failure, Hardware, M, ◌>>=◌, ◌>>◌, pure, gets, skip,
  uninitialised,
}
use stlink.Target.Chipid.{
  chipid_l1_md, chipid_l1_cat2, chipid_l1_md_plus, chipid_l1_md_plus_hd, chipid_l152_re,
  chipid_l0_cat1, chipid_l0_cat2, chipid_l0_cat3, chipid_l0_cat5, chipid_f1_md, chipid_f1_hd,
  chipid_f1_ld, chipid_f1_vl_md_ld, chipid_f1_vl_hd, chipid_f1_xld, chipid_f1_conn, chipid_f3,
  chipid_f3xx_small, chipid_f303_hd, chipid_f37x, chipid_f334, chipid_f2, chipid_f4, chipid_f4_de,
  chipid_f4_lp, chipid_f4_hd, chipid_f4_dsi, chipid_f410, chipid_f411xx, chipid_f412, chipid_f413,
  chipid_f446, chipid_f7, chipid_f76xxx, chipid_f72xxx, chipid_f0, chipid_f04, chipid_f0_can,
  chipid_f0xx_small, chipid_f09x, chipid_l4, chipid_l41x_l42x, chipid_l43x_l44x, chipid_l45x_l46x,
  chipid_l4rx, chipid_l496x_l4a6x,
}
use stlink.Access.{store, read_debug32, fill_buffer, write_mem32}
use stlink.Core.{target_voltage}
use stlink.Loader.Code.{
  loader_code_stm32vl, loader_code_stm32f0, loader_code_stm32lx, loader_code_stm32f4,
  loader_code_stm32f4_lv, loader_code_stm32l4, loader_code_stm32f7, loader_code_stm32f7_lv,
}

-- `flash_loader_t`
pub record FlashLoader : Type 0 where
  pub loader_addr : ℕ
  pub buf_addr : ℕ
  pub rcc_dma_bkp : ℕ
  pub iwdg_kr : ℕ

-- The core ids that choose a program: STM32_CORE_ID_M3_r1p1_SWD and STM32_CORE_ID_M7F_SWD.
abbrev pub core_id_m3_r1p1_swd : ℕ
core_id_m3_r1p1_swd = 0x1ba01477

abbrev pub core_id_m7f_swd : ℕ
core_id_m7f_swd = 0x5ba02477

-- STM32H7_WDG_KR and STM32F0_WDG_KR
abbrev pub wdg_kr : FlashType → ℕ
wdg_kr h7 = 0x58004800
wdg_kr _ = 0x40003000

-- Registers of the debug unit, and the bits of DHCSR, of src/stlink-lib/register.h.
abbrev pub dhcsr : ℕ
dhcsr = 0xe000edf0

abbrev pub dfsr : ℕ
dfsr = 0xe000ed30

abbrev pub cfsr : ℕ
cfsr = 0xe000ed28

abbrev pub hfsr : ℕ
hfsr = 0xe000ed2c

abbrev pub dhcsr_dbgkey : ℕ
dhcsr_dbgkey = 0xa05f0000

abbrev pub dhcsr_c_debugen : ℕ
dhcsr_c_debugen = bit 0

abbrev pub dhcsr_c_halt : ℕ
dhcsr_c_halt = bit 1

abbrev pub dhcsr_c_maskints : ℕ
dhcsr_c_maskints = bit 3

-- A chain of `==` joined by `||`.
unfoldable pub is_one_of : ℕ → List ℕ → Bool
is_one_of x [] = false
is_one_of x (y ∷ ys) = x == y || is_one_of x ys

unfoldable pub uses_lx : Stlink → Bool
uses_lx sl = is_one_of sl.chip_id (
    chipid_l1_md ∷ chipid_l1_cat2 ∷ chipid_l1_md_plus ∷ chipid_l1_md_plus_hd ∷ chipid_l152_re
    ∷ chipid_l0_cat1 ∷ chipid_l0_cat2 ∷ chipid_l0_cat3 ∷ chipid_l0_cat5 ∷ [])

unfoldable pub uses_vl : Stlink → Bool
uses_vl sl =
    sl.core_id == core_id_m3_r1p1_swd
    || is_one_of sl.chip_id (
        chipid_f1_md ∷ chipid_f1_hd ∷ chipid_f1_ld ∷ chipid_f1_vl_md_ld ∷ chipid_f1_vl_hd
        ∷ chipid_f1_xld ∷ chipid_f1_conn ∷ chipid_f3 ∷ chipid_f3xx_small ∷ chipid_f303_hd
        ∷ chipid_f37x ∷ chipid_f334 ∷ [])

unfoldable pub uses_f4 : Stlink → Bool
uses_f4 sl = is_one_of sl.chip_id (
    chipid_f2 ∷ chipid_f4 ∷ chipid_f4_de ∷ chipid_f4_lp ∷ chipid_f4_hd ∷ chipid_f4_dsi ∷ chipid_f410
    ∷ chipid_f411xx ∷ chipid_f412 ∷ chipid_f413 ∷ chipid_f446 ∷ [])

unfoldable pub uses_f7 : Stlink → Bool
uses_f7 sl =
    sl.core_id == core_id_m7f_swd
    || is_one_of sl.chip_id (chipid_f7 ∷ chipid_f76xxx ∷ chipid_f72xxx ∷ [])

unfoldable pub uses_f0 : Stlink → Bool
uses_f0 sl =
    is_one_of sl.chip_id
      (chipid_f0 ∷ chipid_f04 ∷ chipid_f0_can ∷ chipid_f0xx_small ∷ chipid_f09x ∷ [])

unfoldable pub uses_l4 : Stlink → Bool
uses_l4 sl = is_one_of sl.chip_id (
    chipid_l4 ∷ chipid_l41x_l42x ∷ chipid_l43x_l44x ∷ chipid_l45x_l46x ∷ chipid_l4rx
    ∷ chipid_l496x_l4a6x ∷ [])

-- The program for the voltage; `none` where it cannot be read.
unfoldable pub for_voltage : List ℕ → List ℕ → Option ℕ → Option (List ℕ)
for_voltage high low none = none
for_voltage high low (some voltage) = if ltb 2700 voltage then some high else some low

module _ ⦃hw : Hardware⦄ where
  unfoldable pub loader_v_dependent_assignment : List ℕ → List ℕ → M (Option (List ℕ))
  loader_v_dependent_assignment high low = do
    v ← gets (λ sl. sl.stlink_v)
    if v == 1
        then pure (some high)
        else (do voltage ← target_voltage; pure (for_voltage high low voltage))

  -- The first branch of the chain of tests that applies.
  unfoldable pub choose_loader : M (Option (List ℕ))
  choose_loader = do
    sl ← gets (λ sl. sl)
    if uses_lx sl
        then pure (some loader_code_stm32lx)
        else if uses_vl sl
        then pure (some loader_code_stm32vl)
        else if uses_f4 sl
        then loader_v_dependent_assignment loader_code_stm32f4 loader_code_stm32f4_lv
        else if uses_f7 sl
        then loader_v_dependent_assignment loader_code_stm32f7 loader_code_stm32f7_lv
        else if uses_f0 sl
        then pure (some loader_code_stm32f0)
        else if uses_l4 sl
        then pure (some loader_code_stm32l4)
        else pure none

  -- The address and the size of the program in SRAM; `none` on an error.
  unfoldable pub placed : ℕ → ℕ → Status → Option (ℕ × ℕ)
  placed addr size failure = none
  placed addr size success = some (addr, size)

  unfoldable pub place_loader : Option (List ℕ) → M (Option (ℕ × ℕ))
  place_loader none = pure none
  place_loader (some code) = do
    fill_buffer code
    base ← gets (λ sl. sl.sram_base)
    s ← write_mem32 base (length code % 2 ^ 16)
    pure (placed base (length code) s)

  unfoldable pub flash_loader_write_to_sram : M (Option (ℕ × ℕ))
  flash_loader_write_to_sram = do code ← choose_loader; place_loader code

  -- A fault status that reads as other than 0 is written back, which clears it.
  unfoldable pub clear_read : ℕ → Status × ℕ → M (Unit {0})
  clear_read reg (failure, v) = skip
  clear_read reg (success, v) = if v == 0 then skip else store reg v

  unfoldable pub clear_fault : ℕ → M (Unit {0})
  clear_fault reg = do old ← uninitialised; r ← read_debug32 reg old; clear_read reg r

  unfoldable pub init_placed : FlashLoader → Option (ℕ × ℕ) → M (Status × FlashLoader)
  init_placed fl none = pure (failure, fl)
  init_placed fl (some (addr, size)) = do
    t ← gets (λ sl. sl.flash_type)
    clear_fault dfsr
    clear_fault cfsr
    clear_fault hfsr
    pure (success, record fl { loader_addr = addr; buf_addr = add32 addr size; iwdg_kr = wdg_kr t })

  -- The core is halted first, and then its interrupts are masked.
  unfoldable pub flash_loader_init : FlashLoader → M (Status × FlashLoader)
  flash_loader_init fl = do
    let halt = bit_or (bit_or dhcsr_dbgkey dhcsr_c_debugen) dhcsr_c_halt
    store dhcsr halt
    store dhcsr (bit_or halt dhcsr_c_maskints)
    at ← flash_loader_write_to_sram
    init_placed fl at

  -- The local `fl` of a caller.
  unfoldable pub fresh_loader : M FlashLoader
  fresh_loader = do
    a ← uninitialised
    pure (record { loader_addr = a; buf_addr = a; rcc_dma_bkp = a; iwdg_kr = a })
