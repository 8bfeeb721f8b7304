-- ===== src/Loader/Start.antt =====
-- src/stlink-lib/flash_loader.c: `stlink_flashloader_start` for each family.
use stlink.Base.{ℕ, ◌+◌, false, ◌==◌, ltb, Option, none, some, bit, has_bits, if◌then◌else◌}
use stlink.Target.{
  FlashType, unknown, c0, f0_f1_f3, f1_xl, f2_f4, f7, g0, g4, h7, l0_l1, l4, l5_u5_h5, wb_wl,
  Stlink, bank_1, bank_2, Status, success, failure, Hardware, M, ◌>>=◌, ◌>>◌, pure, gets, skip,
}
use stlink.Target.Chipid.{chipid_h7ax}
use stlink.Access.{store, load, read_debug32}
use stlink.Core.{target_voltage}
use stlink.Flash.Reg
use stlink.Flash.Control.{get_stm32l0_flash_base, has_dual_bank, write_flash_cr_psiz}
use stlink.Flash.Status.{wait_flash_busy, clear_flash_error, is_f1_xl}
use stlink.Flash.Lock.{unlock_flash_if}
use stlink.Flash.Erase.{is_l4}
use stlink.Loader.Init.{FlashLoader, flash_loader_init}
use stlink.Loader.Mode.{set_flash_cr_pg, set_dma_state}

module _ ⦃hw : Hardware⦄ where
  -- An ST-Link V1 cannot read the voltage.
  unfoldable pub supply_voltage : M (Option ℕ)
  supply_voltage = do
    v ← gets (λ sl. sl.stlink_v)
    if v == 1 then pure (some 3200) else target_voltage

  -- 32-bit writes above 2.7 V, 8-bit writes up to it; the L4 needs 1.71 V.
  unfoldable pub set_width : ℕ → M (Unit {0})
  set_width voltage =
      if ltb 2700 voltage then write_flash_cr_psiz 2 bank_1 else write_flash_cr_psiz 0 bank_1

  unfoldable pub at_voltage : FlashLoader → Option ℕ → M (Status × FlashLoader)
  at_voltage fl none = pure (failure, fl)
  at_voltage fl (some voltage) = do
    t ← gets (λ sl. sl.flash_type)
    if is_l4 t
        then (if ltb voltage 1710
            then pure (failure, fl)
            else set_flash_cr_pg bank_1 >> pure (success, fl))
        else set_width voltage >> set_flash_cr_pg bank_1 >> pure (success, fl)

  -- F2, F4, F7 and L4.
  unfoldable pub start_at_voltage : Status × FlashLoader → M (Status × FlashLoader)
  start_at_voltage (failure, fl) = pure (failure, fl)
  start_at_voltage (success, fl) = do
    s ← unlock_flash_if
    voltage ← supply_voltage
    at_voltage fl voltage

  -- WB, WL, G0, G4, L5, U5, H5 and C0.
  unfoldable pub start_words : FlashLoader → M (Status × FlashLoader)
  start_words fl = do s ← unlock_flash_if; set_flash_cr_pg bank_1; pure (success, fl)

  -- A program that could not be placed in SRAM is no error: half pages have another way.
  unfoldable pub start_prg : ℕ → FlashLoader → ℕ → M (Status × FlashLoader)
  start_prg regs fl val = if has_bits val (bit 0) then pure (failure, fl) else (do
    store (regs + Reg.flash_prgkeyr_off) Reg.flash_l0_prgkey1
    store (regs + Reg.flash_prgkeyr_off) Reg.flash_l0_prgkey2
    r ← read_debug32 (regs + Reg.flash_pecr_off) val
    if has_bits r.1 (bit 1)
        then pure (failure, fl)
        else (do s ← flash_loader_init fl; pure (success, s.1)))

  unfoldable pub start_l0 : FlashLoader → M (Status × FlashLoader)
  start_l0 fl = do
    regs ← gets get_stm32l0_flash_base
    store (regs + Reg.flash_pekeyr_off) Reg.flash_l0_pekey1
    store (regs + Reg.flash_pekeyr_off) Reg.flash_l0_pekey2
    val ← load (regs + Reg.flash_pecr_off)
    start_prg regs fl val

  -- F0, F1, F3 and F1_XL.
  unfoldable pub start_f1 : Status × FlashLoader → M (Status × FlashLoader)
  start_f1 (failure, fl) = pure (failure, fl)
  start_f1 (success, fl) = do
    s ← unlock_flash_if
    set_flash_cr_pg bank_1
    t ← gets (λ sl. sl.flash_type)
    if is_f1_xl t then set_flash_cr_pg bank_2 else skip
    pure (success, fl)

  -- 64-bit writes, but for the H7Ax.
  unfoldable pub set_parallelism : Stlink → M (Unit {0})
  set_parallelism sl = if sl.chip_id == chipid_h7ax then skip else (do
    write_flash_cr_psiz 3 bank_1
    if has_dual_bank sl then write_flash_cr_psiz 3 bank_2 else skip)

  unfoldable pub start_h7 : FlashLoader → M (Status × FlashLoader)
  start_h7 fl = do
    s ← unlock_flash_if
    set_flash_cr_pg bank_1
    sl ← gets (λ sl. sl)
    if has_dual_bank sl then set_flash_cr_pg bank_2 else skip
    set_parallelism sl
    pure (success, fl)

  unfoldable pub start_by_type : FlashType → FlashLoader → M (Status × FlashLoader)
  start_by_type f2_f4 fl = flash_loader_init fl >>= start_at_voltage
  start_by_type f7 fl = flash_loader_init fl >>= start_at_voltage
  start_by_type l4 fl = flash_loader_init fl >>= start_at_voltage
  start_by_type wb_wl fl = start_words fl
  start_by_type g0 fl = start_words fl
  start_by_type g4 fl = start_words fl
  start_by_type l5_u5_h5 fl = start_words fl
  start_by_type c0 fl = start_words fl
  start_by_type l0_l1 fl = start_l0 fl
  start_by_type f0_f1_f3 fl = flash_loader_init fl >>= start_f1
  start_by_type f1_xl fl = flash_loader_init fl >>= start_f1
  start_by_type h7 fl = start_h7 fl
  start_by_type unknown fl = pure (failure, fl)

  -- The status of every `unlock_flash_if` is ignored.
  unfoldable pub flashloader_start : ℕ → FlashLoader → M (Status × FlashLoader)
  flashloader_start fuel fl = do
    off ← set_dma_state fl false
    wait_flash_busy fuel
    clear_flash_error
    t ← gets (λ sl. sl.flash_type)
    start_by_type t off
