-- ===== src/Loader/Mode.antt =====
-- src/stlink-lib/flash_loader.c: the programming bit of the control register, and the clock of the
-- DMA controllers while the flash is written.
use stlink.Base.{
  ℕ, Bool, true, false, ◌==◌, Option, none, some, bit, bit_or, bit_and, clear_mask, if◌then◌else◌,
}
use stlink.Target.{
  FlashType, unknown, c0, f0_f1_f3, f1_xl, f2_f4, f7, g0, g4, h7, l0_l1, l4, l5_u5_h5, wb_wl,
  Stlink, Bank, Status, success, failure, Hardware, M, ◌>>=◌, ◌>>◌, pure, gets,
}
use stlink.Access.{store, read_debug32}
use stlink.Flash.Reg
use stlink.Flash.Control.{read_flash_cr, by_bank, get_stm32l0_flash_base}
use stlink.Loader.Init.{FlashLoader}

-- The register that `set_flash_cr_pg` writes. It falls back to the bank's own.
unfoldable pub set_pg_register : FlashType → Bank → ℕ
set_pg_register c0 bank = Reg.flash_c0_cr
set_pg_register f2_f4 bank = Reg.flash_f4_cr
set_pg_register f7 bank = Reg.flash_f7_cr
set_pg_register l4 bank = Reg.flash_l4_cr
set_pg_register l5_u5_h5 bank = Reg.flash_l5_nscr
set_pg_register g0 bank = Reg.flash_gx_cr
set_pg_register g4 bank = Reg.flash_gx_cr
set_pg_register wb_wl bank = Reg.flash_wb_cr
set_pg_register h7 bank = by_bank bank Reg.flash_h7_cr1 Reg.flash_h7_cr2
set_pg_register _ bank = by_bank bank Reg.flash_cr Reg.flash_cr2

-- The value that is written, from the one that was read: the fallback drops the other bits.
unfoldable pub set_pg_value : FlashType → ℕ → ℕ
set_pg_value l4 x = bit_or (clear_mask x Reg.flash_l4_cr_opbits) (bit Reg.flash_l4_cr_pg)
set_pg_value h7 x = bit_or x (bit Reg.flash_h7_cr_pg)
set_pg_value f0_f1_f3 x = bit Reg.flash_cr_pg
set_pg_value f1_xl x = bit Reg.flash_cr_pg
set_pg_value l0_l1 x = bit Reg.flash_cr_pg
set_pg_value unknown x = bit Reg.flash_cr_pg
set_pg_value _ x = bit_or x (bit Reg.flash_cr_pg)

-- The clock enable register and the bits of the DMA controllers; none for other types.
unfoldable pub dma_enable : Stlink → FlashType → Option (ℕ × ℕ)
dma_enable sl c0 = some (0x40021038, 0x1)
dma_enable sl f0_f1_f3 = some (0x40021014, 0x3)
dma_enable sl f1_xl = some (0x40021014, 0x3)
dma_enable sl f2_f4 = some (0x40023830, 0x600000)
dma_enable sl f7 = some (0x40023830, 0x600000)
dma_enable sl g0 = some (0x40021038, 0x3)
dma_enable sl g4 = some (0x40021048, 0x3)
dma_enable sl l4 = some (0x40021048, 0x3)
dma_enable sl l0_l1 =
    if get_stm32l0_flash_base sl == Reg.flash_lx_regs_addr
    then some (0x4002381c, 0x30000000)
    else some (0x40021030, 0x1)
dma_enable sl l5_u5_h5 = some (0x40021048, 0x3)
dma_enable sl h7 = some (0x58024538, 0x3)
dma_enable sl wb_wl = some (0x58000048, 0x3)
dma_enable sl unknown = none

module _ ⦃hw : Hardware⦄ where
  unfoldable pub set_flash_cr_pg : Bank → M (Unit {0})
  set_flash_cr_pg bank = do
    x ← read_flash_cr bank
    t ← gets (λ sl. sl.flash_type)
    store (set_pg_register t bank) (set_pg_value t x)

  -- The bits are kept in the loader and cleared, or put back.
  unfoldable pub change_dma : ℕ → ℕ → FlashLoader → Bool → Status × ℕ → M FlashLoader
  change_dma rcc mask fl bckp_rstr (failure, value) = pure fl
  change_dma rcc mask fl true (success, value) =
      store rcc (bit_or (clear_mask value mask) fl.rcc_dma_bkp) >> pure fl
  change_dma rcc mask fl false (success, value) =
      store rcc (clear_mask value mask) >> pure (record fl { rcc_dma_bkp = bit_and value mask })

  unfoldable pub dma_at : Option (ℕ × ℕ) → FlashLoader → Bool → M FlashLoader
  dma_at none fl bckp_rstr = pure fl
  dma_at (some (rcc, mask)) fl bckp_rstr = do
    r ← read_debug32 rcc 0
    change_dma rcc mask fl bckp_rstr r

  unfoldable pub set_dma_state : FlashLoader → Bool → M FlashLoader
  set_dma_state fl bckp_rstr = do
    d ← gets (λ sl. dma_enable sl sl.flash_type)
    dma_at d fl bckp_rstr
