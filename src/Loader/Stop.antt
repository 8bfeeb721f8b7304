-- ===== src/Loader/Stop.antt =====
-- src/stlink-lib/flash_loader.c: `stlink_flashloader_stop`.
pub mod Locked
use stlink.Base.{ℕ, ◌+◌, true, bit, bit_or, clear_mask, if◌then◌else◌}
use stlink.Target.{
  FlashType, unknown, l0_l1, bank_1, bank_2, Status, success, failure, Hardware, M, ◌>>=◌, ◌>>◌,
  pure, gets, skip, uninitialised,
}
use stlink.Access.{store, load, read_debug32}
use stlink.Flash.Reg
use stlink.Flash.Control.{get_stm32l0_flash_base, clear_flash_cr_pg}
use stlink.Flash.Status.{polls_bank_2}
use stlink.Flash.Lock.{lock_flash}
use stlink.Loader.Init.{FlashLoader, dhcsr, dhcsr_dbgkey, dhcsr_c_debugen, dhcsr_c_maskints}
use stlink.Loader.Mode.{set_dma_state}

module _ ⦃hw : Hardware⦄ where
  unfoldable pub stop_programming : M (Unit {0})
  stop_programming = do
    clear_flash_cr_pg bank_1
    two ← gets polls_bank_2
    if two then clear_flash_cr_pg bank_2 else skip
    lock_flash

  unfoldable pub stop_l0 : M (Unit {0})
  stop_l0 = do
    regs ← gets get_stm32l0_flash_base
    val ← load (regs + Reg.flash_pecr_off)
    store (regs + Reg.flash_pecr_off) (bit_or val (bit_or (bit_or (bit 0) (bit 1)) (bit 2)))

  unfoldable pub stop_by_type : FlashType → M (Unit {0})
  stop_by_type l0_l1 = stop_l0
  stop_by_type unknown = skip
  stop_by_type _ = stop_programming

  unfoldable pub unmask_read : Status × ℕ → M (Unit {0})
  unmask_read (failure, v) = skip
  unmask_read (success, v) =
      store dhcsr (bit_or (bit_or dhcsr_dbgkey dhcsr_c_debugen) (clear_mask v dhcsr_c_maskints))

  unfoldable pub unmask_interrupts : M (Unit {0})
  unmask_interrupts = do old ← uninitialised; r ← read_debug32 dhcsr old; unmask_read r

  unfoldable pub flashloader_stop : FlashLoader → M Status
  flashloader_stop fl = do
    t ← gets (λ sl. sl.flash_type)
    stop_by_type t
    unmask_interrupts
    on ← set_dma_state fl true
    pure success
