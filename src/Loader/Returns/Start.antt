-- ===== src/Loader/Returns/Start.antt =====
-- Termination of the start and the stop.
use stlink.Base.{ℕ, Bool, true, false, Option, some, none}
use stlink.Target.{
  Stlink, FlashType, unknown, f0_f1_f3, f1_xl, f2_f4, f7, h7, l0_l1, l4, Bank, Status, success,
  failure, Hardware,
}
use stlink.Target.Returns.{Returns}
use stlink.Core.Returns.{SameParams, access_rules, target_voltage-Returns}
use stlink.Flash.Status.{wait_flash_busy}
use stlink.Flash.Returns.{
  read_flash_cr-Returns, write_flash_cr_psiz-Returns, clear_flash_cr_pg-Returns,
  clear_flash_error-Returns, lock_flash-Returns, unlock_flash_if-Returns,
}
use stlink.Loader.Init.{FlashLoader}
use stlink.Loader.Returns.{flash_loader_init-Returns}
use stlink.Loader.Mode.{set_flash_cr_pg, change_dma, dma_at, set_dma_state}
use stlink.Loader.Start.{
  supply_voltage, set_width, at_voltage, start_at_voltage, start_words, start_prg, start_l0,
  start_f1, set_parallelism, start_h7, start_by_type, flashloader_start,
}
use stlink.Loader.Stop.{
  stop_programming, stop_l0, stop_by_type, unmask_read, unmask_interrupts, flashloader_stop,
}

module _ ⦃hw : Hardware⦄ {c : Stlink} where
  set_flash_cr_pg-Returns : (b : Bank) → Returns (SameParams c) (set_flash_cr_pg b)
  unfolding set_flash_cr_pg
  set_flash_cr_pg-Returns b = search (access_rules, read_flash_cr-Returns)

  change_dma-Returns :
      (a m : ℕ) (fl : FlashLoader) (back : Bool) (r : Status × ℕ)
      → Returns (SameParams c) (change_dma a m fl back r)
  unfolding change_dma
  change_dma-Returns a m fl back (failure, v) = search access_rules
  change_dma-Returns a m fl true (success, v) = search access_rules
  change_dma-Returns a m fl false (success, v) = search access_rules

  dma_at-Returns :
      (o : Option (ℕ × ℕ)) (fl : FlashLoader) (back : Bool)
      → Returns (SameParams c) (dma_at o fl back)
  unfolding dma_at
  dma_at-Returns none fl back = search access_rules
  dma_at-Returns (some p) fl back = search (access_rules, change_dma-Returns)

  set_dma_state-Returns :
      (fl : FlashLoader) (back : Bool) → Returns (SameParams c) (set_dma_state fl back)
  unfolding set_dma_state
  set_dma_state-Returns fl back = search (access_rules, dma_at-Returns)

  supply_voltage-Returns : Returns (SameParams c) supply_voltage
  unfolding supply_voltage
  supply_voltage-Returns = search (access_rules, target_voltage-Returns)

  set_width-Returns : (v : ℕ) → Returns (SameParams c) (set_width v)
  unfolding set_width
  set_width-Returns v = search (access_rules, write_flash_cr_psiz-Returns)

  at_voltage-Returns : (fl : FlashLoader) (o : Option ℕ) → Returns (SameParams c) (at_voltage fl o)
  unfolding at_voltage
  at_voltage-Returns fl none = search access_rules
  at_voltage-Returns fl (some v) =
      search (access_rules, set_width-Returns, set_flash_cr_pg-Returns) depth 10

  start_at_voltage-Returns :
      (r : Status × FlashLoader) → Returns (SameParams c) (start_at_voltage r)
  unfolding start_at_voltage
  start_at_voltage-Returns (failure, fl) = search access_rules
  start_at_voltage-Returns (success, fl) =
      search (access_rules, unlock_flash_if-Returns, supply_voltage-Returns, at_voltage-Returns)

  start_words-Returns : (fl : FlashLoader) → Returns (SameParams c) (start_words fl)
  unfolding start_words
  start_words-Returns fl = search (access_rules, unlock_flash_if-Returns, set_flash_cr_pg-Returns)

  start_prg-Returns : (a : ℕ) (fl : FlashLoader) (v : ℕ) → Returns (SameParams c) (start_prg a fl v)
  unfolding start_prg
  start_prg-Returns a fl v = search (access_rules, flash_loader_init-Returns) depth 14

  start_l0-Returns : (fl : FlashLoader) → Returns (SameParams c) (start_l0 fl)
  unfolding start_l0
  start_l0-Returns fl = search (access_rules, start_prg-Returns) depth 10

  start_f1-Returns : (r : Status × FlashLoader) → Returns (SameParams c) (start_f1 r)
  unfolding start_f1
  start_f1-Returns (failure, fl) = search access_rules
  start_f1-Returns (success, fl) =
      search (access_rules, unlock_flash_if-Returns, set_flash_cr_pg-Returns) depth 12

  set_parallelism-Returns : (sl : Stlink) → Returns (SameParams c) (set_parallelism sl)
  unfolding set_parallelism
  set_parallelism-Returns sl = search (access_rules, write_flash_cr_psiz-Returns)

  start_h7-Returns : (fl : FlashLoader) → Returns (SameParams c) (start_h7 fl)
  unfolding start_h7
  start_h7-Returns fl =
      search
        (access_rules, unlock_flash_if-Returns, set_flash_cr_pg-Returns, set_parallelism-Returns)
        depth 12

  start_by_type-Returns :
      (t : FlashType) (fl : FlashLoader) → Returns (SameParams c) (start_by_type t fl)
  unfolding start_by_type
  start_by_type-Returns f2_f4 fl =
      search (access_rules, flash_loader_init-Returns, start_at_voltage-Returns)
  start_by_type-Returns f7 fl =
      search (access_rules, flash_loader_init-Returns, start_at_voltage-Returns)
  start_by_type-Returns l4 fl =
      search (access_rules, flash_loader_init-Returns, start_at_voltage-Returns)
  start_by_type-Returns l0_l1 fl = start_l0-Returns fl
  start_by_type-Returns f0_f1_f3 fl =
      search (access_rules, flash_loader_init-Returns, start_f1-Returns)
  start_by_type-Returns f1_xl fl =
      search (access_rules, flash_loader_init-Returns, start_f1-Returns)
  start_by_type-Returns h7 fl = start_h7-Returns fl
  start_by_type-Returns unknown fl = search access_rules
  start_by_type-Returns _ fl = start_words-Returns fl

  pub flashloader_start-Returns :
      (fuel : ℕ) (fl : FlashLoader)
      → Returns (SameParams c) (wait_flash_busy fuel)
      → Returns (SameParams c) (flashloader_start fuel fl)
  unfolding flashloader_start
  flashloader_start-Returns fuel fl wait =
      search (access_rules, set_dma_state-Returns, clear_flash_error-Returns, start_by_type-Returns)
        depth 10

  stop_programming-Returns : Returns (SameParams c) stop_programming
  unfolding stop_programming
  stop_programming-Returns =
      search (access_rules, clear_flash_cr_pg-Returns, lock_flash-Returns) depth 10

  stop_l0-Returns : Returns (SameParams c) stop_l0
  unfolding stop_l0
  stop_l0-Returns = search access_rules

  stop_by_type-Returns : (t : FlashType) → Returns (SameParams c) (stop_by_type t)
  unfolding stop_by_type
  stop_by_type-Returns l0_l1 = stop_l0-Returns
  stop_by_type-Returns unknown = search access_rules
  stop_by_type-Returns _ = stop_programming-Returns

  unmask_read-Returns : (r : Status × ℕ) → Returns (SameParams c) (unmask_read r)
  unfolding unmask_read
  unmask_read-Returns (failure, v) = search access_rules
  unmask_read-Returns (success, v) = search access_rules

  unmask_interrupts-Returns : Returns (SameParams c) unmask_interrupts
  unfolding unmask_interrupts
  unmask_interrupts-Returns = search (access_rules, unmask_read-Returns)

  pub flashloader_stop-Returns : (fl : FlashLoader) → Returns (SameParams c) (flashloader_stop fl)
  unfolding flashloader_stop
  flashloader_stop-Returns fl =
      search (access_rules, stop_by_type-Returns, unmask_interrupts-Returns, set_dma_state-Returns)
        depth 10
