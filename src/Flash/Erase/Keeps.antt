-- ===== src/Flash/Erase/Keeps.antt =====
-- Erasing leaves the chip's parameters in the context as they are.
use stlink.Base.{ℕ}
use stlink.Target.{Stlink, FlashType, unknown, h7, l0_l1, Status, success, failure, Hardware}
use stlink.Target.Keeps.{Keeps, keeps_rules}
use stlink.Flash.Keeps.{
  SameChip, load-SameChip, store-SameChip, read_debug32-SameChip, calculate_pagesize-SameChip,
  calculate_l4_page-SameChip, write_flash_cr_bker_pnb-SameChip, write_flash_cr_snb-SameChip,
  set_flash_cr_strt-SameChip, wait_flash_busy-SameChip, lock_flash-SameChip,
  unlock_flash_if-SameChip, set_flash_cr_per-SameChip, clear_flash_cr_per-SameChip,
  clear_flash_cr_pg-SameChip, write_flash_ar-SameChip, clear_flash_error-SameChip,
  check_flash_error-SameChip,
}
use stlink.Flash.Erase.{
  select_sector, erase_by_sector, unlock_l0, erase_unlocked_l0, erase_l0, erase_by_page,
  erase_by_address, erase_h7, erase_by_type, finish_erase, erase_flash_page,
}

module _ ⦃hw : Hardware⦄ {c : Stlink} where
  pub select_sector-SameChip : (a : ℕ) → Keeps (SameChip c) (select_sector a)
  unfolding select_sector
  select_sector-SameChip a = search (
    keeps_rules, calculate_l4_page-SameChip, calculate_pagesize-SameChip,
    write_flash_cr_bker_pnb-SameChip, write_flash_cr_snb-SameChip,
  )

  unlock_l0-SameChip : (base val : ℕ) → Keeps (SameChip c) (unlock_l0 base val)
  unfolding unlock_l0
  unlock_l0-SameChip base val = search (keeps_rules, store-SameChip, read_debug32-SameChip) depth 12

module _ ⦃hw : Hardware⦄ {c : Stlink} (fuel : ℕ) where
  erase_by_sector-SameChip : (a : ℕ) → Keeps (SameChip c) (erase_by_sector fuel a)
  unfolding erase_by_sector
  erase_by_sector-SameChip a =
      search
        (
          keeps_rules, unlock_flash_if-SameChip, select_sector-SameChip, set_flash_cr_strt-SameChip,
          wait_flash_busy-SameChip, lock_flash-SameChip,
        )
        depth 8

  erase_unlocked_l0-SameChip :
      (base a : ℕ) (r : Status × ℕ) → Keeps (SameChip c) (erase_unlocked_l0 fuel base a r)
  unfolding erase_unlocked_l0
  erase_unlocked_l0-SameChip base a (failure, v) = search keeps_rules
  erase_unlocked_l0-SameChip base a (success, v) =
      search (keeps_rules, store-SameChip, read_debug32-SameChip, wait_flash_busy-SameChip) depth 10

  erase_l0-SameChip : (a : ℕ) → Keeps (SameChip c) (erase_l0 fuel a)
  unfolding erase_l0
  erase_l0-SameChip a =
      search (keeps_rules, load-SameChip, unlock_l0-SameChip, erase_unlocked_l0-SameChip) depth 8

  erase_by_page-SameChip : (a : ℕ) → Keeps (SameChip c) (erase_by_page fuel a)
  unfolding erase_by_page
  erase_by_page-SameChip a =
      search
        (
          keeps_rules, unlock_flash_if-SameChip, load-SameChip, store-SameChip,
          set_flash_cr_per-SameChip, set_flash_cr_strt-SameChip, wait_flash_busy-SameChip,
          clear_flash_cr_per-SameChip, lock_flash-SameChip,
        )
        depth 12

  erase_by_address-SameChip : (a : ℕ) → Keeps (SameChip c) (erase_by_address fuel a)
  unfolding erase_by_address
  erase_by_address-SameChip a =
      search
        (
          keeps_rules, unlock_flash_if-SameChip, clear_flash_cr_pg-SameChip,
          set_flash_cr_per-SameChip, write_flash_ar-SameChip, set_flash_cr_strt-SameChip,
          wait_flash_busy-SameChip, clear_flash_cr_per-SameChip, lock_flash-SameChip,
        )
        depth 12

  erase_h7-SameChip : (a : ℕ) → Keeps (SameChip c) (erase_h7 fuel a)
  unfolding erase_h7
  erase_h7-SameChip a =
      search
        (
          keeps_rules, unlock_flash_if-SameChip, write_flash_cr_snb-SameChip,
          set_flash_cr_strt-SameChip, wait_flash_busy-SameChip, lock_flash-SameChip,
        )
        depth 12

  ruleset family_rules =
      (erase_by_sector-SameChip, erase_by_page-SameChip, erase_by_address-SameChip)

  erase_by_type-SameChip : (t : FlashType) (a : ℕ) → Keeps (SameChip c) (erase_by_type fuel t a)
  unfolding erase_by_type
  erase_by_type-SameChip unknown a = search keeps_rules
  erase_by_type-SameChip l0_l1 a = erase_l0-SameChip a
  erase_by_type-SameChip h7 a = search (keeps_rules, erase_h7-SameChip)
  erase_by_type-SameChip _ a = search (keeps_rules, family_rules)

  finish_erase-SameChip : (s : Status) → Keeps (SameChip c) (finish_erase fuel s)
  unfolding finish_erase
  finish_erase-SameChip failure = search keeps_rules
  finish_erase-SameChip success = check_flash_error-SameChip

  pub erase_flash_page-SameChip : (a : ℕ) → Keeps (SameChip c) (erase_flash_page fuel a)
  unfolding erase_flash_page
  erase_flash_page-SameChip a =
      search
        (
          keeps_rules, wait_flash_busy-SameChip, clear_flash_error-SameChip, erase_by_type-SameChip,
          finish_erase-SameChip,
        )
        depth 8
