-- ===== src/Target/Types.antt =====
-- `enum stm32_flash_type`, the banks, return codes, and the fields of `stlink_t` that the flash
-- code reads or writes.
use stlink.Base.{ℕ, List}

pub data FlashType : Type 0 where
  unknown c0 f0_f1_f3 f1_xl f2_f4 f7 g0 g4 h7 l0_l1 l4 l5_u5_h5 wb_wl : FlashType

pub data Bank : Type 0 where
  bank_1 bank_2 : Bank

-- A return code: 0, or a negative number.
pub data Status : Type 0 where
  success failure : Status

pub data EraseType : Type 0 where
  no_erase section_erase mass_erase : EraseType

-- `enum target_state`
pub data TargetState : Type 0 where
  target_unknown target_running target_halted target_reset target_debug_running : TargetState

pub data RunType : Type 0 where
  run_normal run_flash_loader : RunType

-- `stlink_v` is that of the field `version`.
pub record Stlink : Type 0 where
  pub q_buf : List ℕ
  pub opt : ℕ
  pub core_id : ℕ
  pub core_stat : TargetState
  pub sram_base : ℕ
  pub sram_size : ℕ
  pub stlink_v : ℕ
  pub chip_id : ℕ
  pub flash_type : FlashType
  pub flash_base : ℕ
  pub flash_size : ℕ
  pub flash_pgsz : ℕ
  pub chip_flags : ℕ
  pub otp_base : ℕ
  pub otp_size : ℕ

-- CHIP_F_HAS_DUAL_BANK
abbrev pub chip_f_has_dual_bank : ℕ
chip_f_has_dual_bank = 1
