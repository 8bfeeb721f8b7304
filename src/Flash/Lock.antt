-- ===== src/Flash/Lock.antt =====
-- src/stlink-lib/common_flash.c: the lock of the control register and its key sequence.
pub mod Effect
use stlink.Base.{
  ℕ, ◌+◌, ◌*◌, Bool, true, false, not, ◌&&◌, ◌==◌, ltb, Option, none, some, bit_or, bit_and, bit,
  clear_mask, not32, has_bits, if◌then◌else◌,
}
use stlink.Target.{
  Stlink, FlashType, unknown, c0, f0_f1_f3, f1_xl, f2_f4, f7, g0, g4, h7, l0_l1, l4, l5_u5_h5,
  wb_wl, Bank, bank_1, bank_2, Status, success, failure, Hardware, M, ◌>>=◌, ◌>>◌, pure, gets, skip,
  uninitialised,
}
use stlink.Access.{load, store, read_debug32}
use stlink.Flash.Reg
use stlink.Flash.Control.{get_stm32l0_flash_base, has_dual_bank, read_flash_cr}

-- A register and its lock bit; `none` where the type is unsupported. `lock_flash` and
-- `is_flash_locked` choose them alike.
unfoldable pub lock_register : Stlink → FlashType → Option (ℕ × ℕ)
lock_register sl c0 = some (Reg.flash_c0_cr, Reg.flash_c0_cr_lock)
lock_register sl f0_f1_f3 = some (Reg.flash_cr, Reg.flash_cr_lock)
lock_register sl f1_xl = some (Reg.flash_cr, Reg.flash_cr_lock)
lock_register sl f2_f4 = some (Reg.flash_f4_cr, Reg.flash_f4_cr_lock)
lock_register sl f7 = some (Reg.flash_f7_cr, Reg.flash_f7_cr_lock)
lock_register sl g0 = some (Reg.flash_gx_cr, Reg.flash_gx_cr_lock)
lock_register sl g4 = some (Reg.flash_gx_cr, Reg.flash_gx_cr_lock)
lock_register sl h7 = some (Reg.flash_h7_cr1, Reg.flash_h7_cr_lock)
lock_register sl l0_l1 = some (get_stm32l0_flash_base sl + Reg.flash_pecr_off, Reg.flash_l0_pelock)
lock_register sl l4 = some (Reg.flash_l4_cr, Reg.flash_l4_cr_lock)
lock_register sl l5_u5_h5 = some (Reg.flash_l5_nscr, Reg.flash_l5_nscr_nslock)
lock_register sl wb_wl = some (Reg.flash_wb_cr, Reg.flash_wb_cr_lock)
lock_register sl unknown = none

-- `cr2_reg`, where 0 means none.
unfoldable pub second_register : Stlink → FlashType → Option ℕ
second_register sl f1_xl = some Reg.flash_cr2
second_register sl h7 = if has_dual_bank sl then some Reg.flash_h7_cr2 else none
second_register sl _ = none

unfoldable pub lock_cr_mask : FlashType → ℕ
lock_cr_mask h7 = not32 (bit Reg.flash_h7_cr_ser)
lock_cr_mask _ = 0xffffffff

-- The key registers and the two keys of `unlock_flash`.
unfoldable pub key_register : Stlink → FlashType → Option ℕ
key_register sl c0 = some Reg.flash_c0_keyr
key_register sl f0_f1_f3 = some Reg.flash_keyr
key_register sl f1_xl = some Reg.flash_keyr
key_register sl f2_f4 = some Reg.flash_f4_keyr
key_register sl f7 = some Reg.flash_f7_keyr
key_register sl g0 = some Reg.flash_gx_keyr
key_register sl g4 = some Reg.flash_gx_keyr
key_register sl h7 = some Reg.flash_h7_keyr1
key_register sl l0_l1 = some (get_stm32l0_flash_base sl + Reg.flash_pekeyr_off)
key_register sl l4 = some Reg.flash_l4_keyr
key_register sl l5_u5_h5 = some Reg.flash_l5_nskeyr
key_register sl wb_wl = some Reg.flash_wb_keyr
key_register sl unknown = none

unfoldable pub key2_register : Stlink → FlashType → Option ℕ
key2_register sl f1_xl = some Reg.flash_keyr2
key2_register sl h7 = if has_dual_bank sl then some Reg.flash_h7_keyr2 else none
key2_register sl _ = none

unfoldable pub flash_keys : FlashType → ℕ × ℕ
flash_keys l0_l1 = (Reg.flash_l0_pekey1, Reg.flash_l0_pekey2)
flash_keys _ = (Reg.flash_key1, Reg.flash_key2)

-- STM32L5_PWR_CR1 and its VOS field.
abbrev pub stm32l5_pwr_cr1 : ℕ
stm32l5_pwr_cr1 = 0x40007000

abbrev pub stm32l5_pwr_cr1_vos : ℕ
stm32l5_pwr_cr1_vos = 9

module _ ⦃hw : Hardware⦄ where
  unfoldable pub lock_second : Option ℕ → ℕ → M (Unit {0})
  lock_second none shift = skip
  lock_second (some reg) shift = do n ← read_flash_cr bank_2; store reg (bit_or n (bit shift))

  -- `n` starts at 0, so a failed read leaves 0 in it.
  unfoldable pub lock_at : Option (ℕ × ℕ) → M (Unit {0})
  lock_at none = skip
  lock_at (some (reg, shift)) = do
    sl ← gets (λ sl. sl)
    r ← read_debug32 reg 0
    store reg (bit_or (bit_and r.1 (lock_cr_mask sl.flash_type)) (bit shift))
    lock_second (second_register sl sl.flash_type) shift

  unfoldable pub lock_flash : M (Unit {0})
  lock_flash = do reg ← gets (λ sl. lock_register sl sl.flash_type); lock_at reg

  unfoldable pub locked_at : Option (ℕ × ℕ) → M ℕ
  locked_at none = pure 0xffffffff
  locked_at (some (reg, shift)) = do n ← load reg; pure (bit_and n (bit shift))

  unfoldable pub is_flash_locked : M ℕ
  is_flash_locked = do reg ← gets (λ sl. lock_register sl sl.flash_type); locked_at reg

  -- The voltage scaling of the L5 is set to range 0, if the read of it succeeds.
  unfoldable pub lower_voltage : Status × ℕ → M (Unit {0})
  lower_voltage (failure, val) = skip
  lower_voltage (success, val) =
      let mask = 3 * bit stm32l5_pwr_cr1_vos in
      if ltb (bit stm32l5_pwr_cr1_vos) (bit_and val mask)
      then store stm32l5_pwr_cr1 (clear_mask val mask)
      else skip

  unfoldable pub scale_voltage : FlashType → M (Unit {0})
  scale_voltage l5_u5_h5 = do
    old ← uninitialised
    r ← read_debug32 stm32l5_pwr_cr1 old
    lower_voltage r
  scale_voltage _ = skip

  unfoldable pub send_keys : Option ℕ → ℕ × ℕ → M (Unit {0})
  send_keys none keys = skip
  send_keys (some reg) keys = store reg keys.0 >> store reg keys.1

  unfoldable pub unlock_at : Option ℕ → M (Unit {0})
  unlock_at none = skip
  unlock_at (some reg) = do
    sl ← gets (λ sl. sl)
    scale_voltage sl.flash_type
    send_keys (some reg) (flash_keys sl.flash_type)
    send_keys (key2_register sl sl.flash_type) (flash_keys sl.flash_type)

  unfoldable pub unlock_flash : M (Unit {0})
  unlock_flash = do reg ← gets (λ sl. key_register sl sl.flash_type); unlock_at reg

  unfoldable pub unlock_flash_if : M Status
  unlock_flash_if = do
    locked ← is_flash_locked
    if locked == 0 then pure success else (do
      unlock_flash
      still ← is_flash_locked
      pure (if still == 0 then success else failure))
