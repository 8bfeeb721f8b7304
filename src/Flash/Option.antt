-- ===== src/Flash/Option.antt =====
-- src/stlink-lib/common_flash.c: the lock of the option bytes and its key sequence.
pub mod Effect
use stlink.Base.{
  ℕ, ◌+◌, Bool, true, false, Option, none, some, bit_or, bit, clear_mask, has_bits, not,
  if◌then◌else◌,
}
use stlink.Target.{
  Stlink, FlashType, unknown, c0, f0_f1_f3, f1_xl, f2_f4, f7, g0, g4, h7, l0_l1, l4, l5_u5_h5,
  wb_wl, Status, success, failure, Hardware, M, ◌>>=◌, ◌>>◌, pure, gets, skip,
}
use stlink.Access.{load, store, read_debug32}
use stlink.Flash.Reg
use stlink.Flash.Control.{get_stm32l0_flash_base, has_dual_bank}

-- A register with its option lock bit. On the first series the bit enables writes: it is active
-- at level 0.
pub record OptionLock : Type 0 where
  pub reg : ℕ
  pub shift : ℕ
  pub active_high : Bool

abbrev pub high_at : ℕ → ℕ → Option OptionLock
high_at reg shift = some (record { reg = reg; shift = shift; active_high = true })

-- `lock_flash_option` and `is_flash_option_locked` choose it alike.
unfoldable pub option_lock : Stlink → FlashType → Option OptionLock
option_lock sl c0 = high_at Reg.flash_c0_cr Reg.flash_c0_cr_optlock
option_lock sl f0_f1_f3 =
    some (record { reg = Reg.flash_cr; shift = Reg.flash_cr_optwre; active_high = false })
option_lock sl f1_xl =
    some (record { reg = Reg.flash_cr; shift = Reg.flash_cr_optwre; active_high = false })
option_lock sl f2_f4 = high_at Reg.flash_f4_optcr Reg.flash_f4_optcr_lock
option_lock sl f7 = high_at Reg.flash_f7_optcr Reg.flash_f7_optcr_lock
option_lock sl g0 = high_at Reg.flash_gx_cr Reg.flash_gx_cr_optlock
option_lock sl g4 = high_at Reg.flash_gx_cr Reg.flash_gx_cr_optlock
option_lock sl h7 = high_at Reg.flash_h7_optcr Reg.flash_h7_optcr_optlock
option_lock sl l0_l1 = high_at (get_stm32l0_flash_base sl + Reg.flash_pecr_off) Reg.flash_l0_optlock
option_lock sl l4 = high_at Reg.flash_l4_cr Reg.flash_l4_cr_optlock
option_lock sl l5_u5_h5 = high_at Reg.flash_l5_nscr Reg.flash_l5_nscr_optlock
option_lock sl wb_wl = high_at Reg.flash_wb_cr Reg.flash_wb_cr_optlock
option_lock sl unknown = none

unfoldable pub optcr2_register : Stlink → FlashType → Option ℕ
optcr2_register sl h7 = if has_dual_bank sl then some Reg.flash_h7_optcr2 else none
optcr2_register sl _ = none

unfoldable pub optkey_register : Stlink → FlashType → Option ℕ
optkey_register sl c0 = some Reg.flash_c0_opt_keyr
optkey_register sl f0_f1_f3 = some Reg.flash_optkeyr
optkey_register sl f1_xl = some Reg.flash_optkeyr
optkey_register sl f2_f4 = some Reg.flash_f4_opt_keyr
optkey_register sl f7 = some Reg.flash_f7_opt_keyr
optkey_register sl g0 = some Reg.flash_gx_optkeyr
optkey_register sl g4 = some Reg.flash_gx_optkeyr
optkey_register sl h7 = some Reg.flash_h7_opt_keyr
optkey_register sl l0_l1 = some (get_stm32l0_flash_base sl + Reg.flash_optkeyr_off)
optkey_register sl l4 = some Reg.flash_l4_optkeyr
optkey_register sl l5_u5_h5 = some Reg.flash_l5_optkeyr
optkey_register sl wb_wl = some Reg.flash_wb_opt_keyr
optkey_register sl unknown = none

unfoldable pub option_keys : FlashType → ℕ × ℕ
option_keys f0_f1_f3 = (Reg.flash_f0_optkey1, Reg.flash_f0_optkey2)
option_keys f1_xl = (Reg.flash_f0_optkey1, Reg.flash_f0_optkey2)
option_keys l0_l1 = (Reg.flash_l0_optkey1, Reg.flash_l0_optkey2)
option_keys _ = (Reg.flash_optkey1, Reg.flash_optkey2)

-- The lock bit put at its active level.
abbrev pub locked_value : OptionLock → ℕ → ℕ
locked_value l n = if l.active_high then bit_or n (bit l.shift) else clear_mask n (bit l.shift)

module _ ⦃hw : Hardware⦄ where
  -- The second register is read into the same local: a failed read leaves the first value.
  unfoldable pub lock_option_second : OptionLock → Option ℕ → ℕ → M (Unit {0})
  lock_option_second l none n = skip
  lock_option_second l (some reg) n = do r ← read_debug32 reg n; store reg (locked_value l r.1)

  unfoldable pub lock_option_at : Option OptionLock → M Status
  lock_option_at none = pure failure
  lock_option_at (some l) = do
    n ← load l.reg
    store l.reg (locked_value l n)
    sl ← gets (λ sl. sl)
    lock_option_second l (optcr2_register sl sl.flash_type) (locked_value l n)
    pure success

  unfoldable pub lock_flash_option : M Status
  lock_flash_option = do l ← gets (λ sl. option_lock sl sl.flash_type); lock_option_at l

  -- The -1 of an unsupported type is `true` as a bool.
  unfoldable pub option_locked_at : Option OptionLock → M Bool
  option_locked_at none = pure true
  option_locked_at (some l) = do
    n ← load l.reg
    pure (if l.active_high then has_bits n (bit l.shift) else not (has_bits n (bit l.shift)))

  unfoldable pub is_flash_option_locked : M Bool
  is_flash_option_locked = do l ← gets (λ sl. option_lock sl sl.flash_type); option_locked_at l

  -- `optkey2_reg` is 0 throughout, so the second pair of keys is never sent.
  unfoldable pub unlock_option_at : Option ℕ → M Status
  unlock_option_at none = pure failure
  unlock_option_at (some reg) = do
    keys ← gets (λ sl. option_keys sl.flash_type)
    store reg keys.0
    store reg keys.1
    pure success

  unfoldable pub unlock_flash_option : M Status
  unlock_flash_option = do reg ← gets (λ sl. optkey_register sl sl.flash_type); unlock_option_at reg

  unfoldable pub unlock_flash_option_if : M Status
  unlock_flash_option_if = do
    locked ← is_flash_option_locked
    if locked
        then (do
          s ← unlock_flash_option
          elim s [
            | failure ↦ pure failure
            | success ↦
                is_flash_option_locked >>= λ still. pure (if still then failure else success)
          ])
        else pure success
