-- ===== src/Flash/Returns.antt =====
-- Termination of the flash operations that writing uses.
use stlink.Base.{ℕ, ◌<◌, ◌≡◌, ◌≢◌, ◌∙◌, refl, sym, Option, some, none, arith, ap}
use mathlib.Core.Path.{subst}
use stlink.Target.{
  Stlink, FlashType, unknown, f1_xl, l0_l1, l5_u5_h5, Bank, Status, success, failure, Hardware,
}
use stlink.Target.Returns.{Returns}
use stlink.Core.Returns.{SameParams, access_rules}
use stlink.Flash.Control.{
  get_stm32l0_flash_base, read_flash_cr, write_flash_cr_psiz, clear_flash_cr_pg,
}
use stlink.Flash.Status.{
  sr_register, busy_shift, write_sr_at, write_flash_sr, clear_error_of, clear_flash_error,
  read_sr_at, read_flash_sr, read_errors, check_flash_error, wait_flash_busy,
}
use stlink.Flash.Status.Wait.{Settles, reads, reads-Counts, wait_flash_busy-Settles}
use stlink.Flash.Lock.{
  lock_second, lock_at, lock_flash, locked_at, is_flash_locked, lower_voltage, scale_voltage,
  send_keys, unlock_at, unlock_flash, unlock_flash_if,
}

sr_register-SameParams :
    (c sl : Stlink) (t : FlashType) (b : Bank)
    → sl.chip_id ≡ c.chip_id
    → sr_register sl t b ≡ sr_register c t b
unfolding sr_register get_stm32l0_flash_base
sr_register-SameParams c sl l0_l1 b e = rw e refl
sr_register-SameParams c sl _ b e = refl

-- Chips of one type and id settle alike.
pub Settles-chip :
    ⦃hw : Hardware⦄ (c sl : Stlink) (settled : ℕ)
    → sl.chip_id ≡ c.chip_id
    → sl.flash_type ≡ c.flash_type
    → Settles reads c settled
    → Settles reads sl settled
Settles-chip c sl settled id type s = record {
  idle = λ t b reg shift late e f.
      s.idle t b reg shift late
        (sym (sr_register-SameParams c sl c.flash_type b id)
          ∙ sym (ap (λ (u : FlashType). sr_register sl u b) type)
          ∙ e)
        (sym (ap (λ (u : FlashType). busy_shift u) type) ∙ f);
}

module _ ⦃hw : Hardware⦄ {c : Stlink} where
  pub read_flash_cr-Returns : (b : Bank) → Returns (SameParams c) (read_flash_cr b)
  unfolding read_flash_cr
  read_flash_cr-Returns b = search access_rules

  pub write_flash_cr_psiz-Returns :
      (n : ℕ) (b : Bank) → Returns (SameParams c) (write_flash_cr_psiz n b)
  unfolding write_flash_cr_psiz
  write_flash_cr_psiz-Returns n b = search (access_rules, read_flash_cr-Returns)

  pub clear_flash_cr_pg-Returns : (b : Bank) → Returns (SameParams c) (clear_flash_cr_pg b)
  unfolding clear_flash_cr_pg
  clear_flash_cr_pg-Returns b = search (access_rules, read_flash_cr-Returns)

  write_sr_at-Returns : (r : Option ℕ) (v : ℕ) → Returns (SameParams c) (write_sr_at r v)
  unfolding write_sr_at
  write_sr_at-Returns none v = search access_rules
  write_sr_at-Returns (some r) v = search access_rules

  write_flash_sr-Returns : (b : Bank) (v : ℕ) → Returns (SameParams c) (write_flash_sr b v)
  unfolding write_flash_sr
  write_flash_sr-Returns b v = search (access_rules, write_sr_at-Returns)

  clear_error_of-Returns :
      (sl : Stlink) (t : FlashType) → Returns (SameParams c) (clear_error_of sl t)
  unfolding clear_error_of
  clear_error_of-Returns sl unknown = search access_rules
  clear_error_of-Returns sl f1_xl = search access_rules
  clear_error_of-Returns sl _ = search (access_rules, write_flash_sr-Returns)

  pub clear_flash_error-Returns : Returns (SameParams c) clear_flash_error
  unfolding clear_flash_error
  clear_flash_error-Returns = search (access_rules, clear_error_of-Returns)

  read_sr_at-Returns : (r : Option ℕ) → Returns (SameParams c) (read_sr_at r)
  unfolding read_sr_at
  read_sr_at-Returns none = search access_rules
  read_sr_at-Returns (some r) = search access_rules

  read_flash_sr-Returns : (b : Bank) → Returns (SameParams c) (read_flash_sr b)
  unfolding read_flash_sr
  read_flash_sr-Returns b = search (access_rules, read_sr_at-Returns)

  read_errors-Returns : (t : FlashType) (m : ℕ) → Returns (SameParams c) (read_errors t m)
  unfolding read_errors
  read_errors-Returns unknown m = search access_rules
  read_errors-Returns _ m = search (access_rules, read_flash_sr-Returns)

  pub check_flash_error-Returns : Returns (SameParams c) check_flash_error
  unfolding check_flash_error
  check_flash_error-Returns =
      search (access_rules, read_errors-Returns, read_flash_sr-Returns) depth 10

  lock_second-Returns : (r : Option ℕ) (s : ℕ) → Returns (SameParams c) (lock_second r s)
  unfolding lock_second
  lock_second-Returns none s = search access_rules
  lock_second-Returns (some r) s = search (access_rules, read_flash_cr-Returns)

  lock_at-Returns : (r : Option (ℕ × ℕ)) → Returns (SameParams c) (lock_at r)
  unfolding lock_at
  lock_at-Returns none = search access_rules
  lock_at-Returns (some r) = search (access_rules, lock_second-Returns)

  pub lock_flash-Returns : Returns (SameParams c) lock_flash
  unfolding lock_flash
  lock_flash-Returns = search (access_rules, lock_at-Returns)

  locked_at-Returns : (r : Option (ℕ × ℕ)) → Returns (SameParams c) (locked_at r)
  unfolding locked_at
  locked_at-Returns none = search access_rules
  locked_at-Returns (some r) = search access_rules

  is_flash_locked-Returns : Returns (SameParams c) is_flash_locked
  unfolding is_flash_locked
  is_flash_locked-Returns = search (access_rules, locked_at-Returns)

  lower_voltage-Returns : (r : Status × ℕ) → Returns (SameParams c) (lower_voltage r)
  unfolding lower_voltage
  lower_voltage-Returns (failure, v) = search access_rules
  lower_voltage-Returns (success, v) = search access_rules

  scale_voltage-Returns : (t : FlashType) → Returns (SameParams c) (scale_voltage t)
  unfolding scale_voltage
  scale_voltage-Returns l5_u5_h5 = search (access_rules, lower_voltage-Returns)
  scale_voltage-Returns _ = search access_rules

  send_keys-Returns : (r : Option ℕ) (k : ℕ × ℕ) → Returns (SameParams c) (send_keys r k)
  unfolding send_keys
  send_keys-Returns none k = search access_rules
  send_keys-Returns (some r) k = search access_rules

  unlock_at-Returns : (r : Option ℕ) → Returns (SameParams c) (unlock_at r)
  unfolding unlock_at
  unlock_at-Returns none = search access_rules
  unlock_at-Returns (some r) =
      search (access_rules, scale_voltage-Returns, send_keys-Returns) depth 10

  unlock_flash-Returns : Returns (SameParams c) unlock_flash
  unfolding unlock_flash
  unlock_flash-Returns = search (access_rules, unlock_at-Returns)

  pub unlock_flash_if-Returns : Returns (SameParams c) unlock_flash_if
  unfolding unlock_flash_if
  unlock_flash_if-Returns =
      search (access_rules, is_flash_locked-Returns, unlock_flash-Returns) depth 10

  pub wait_flash_busy-Returns :
      (settled fuel : ℕ)
      → c.flash_type ≢ unknown
      → Settles reads c settled
      → settled < fuel
      → Returns (SameParams c) (wait_flash_busy fuel)
  wait_flash_busy-Returns settled fuel known s enough = record {
    at = λ w h.
        let (w', e, same) =
          wait_flash_busy-Settles reads settled fuel w reads-Counts
            (λ u. known (sym h.flash_type ∙ u))
            (Settles-chip c w.sl settled h.chip_id h.flash_type s) (omega arith) in
        (tt, (w', (e, subst (λ (sl : Stlink). SameParams c sl) (sym same) h)));
  }
