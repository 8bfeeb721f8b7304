-- ===== src/Flash/Keeps.antt =====
-- The chip's parameters in the context under the flash operations.
use stlink.Base.{ℕ, ◌≡◌, ◌∙◌, refl, Bool, true, false, Option, none, some, zero, suc, ◌==◌}
use stlink.Target.{
  Stlink, FlashType, unknown, f1_xl, l5_u5_h5, Bank, Status, success, failure, World, Hardware,
  skip,
}
use stlink.Target.Keeps.{Keeps, Keeps-bind, kept, keeps_rules}
use stlink.Access.{read_debug32, write_debug32, load, store}
use stlink.Calculate.{pagesize_at, calculate_pagesize, calculate_l4_page}
use stlink.Calculate.Layout.{pagesize_at-resized}
use stlink.Flash.Control.{
  read_flash_cr, write_flash_cr_psiz, clear_flash_cr_pg, write_flash_ar, write_flash_cr_snb,
  set_flash_cr_per, clear_flash_cr_per, write_flash_cr_bker_pnb, set_flash_cr_strt,
}
use stlink.Flash.Status.{
  write_sr_at, write_flash_sr, clear_error_of, clear_flash_error, read_sr_at, read_flash_sr,
  busy_at, is_flash_busy, wait_flash_busy, read_errors, check_flash_error,
}
use stlink.Flash.Lock.{
  lock_second, lock_at, lock_flash, locked_at, is_flash_locked, lower_voltage, scale_voltage,
  send_keys, unlock_at, unlock_flash, unlock_flash_if,
}

-- The parameters of the chip, which only `stlink_load_device_params` sets, and the sizes of its
-- pages. The page size that is kept is not among them: on some chips it is that of the last sector
-- looked at.
pub record SameChip (c sl : Stlink) : Type 0 where
  pub chip_id : sl.chip_id ≡ c.chip_id
  pub flash_type : sl.flash_type ≡ c.flash_type
  pub flash_base : sl.flash_base ≡ c.flash_base
  pub flash_size : sl.flash_size ≡ c.flash_size
  pub chip_flags : sl.chip_flags ≡ c.chip_flags
  pub pages : (p : ℕ) → pagesize_at sl p ≡ pagesize_at c p

pub SameChip-refl : (sl : Stlink) → SameChip sl sl
SameChip-refl sl = record {
  chip_id = refl;
  flash_type = refl;
  flash_base = refl;
  flash_size = refl;
  chip_flags = refl;
  pages = λ p. refl;
}

-- The context after a page size was computed.
abbrev pub resized : Stlink → ℕ → Stlink
resized sl size = record sl { flash_pgsz = size }

pub resized-SameChip :
    (c sl : Stlink) (a : ℕ) → SameChip c sl → SameChip c (resized sl (pagesize_at sl a))
resized-SameChip c sl a h = record {
  chip_id = h.chip_id;
  flash_type = h.flash_type;
  flash_base = h.flash_base;
  flash_size = h.flash_size;
  chip_flags = h.chip_flags;
  pages = λ p. pagesize_at-resized sl a p ∙ h.pages p;
}

never : (b : Unit {0}) (w : World) → ◌≡◌ {A = Option (Unit {0} × World)} none (some (b, w)) → ⊥
never b w e = cc

module _ ⦃hw : Hardware⦄ {c : Stlink} where
  pub read_debug32-SameChip : (a old : ℕ) → Keeps (SameChip c) (read_debug32 a old)
  unfolding read_debug32
  read_debug32-SameChip a old = record { at = λ w w' b h e. kept (SameChip c) _ b _ w' e h }

  pub write_debug32-SameChip : (a v : ℕ) → Keeps (SameChip c) (write_debug32 a v)
  unfolding write_debug32
  write_debug32-SameChip a v = record { at = λ w w' b h e. kept (SameChip c) _ b _ w' e h }

  pub calculate_pagesize-SameChip : (a : ℕ) → Keeps (SameChip c) (calculate_pagesize a)
  unfolding calculate_pagesize
  calculate_pagesize-SameChip a = record {
    at = λ w w' b h e. kept (SameChip c) _ b _ w' e (resized-SameChip c w.sl a h);
  }

  pub load-SameChip : (a : ℕ) → Keeps (SameChip c) (load a)
  unfolding load
  load-SameChip a = search (keeps_rules, read_debug32-SameChip)

  pub store-SameChip : (a v : ℕ) → Keeps (SameChip c) (store a v)
  unfolding store
  store-SameChip a v = search (keeps_rules, write_debug32-SameChip)

  pub read_flash_cr-SameChip : (bank : Bank) → Keeps (SameChip c) (read_flash_cr bank)
  unfolding read_flash_cr
  read_flash_cr-SameChip bank = search (keeps_rules, load-SameChip)

  pub write_flash_cr_psiz-SameChip :
      (n : ℕ) (bank : Bank) → Keeps (SameChip c) (write_flash_cr_psiz n bank)
  unfolding write_flash_cr_psiz
  write_flash_cr_psiz-SameChip n bank = search (keeps_rules, read_flash_cr-SameChip, store-SameChip)

  pub clear_flash_cr_pg-SameChip : (bank : Bank) → Keeps (SameChip c) (clear_flash_cr_pg bank)
  unfolding clear_flash_cr_pg
  clear_flash_cr_pg-SameChip bank = search (keeps_rules, read_flash_cr-SameChip, store-SameChip)

  pub write_flash_ar-SameChip : (n : ℕ) (bank : Bank) → Keeps (SameChip c) (write_flash_ar n bank)
  unfolding write_flash_ar
  write_flash_ar-SameChip n bank = search (keeps_rules, store-SameChip)

  pub write_flash_cr_snb-SameChip :
      (n : ℕ) (bank : Bank) → Keeps (SameChip c) (write_flash_cr_snb n bank)
  unfolding write_flash_cr_snb
  write_flash_cr_snb-SameChip n bank = search (keeps_rules, read_flash_cr-SameChip, store-SameChip)

  pub set_flash_cr_per-SameChip : (bank : Bank) → Keeps (SameChip c) (set_flash_cr_per bank)
  unfolding set_flash_cr_per
  set_flash_cr_per-SameChip bank = search (keeps_rules, load-SameChip, store-SameChip)

  pub clear_flash_cr_per-SameChip : (bank : Bank) → Keeps (SameChip c) (clear_flash_cr_per bank)
  unfolding clear_flash_cr_per
  clear_flash_cr_per-SameChip bank = search (keeps_rules, read_flash_cr-SameChip, store-SameChip)

  pub write_flash_cr_bker_pnb-SameChip : (n : ℕ) → Keeps (SameChip c) (write_flash_cr_bker_pnb n)
  unfolding write_flash_cr_bker_pnb
  write_flash_cr_bker_pnb-SameChip n = search (keeps_rules, read_flash_cr-SameChip, store-SameChip)

  pub set_flash_cr_strt-SameChip : (bank : Bank) → Keeps (SameChip c) (set_flash_cr_strt bank)
  unfolding set_flash_cr_strt
  set_flash_cr_strt-SameChip bank = search (keeps_rules, load-SameChip, store-SameChip)

  pub calculate_l4_page-SameChip : (a : ℕ) → Keeps (SameChip c) (calculate_l4_page a)
  unfolding calculate_l4_page
  calculate_l4_page-SameChip a = search (keeps_rules, load-SameChip)

  pub write_sr_at-SameChip : (r : Option ℕ) (v : ℕ) → Keeps (SameChip c) (write_sr_at r v)
  unfolding write_sr_at
  write_sr_at-SameChip none v = search keeps_rules
  write_sr_at-SameChip (some r) v = write_debug32-SameChip r v

  pub write_flash_sr-SameChip : (bank : Bank) (v : ℕ) → Keeps (SameChip c) (write_flash_sr bank v)
  unfolding write_flash_sr
  write_flash_sr-SameChip bank v = search (keeps_rules, write_sr_at-SameChip)

  pub clear_error_of-SameChip :
      (sl : Stlink) (t : FlashType) → Keeps (SameChip c) (clear_error_of sl t)
  unfolding clear_error_of
  clear_error_of-SameChip sl unknown = search keeps_rules
  clear_error_of-SameChip sl f1_xl = search keeps_rules
  clear_error_of-SameChip sl _ = search (keeps_rules, write_flash_sr-SameChip)

  pub clear_flash_error-SameChip : Keeps (SameChip c) clear_flash_error
  unfolding clear_flash_error
  clear_flash_error-SameChip = search (keeps_rules, clear_error_of-SameChip)

  pub read_sr_at-SameChip : (r : Option ℕ) → Keeps (SameChip c) (read_sr_at r)
  unfolding read_sr_at
  read_sr_at-SameChip none = search keeps_rules
  read_sr_at-SameChip (some r) = load-SameChip r

  pub read_flash_sr-SameChip : (bank : Bank) → Keeps (SameChip c) (read_flash_sr bank)
  unfolding read_flash_sr
  read_flash_sr-SameChip bank = search (keeps_rules, read_sr_at-SameChip)

  pub busy_at-SameChip : (s : Option ℕ) → Keeps (SameChip c) (busy_at s)
  unfolding busy_at
  busy_at-SameChip none = search keeps_rules
  busy_at-SameChip (some s) = search (keeps_rules, read_flash_sr-SameChip)

  pub is_flash_busy-SameChip : Keeps (SameChip c) is_flash_busy
  unfolding is_flash_busy
  is_flash_busy-SameChip = search (keeps_rules, busy_at-SameChip)

  -- Once more, or not.
  pub poll_again-SameChip :
      (fuel : ℕ) (b : Bool)
      → Keeps (SameChip c) (wait_flash_busy fuel)
      → Keeps (SameChip c) (elim b [ true ↦ skip | false ↦ wait_flash_busy fuel ])
  poll_again-SameChip fuel true k = search keeps_rules
  poll_again-SameChip fuel false k = k

  pub wait_flash_busy-SameChip : (fuel : ℕ) → Keeps (SameChip c) (wait_flash_busy fuel)
  unfolding wait_flash_busy
  wait_flash_busy-SameChip zero = record { at = λ w w' b h e. absurd (never b w' e) }
  wait_flash_busy-SameChip (suc fuel) =
      Keeps-bind _ _ is_flash_busy-SameChip
        (λ b. poll_again-SameChip fuel (b == 0) (wait_flash_busy-SameChip fuel))

  pub lock_second-SameChip : (r : Option ℕ) (s : ℕ) → Keeps (SameChip c) (lock_second r s)
  unfolding lock_second
  lock_second-SameChip none s = search keeps_rules
  lock_second-SameChip (some r) s = search (keeps_rules, read_flash_cr-SameChip, store-SameChip)

  pub lock_at-SameChip : (r : Option (ℕ × ℕ)) → Keeps (SameChip c) (lock_at r)
  unfolding lock_at
  lock_at-SameChip none = search keeps_rules
  lock_at-SameChip (some r) =
      search (keeps_rules, read_debug32-SameChip, store-SameChip, lock_second-SameChip)

  pub lock_flash-SameChip : Keeps (SameChip c) lock_flash
  unfolding lock_flash
  lock_flash-SameChip = search (keeps_rules, lock_at-SameChip)

  pub locked_at-SameChip : (r : Option (ℕ × ℕ)) → Keeps (SameChip c) (locked_at r)
  unfolding locked_at
  locked_at-SameChip none = search keeps_rules
  locked_at-SameChip (some r) = search (keeps_rules, load-SameChip)

  pub is_flash_locked-SameChip : Keeps (SameChip c) is_flash_locked
  unfolding is_flash_locked
  is_flash_locked-SameChip = search (keeps_rules, locked_at-SameChip)

  pub lower_voltage-SameChip : (r : Status × ℕ) → Keeps (SameChip c) (lower_voltage r)
  unfolding lower_voltage
  lower_voltage-SameChip (failure, v) = search keeps_rules
  lower_voltage-SameChip (success, v) = search (keeps_rules, store-SameChip)

  pub scale_voltage-SameChip : (t : FlashType) → Keeps (SameChip c) (scale_voltage t)
  unfolding scale_voltage
  scale_voltage-SameChip l5_u5_h5 =
      search (keeps_rules, read_debug32-SameChip, lower_voltage-SameChip)
  scale_voltage-SameChip _ = search keeps_rules

  pub send_keys-SameChip : (r : Option ℕ) (keys : ℕ × ℕ) → Keeps (SameChip c) (send_keys r keys)
  unfolding send_keys
  send_keys-SameChip none keys = search keeps_rules
  send_keys-SameChip (some r) keys = search (keeps_rules, store-SameChip)

  pub unlock_at-SameChip : (r : Option ℕ) → Keeps (SameChip c) (unlock_at r)
  unfolding unlock_at
  unlock_at-SameChip none = search keeps_rules
  unlock_at-SameChip (some r) = search (keeps_rules, scale_voltage-SameChip, send_keys-SameChip)

  pub unlock_flash-SameChip : Keeps (SameChip c) unlock_flash
  unfolding unlock_flash
  unlock_flash-SameChip = search (keeps_rules, unlock_at-SameChip)

  pub unlock_flash_if-SameChip : Keeps (SameChip c) unlock_flash_if
  unfolding unlock_flash_if
  unlock_flash_if-SameChip = search (keeps_rules, is_flash_locked-SameChip, unlock_flash-SameChip)

  pub read_errors-SameChip : (t : FlashType) (mask : ℕ) → Keeps (SameChip c) (read_errors t mask)
  unfolding read_errors
  read_errors-SameChip unknown mask = search keeps_rules
  read_errors-SameChip _ mask = search (keeps_rules, read_flash_sr-SameChip)

  pub check_flash_error-SameChip : Keeps (SameChip c) check_flash_error
  unfolding check_flash_error
  check_flash_error-SameChip = search (keeps_rules, read_errors-SameChip, read_flash_sr-SameChip)
