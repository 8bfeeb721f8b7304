-- ===== src/Flash/Erase/Locked.antt =====
-- The lock register after a page erase.
use stlink.Base.{ℕ, ◌≡◌, ◌≢◌, ◌∙◌, sym, refl, ap, Option, none, some}
use stlink.Target.{
  Stlink, FlashType, unknown, f0_f1_f3, f1_xl, f2_f4, f7, h7, l0_l1, l4, Bank, Status, success,
  failure, World, M, Hardware, ◌>>=◌, pure, gets, uninitialised,
}
use stlink.Target.Keeps.{Keeps, keeps_rules}
use stlink.Target.Ends.{Ends, Ends-pure, Ends-prefix, Ends-suffix, stays_rules, after_eq}
use stlink.Access.{load, read_debug32}
use stlink.Flash.Control.{get_stm32l0_flash_base}
use stlink.Flash.Status.{read_sr_at, read_flash_sr, read_errors, check_flash_error}
use stlink.Flash.Lock.{lock_register, key_register, lock_flash}
use stlink.Flash.Lock.Effect.{HoldsLock, IsLocked, known_lock, lock_at-IsLocked, lock_flash-at}
use stlink.Flash.Erase.{
  erase_by_sector, erase_by_page, erase_by_address, erase_h7, erase_by_type, finish_erase,
  erase_flash_page,
}
use stlink.Flash.Keeps.{
  SameChip, SameChip-refl, wait_flash_busy-SameChip, clear_flash_error-SameChip,
  unlock_flash_if-SameChip, load-SameChip, store-SameChip, set_flash_cr_per-SameChip,
  clear_flash_cr_per-SameChip, set_flash_cr_strt-SameChip, clear_flash_cr_pg-SameChip,
  write_flash_ar-SameChip, write_flash_cr_snb-SameChip,
}
use stlink.Flash.Erase.Keeps.{select_sector-SameChip}

-- On the chip of `c`.
unfoldable pub OnChip : Stlink → World → Type 0
OnChip c w = SameChip c w.sl

module _ {c : Stlink} {Q : World → Type 0} where
  pub Keeps-then :
      {A B : Type 0} (m : M A) (f : A → M B)
      → Keeps (SameChip c) m
      → ((a : A) → Ends (OnChip c) Q (f a))
      → Ends (OnChip c) Q (m >>= f)
  unfolding OnChip
  Keeps-then m f k e = Ends-prefix m f (record { at = λ w w' a h q. k.at w w' a h q }) e

module _ ⦃hw : Hardware⦄ (c : Stlink) where
  -- The lock register of the chip has its lock bit set.
  unfoldable pub Locked : World → Type 0
  Locked w =
      (reg shift : ℕ) × (lock_register c c.flash_type ≡ some (reg, shift)) × IsLocked reg shift w

  unfoldable pub LockLatches : Type 0
  LockLatches =
      (reg shift : ℕ)
      → lock_register c c.flash_type ≡ some (reg, shift)
      → HoldsLock (key_register c c.flash_type) reg shift

  lock_register-SameChip :
      (sl : Stlink) (t : FlashType)
      → sl.chip_id ≡ c.chip_id
      → lock_register sl t ≡ lock_register c t
  unfolding lock_register get_stm32l0_flash_base
  lock_register-SameChip sl l0_l1 e = rw e refl
  lock_register-SameChip sl _ e = refl

  key_register-SameChip :
      (sl : Stlink) (t : FlashType) → sl.chip_id ≡ c.chip_id → key_register sl t ≡ key_register c t
  unfolding key_register get_stm32l0_flash_base
  key_register-SameChip sl l0_l1 e = rw e refl
  key_register-SameChip sl _ e = refl

  pub lock_flash-Locked : c.flash_type ≢ unknown → LockLatches → Ends (OnChip c) Locked lock_flash
  unfolding OnChip Locked LockLatches
  lock_flash-Locked known latches = record {
    at = λ w w' a h e.
        let k = known_lock w.sl w.sl.flash_type (λ u. known (sym h.flash_type ∙ u)) in
        let found : lock_register c c.flash_type ≡ some (k.reg, k.shift) =
          ap (λ (t : FlashType). lock_register c t) (sym h.flash_type)
          ∙ sym (lock_register-SameChip w.sl w.sl.flash_type h.chip_id)
          ∙ k.found in
        let key : key_register w.sl w.sl.flash_type ≡ key_register c c.flash_type =
          key_register-SameChip w.sl w.sl.flash_type h.chip_id
          ∙ ap (λ (t : FlashType). key_register c t) h.flash_type in
        let (w1, runs, set, same) =
          lock_at-IsLocked _ k.reg k.shift w (latches k.reg k.shift found) k.small
            (λ r e. let (far, keyless) = k.apart r e in (far, λ q. keyless (key ∙ q))) in
        after_eq Locked tt a w1 w' (sym (lock_flash-at _ w k.found ∙ runs) ∙ e)
          (k.reg, k.shift, found, set);
  }

  -- A read leaves the lock register as it is.
  load-Locked : (a : ℕ) → LockLatches → Ends Locked Locked (load a)
  unfolding load read_debug32 Locked IsLocked LockLatches ◌>>=◌ uninitialised pure
  load-Locked a latches = record {
    at = λ w w' v (reg, shift, found, set) q.
        after_eq Locked _ v _ w' q
          (reg, shift, found, (latches reg shift found).kept_by_read w.trace a set);
  }

  read_sr_at-Locked : (r : Option ℕ) → LockLatches → Ends Locked Locked (read_sr_at r)
  unfolding read_sr_at
  read_sr_at-Locked none latches = search stays_rules
  read_sr_at-Locked (some r) latches = load-Locked r latches

  read_flash_sr-Locked : (bank : Bank) → LockLatches → Ends Locked Locked (read_flash_sr bank)
  unfolding read_flash_sr
  read_flash_sr-Locked bank latches = search (stays_rules, read_sr_at-Locked)

  read_errors-Locked :
      (t : FlashType) (mask : ℕ) → LockLatches → Ends Locked Locked (read_errors t mask)
  unfolding read_errors
  read_errors-Locked unknown mask latches = search stays_rules
  read_errors-Locked _ mask latches = search (stays_rules, read_flash_sr-Locked)

  check_flash_error-Locked : LockLatches → Ends Locked Locked check_flash_error
  unfolding check_flash_error
  check_flash_error-Locked latches =
      search (stays_rules, read_errors-Locked, read_flash_sr-Locked) depth 10

  finish_erase-Locked :
      (fuel : ℕ) (s : Status) → LockLatches → Ends Locked Locked (finish_erase fuel s)
  unfolding finish_erase
  finish_erase-Locked fuel failure latches = search stays_rules
  finish_erase-Locked fuel success latches = check_flash_error-Locked latches

  ruleset step_rules = (
    Keeps-then, keeps_rules, wait_flash_busy-SameChip, clear_flash_error-SameChip,
    unlock_flash_if-SameChip, set_flash_cr_strt-SameChip, lock_flash-Locked,
  )

  erase_by_sector-Locked :
      (fuel a : ℕ)
      → c.flash_type ≢ unknown
      → LockLatches
      → Ends (OnChip c) Locked (erase_by_sector fuel a)
  unfolding erase_by_sector
  erase_by_sector-Locked fuel a known latches = search (step_rules, select_sector-SameChip) depth 12

  erase_by_page-Locked :
      (fuel a : ℕ)
      → c.flash_type ≢ unknown
      → LockLatches
      → Ends (OnChip c) Locked (erase_by_page fuel a)
  unfolding erase_by_page
  erase_by_page-Locked fuel a known latches =
      search
        (
          step_rules, set_flash_cr_per-SameChip, load-SameChip, store-SameChip,
          clear_flash_cr_per-SameChip,
        )
        depth 16

  erase_by_address-Locked :
      (fuel a : ℕ)
      → c.flash_type ≢ unknown
      → LockLatches
      → Ends (OnChip c) Locked (erase_by_address fuel a)
  unfolding erase_by_address
  erase_by_address-Locked fuel a known latches =
      search
        (
          step_rules, clear_flash_cr_pg-SameChip, set_flash_cr_per-SameChip,
          write_flash_ar-SameChip, clear_flash_cr_per-SameChip,
        )
        depth 16

  erase_h7-Locked :
      (fuel a : ℕ) → c.flash_type ≢ unknown → LockLatches → Ends (OnChip c) Locked (erase_h7 fuel a)
  unfolding erase_h7
  erase_h7-Locked fuel a known latches = search (step_rules, write_flash_cr_snb-SameChip) depth 12

  erase_by_type-Locked :
      (fuel : ℕ) (t : FlashType) (a : ℕ)
      → t ≢ unknown
      → t ≢ l0_l1
      → c.flash_type ≢ unknown
      → LockLatches
      → Ends (OnChip c) Locked (erase_by_type fuel t a)
  unfolding erase_by_type
  erase_by_type-Locked fuel unknown a u l known latches = absurd (u refl)
  erase_by_type-Locked fuel l0_l1 a u l known latches = absurd (l refl)
  erase_by_type-Locked fuel h7 a u l known latches =
      Ends-suffix _ _ (erase_h7-Locked fuel a known latches) (λ x. Ends-pure success)
  erase_by_type-Locked fuel f2_f4 a u l known latches =
      Ends-suffix _ _ (erase_by_sector-Locked fuel a known latches) (λ x. Ends-pure success)
  erase_by_type-Locked fuel f7 a u l known latches =
      Ends-suffix _ _ (erase_by_sector-Locked fuel a known latches) (λ x. Ends-pure success)
  erase_by_type-Locked fuel l4 a u l known latches =
      Ends-suffix _ _ (erase_by_sector-Locked fuel a known latches) (λ x. Ends-pure success)
  erase_by_type-Locked fuel f0_f1_f3 a u l known latches =
      Ends-suffix _ _ (erase_by_address-Locked fuel a known latches) (λ x. Ends-pure success)
  erase_by_type-Locked fuel f1_xl a u l known latches =
      Ends-suffix _ _ (erase_by_address-Locked fuel a known latches) (λ x. Ends-pure success)
  erase_by_type-Locked fuel _ a u l known latches =
      Ends-suffix _ _ (erase_by_page-Locked fuel a known latches) (λ x. Ends-pure success)

  -- The type that is read is that of the chip.
  type-then :
      {A : Type 0} (f : FlashType → M A)
      → Ends (OnChip c) Locked (f c.flash_type)
      → Ends (OnChip c) Locked (gets (λ sl. sl.flash_type) >>= f)
  unfolding OnChip gets ◌>>=◌
  type-then f e = record {
    at = λ w w' a h q. e.at w w' a h (sym (ap (λ (t : FlashType). f t w) h.flash_type) ∙ q);
  }

  page-Locked :
      (fuel a : ℕ)
      → c.flash_type ≢ unknown
      → c.flash_type ≢ l0_l1
      → LockLatches
      → Ends (OnChip c) Locked (erase_flash_page fuel a)
  unfolding erase_flash_page
  page-Locked fuel a known other latches = Keeps-then _ _ (wait_flash_busy-SameChip fuel) (λ x.
      Keeps-then _ _ clear_flash_error-SameChip (λ y. type-then _ (
        Ends-suffix _ _ (erase_by_type-Locked fuel c.flash_type a known other known latches)
          (λ s. finish_erase-Locked fuel s latches))))

-- If the flash type is known and not L0 or L1, and the lock bit of its lock register is set by a
-- word with it and cleared only by writes to that register and to the key register, then wherever
-- stlink_erase_flash_page returns, with success or not, the lock bit is set, also where the keys
-- have unlocked the register before.
pub erase_flash_page-Locked :
    ⦃hw : Hardware⦄ (fuel flashaddr : ℕ) (w w' : World) (s : Status)
    → w.sl.flash_type ≢ unknown
    → w.sl.flash_type ≢ l0_l1
    → ((reg shift : ℕ)
        → lock_register w.sl w.sl.flash_type ≡ some (reg, shift)
        → HoldsLock (key_register w.sl w.sl.flash_type) reg shift)
    → erase_flash_page fuel flashaddr w ≡ some (s, w')
    → (reg shift : ℕ) × (lock_register w.sl w.sl.flash_type ≡ some (reg, shift))
      × IsLocked reg shift w'
unfolding Locked LockLatches OnChip
erase_flash_page-Locked fuel flashaddr w w' s known other latches runs =
    (page-Locked w.sl fuel flashaddr known other latches).at w w' s (SameChip-refl w.sl) runs
