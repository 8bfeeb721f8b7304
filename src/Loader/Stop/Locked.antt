-- ===== src/Loader/Stop/Locked.antt =====
-- The lock of the flash after `stlink_flashloader_stop`.
use stlink.Base.{ℕ, ◌≡◌, ◌≢◌, ◌∙◌, refl, sym, ap, true, Option, none, some, arith}
use stlink.Target.{
  Stlink, FlashType, unknown, c0, f0_f1_f3, f1_xl, f2_f4, f7, g0, g4, h7, l0_l1, l4, l5_u5_h5,
  wb_wl, Status, success, failure, World, M, Hardware, ◌>>=◌, pure, gets, skip,
}
use stlink.Target.Keeps.{keeps_rules}
use stlink.Target.Ends.{Ends, Ends-prefix, Ends-suffix, stays_rules, after_eq}
use stlink.Access.{store, read_debug32, write_debug32}
use stlink.Flash.Control.{get_stm32l0_flash_base}
use stlink.Flash.Lock.{lock_register, key_register, lock_flash}
use stlink.Flash.Lock.Effect.{HoldsLock, IsLocked}
use stlink.Flash.Keeps.{SameChip-refl, clear_flash_cr_pg-SameChip, lock_flash-SameChip}
use stlink.Flash.Erase.Locked.{OnChip, Keeps-then, Locked, LockLatches, lock_flash-Locked}
use stlink.Loader.Init.{FlashLoader, dhcsr}
use stlink.Loader.Mode.{dma_enable, change_dma, dma_at, set_dma_state}
use stlink.Loader.Stop.{
  stop_programming, stop_by_type, unmask_read, unmask_interrupts, flashloader_stop,
}

-- A register that is neither the lock register nor the key register.
abbrev Apart : Option ℕ → ℕ → ℕ → Type 0
Apart key a reg = (a ≢ reg) × (key ≢ some a)

other_register : (a b : ℕ) → a ≢ b → ◌≢◌ {A = Option ℕ} (some a) (some b)
other_register a b n e = let q : a ≡ b = cc in n q

Apart-from :
    (r s d m k reg shift : ℕ)
    → ◌≡◌ {A = Option (ℕ × ℕ)} (some (r, s)) (some (reg, shift))
    → Apart (some k) dhcsr r
    → Apart (some k) d r
    → Apart (some k) dhcsr reg
      × ((rcc mask : ℕ)
          → ◌≡◌ {A = Option (ℕ × ℕ)} (some (d, m)) (some (rcc, mask))
          → Apart (some k) rcc reg)
Apart-from r s d m k reg shift e (far, far_key) (other, other_key) =
    let q : r ≡ reg = cc in
    (
      (λ u. far (u ∙ sym q), far_key),
      λ rcc mask f.
          let v : d ≡ rcc = cc in
          (λ u. other (v ∙ u ∙ sym q), λ u. other_key (u ∙ ap some (sym v))),
    )

-- DHCSR and the register of the DMA clocks.
registers-Apart :
    (sl : Stlink) (t : FlashType) (reg shift : ℕ)
    → t ≢ l0_l1
    → lock_register sl t ≡ some (reg, shift)
    → Apart (key_register sl t) dhcsr reg
      × ((rcc mask : ℕ) → dma_enable sl t ≡ some (rcc, mask) → Apart (key_register sl t) rcc reg)
unfolding lock_register key_register dma_enable
registers-Apart sl unknown reg shift l e =
    let bad : ◌≡◌ {A = Option (ℕ × ℕ)} none (some (reg, shift)) = e in cc
registers-Apart sl l0_l1 reg shift l e = absurd (l refl)
registers-Apart sl c0 reg shift l e =
    Apart-from _ _ _ _ _ reg shift e (λ q. omega arith, other_register _ _ (λ q. omega arith))
      (λ q. omega arith, other_register _ _ (λ q. omega arith))
registers-Apart sl f0_f1_f3 reg shift l e =
    Apart-from _ _ _ _ _ reg shift e (λ q. omega arith, other_register _ _ (λ q. omega arith))
      (λ q. omega arith, other_register _ _ (λ q. omega arith))
registers-Apart sl f1_xl reg shift l e =
    Apart-from _ _ _ _ _ reg shift e (λ q. omega arith, other_register _ _ (λ q. omega arith))
      (λ q. omega arith, other_register _ _ (λ q. omega arith))
registers-Apart sl f2_f4 reg shift l e =
    Apart-from _ _ _ _ _ reg shift e (λ q. omega arith, other_register _ _ (λ q. omega arith))
      (λ q. omega arith, other_register _ _ (λ q. omega arith))
registers-Apart sl f7 reg shift l e =
    Apart-from _ _ _ _ _ reg shift e (λ q. omega arith, other_register _ _ (λ q. omega arith))
      (λ q. omega arith, other_register _ _ (λ q. omega arith))
registers-Apart sl g0 reg shift l e =
    Apart-from _ _ _ _ _ reg shift e (λ q. omega arith, other_register _ _ (λ q. omega arith))
      (λ q. omega arith, other_register _ _ (λ q. omega arith))
registers-Apart sl g4 reg shift l e =
    Apart-from _ _ _ _ _ reg shift e (λ q. omega arith, other_register _ _ (λ q. omega arith))
      (λ q. omega arith, other_register _ _ (λ q. omega arith))
registers-Apart sl h7 reg shift l e =
    Apart-from _ _ _ _ _ reg shift e (λ q. omega arith, other_register _ _ (λ q. omega arith))
      (λ q. omega arith, other_register _ _ (λ q. omega arith))
registers-Apart sl l4 reg shift l e =
    Apart-from _ _ _ _ _ reg shift e (λ q. omega arith, other_register _ _ (λ q. omega arith))
      (λ q. omega arith, other_register _ _ (λ q. omega arith))
registers-Apart sl l5_u5_h5 reg shift l e =
    Apart-from _ _ _ _ _ reg shift e (λ q. omega arith, other_register _ _ (λ q. omega arith))
      (λ q. omega arith, other_register _ _ (λ q. omega arith))
registers-Apart sl wb_wl reg shift l e =
    Apart-from _ _ _ _ _ reg shift e (λ q. omega arith, other_register _ _ (λ q. omega arith))
      (λ q. omega arith, other_register _ _ (λ q. omega arith))

dma_enable-chip :
    (sl c : Stlink) (t : FlashType) → sl.chip_id ≡ c.chip_id → dma_enable sl t ≡ dma_enable c t
unfolding dma_enable get_stm32l0_flash_base
dma_enable-chip sl c l0_l1 e = rw e refl
dma_enable-chip sl c _ e = refl

module _ ⦃hw : Hardware⦄ (c : Stlink) (latches : LockLatches c) where
  -- On the chip, with its flash locked.
  Closed : World → Type 0
  Closed w = OnChip c w × Locked c w

  read_debug32-Closed : (a old : ℕ) → Ends Closed Closed (read_debug32 a old)
  unfolding Closed OnChip Locked IsLocked LockLatches read_debug32
  read_debug32-Closed a old = record {
    at = λ w w' r (same, (reg, shift, found, set)) q.
        after_eq Closed _ r _ w' q
          (same, (reg, shift, found, (latches reg shift found).kept_by_read w.trace a set));
  }

  store-Closed :
      (a v : ℕ)
      → ((reg shift : ℕ)
          → lock_register c c.flash_type ≡ some (reg, shift)
          → Apart (key_register c c.flash_type) a reg)
      → Ends Closed Closed (store a v)
  unfolding Closed OnChip Locked IsLocked LockLatches store write_debug32 ◌>>=◌ skip
  store-Closed a v apart = record {
    at = λ w w' r (same, (reg, shift, found, set)) q.
        let (far, keyless) = apart reg shift found in
        after_eq Closed tt r _ w' q (
          same,
          (reg, shift, found, (latches reg shift found).kept_by_write w.trace a v far keyless set),
        );
  }

  unmask_read-Closed : (r : Status × ℕ) → c.flash_type ≢ l0_l1 → Ends Closed Closed (unmask_read r)
  unfolding unmask_read skip
  unmask_read-Closed (failure, v) other = record { at = λ w w' b h e. after_eq Closed _ b _ w' e h }
  unmask_read-Closed (success, v) other =
      store-Closed _ _ (λ reg shift e. (registers-Apart c c.flash_type reg shift other e).0)

  unmask_interrupts-Closed : c.flash_type ≢ l0_l1 → Ends Closed Closed unmask_interrupts
  unfolding unmask_interrupts
  unmask_interrupts-Closed other = search (stays_rules, read_debug32-Closed, unmask_read-Closed)

  change_dma-Closed :
      (rcc mask : ℕ) (fl : FlashLoader) (r : Status × ℕ)
      → ((reg shift : ℕ)
          → lock_register c c.flash_type ≡ some (reg, shift)
          → Apart (key_register c c.flash_type) rcc reg)
      → Ends Closed Closed (change_dma rcc mask fl true r)
  unfolding change_dma
  change_dma-Closed rcc mask fl (failure, v) apart = search stays_rules
  change_dma-Closed rcc mask fl (success, v) apart =
      Ends-prefix _ _ (store-Closed rcc _ apart) (λ u. search stays_rules)

  dma_at-Closed :
      (o : Option (ℕ × ℕ)) (fl : FlashLoader)
      → dma_enable c c.flash_type ≡ o
      → c.flash_type ≢ l0_l1
      → Ends Closed Closed (dma_at o fl true)
  unfolding dma_at
  dma_at-Closed none fl e other = search stays_rules
  dma_at-Closed (some (rcc, mask)) fl e other = Ends-prefix _ _ (read_debug32-Closed rcc 0) (λ r.
      change_dma-Closed rcc mask fl r
        (λ reg shift f. (registers-Apart c c.flash_type reg shift other f).1 rcc mask e))

  set_dma_state-Closed :
      (fl : FlashLoader) → c.flash_type ≢ l0_l1 → Ends Closed Closed (set_dma_state fl true)
  unfolding set_dma_state gets ◌>>=◌ Closed OnChip
  set_dma_state-Closed fl other = record {
    at = λ w w' a h q.
        let same : dma_enable w.sl w.sl.flash_type ≡ dma_enable c c.flash_type =
          ap (λ (t : FlashType). dma_enable w.sl t) h.0.flash_type
          ∙ dma_enable-chip w.sl c c.flash_type h.0.chip_id in
        (dma_at-Closed (dma_enable c c.flash_type) fl refl other).at w w' a h
          (sym (ap (λ (o : Option (ℕ × ℕ)). dma_at o fl true w) same) ∙ q);
  }

  -- Locking a chip closes it.
  lock_flash-Closed : c.flash_type ≢ unknown → Ends (OnChip c) Closed lock_flash
  unfolding Closed OnChip
  lock_flash-Closed known = record {
    at = λ w w' a h e.
        (lock_flash-SameChip.at w w' a h e, (lock_flash-Locked c known latches).at w w' a h e);
  }

  stop_programming-Closed : c.flash_type ≢ unknown → Ends (OnChip c) Closed stop_programming
  unfolding stop_programming
  stop_programming-Closed known =
      search (Keeps-then, keeps_rules, clear_flash_cr_pg-SameChip, lock_flash-Closed) depth 10

  stop_by_type-Closed :
      (t : FlashType)
      → t ≢ unknown
      → t ≢ l0_l1
      → c.flash_type ≢ unknown
      → Ends (OnChip c) Closed (stop_by_type t)
  unfolding stop_by_type
  stop_by_type-Closed unknown u l known = absurd (u refl)
  stop_by_type-Closed l0_l1 u l known = absurd (l refl)
  stop_by_type-Closed _ u l known = stop_programming-Closed known

  -- What follows the stop of the programming.
  abbrev rest_of_stop : FlashLoader → M Status
  rest_of_stop fl = unmask_interrupts >>= λ u. set_dma_state fl true >>= λ on. pure success

  stopped-Closed :
      (fl : FlashLoader)
      → c.flash_type ≢ unknown
      → c.flash_type ≢ l0_l1
      → Ends (OnChip c) Closed (stop_by_type c.flash_type >>= λ u. rest_of_stop fl)
  stopped-Closed fl known other =
      Ends-suffix _ _ (stop_by_type-Closed c.flash_type known other known) (λ u.
        Ends-prefix _ _ (unmask_interrupts-Closed other)
          (λ x. Ends-prefix _ _ (set_dma_state-Closed fl other) (λ y. search stays_rules)))

-- If the flash type is known and not L0 or L1, and the lock bit of its lock register is set by a
-- word with it and cleared only by writes to that register and to the key register, then wherever stlink_flashloader_stop returns, the lock bit of the lock register is set, behind
-- its writes to DHCSR and to the register of the DMA clocks too.
pub flashloader_stop-Locked :
    ⦃hw : Hardware⦄ (fl : FlashLoader) (w w' : World) (s : Status)
    → w.sl.flash_type ≢ unknown
    → w.sl.flash_type ≢ l0_l1
    → ((reg shift : ℕ)
        → lock_register w.sl w.sl.flash_type ≡ some (reg, shift)
        → HoldsLock (key_register w.sl w.sl.flash_type) reg shift)
    → flashloader_stop fl w ≡ some (s, w')
    → (reg shift : ℕ) × (lock_register w.sl w.sl.flash_type ≡ some (reg, shift))
      × IsLocked reg shift w'
unfolding flashloader_stop gets ◌>>=◌ Closed OnChip Locked LockLatches
flashloader_stop-Locked fl w w' s known other latches e =
    ((stopped-Closed w.sl latches fl known other).at w w' s (SameChip-refl w.sl) e).1
