-- ===== src/Flash/Lock/Effect.antt =====
-- `lock_flash` and `is_flash_locked` on a target that keeps a lock bit until its keys are written.
use stlink.Base.{
  ℕ, ◌^◌, ◌<◌, ◌≡◌, ◌≢◌, refl, ◌∙◌, Bool, true, false, ◌∷◌, Option, none, some, bit_and, bit_or,
  bit, arith, if◌then◌else◌, bit_and-set_mask, bit_or_fits, bit_and_le,
}
use stlink.Target.{
  Access, Stlink, FlashType, unknown, c0, f0_f1_f3, f1_xl, f2_f4, f7, g0, g4, h7, l0_l1, l4,
  l5_u5_h5, wb_wl, World, Hardware, Trace, ◌>>=◌, pure, gets, skip, uninitialised,
}
use stlink.Flash.Reg
use stlink.Access.{load, store, read_debug32, write_debug32}
use stlink.Flash.Control.{has_dual_bank, read_flash_cr}
use stlink.Flash.Lock.{
  lock_register, second_register, key_register, lock_cr_mask, lock_second, lock_at, lock_flash,
  locked_at, is_flash_locked,
}

module _ ⦃hw : Hardware⦄ where
  -- A word written to `reg` is read from it until the next write to it.
  pub record Latches (reg : ℕ) : Type 0 where
    pub written :
        (t : Trace) (v : ℕ) → v < 2 ^ 32 → hw.word (Access.write_debug32 reg v ∷ t) reg ≡ some v
    pub kept_by_write :
        (t : Trace) (other v : ℕ)
        → other ≢ reg
        → hw.word (Access.write_debug32 other v ∷ t) reg ≡ hw.word t reg
    pub kept_by_read :
        (t : Trace) (other : ℕ) → hw.word (Access.read_debug32 other ∷ t) reg ≡ hw.word t reg

  -- After these accesses the word in `reg` has the bit `shift` set.
  abbrev pub HasLock : ℕ → ℕ → Trace → Type 0
  HasLock reg shift t = (v : ℕ) × (hw.word t reg ≡ some v) × (bit_and v (bit shift) ≡ bit shift)

  unfoldable pub IsLocked : ℕ → ℕ → World → Type 0
  IsLocked reg shift w = HasLock reg shift w.trace

  -- A word with the lock bit, written to `reg`, sets it, and only writes to `reg` and to the key
  -- register `key` can clear it. Other bits may read as they like, and the keys may unlock.
  pub record HoldsLock (key : Option ℕ) (reg shift : ℕ) : Type 0 where
    pub set_by_write :
        (t : Trace) (v : ℕ)
        → v < 2 ^ 32
        → bit_and v (bit shift) ≡ bit shift
        → HasLock reg shift (Access.write_debug32 reg v ∷ t)
    pub kept_by_write :
        (t : Trace) (other v : ℕ)
        → other ≢ reg
        → key ≢ some other
        → HasLock reg shift t
        → HasLock reg shift (Access.write_debug32 other v ∷ t)
    pub kept_by_read :
        (t : Trace) (other : ℕ)
        → HasLock reg shift t
        → HasLock reg shift (Access.read_debug32 other ∷ t)

  -- A lock register with its lock bit; the second control register is neither it nor the key
  -- register.
  pub record LockRegister (sl : Stlink) (t : FlashType) : Type 0 where
    pub reg : ℕ
    pub shift : ℕ
    pub found : lock_register sl t ≡ some (reg, shift)
    pub small : bit shift < 2 ^ 32
    pub positive : 0 < bit shift
    pub apart : (r : ℕ) → second_register sl t ≡ some r → (r ≢ reg) × (key_register sl t ≢ some r)

  not_some : (u : ℕ) → ◌≡◌ {A = Option ℕ} none (some u) → ⊥
  not_some u e = cc

  one_of : (b : Bool) (r s : ℕ) → (if b then some r else none) ≡ some s → r ≡ s
  one_of true r s e = cc
  one_of false r s e = absurd (not_some s e)

  other_register : (a b : ℕ) → a ≢ b → ◌≢◌ {A = Option ℕ} (some a) (some b)
  other_register a b n e = let q : a ≡ b = cc in n q

  pub known_lock : (sl : Stlink) (t : FlashType) → t ≢ unknown → LockRegister sl t
  unfolding lock_register second_register key_register
  known_lock sl unknown n = absurd (n refl)
  known_lock sl f1_xl n = record {
    reg = _;
    shift = _;
    found = refl;
    small = omega arith;
    positive = omega arith;
    apart = λ r e.
        let s : Reg.flash_cr2 ≡ r = cc in
        (λ q. omega arith, other_register Reg.flash_keyr r (λ q. omega arith));
  }
  known_lock sl h7 n = record {
    reg = _;
    shift = _;
    found = refl;
    small = omega arith;
    positive = omega arith;
    apart = λ r e.
        let s : Reg.flash_h7_cr2 ≡ r = one_of (has_dual_bank sl) _ r e in
        (λ q. omega arith, other_register Reg.flash_h7_keyr1 r (λ q. omega arith));
  }
  known_lock sl c0 n = record {
    reg = _;
    shift = _;
    found = refl;
    small = omega arith;
    positive = omega arith;
    apart = λ r e. absurd (not_some r e);
  }
  known_lock sl f0_f1_f3 n = record {
    reg = _;
    shift = _;
    found = refl;
    small = omega arith;
    positive = omega arith;
    apart = λ r e. absurd (not_some r e);
  }
  known_lock sl f2_f4 n = record {
    reg = _;
    shift = _;
    found = refl;
    small = omega arith;
    positive = omega arith;
    apart = λ r e. absurd (not_some r e);
  }
  known_lock sl f7 n = record {
    reg = _;
    shift = _;
    found = refl;
    small = omega arith;
    positive = omega arith;
    apart = λ r e. absurd (not_some r e);
  }
  known_lock sl g0 n = record {
    reg = _;
    shift = _;
    found = refl;
    small = omega arith;
    positive = omega arith;
    apart = λ r e. absurd (not_some r e);
  }
  known_lock sl g4 n = record {
    reg = _;
    shift = _;
    found = refl;
    small = omega arith;
    positive = omega arith;
    apart = λ r e. absurd (not_some r e);
  }
  known_lock sl l0_l1 n = record {
    reg = _;
    shift = _;
    found = refl;
    small = omega arith;
    positive = omega arith;
    apart = λ r e. absurd (not_some r e);
  }
  known_lock sl l4 n = record {
    reg = _;
    shift = _;
    found = refl;
    small = omega arith;
    positive = omega arith;
    apart = λ r e. absurd (not_some r e);
  }
  known_lock sl l5_u5_h5 n = record {
    reg = _;
    shift = _;
    found = refl;
    small = omega arith;
    positive = omega arith;
    apart = λ r e. absurd (not_some r e);
  }
  known_lock sl wb_wl n = record {
    reg = _;
    shift = _;
    found = refl;
    small = omega arith;
    positive = omega arith;
    apart = λ r e. absurd (not_some r e);
  }

  lock_cr_mask_fits : (t : FlashType) → lock_cr_mask t < 2 ^ 32
  unfolding lock_cr_mask
  lock_cr_mask_fits h7 = omega arith
  lock_cr_mask_fits _ = omega arith

  -- What the first register is given.
  locked_word : Stlink → ℕ → ℕ → ℕ
  locked_word sl x shift = bit_or (bit_and x (lock_cr_mask sl.flash_type)) (bit shift)

  locked_word_fits :
      (sl : Stlink) (x shift : ℕ) → bit shift < 2 ^ 32 → locked_word sl x shift < 2 ^ 32
  unfolding locked_word
  locked_word_fits sl x shift h =
      let m = lock_cr_mask_fits sl.flash_type in
      bit_or_fits 32 _ _ (omega (arith, bit_and_le 32 x (lock_cr_mask sl.flash_type) m)) h

  lock_second-IsLocked :
      (second key : Option ℕ) (reg shift : ℕ) (w : World)
      → HoldsLock key reg shift
      → ((r : ℕ) → second ≡ some r → (r ≢ reg) × (key ≢ some r))
      → IsLocked reg shift w
      → (w' : World) × (lock_second second shift w ≡ some (tt, w'))
        × IsLocked reg shift w'
        × (w'.sl ≡ w.sl)
  unfolding lock_second read_flash_cr IsLocked load store read_debug32 write_debug32 ◌>>=◌ skip gets
      pure uninitialised
  lock_second-IsLocked none key reg shift w h apart set = (w, refl, set, refl)
  lock_second-IsLocked (some r) key reg shift w h apart set =
      let (far, keyless) = apart r refl in
      (_, refl, h.kept_by_write _ r _ far keyless (h.kept_by_read _ _ set), refl)

  pub lock_at-IsLocked :
      (key : Option ℕ) (reg shift : ℕ) (w : World)
      → HoldsLock key reg shift
      → bit shift < 2 ^ 32
      → ((r : ℕ) → second_register w.sl w.sl.flash_type ≡ some r → (r ≢ reg) × (key ≢ some r))
      → (w' : World) × (lock_at (some (reg, shift)) w ≡ some (tt, w'))
        × IsLocked reg shift w'
        × (w'.sl ≡ w.sl)
  unfolding lock_at IsLocked store read_debug32 write_debug32 locked_word ◌>>=◌ skip gets
  lock_at-IsLocked key reg shift w h small apart =
      lock_second-IsLocked (second_register w.sl w.sl.flash_type) key reg shift _ h apart
        (h.set_by_write _ _ (locked_word_fits w.sl _ shift small) (bit_and-set_mask _ _ small))

  locked_at-IsLocked :
      (reg shift : ℕ) (w : World)
      → IsLocked reg shift w
      → (w' : World) × (locked_at (some (reg, shift)) w ≡ some (bit shift, w'))
  unfolding locked_at IsLocked load read_debug32 ◌>>=◌ pure uninitialised
  locked_at-IsLocked reg shift w (v, e, b) =
      (record w { trace = Access.read_debug32 reg ∷ w.trace }, rw (e, b) refl)

  pub lock_flash-at :
      (r : Option (ℕ × ℕ)) (w : World)
      → lock_register w.sl w.sl.flash_type ≡ r
      → lock_flash w ≡ lock_at r w
  unfolding lock_flash ◌>>=◌ gets
  lock_flash-at r w e = rw e refl

  is_flash_locked-at :
      (r : Option (ℕ × ℕ)) (w : World)
      → lock_register w.sl w.sl.flash_type ≡ r
      → is_flash_locked w ≡ locked_at r w
  unfolding is_flash_locked ◌>>=◌ gets
  is_flash_locked-at r w e = rw e refl

  -- If the flash type is known, and the lock bit of its lock register is set by a word with it and
  -- cleared only by writes to that register and to the key register, then locking the flash
  -- returns, and `is_flash_locked` then answers other than 0. The context stays as it was.
  pub lock_flash-is_flash_locked :
      (w : World)
      → w.sl.flash_type ≢ unknown
      → ((reg shift : ℕ)
          → lock_register w.sl w.sl.flash_type ≡ some (reg, shift)
          → HoldsLock (key_register w.sl w.sl.flash_type) reg shift)
      → (w1 w2 : World) × (n : ℕ) × (lock_flash w ≡ some (tt, w1))
        × (w1.sl ≡ w.sl)
        × (is_flash_locked w1 ≡ some (n, w2))
        × (n ≢ 0)
  lock_flash-is_flash_locked w known latches =
      let k = known_lock w.sl w.sl.flash_type known in
      let (w1, runs, set, same) =
        lock_at-IsLocked _ k.reg k.shift w (latches k.reg k.shift k.found) k.small k.apart in
      let (w2, reads) = locked_at-IsLocked k.reg k.shift w1 set in
      let found1 : lock_register w1.sl w1.sl.flash_type ≡ some (k.reg, k.shift) = rw same k.found in
      (
        w1,
        w2,
        bit k.shift,
        lock_flash-at _ w k.found ∙ runs,
        same,
        is_flash_locked-at _ w1 found1 ∙ reads,
        λ z. omega (arith, k.positive),
      )
