-- ===== src/Flash/Option/Effect.antt =====
-- `lock_flash_option` and `is_flash_option_locked` on a target whose lock register keeps what is
-- written to it.
use stlink.Base.{
  ℕ, ◌^◌, ◌<◌, ◌≡◌, ◌≢◌, refl, ap, ◌∙◌, Bool, Bool-cases, inl, inr, true, false, not, ◌∷◌, Option,
  none, some, bit, not32, has_bits, arith, if◌then◌else◌, bit_and-set_mask, bit_and-clear_mask,
  bit_or_fits, bit_and_le,
}
use stlink.Target.{
  Access, Stlink, FlashType, unknown, c0, f0_f1_f3, f1_xl, f2_f4, f7, g0, g4, h7, l0_l1, l4,
  l5_u5_h5, wb_wl, success, World, Hardware, Trace, ◌>>=◌, pure, gets, skip, uninitialised,
}
use stlink.Flash.Reg
use stlink.Access.{value_or, load, store, read_debug32, write_debug32}
use stlink.Flash.Control.{has_dual_bank}
use stlink.Flash.Lock.Effect.{Latches}
use stlink.Flash.Option.{
  OptionLock, option_lock, optcr2_register, locked_value, lock_option_second, lock_option_at,
  lock_flash_option, option_locked_at, is_flash_option_locked,
}

-- Whether a word has the lock bit at its active level.
abbrev pub is_locked_word : OptionLock → ℕ → Bool
is_locked_word l v =
    if l.active_high then has_bits v (bit l.shift) else not (has_bits v (bit l.shift))

-- A lock whose bit is one of a word, and whose register is not the second one.
record KnownLock (sl : Stlink) (t : FlashType) : Type 0 where
  lock : OptionLock
  found : option_lock sl t ≡ some lock
  small : bit lock.shift < 2 ^ 32
  positive : 0 < bit lock.shift
  apart : (r : ℕ) → optcr2_register sl t ≡ some r → r ≢ lock.reg

not_some : (u : ℕ) → ◌≡◌ {A = Option ℕ} none (some u) → ⊥
not_some u e = cc

one_of : (b : Bool) (r s : ℕ) → (if b then some r else none) ≡ some s → r ≡ s
one_of true r s e = cc
one_of false r s e = absurd (not_some s e)

known_option_lock : (sl : Stlink) (t : FlashType) → t ≢ unknown → KnownLock sl t
unfolding option_lock optcr2_register
known_option_lock sl unknown n = absurd (n refl)
known_option_lock sl h7 n = record {
  lock = _;
  found = refl;
  small = omega arith;
  positive = omega arith;
  apart = λ r e q. let s : Reg.flash_h7_optcr2 ≡ r = one_of (has_dual_bank sl) _ r e in omega arith;
}
known_option_lock sl c0 n = record {
  lock = _;
  found = refl;
  small = omega arith;
  positive = omega arith;
  apart = λ r e q. not_some r e;
}
known_option_lock sl f0_f1_f3 n = record {
  lock = _;
  found = refl;
  small = omega arith;
  positive = omega arith;
  apart = λ r e q. not_some r e;
}
known_option_lock sl f1_xl n = record {
  lock = _;
  found = refl;
  small = omega arith;
  positive = omega arith;
  apart = λ r e q. not_some r e;
}
known_option_lock sl f2_f4 n = record {
  lock = _;
  found = refl;
  small = omega arith;
  positive = omega arith;
  apart = λ r e q. not_some r e;
}
known_option_lock sl f7 n = record {
  lock = _;
  found = refl;
  small = omega arith;
  positive = omega arith;
  apart = λ r e q. not_some r e;
}
known_option_lock sl g0 n = record {
  lock = _;
  found = refl;
  small = omega arith;
  positive = omega arith;
  apart = λ r e q. not_some r e;
}
known_option_lock sl g4 n = record {
  lock = _;
  found = refl;
  small = omega arith;
  positive = omega arith;
  apart = λ r e q. not_some r e;
}
known_option_lock sl l0_l1 n = record {
  lock = _;
  found = refl;
  small = omega arith;
  positive = omega arith;
  apart = λ r e q. not_some r e;
}
known_option_lock sl l4 n = record {
  lock = _;
  found = refl;
  small = omega arith;
  positive = omega arith;
  apart = λ r e q. not_some r e;
}
known_option_lock sl l5_u5_h5 n = record {
  lock = _;
  found = refl;
  small = omega arith;
  positive = omega arith;
  apart = λ r e q. not_some r e;
}
known_option_lock sl wb_wl n = record {
  lock = _;
  found = refl;
  small = omega arith;
  positive = omega arith;
  apart = λ r e q. not_some r e;
}

locked_value-word :
    (l : OptionLock) (n : ℕ)
    → bit l.shift < 2 ^ 32
    → 0 < bit l.shift
    → is_locked_word l (locked_value l n) ≡ true
locked_value-word l n small pos = elim (Bool-cases l.active_high) [
  | inl e ↦ rw (e, bit_and-set_mask n (bit l.shift) small) (ground arith)
  | inr e ↦ rw (e, bit_and-clear_mask n (bit l.shift) small) refl
]

locked_value_fits :
    (l : OptionLock) (n : ℕ) → n < 2 ^ 32 → bit l.shift < 2 ^ 32 → locked_value l n < 2 ^ 32
locked_value_fits l n h small = elim (Bool-cases l.active_high) [
  | inl e ↦ rw e (bit_or_fits 32 n (bit l.shift) h small)
  | inr e ↦ rw e (omega (arith, bit_and_le 32 n (not32 (bit l.shift)) (omega arith)))
]

module _ ⦃hw : Hardware⦄ where
  value_fits :
      (t u : Trace) (a : ℕ) (o : Option ℕ)
      → hw.word t a ≡ o
      → value_or o (hw.uninitialised u) < 2 ^ 32
  value_fits t u a none e = hw.uninitialised_fits u
  value_fits t u a (some v) e = hw.word_fits t a v e

  -- The lock register holds the lock bit at its active level.
  unfoldable IsOptionLocked : OptionLock → World → Type 0
  IsOptionLocked l w = (v : ℕ) × ((hw.word w.trace l.reg ≡ some v) × (is_locked_word l v ≡ true))

  lock_option_second-IsOptionLocked :
      (l : OptionLock) (second : Option ℕ) (n : ℕ) (w : World)
      → Latches l.reg
      → ((r : ℕ) → second ≡ some r → r ≢ l.reg)
      → IsOptionLocked l w
      → (w' : World) × ((lock_option_second l second n w ≡ some (tt, w'))
          × (IsOptionLocked l w' × (w'.sl ≡ w.sl)))
  unfolding lock_option_second IsOptionLocked store read_debug32 write_debug32 ◌>>=◌ skip
  lock_option_second-IsOptionLocked l none n w h apart (v, (e, b)) =
      (w, (refl, ((v, (e, b)), refl)))
  lock_option_second-IsOptionLocked l (some r) n w h apart (v, (e, b)) =
      (_, (refl, ((v, (h.kept_by_write _ r _ (apart r refl) ∙ h.kept_by_read _ _ ∙ e, b)), refl)))

  lock_option_at-IsOptionLocked :
      (l : OptionLock) (w : World)
      → Latches l.reg
      → bit l.shift < 2 ^ 32
      → 0 < bit l.shift
      → ((r : ℕ) → optcr2_register w.sl w.sl.flash_type ≡ some r → r ≢ l.reg)
      → (w' : World) × ((lock_option_at (some l) w ≡ some (success, w'))
          × (IsOptionLocked l w' × (w'.sl ≡ w.sl)))
  unfolding lock_option_at IsOptionLocked load store read_debug32 write_debug32 uninitialised gets
      pure skip ◌>>=◌
  lock_option_at-IsOptionLocked l w h small pos apart =
      let n : ℕ = value_or (hw.word w.trace l.reg) (hw.uninitialised w.trace) in
      let v : World = record w {
        trace = Access.write_debug32 l.reg (locked_value l n) ∷ Access.read_debug32 l.reg ∷ w.trace;
      } in
      let fits : n < 2 ^ 32 = value_fits w.trace w.trace l.reg (hw.word w.trace l.reg) refl in
      let (w', (run, (set, same))) =
        lock_option_second-IsOptionLocked l (optcr2_register w.sl w.sl.flash_type)
          (locked_value l n) v h apart
          (
            locked_value l n,
            (h.written _ _ (locked_value_fits l n fits small), locked_value-word l n small pos),
          ) in
      (w', (rw (◌>>=◌, run) refl, (set, same)))

  option_locked_at-IsOptionLocked :
      (l : OptionLock) (w : World)
      → IsOptionLocked l w
      → (w' : World) × (option_locked_at (some l) w ≡ some (true, w'))
  unfolding option_locked_at IsOptionLocked load read_debug32 ◌>>=◌ pure uninitialised
  option_locked_at-IsOptionLocked l w (v, (e, b)) = (
    record w { trace = Access.read_debug32 l.reg ∷ w.trace },
    rw e (ap (λ (x : Bool). some (x, record w { trace = Access.read_debug32 l.reg ∷ w.trace })) b),
  )

  lock_flash_option-at :
      (l : Option OptionLock) (w : World)
      → option_lock w.sl w.sl.flash_type ≡ l
      → lock_flash_option w ≡ lock_option_at l w
  unfolding lock_flash_option ◌>>=◌ gets
  lock_flash_option-at l w e = rw e refl

  is_flash_option_locked-at :
      (l : Option OptionLock) (w : World)
      → option_lock w.sl w.sl.flash_type ≡ l
      → is_flash_option_locked w ≡ option_locked_at l w
  unfolding is_flash_option_locked ◌>>=◌ gets
  is_flash_option_locked-at l w e = rw e refl

  -- If the flash type is known and the register of its option lock keeps what is written to it, then
  -- lock_flash_option succeeds, the context stays as it was, and is_flash_option_locked then answers that the option bytes are locked.
  pub lock_flash_option-is_flash_option_locked :
      (w : World)
      → w.sl.flash_type ≢ unknown
      → ((l : OptionLock) → option_lock w.sl w.sl.flash_type ≡ some l → Latches l.reg)
      → (w1 w2 : World) × ((lock_flash_option w ≡ some (success, w1))
          × ((w1.sl ≡ w.sl) × (is_flash_option_locked w1 ≡ some (true, w2))))
  lock_flash_option-is_flash_option_locked w known latches =
      let k = known_option_lock w.sl w.sl.flash_type known in
      let (w1, (run, (set, same))) =
        lock_option_at-IsOptionLocked k.lock w (latches k.lock k.found) k.small k.positive
          k.apart in
      let (w2, reads) = option_locked_at-IsOptionLocked k.lock w1 set in
      let found : option_lock w1.sl w1.sl.flash_type ≡ some k.lock = rw same k.found in
      (
        w1,
        w2,
        (
          lock_flash_option-at (some k.lock) w k.found ∙ run,
          (same, is_flash_option_locked-at (some k.lock) w1 found ∙ reads),
        ),
      )
