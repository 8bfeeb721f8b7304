-- ===== src/Tests/Flash.antt =====
-- The flash code on the boards.
use stlink.Base.{
  true, ℕ, ◌+◌, ◌-◌, ◌%◌, ◌^◌, ◌≤◌, ◌≡◌, ◌≢◌, ◌↔◌, ◌∙◌, refl, sym, ap, Bool-cases, inl, inr, bit,
  bit_and, Option, none, some, false, List, [], ◌∷◌, take, arith, bit_and-zero_left,
}
use mathlib.Core.Path.{subst}
use stlink.Flash.Reg
use stlink.Target.{Access, Trace, World, Status, success}
use stlink.Calculate.{pagesize_at}
use stlink.Flash.Lock.{lock_flash, is_flash_locked}
use stlink.Flash.Option.{lock_flash_option, is_flash_option_locked}
use stlink.Flash.Option.Effect.{lock_flash_option-is_flash_option_locked}
use stlink.Flash.Lock.Effect.{Latches, HasLock, HoldsLock, IsLocked, lock_flash-is_flash_locked}
use stlink.Flash.Status.{wait_flash_busy}
use stlink.Flash.Status.Wait.{
  Settles, reads, reads-Counts, wait_flash_busy-Settles, wait_flash_busy-unknown,
}
use stlink.Access.{load, store, read_debug32, write_debug32}
use stlink.Flash.Control.{
  clear_flash_cr_pg, pg_register, pg_bit, read_flash_cr, flash_cr_register, set_flash_cr_per,
  per_register, write_flash_ar, set_flash_cr_strt, strt_register, strt_bits, clear_flash_cr_per,
}
use stlink.Flash.Status.{
  is_flash_busy, busy_at, busy_shift, read_flash_sr, sr_register, read_sr_at, clear_flash_error,
  clear_error_of, write_flash_sr, write_sr_at, check_flash_error, read_errors, error_mask,
  checks_bank_2,
}
use stlink.Flash.Lock.{
  unlock_flash_if, unlock_flash, unlock_at, key_register, key2_register, flash_keys, scale_voltage,
  send_keys, lock_register, locked_at, lock_at, lock_cr_mask, lock_second, second_register,
}
use stlink.Flash.Erase.{erase_flash_page, erase_by_type, erase_by_address, finish_erase}
use stlink.Flash.Erase.Locked.{erase_flash_page-Locked}
use stlink.Target.{f0_f1_f3, ◌>>=◌, pure, gets, skip, uninitialised}
use stlink.Flash.Range.{check_address_alignment, erase_flash_section}
use stlink.Flash.Range.Alignment.{
  HasPages, IsPageStart, Untouched, check_address_alignment-IsPageStart, IsPageStart-uniform_iff,
  check_address_alignment-multiples,
}
use stlink.Flash.Range.Section.{Pages, last, more, erase_each, erase_flash_section-each}
use stlink.Flash.Range.Validity.{check_address_range_validity_iff}
use stlink.Flash.Verify.{check_file, verify_write_flash}
use stlink.Flash.Verify.File.{check_file-slice}
use stlink.Flash.Verify.Memory.{slice, verify_write_flash-slice}
use stlink.Tests.Boards.{
  latched, keeps_locked, keyed, image, board, slow, small_chip, h7_chip, unknown_chip, start,
  small_chip-uniform, small_chip-pagesize,
}

pub board-Latches : (reg : ℕ) → Latches ⦃hw = board⦄ reg
unfolding latched
board-Latches reg = record {
  written = λ t v h. ground arith;
  kept_by_write = λ t other v n. ground arith;
  kept_by_read = λ t other. refl;
}

-- A board that keeps every word keeps every lock.
pub board-HoldsLock : (key : Option ℕ) (reg shift : ℕ) → HoldsLock ⦃hw = board⦄ key reg shift
unfolding latched
board-HoldsLock key reg shift =
    let l = board-Latches reg in
    record {
      set_by_write = λ t v small b. (v, l.written t v small, b);
      kept_by_write = λ t other v far keyless (u, e, b). (u, l.kept_by_write t other v far ∙ e, b);
      kept_by_read = λ t other h. h;
    }

lock_flash-is_flash_locked_example :
    (w1 w2 : World) × (n : ℕ) × (lock_flash ⦃hw = board⦄ (start h7_chip) ≡ some (tt, w1))
    × (w1.sl ≡ h7_chip)
    × (is_flash_locked ⦃hw = board⦄ w1 ≡ some (n, w2))
    × (n ≢ 0)
lock_flash-is_flash_locked_example =
    lock_flash-is_flash_locked ⦃hw = board⦄ (start h7_chip) (λ e. cc)
      (λ reg shift e. board-HoldsLock _ reg shift)

lock_flash_option-is_flash_option_locked_example :
    (w1 w2 : World) × ((lock_flash_option ⦃hw = board⦄ (start h7_chip) ≡ some (success, w1))
      × ((w1.sl ≡ h7_chip) × (is_flash_option_locked ⦃hw = board⦄ w1 ≡ some (true, w2))))
lock_flash_option-is_flash_option_locked_example =
    lock_flash_option-is_flash_option_locked ⦃hw = board⦄ (start h7_chip) (λ e. cc)
      (λ l e. board-Latches l.reg)

slow-Settles : Settles ⦃hw = slow⦄ reads small_chip 2
slow-Settles = record {
  idle = λ t bank reg shift late e f. (0, ground arith, bit_and-zero_left (2 ^ shift));
}

wait_flash_busy-Settles_example :
    (w' : World) × (wait_flash_busy ⦃hw = slow⦄ 3 (start small_chip) ≡ some (tt, w'))
    × (w'.sl ≡ small_chip)
wait_flash_busy-Settles_example =
    wait_flash_busy-Settles ⦃hw = slow⦄ reads 2 3 (start small_chip) reads-Counts (λ e. cc)
      slow-Settles (omega arith)

wait_flash_busy-unknown_example : wait_flash_busy ⦃hw = board⦄ 1000 (start unknown_chip) ≡ none
wait_flash_busy-unknown_example =
    wait_flash_busy-unknown ⦃hw = board⦄ 1000 (start unknown_chip) refl

verify_write_flash-slice_example :
    (s : Status) × (w' : World) × (verify_write_flash ⦃hw = board⦄ 5 0x08000400
        (0 ∷ 1 ∷ 2 ∷ [])
        3
        (start small_chip)
      ≡ some (s, w'))
    × ((s ≡ success) ↔ (slice image 0x08000400 3 ≡ take 3 (0 ∷ 1 ∷ 2 ∷ [])))
verify_write_flash-slice_example =
    verify_write_flash-slice ⦃hw = board⦄ image (λ t a n. refl) 0x08000400 (0 ∷ 1 ∷ 2 ∷ []) 5 3
      (start small_chip) (omega arith) (omega arith) (omega arith) (omega arith)

check_file-slice_example :
    (s : Status) × ((w' : World) × ((check_file ⦃hw = board⦄ 7
            (0 ∷ 1 ∷ 2 ∷ 3 ∷ 4 ∷ [])
            5
            0x08000400
            (start small_chip)
          ≡ some (s, w'))
        × ((s ≡ success) ↔ (slice image 0x08000400 5 ≡ take 5 (0 ∷ 1 ∷ 2 ∷ 3 ∷ 4 ∷ [])))))
check_file-slice_example =
    check_file-slice ⦃hw = board⦄ image (λ t a n. refl) 0x08000400 (0 ∷ 1 ∷ 2 ∷ 3 ∷ 4 ∷ []) 7 5
      (start small_chip) (omega arith) (omega arith) (omega arith) (omega arith)

small_chip-HasPages : (addr : ℕ) → addr ≤ 0x09000000 → HasPages small_chip addr
small_chip-HasPages addr h = record {
  some_size = λ p lt. omega (arith, small_chip-pagesize p);
  fits = λ p lt. omega (arith, small_chip-pagesize p);
}

small_chip-IsPageStart : IsPageStart small_chip 0x08000400
small_chip-IsPageStart =
    (IsPageStart-uniform_iff small_chip small_chip-uniform (omega arith) 0x08000400).1
      (omega arith, refl)

check_address_alignment-IsPageStart_example :
    (s : Status) × (w' : World) × (check_address_alignment 0x401 0x08000400 (start small_chip)
      ≡ some (s, w'))
    × ((s ≡ success) ↔ IsPageStart small_chip 0x08000400)
    × Untouched small_chip (start small_chip) w'
check_address_alignment-IsPageStart_example =
    check_address_alignment-IsPageStart 0x401 0x08000400 (start small_chip)
      (small_chip-HasPages 0x08000400 (omega arith)) (omega arith)

check_address_alignment-multiples_example :
    (s : Status) × (w' : World) × (check_address_alignment 0x401 0x08000400 (start small_chip)
      ≡ some (s, w'))
    × ((s ≡ success) ↔ ((0x08000000 ≤ 0x08000400) × ((0x08000400 - 0x08000000) % 0x400 ≡ 0)))
check_address_alignment-multiples_example =
    check_address_alignment-multiples 0x401 0x08000400 (start small_chip) small_chip-uniform
      (omega arith) (small_chip-HasPages 0x08000400 (omega arith)) (omega arith)

-- The range from 0x08000400 to 0x08000c00 has two pages.
abbrev two_pages : List ℕ
two_pages = 0x08000400 ∷ (0x08000400 + pagesize_at small_chip 0x08000400) ∷ []

two_pages-Pages : Pages small_chip false 0x08000c00 0x08000400 two_pages
two_pages-Pages =
    let first = small_chip-pagesize 0x08000400 in
    let second = small_chip-pagesize (0x08000400 + pagesize_at small_chip 0x08000400) in
    more (omega arith) (last (omega arith) (omega arith) (λ e. omega arith))

erase_flash_section-each_example :
    (w' : World) × (erase_flash_section ⦃hw = board⦄ 9 0x401 0x08000400 0x800 false
        (start small_chip)
      ≡ erase_each ⦃hw = board⦄ 9 two_pages w')
    × Untouched small_chip (start small_chip) w'
erase_flash_section-each_example =
    erase_flash_section-each ⦃hw = board⦄ 9 0x401 0x08000400 0x800 false two_pages
      (start small_chip)
      ((check_address_range_validity_iff small_chip 0x08000400 0x800 (omega arith) (omega arith)).1
        (omega arith, omega arith, omega arith))
      (small_chip-HasPages 0x08000400 (omega arith)) small_chip-IsPageStart (omega arith)
      two_pages-Pages (omega arith) (omega arith)

-- The state after a page of the small chip is erased, on the board whose lock the keys open.
abbrev erased_world : World
erased_world = elim (erase_flash_page ⦃hw = keyed⦄ 2 0x08000400 (start small_chip)) [
  | none ↦ start small_chip
  | some (s, w) ↦ w
]

erased :
    erase_flash_page ⦃hw = keyed⦄ 2 0x08000400 (start small_chip) ≡ some (success, erased_world)
unfolding ◌>>=◌ pure gets skip uninitialised keeps_locked load store read_debug32 write_debug32
    erase_flash_page wait_flash_busy is_flash_busy busy_at busy_shift read_flash_sr sr_register
    read_sr_at clear_flash_error clear_error_of write_flash_sr write_sr_at erase_by_type
    erase_by_address unlock_flash_if unlock_flash unlock_at key_register key2_register flash_keys
    scale_voltage send_keys is_flash_locked lock_register locked_at clear_flash_cr_pg pg_register
    pg_bit read_flash_cr flash_cr_register set_flash_cr_per per_register write_flash_ar
    set_flash_cr_strt strt_register strt_bits clear_flash_cr_per lock_flash lock_at lock_cr_mask
    lock_second second_register finish_erase check_flash_error read_errors error_mask checks_bank_2
erased = refl

-- The lock shows where the accesses leave the flash locked.
shows_lock :
    (t : Trace) → keeps_locked t ≡ true → HasLock ⦃hw = keyed⦄ Reg.flash_cr Reg.flash_cr_lock t
shows_lock t e = (bit Reg.flash_cr_lock, rw e refl, refl)

none_shown : (v : ℕ) → ◌≡◌ {A = Option ℕ} (some 0) (some v) → bit_and v 128 ≡ 128 → ⊥
none_shown v e b =
    let z : 0 ≡ v = cc in
    let bad : bit_and 0 128 ≡ 128 = ap (λ (x : ℕ). bit_and x 128) z ∙ b in omega (arith, bad)

lock_shown :
    (t : Trace) → HasLock ⦃hw = keyed⦄ Reg.flash_cr Reg.flash_cr_lock t → keeps_locked t ≡ true
lock_shown t (v, e, b) = elim (Bool-cases (keeps_locked t)) [
  | inl locked ↦ locked
  | inr unlocked ↦ absurd (none_shown v (rw unlocked at e) b)
]

keyed-HoldsLock : HoldsLock ⦃hw = keyed⦄ (some Reg.flash_keyr) Reg.flash_cr Reg.flash_cr_lock
unfolding keeps_locked
keyed-HoldsLock = record {
  set_by_write =
      λ t v small b. shows_lock (Access.write_debug32 Reg.flash_cr v ∷ t) (ground (arith, b));
  kept_by_write = λ t other v far keyless h.
      let before = lock_shown t h in
      let key : other ≢ Reg.flash_keyr = λ e. keyless (ap some (sym e)) in
      shows_lock (Access.write_debug32 other v ∷ t) (ground (arith, before, far, key));
  kept_by_read = λ t other h. shows_lock (Access.read_debug32 other ∷ t) (lock_shown t h);
}

small_chip-HoldsLock :
    (reg shift : ℕ)
    → lock_register small_chip f0_f1_f3 ≡ some (reg, shift)
    → HoldsLock ⦃hw = keyed⦄ (key_register small_chip f0_f1_f3) reg shift
unfolding lock_register key_register
small_chip-HoldsLock reg shift e =
    let r : Reg.flash_cr ≡ reg = cc in
    let s : Reg.flash_cr_lock ≡ shift = cc in
    subst (λ (x : ℕ). HoldsLock ⦃hw = keyed⦄ (some Reg.flash_keyr) x shift) r
      (subst (λ (x : ℕ). HoldsLock ⦃hw = keyed⦄ (some Reg.flash_keyr) Reg.flash_cr x) s
        keyed-HoldsLock)

erase_flash_page-Locked_example :
    (reg shift : ℕ) × (lock_register small_chip f0_f1_f3 ≡ some (reg, shift))
    × IsLocked ⦃hw = keyed⦄ reg shift erased_world
erase_flash_page-Locked_example =
    erase_flash_page-Locked ⦃hw = keyed⦄ 2 0x08000400 (start small_chip) erased_world success
      (λ e. cc) (λ e. cc) small_chip-HoldsLock erased
