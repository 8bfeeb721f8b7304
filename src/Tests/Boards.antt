-- ===== src/Tests/Boards.antt =====
-- Targets and chips for the runs.
use stlink.Base.{
  ℕ, ◌^◌, ◌%◌, ◌<◌, ◌≡◌, refl, ◌||◌, ◌&&◌, Bool, true, false, bit, bit_and, ◌==◌, ltb, Option, none,
  some, [], ◌∷◌, length, arith, if◌then◌else◌,
}
use stlink.Target.{
  Access, Trace, Stlink, World, FlashType, f0_f1_f3, f2_f4, h7, unknown, success, failure, Hardware,
  target_halted, target_unknown,
}
use stlink.Calculate.{is_f4_like, is_f7_like, pagesize_at}
use stlink.Calculate.Layout.{pagesize_at-uniform}
use stlink.Flash.Reg
use stlink.Flash.Status.Wait.{reads}
use stlink.Flash.Verify.Memory.{slice}

-- The word last written to an address, 0 before.
unfoldable pub latched : Trace → ℕ → ℕ
latched [] a = 0
latched (Access.write_debug32 b v ∷ t) a = if b == a then v % 2 ^ 32 else latched t a
latched (_ ∷ t) a = latched t a

pub latched_fits : (t : Trace) (a : ℕ) → latched t a < 2 ^ 32
unfolding latched
latched_fits [] a = omega arith
latched_fits (Access.write_debug32 b v ∷ t) a = ground (arith, latched_fits t a)
latched_fits (Access.read_debug32 b ∷ t) a = latched_fits t a
latched_fits (Access.read_mem32 b n ∷ t) a = latched_fits t a
latched_fits (Access.write_mem32 b n ∷ t) a = latched_fits t a
latched_fits (Access.write_mem8 b n ∷ t) a = latched_fits t a
latched_fits (Access.read_reg b ∷ t) a = latched_fits t a
latched_fits (Access.write_reg b n ∷ t) a = latched_fits t a
latched_fits (Access.core_id ∷ t) a = latched_fits t a
latched_fits (Access.status ∷ t) a = latched_fits t a
latched_fits (Access.target_voltage ∷ t) a = latched_fits t a
latched_fits (Access.read_all_regs ∷ t) a = latched_fits t a
latched_fits (Access.time_ms ∷ t) a = latched_fits t a
latched_fits (Access.run r ∷ t) a = latched_fits t a

-- The memory of the boards.
abbrev pub image : ℕ → ℕ
image a = a % 2 ^ 8

pub some_fits : (n m v : ℕ) → n < m → ◌≡◌ {A = Option ℕ} (some n) (some v) → v < m
some_fits n m v h e = let f : n ≡ v = cc in omega arith

-- Registers that keep what is written to them.
abbrev pub board : Hardware
board = record {
  word = λ t a. some (latched t a);
  write_word = λ t a v. success;
  bytes = λ t a n. some (slice image a n);
  write_bytes = λ t a bs. success;
  register = λ t r. none;
  write_register = λ t r v. success;
  core_id = λ t. some 0x0bb11477;
  status = λ t. (success, target_halted);
  target_voltage = λ t. some 3300;
  read_all_regs = λ t. success;
  run = λ t r. success;
  time_ms = λ t. length t;
  uninitialised = λ t. 0;
  word_fits = λ t a v e. some_fits (latched t a) (2 ^ 32) v (latched_fits t a) e;
  uninitialised_fits = λ t. omega arith;
}

abbrev pub slow_word : Trace → ℕ
slow_word t = if ltb (reads t) 2 then 0xffffffff else 0

pub slow_word_fits : (t : Trace) → slow_word t < 2 ^ 32
slow_word_fits t = ground arith

-- Every register reads as ones for two reads after another access, and then as 0.
abbrev pub slow : Hardware
slow = record {
  word = λ t a. some (slow_word t);
  write_word = λ t a v. success;
  bytes = λ t a n. none;
  write_bytes = λ t a bs. failure;
  register = λ t r. none;
  write_register = λ t r v. failure;
  core_id = λ t. none;
  status = λ t. (failure, target_unknown);
  target_voltage = λ t. none;
  read_all_regs = λ t. failure;
  run = λ t r. failure;
  time_ms = λ t. length t;
  uninitialised = λ t. 0;
  word_fits = λ t a v e. some_fits (slow_word t) (2 ^ 32) v (slow_word_fits t) e;
  uninitialised_fits = λ t. omega arith;
}

-- Whether the accesses leave the flash of an F0 locked: it starts locked, the lock bit locks it, and
-- the two keys in a row unlock it.
abbrev key1_sent : Trace → Bool
key1_sent (Access.write_debug32 b v ∷ t) = b == Reg.flash_keyr && v == Reg.flash_key1
key1_sent _ = false

unfoldable pub keeps_locked : Trace → Bool
keeps_locked [] = true
keeps_locked (Access.write_debug32 b v ∷ t) =
    let before = keeps_locked t in
    if b == Reg.flash_cr
    then bit_and v (bit Reg.flash_cr_lock) == bit Reg.flash_cr_lock || before
    else if b == Reg.flash_keyr
    then (if v == Reg.flash_key2 && key1_sent t then false else before)
    else before
keeps_locked (_ ∷ t) = keeps_locked t

-- Its control register shows the lock bit alone, so STRT clears itself; others read as 0.
abbrev pub keyed_word : Trace → ℕ → ℕ
keyed_word t a = if a == Reg.flash_cr && keeps_locked t then bit Reg.flash_cr_lock else 0

pub keyed_word_fits : (t : Trace) (a : ℕ) → keyed_word t a < 2 ^ 32
keyed_word_fits t a = ground arith

abbrev pub keyed : Hardware
keyed = record board {
  word = λ t a. some (keyed_word t a);
  word_fits = λ t a v e. some_fits (keyed_word t a) (2 ^ 32) v (keyed_word_fits t a) e;
}

-- A chip with the flash at its usual place.
abbrev pub chip : ℕ → FlashType → ℕ → ℕ → Stlink
chip id t size pgsz = record {
  q_buf = [];
  opt = 0;
  core_id = 0;
  core_stat = target_unknown;
  sram_base = 0x20000000;
  sram_size = 0x2000;
  stlink_v = 2;
  chip_id = id;
  flash_type = t;
  flash_base = 0x08000000;
  flash_size = size;
  flash_pgsz = pgsz;
  chip_flags = 0;
  otp_base = 0x1fff7000;
  otp_size = 0x400;
}

-- An F0 with pages of 1K, an F4, an H7, and a chip that is not known.
abbrev pub small_chip : Stlink
small_chip = chip 0x440 f0_f1_f3 0x10000 0x400

abbrev pub sector_chip : Stlink
sector_chip = chip 0x413 f2_f4 0x100000 0x4000

abbrev pub h7_chip : Stlink
h7_chip = chip 0x450 h7 0x200000 0x20000

abbrev pub unknown_chip : Stlink
unknown_chip = chip 0 unknown 0x10000 0x400

abbrev pub start : Stlink → World
start sl = record { sl = sl; trace = [] }

pub small_chip-uniform : (is_f4_like 0x440 || is_f7_like 0x440) ≡ false
unfolding is_f4_like is_f7_like
small_chip-uniform = refl

pub small_chip-pagesize : (p : ℕ) → pagesize_at small_chip p ≡ 0x400
small_chip-pagesize p = pagesize_at-uniform small_chip p small_chip-uniform

pub sector_chip-sectors : (is_f4_like 0x413 || is_f7_like 0x413) ≡ true
unfolding is_f4_like is_f7_like
sector_chip-sectors = refl
