-- ===== src/Tests/Writing.antt =====
-- Writing to a flash that is programmed word by word.
use stlink.Base.{
  ℕ, ◌+◌, ◌-◌, ◌*◌, ◌/◌, ◌%◌, ◌^◌, ◌<◌, ◌≤◌, ◌≡◌, ◌≢◌, ◌↔◌, refl, ap, true, false, bit, ◌==◌, ◌&&◌,
  ltb, leb, some, none, List, [], ◌∷◌, ◌++◌, length, take, replicate, arith, bit_and-zero_left,
  if◌then◌else◌,
}
use stlink.Target.{
  Access, Trace, Stlink, World, g0, h7, no_erase, Status, success, Hardware, TargetState,
  target_running, target_halted, ◌>>=◌, pure, gets, skip, uninitialised, on_success,
}
use stlink.Calculate.{is_f4_like, is_f7_like, pagesize_at, calculate_pagesize}
use stlink.Calculate.Layout.{pagesize_at-uniform}
use stlink.Access.{
  load, store, read_debug32, write_debug32, read_mem32, read_uint32, read_reg, write_reg,
}
use stlink.Flash.Reg
use stlink.Flash.Status.Wait.{Settles, reads}
use stlink.Loader.Clock.{polls, wait_halted-wraps}
use stlink.Loader.Run.{wait_halted}
use stlink.Core.{is_halted, core_id, with_core_id, run, backend_run}
use stlink.Flash.Control.{read_flash_cr, flash_cr_register, clear_flash_cr_pg, pg_register, pg_bit}
use stlink.Flash.Status.{
  wait_flash_busy, is_flash_busy, busy_at, busy_shift, read_flash_sr, sr_register, read_sr_at,
  clear_flash_error, clear_error_of, write_flash_sr, write_sr_at, check_flash_error, read_errors,
  error_mask, checks_bank_2,
}
use stlink.Flash.Lock.{
  unlock_flash_if, is_flash_locked, lock_register, locked_at, lock_flash, lock_at, lock_cr_mask,
  lock_second, second_register,
}
use stlink.Flash.Range.{check_address_range_validity, check_address_alignment, align_loop}
use stlink.Flash.Verify.{verify_write_flash, verify_loop, compare_round, bytes_eq}
use stlink.Flash.Verify.Memory.{slice}
use stlink.Flash.Verify.Sound.{ReadsMemory}
use stlink.Loader.Init.{fresh_loader}
use stlink.Loader.Mode.{
  set_dma_state, dma_at, dma_enable, change_dma, set_flash_cr_pg, set_pg_register, set_pg_value,
}
use stlink.Loader.Start.{flashloader_start, start_by_type, start_words}
use stlink.Loader.Write.{
  flashloader_write, write_by_type, write_by_words, count_pages, write_words, written_length,
  next_word,
}
use stlink.Loader.Stop.{
  flashloader_stop, stop_by_type, stop_programming, unmask_interrupts, unmask_read,
}
use stlink.Write.{
  count_empty, num_empty, kept_length, fwrite_finalize, mwrite_flash, write_flash, write_in_range,
  erase_and_write, program_flash, write_started, stop_and_verify,
}
use stlink.Write.Verified.{even_length, write_flash-Holds}
use stlink.Write.Returns.{Writable, InPages, write_flash-Returns}
use stlink.Write.Optimised.{mwrite_flash-Holds}
use stlink.Gdb.Blocks.{get_erased_pattern}
use stlink.Loader.Init.{FlashLoader}
use stlink.Loader.Words.{debug_writes, put_words, put_pad, word_count}
use stlink.Loader.Returns.Ready.{Ready}
use stlink.Loader.Returns.Words.{programs_words, flashloader_write-put_words}
use stlink.Flash.Lock.Effect.{IsLocked}
use stlink.Loader.Stop.Locked.{flashloader_stop-Locked}
use stlink.Tests.Flash.{board-HoldsLock}
use stlink.Tests.Boards.{chip, start, some_fits, board, latched, h7_chip}

-- The byte of a word at an offset.
abbrev byte_of : ℕ → ℕ → ℕ
byte_of v i = v / 2 ^ (8 * i) % 2 ^ 8

-- An erased memory, into which each debug write puts a word.
unfoldable pub programmed : Trace → ℕ → ℕ
programmed [] a = 0xff
programmed (Access.write_debug32 b v ∷ t) a =
    let old = programmed t a in if leb b a && ltb a (b + 4) then byte_of v (a - b) else old
programmed (_ ∷ t) a = programmed t a

-- Its registers read as 0.
abbrev flash_board : Hardware
flash_board = record {
  word = λ t a. some 0;
  write_word = λ t a v. success;
  bytes = λ t a n. some (slice (programmed t) a n);
  write_bytes = λ t a bs. success;
  register = λ t r. none;
  write_register = λ t r v. success;
  core_id = λ t. some 0x0bc11477;
  status = λ t. (success, target_halted);
  target_voltage = λ t. some 3300;
  read_all_regs = λ t. success;
  run = λ t r. success;
  time_ms = λ t. 10 * length t;
  uninitialised = λ t. 0;
  word_fits = λ t a v e. some_fits 0 (2 ^ 32) v (omega arith) e;
  uninitialised_fits = λ t. omega arith;
}

-- A G0 with pages of 2K.
abbrev g0_chip : Stlink
g0_chip = chip 0x460 g0 0x20000 0x800

abbrev five_bytes : List ℕ
five_bytes = 1 ∷ 2 ∷ 3 ∷ 4 ∷ 5 ∷ 0 ∷ []

abbrev written_world : World
written_world =
    elim (write_flash ⦃hw = flash_board⦄ 51 0x09000000 0x08000000 five_bytes 5 false no_erase
      (start g0_chip)) [ none ↦ start g0_chip | some (s, w) ↦ w ]

written :
    write_flash ⦃hw = flash_board⦄ 51 0x09000000 0x08000000 five_bytes 5 false no_erase
      (start g0_chip)
    ≡ some (success, written_world)
unfolding ◌>>=◌ pure gets skip uninitialised on_success pagesize_at is_f4_like is_f7_like
    calculate_pagesize load store read_debug32 write_debug32 read_mem32 read_uint32 core_id
    with_core_id read_flash_cr flash_cr_register clear_flash_cr_pg pg_register pg_bit
    wait_flash_busy is_flash_busy busy_at busy_shift read_flash_sr sr_register read_sr_at
    clear_flash_error clear_error_of write_flash_sr write_sr_at check_flash_error read_errors
    error_mask checks_bank_2 unlock_flash_if is_flash_locked lock_register locked_at lock_flash
    lock_at lock_cr_mask lock_second second_register check_address_range_validity
    check_address_alignment align_loop verify_write_flash verify_loop compare_round bytes_eq slice
    fresh_loader flashloader_start set_dma_state dma_at dma_enable change_dma start_by_type
    start_words set_flash_cr_pg set_pg_register set_pg_value flashloader_write write_by_type
    write_by_words count_pages write_words written_length next_word flashloader_stop stop_by_type
    stop_programming unmask_interrupts unmask_read write_flash write_in_range erase_and_write
    program_flash write_started stop_and_verify programmed
written = refl

flash_board-ReadsMemory : ReadsMemory ⦃hw = flash_board⦄ programmed
unfolding programmed
flash_board-ReadsMemory = record { bytes = λ t a n. refl; kept = λ t a n. refl }

write_flash-Holds_example :
    slice (programmed written_world.trace) 0x08000000 (even_length 5)
    ≡ take (even_length 5) five_bytes
unfolding even_length
write_flash-Holds_example =
    write_flash-Holds ⦃hw = flash_board⦄ programmed flash_board-ReadsMemory 51 0x09000000 0x08000000
      five_bytes 5 no_erase (start g0_chip) written_world (omega arith) (omega arith) written

g0_chip-pagesize : (p : ℕ) → pagesize_at g0_chip p ≡ 0x800
unfolding is_f4_like is_f7_like
g0_chip-pagesize p = pagesize_at-uniform g0_chip p refl

-- A board whose flash is busy for two reads after each other access, and whose core halts at the
-- fourth poll.
abbrev busy_word : Trace → ℕ → ℕ
busy_word t a = if a == Reg.flash_gx_sr && ltb (reads t) 2 then bit 16 else 0

busy_word_fits : (t : Trace) (a : ℕ) → busy_word t a < 2 ^ 32
busy_word_fits t a = ground arith

abbrev polled_state : Trace → TargetState
polled_state (Access.time_ms ∷ t) = if ltb (polls t) 3 then target_running else target_halted
polled_state _ = target_running

abbrev busy_board : Hardware
busy_board = record flash_board {
  word = λ t a. some (busy_word t a);
  status = λ t. (success, polled_state t);
  word_fits = λ t a v e. some_fits (busy_word t a) (2 ^ 32) v (busy_word_fits t a) e;
}

idle_word : (t : Trace) (a : ℕ) → 3 ≤ reads t → busy_word t a ≡ 0
idle_word t a late = ground (arith, late)

halts_late : (n : ℕ) → 3 ≤ n → is_halted (if ltb n 3 then target_running else target_halted) ≡ true
halts_late n late = let e : ltb n 3 ≡ false = ground arith in rw e refl

g0_chip-Settles : Settles ⦃hw = busy_board⦄ reads g0_chip 3
g0_chip-Settles = record {
  idle = λ t bank reg shift late e f.
      (0, ap some (idle_word t reg late), bit_and-zero_left (2 ^ shift));
}

g0_chip-Ready : Ready ⦃hw = busy_board⦄ g0_chip 3 4
g0_chip-Ready = record {
  known = λ e. cc;
  settles = g0_chip-Settles;
  halts = record { at = λ t late. halts_late (polls t) late };
  waits = omega arith;
  some_page = omega arith;
}

g0_chip-Writable : Writable ⦃hw = busy_board⦄ g0_chip 3 4
g0_chip-Writable = record { ready = g0_chip-Ready; small_page = omega arith }

g0_chip-InPages : InPages g0_chip 0x08000000 (even_length 5) 0x09000000
unfolding even_length
g0_chip-InPages = record {
  pages = record {
    some_size = λ p lt. omega (arith, g0_chip-pagesize p);
    fits = λ p lt. omega (arith, g0_chip-pagesize p);
  };
  top = omega arith;
  small = omega arith;
  enough = omega arith;
}

write_flash-Returns_example :
    (s : Status) × ((w' : World) × (write_flash ⦃hw = busy_board⦄ 4 0x09000000 0x08000000 five_bytes
          5 false no_erase
          (start g0_chip)
        ≡ some (s, w')))
write_flash-Returns_example =
    write_flash-Returns ⦃hw = busy_board⦄ 3 4 0x09000000 0x08000000 5 five_bytes (start g0_chip)
      g0_chip-Writable false no_erase g0_chip-InPages

-- Four bytes and an erased word, on a chip whose context asks to leave such words out.
abbrev optimising_chip : Stlink
optimising_chip = record g0_chip { opt = 1 }

abbrev four_and_erased : List ℕ
four_and_erased = 1 ∷ 2 ∷ 3 ∷ 4 ∷ 0xff ∷ 0xff ∷ 0xff ∷ 0xff ∷ []

abbrev optimised_world : World
optimised_world =
    elim (mwrite_flash ⦃hw = flash_board⦄ 2 100 four_and_erased 8 0x08000000 no_erase
      (start optimising_chip)) [ none ↦ start optimising_chip | some (s, w) ↦ w ]

optimised :
    mwrite_flash ⦃hw = flash_board⦄ 2 100 four_and_erased 8 0x08000000 no_erase
      (start optimising_chip)
    ≡ some (success, optimised_world)
unfolding ◌>>=◌ pure gets skip uninitialised on_success pagesize_at is_f4_like is_f7_like
    calculate_pagesize load store read_debug32 write_debug32 read_mem32 read_uint32 core_id
    with_core_id read_flash_cr flash_cr_register clear_flash_cr_pg pg_register pg_bit
    wait_flash_busy is_flash_busy busy_at busy_shift read_flash_sr sr_register read_sr_at
    clear_flash_error clear_error_of write_flash_sr write_sr_at check_flash_error read_errors
    error_mask checks_bank_2 unlock_flash_if is_flash_locked lock_register locked_at lock_flash
    lock_at lock_cr_mask lock_second second_register check_address_range_validity
    check_address_alignment align_loop verify_write_flash verify_loop compare_round bytes_eq slice
    fresh_loader flashloader_start set_dma_state dma_at dma_enable change_dma start_by_type
    start_words set_flash_cr_pg set_pg_register set_pg_value flashloader_write write_by_type
    write_by_words count_pages write_words written_length next_word flashloader_stop stop_by_type
    stop_programming unmask_interrupts unmask_read write_flash write_in_range erase_and_write
    program_flash write_started stop_and_verify programmed count_empty num_empty kept_length
    fwrite_finalize mwrite_flash run backend_run read_reg write_reg
optimised = refl

optimised_empty : num_empty optimising_chip four_and_erased 8 ≢ 8
unfolding num_empty count_empty
optimised_empty e = omega arith

mwrite_flash-Holds_example :
    (kept : ℕ) × ((empty : ℕ) × ((w1 : World) × ((take kept four_and_erased
              ++ replicate empty (get_erased_pattern optimising_chip.flash_type)
            ≡ take 8 four_and_erased)
          × ((empty % 4 ≡ 0)
              × ((slice (programmed w1.trace) 0x08000000 (even_length kept)
                    ≡ take (even_length kept) four_and_erased)
                  × (fwrite_finalize ⦃hw = flash_board⦄ 2 100 0x08000000 w1
                      ≡ some (tt, optimised_world)))))))
mwrite_flash-Holds_example =
    mwrite_flash-Holds ⦃hw = flash_board⦄ 2 100 0x08000000 8 no_erase four_and_erased programmed
      (start optimising_chip) optimised_world flash_board-ReadsMemory (omega arith) optimised_empty
      (omega arith) (omega arith) optimised

abbrev unused_loader : FlashLoader
unused_loader = record { loader_addr = 0; buf_addr = 0; rcc_dma_bkp = 0; iwdg_kr = 0 }

g0_chip-words : programs_words g0 ≡ true
unfolding programs_words
g0_chip-words = refl

flashloader_write-put_words_example :
    (s : Status) × ((w' : World) × ((flashloader_write ⦃hw = busy_board⦄ 4 100 unused_loader
            0x08000000 five_bytes 6
            (start g0_chip)
          ≡ some (s, w'))
        × (debug_writes w'.trace
            ≡ put_pad (word_count (written_length g0 6)) 0x08000000 (
                put_words
                  (word_count (written_length g0 6))
                  0x08000000
                  (take (written_length g0 6) five_bytes)
                  (debug_writes [])))))
flashloader_write-put_words_example =
    flashloader_write-put_words ⦃hw = busy_board⦄ 4 100 unused_loader 0x08000000 five_bytes 6 3
      (start g0_chip) (λ e. cc) g0_chip-Settles (omega arith) (omega arith) g0_chip-words
      (omega arith) (omega arith)

-- A board whose clock is 300 ms before its wrap.
abbrev late_board : Hardware
late_board = record board { time_ms = λ t. 2 ^ 32 - 300 + length t }

wait_halted-wraps_example :
    (timeout : ℕ) × ((wait_halted ⦃hw = late_board⦄ 100 (start g0_chip)
        ≡ some (timeout, record (start g0_chip) { trace = Access.time_ms ∷ Access.time_ms ∷ [] }))
      × ((timeout ≡ 0) ↔ ((2 ^ 32 - 300 + 0) % 2 ^ 32 ≡ 2 ^ 32 - 500)))
wait_halted-wraps_example =
    wait_halted-wraps ⦃hw = late_board⦄ 99 (start g0_chip) (omega arith) (omega arith)

-- The H7 after its stop. The board keeps what is written.
abbrev stopped_world : World
stopped_world = elim (flashloader_stop ⦃hw = board⦄ unused_loader (start h7_chip)) [
  | none ↦ start h7_chip
  | some (s, w) ↦ w
]

stopped :
    flashloader_stop ⦃hw = board⦄ unused_loader (start h7_chip) ≡ some (success, stopped_world)
unfolding ◌>>=◌ pure gets skip uninitialised load store read_debug32 write_debug32 latched
    read_flash_cr flash_cr_register clear_flash_cr_pg pg_register pg_bit lock_flash lock_register
    lock_at lock_cr_mask lock_second second_register set_dma_state dma_at dma_enable change_dma
    flashloader_stop stop_by_type stop_programming unmask_interrupts unmask_read
stopped = refl

flashloader_stop-Locked_example :
    (reg shift : ℕ) × (lock_register h7_chip h7 ≡ some (reg, shift))
    × IsLocked ⦃hw = board⦄ reg shift stopped_world
flashloader_stop-Locked_example =
    flashloader_stop-Locked ⦃hw = board⦄ unused_loader (start h7_chip) stopped_world success
      (λ e. cc) (λ e. cc) (λ reg shift e. board-HoldsLock _ reg shift) stopped
