-- ===== src/Loader/Returns.antt =====
-- Termination of the program in SRAM: placing it and running it.
pub mod Ready
pub mod Start
pub mod HalfPages
pub mod Write
pub mod Words
use stlink.Base.{
  ℕ, zero, suc, ◌+◌, ◌-◌, ◌*◌, ◌%◌, ◌^◌, ◌<◌, ◌≤◌, ◌≡◌, ◌∙◌, refl, Bool, Bool-cases, inl, inr, true,
  false, ◌∷◌, Option, some, none, List, ltb, ltb→lt, ltb→le, sym, arith, add32, if◌then◌else◌,
}
use stlink.Target.{
  Access, Trace, Stlink, Status, success, failure, World, Hardware, run_flash_loader, ◌>>=◌, pure,
  gets,
}
use stlink.Target.Returns.{Answers, Returns, Returns-pure, returns_rules}
use stlink.Core.{is_halted, status, is_core_halted, time_ms}
use stlink.Core.Returns.{
  SameParams, access_rules, target_voltage-Returns, read_all_regs-Returns, run-Returns,
  write_buffer_to_sram-Returns,
}
use stlink.Loader.Clock.{
  Halts, polls, polled, halted_at, poll_halted-again, poll_halted-halted, poll_halted-late,
}
use stlink.Loader.Init.{
  FlashLoader, loader_v_dependent_assignment, choose_loader, place_loader,
  flash_loader_write_to_sram, clear_read, clear_fault, init_placed, flash_loader_init, fresh_loader,
}
use stlink.Loader.Run.{
  poll_halted, wait_halted, setup_core, run_error, check_written, run_loader, flash_loader_run,
}

module _ ⦃hw : Hardware⦄ {c : Stlink} where
  loader_v_dependent_assignment-Returns :
      (a b : List ℕ) → Returns (SameParams c) (loader_v_dependent_assignment a b)
  unfolding loader_v_dependent_assignment
  loader_v_dependent_assignment-Returns a b = search (access_rules, target_voltage-Returns)

  choose_loader-Returns : Returns (SameParams c) choose_loader
  unfolding choose_loader
  choose_loader-Returns = search (access_rules, loader_v_dependent_assignment-Returns) depth 16

  place_loader-Returns : (o : Option (List ℕ)) → Returns (SameParams c) (place_loader o)
  unfolding place_loader
  place_loader-Returns none = search access_rules
  place_loader-Returns (some code) = search access_rules depth 10

  flash_loader_write_to_sram-Returns : Returns (SameParams c) flash_loader_write_to_sram
  unfolding flash_loader_write_to_sram
  flash_loader_write_to_sram-Returns =
      search (access_rules, choose_loader-Returns, place_loader-Returns)

  clear_read-Returns : (reg : ℕ) (r : Status × ℕ) → Returns (SameParams c) (clear_read reg r)
  unfolding clear_read
  clear_read-Returns reg (failure, v) = search access_rules
  clear_read-Returns reg (success, v) = search access_rules

  clear_fault-Returns : (reg : ℕ) → Returns (SameParams c) (clear_fault reg)
  unfolding clear_fault
  clear_fault-Returns reg = search (access_rules, clear_read-Returns)

  init_placed-Returns :
      (fl : FlashLoader) (o : Option (ℕ × ℕ)) → Returns (SameParams c) (init_placed fl o)
  unfolding init_placed
  init_placed-Returns fl none = search access_rules
  init_placed-Returns fl (some p) = search (access_rules, clear_fault-Returns) depth 12

  pub flash_loader_init-Returns : (fl : FlashLoader) → Returns (SameParams c) (flash_loader_init fl)
  unfolding flash_loader_init
  flash_loader_init-Returns fl =
      search (access_rules, flash_loader_write_to_sram-Returns, init_placed-Returns) depth 10

  pub fresh_loader-Returns : Returns (SameParams c) fresh_loader
  unfolding fresh_loader
  fresh_loader-Returns = search access_rules

  polled-SameParams : (w : World) → SameParams c w.sl → SameParams c (polled w).sl
  polled-SameParams w h = record {
    chip_id = h.chip_id;
    flash_type = h.flash_type;
    flash_base = h.flash_base;
    flash_size = h.flash_size;
    chip_flags = h.chip_flags;
    flash_pgsz = h.flash_pgsz;
  }

  poll_halted-Answers :
      (n fuel timeout : ℕ) (w : World)
      → Halts n
      → n - polls w.trace < fuel
      → SameParams c w.sl
      → Answers (SameParams c) (poll_halted fuel timeout w)
  poll_halted-Answers n zero timeout w halts enough h = absurd (omega arith)
  poll_halted-Answers n (suc fuel) timeout w halts enough h =
      elim (Bool-cases (ltb (hw.time_ms w.trace % 2 ^ 32) timeout)) [
        | inr late ↦ (timeout, (_, (poll_halted-late fuel timeout w late, h)))
        | inl more ↦ elim (Bool-cases (halted_at w)) [
          | inl e ↦ (0, (_, (poll_halted-halted fuel timeout w more e, polled-SameParams w h)))
          | inr e ↦
              let early : polls w.trace < n = elim (Bool-cases (ltb (polls w.trace) n)) [
                | inl lt ↦ ltb→lt (polls w.trace) n lt
                | inr ge ↦
                    let bad : true ≡ false =
                      sym (halts.at w.trace (ltb→le (polls w.trace) n ge)) ∙ e in
                    cc
              ] in
              let (a, (w', (run, same))) =
                poll_halted-Answers n fuel timeout (polled w) halts (omega (arith, early))
                  (polled-SameParams w h) in
              (a, (w', (poll_halted-again fuel timeout w more e ∙ run, same)))
        ]
      ]

  wait_halted-Returns :
      (n fuel : ℕ) → Halts n → n < fuel → Returns (SameParams c) (wait_halted fuel)
  unfolding wait_halted time_ms ◌>>=◌
  wait_halted-Returns n fuel halts enough = record {
    at = λ w h.
        poll_halted-Answers n fuel (add32 (hw.time_ms w.trace % 2 ^ 32) 500)
          (record w { trace = Access.time_ms ∷ w.trace }) halts (omega arith) h;
  }

  setup_core-Returns : (fl : FlashLoader) (a n : ℕ) → Returns (SameParams c) (setup_core fl a n)
  unfolding setup_core
  setup_core-Returns fl a n = search access_rules depth 16

  run_error-Returns : Returns (SameParams c) run_error
  unfolding run_error
  run_error-Returns = search (access_rules, read_all_regs-Returns) depth 12

  check_written-Returns : Returns (SameParams c) check_written
  unfolding check_written
  check_written-Returns = search (access_rules, run_error-Returns)

  run_loader-Returns :
      (most fuel : ℕ) (fl : FlashLoader) (a n : ℕ) (s : Status)
      → Halts most
      → most < fuel
      → Returns (SameParams c) (run_loader fuel fl a n s)
  unfolding run_loader
  run_loader-Returns most fuel fl a n failure halts enough = search access_rules
  run_loader-Returns most fuel fl a n success halts enough =
      search
        (
          access_rules, setup_core-Returns, run-Returns, wait_halted-Returns, check_written-Returns,
          run_error-Returns,
        )
        depth 10

  -- If the core answers as halted after `most` polls in a row, then a run of the program over a
  -- block returns with more fuel, whatever the clock of the host shows, and leaves the chip's
  -- parameters in the context as they are.
  pub flash_loader_run-Returns :
      (most fuel : ℕ) (fl : FlashLoader) (a : ℕ) (bs : List ℕ) (n : ℕ)
      → Halts most
      → most < fuel
      → Returns (SameParams c) (flash_loader_run fuel fl a bs n)
  unfolding flash_loader_run
  flash_loader_run-Returns most fuel fl a bs n halts enough =
      search (access_rules, write_buffer_to_sram-Returns, run_loader-Returns)
