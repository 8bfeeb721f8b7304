-- ===== src/Tests/Breakpoints.antt =====
-- Code breakpoints on a unit with two comparators.
use stlink.Base.{
  ℕ, ◌<◌, ◌^◌, ◌≡◌, refl, true, false, not, ◌&&◌, some, [], ◌∷◌, ◌==◌, arith, if◌then◌else◌,
}
use stlink.Target.{Access, Trace, success, Hardware, World, ◌>>=◌, pure, skip, uninitialised}
use stlink.Access.{store, read_debug32, write_debug32}
use stlink.Gdb.Breakpoints.{
  Break, Breaks, fp_ctrl, has_breakpoint, update_code_breakpoint, update_loop,
  init_code_breakpoints, clear_breaks, clear_buffer,
}
use stlink.Gdb.Breakpoints.Registers.{InSync, set_up, update, Reached-InSync}
use stlink.Gdb.Breakpoints.Effect.{
  Sets, update_code_breakpoint-Sets, update_code_breakpoint-removes, stops_at, same_break,
}
use stlink.Gdb.Breakpoints.Removal.{
  set_and_remove, set_and_remove-shadowed, set_and_remove-has_breakpoint,
}
use stlink.Tests.Boards.{board, latched, latched_fits, some_fits, small_chip, start}

-- The control register shows two comparators of version 1; other registers keep what is written.
abbrev unit_word : Trace → ℕ → ℕ
unit_word t a = if a == fp_ctrl then 0x21 else latched t a

unit_word_fits : (t : Trace) (a : ℕ) → unit_word t a < 2 ^ 32
unit_word_fits t a = ground (arith, latched_fits t a)

abbrev unit : Hardware
unit = record board {
  word = λ t a. some (unit_word t a);
  word_fits = λ t a v e. some_fits (unit_word t a) (2 ^ 32) v (unit_word_fits t a) e;
}

abbrev unused : Break
unused = record { addr = 0; type = 0 }

abbrev fresh : Breaks
fresh = record {
  code_break_num = 0;
  code_lit_num = 0;
  code_break_rev = 0;
  code_breaks = unused ∷ unused ∷ unused ∷ [];
}

-- Set up, with the breakpoint at 0x08000102 set.
abbrev one_set : Breaks
one_set = record fresh {
  code_break_num = 2;
  code_breaks = record { addr = 0x08000100; type = 2 } ∷ unused ∷ unused ∷ [];
}

-- The trace of setting up.
abbrev ready : World
ready = record (start small_chip) {
  sl = record small_chip { q_buf = 0 ∷ 0 ∷ 0 ∷ 0 ∷ [] };
  trace =
      Access.write_debug32 0xe000200c 0
      ∷ Access.write_debug32 0xe0002008 0
      ∷ Access.read_debug32 0xe000ed00
      ∷ Access.read_debug32 0xe0002000
      ∷ Access.write_debug32 0xe0002000 3
      ∷ [];
}

set_up_run :
    init_code_breakpoints ⦃hw = unit⦄ fresh (start small_chip)
    ≡ some (record fresh { code_break_num = 2 }, ready)
unfolding init_code_breakpoints clear_buffer clear_breaks store read_debug32 write_debug32
    uninitialised pure skip ◌>>=◌ latched
set_up_run = refl

-- The word of 0x08000100 with the high half.
abbrev watching : World
watching = record ready { trace = Access.write_debug32 0xe0002008 0x88000101 ∷ ready.trace }

update_run :
    update_code_breakpoint ⦃hw = unit⦄ 0x08000102 true (record fresh { code_break_num = 2 }) ready
    ≡ some ((success, one_set), watching)
unfolding update_code_breakpoint update_loop store write_debug32 pure skip ◌>>=◌
update_run = refl

Reached-InSync_example : InSync 2 0 one_set.code_breaks watching.trace
Reached-InSync_example = Reached-InSync ⦃hw = unit⦄ one_set watching (
    update 0x08000102 true success (record fresh { code_break_num = 2 }) one_set ready watching
      (set_up fresh (record fresh { code_break_num = 2 }) (start small_chip) ready set_up_run)
      update_run)

update_code_breakpoint-Sets_example : Sets ⦃hw = unit⦄ 0x08000200 one_set watching
update_code_breakpoint-Sets_example =
    update_code_breakpoint-Sets ⦃hw = unit⦄ 0x08000200 one_set watching (omega arith)
      (omega arith, (omega arith, (omega arith, tt)))

update_code_breakpoint-removes_example :
    (s' : Breaks) × ((w' : World) × ((update_code_breakpoint ⦃hw = unit⦄ 0x08000102 false one_set
            watching
          ≡ some ((success, s'), w'))
        × ((a : ℕ) → stops_at s' a ≡ (not (same_break 0 0x08000102 a) && stops_at one_set a))))
update_code_breakpoint-removes_example =
    update_code_breakpoint-removes ⦃hw = unit⦄ 0x08000102 one_set watching (omega arith)
      (omega arith, (omega arith, (omega arith, tt))) ((λ e. refl), ((λ e. refl), tt))

-- The first slot is free again, and the second stops at 0x08000200.
abbrev first_free : Breaks
first_free = record one_set {
  code_breaks =
      record { addr = 0x08000100; type = 0 } ∷ record { addr = 0x08000200; type = 1 } ∷ [];
}

set_and_remove-shadowed_example :
    ((s1 : Breaks) × ((w1 : World) × (update_code_breakpoint ⦃hw = unit⦄ 0x08000200 true first_free
            watching
          ≡ some ((success, s1), w1))))
    × ((s' : Breaks) × ((w' : World) × ((set_and_remove ⦃hw = unit⦄ 0x08000200 first_free watching
              ≡ some ((success, s'), w'))
            × (stops_at s' 0x08000200 ≡ true))))
set_and_remove-shadowed_example =
    set_and_remove-shadowed ⦃hw = unit⦄ 0x08000200 1 0 0 (record { addr = 0x08000100; type = 0 })
      (record { addr = 0x08000200; type = 1 } ∷ []) watching (omega arith) refl refl

-- A unit of version 2.
set_and_remove-has_breakpoint_example :
    (s' : Breaks) × ((w' : World) × ((set_and_remove ⦃hw = unit⦄ 0x08000200
            (record one_set { code_break_rev = 1 })
            watching
          ≡ some ((success, s'), w'))
        × (has_breakpoint 0x08000200 s' ≡ true)))
set_and_remove-has_breakpoint_example =
    set_and_remove-has_breakpoint ⦃hw = unit⦄ 0x08000200 (record one_set { code_break_rev = 1 })
      watching (omega arith) refl refl
