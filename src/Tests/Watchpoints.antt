-- ===== src/Tests/Watchpoints.antt =====
-- Watchpoints in a small table.
use stlink.Base.{◌≡◌, none, some, List, [], ◌∷◌, arith}
use stlink.Gdb.Watchpoints.{Watch, mask_loop, add_data_watchpoint}
use stlink.Gdb.Watchpoints.Mask.{mask_loop-negative, mask_loop-exponent}
use stlink.Gdb.Watchpoints.Table.{Inserts, add_data_watchpoint-Inserts}
use stlink.Tests.Boards.{board, small_chip, start}

mask_loop-negative_example : mask_loop 1000 0x80000004 0xffffffff ≡ none
mask_loop-negative_example = mask_loop-negative 1000 0x80000004 0xffffffff (omega arith)

mask_loop-exponent_example : mask_loop 33 6 0xffffffff ≡ some 2
mask_loop-exponent_example =
    mask_loop-exponent 2 33 6 (omega arith) (omega arith) (omega arith) (omega arith)

-- One watchpoint is in use, one is free.
abbrev half_used : List Watch
half_used =
    record { addr = 0x20000000; mask = 2; function = 6 }
    ∷ record { addr = 0; mask = 0; function = 0 }
    ∷ []

add_data_watchpoint-Inserts_example :
    Inserts ⦃hw = board⦄ 0x20000100 half_used
      (add_data_watchpoint ⦃hw = board⦄ 33 5 0x20000100 4 half_used)
      (start small_chip)
add_data_watchpoint-Inserts_example =
    add_data_watchpoint-Inserts ⦃hw = board⦄ 2 33 5 0x20000100 4 half_used (start small_chip)
      (omega arith) (λ e. omega arith) (omega arith) (omega arith) (omega arith)
