-- ===== src/Loader/Run.antt =====
-- src/stlink-lib/flash_loader.c: one run of the program in SRAM over a block.
use stlink.Base.{
  ℕ, zero, suc, ◌-◌, ◌^◌, Bool, true, false, ◌==◌, ◌&&◌, ◌||◌, ltb, leb, none, List, add32,
  if◌then◌else◌,
}
use stlink.Target.{
  Status, success, failure, run_flash_loader, Hardware, M, ◌>>=◌, ◌>>◌, pure, gets, skip,
  uninitialised,
}
use stlink.Access.{store, read_debug32, read_reg, write_reg, read_all_regs}
use stlink.Core.{write_buffer_to_sram, run, is_core_halted, time_ms}
use stlink.Flash.Status.{is_f1_xl}
use stlink.Loader.Init.{FlashLoader, dhcsr, dfsr, cfsr, hfsr}

abbrev pub flash_regs_bank2_ofs : ℕ
flash_regs_bank2_ofs = 0x40

abbrev pub flash_bank2_start_addr : ℕ
flash_bank2_start_addr = 0x08080000

-- STM32F0_WDG_KR_KEY_RELOAD
abbrev pub wdg_kr_key_reload : ℕ
wdg_kr_key_reload = 0xaaaa

-- `!((int32_t) r > 0 || (int32_t) r < -7)`
unfoldable pub is_all_written : ℕ → Bool
is_all_written r = r == 0 || leb (2 ^ 32 - 7) r

module _ ⦃hw : Hardware⦄ where
  -- `while (time_ms() < timeout)` in at most `fuel` rounds, and what `timeout` is after it.
  unfoldable pub poll_halted : ℕ → ℕ → M ℕ
  poll_halted zero timeout = λ w. none
  poll_halted (suc fuel) timeout = time_ms >>= λ now. elim (ltb now timeout) [
    | false ↦ pure timeout
    | true ↦ is_core_halted >>= λ halted. elim halted [
      | true ↦ pure 0
      | false ↦ poll_halted fuel timeout
    ]
  ]

  -- Half a second from now.
  unfoldable pub wait_halted : ℕ → M ℕ
  wait_halted fuel = do now ← time_ms; poll_halted fuel (add32 now 500)

  -- Source, target, count, register base and pc.
  unfoldable pub setup_core : FlashLoader → ℕ → ℕ → M (Unit {0})
  setup_core fl target size = do
    t ← gets (λ sl. sl.flash_type)
    write_reg fl.buf_addr 0
    write_reg target 1
    write_reg size 2
    write_reg (if is_f1_xl t && leb flash_bank2_start_addr target then flash_regs_bank2_ofs else 0)
        3
    write_reg fl.loader_addr 15
    if fl.iwdg_kr == 0 then skip else store fl.iwdg_kr wdg_kr_key_reload

  -- What is read for the message of an error.
  unfoldable pub run_error : M Status
  run_error = do
    a ← read_debug32 dhcsr 0
    b ← read_debug32 dfsr 0
    c ← read_debug32 cfsr 0
    d ← read_debug32 hfsr 0
    s ← read_all_regs
    pure failure

  unfoldable pub check_written : M Status
  check_written = do
    old ← uninitialised
    r ← read_reg 2 old
    if is_all_written r.1 then pure success else run_error

  unfoldable pub run_loader : ℕ → FlashLoader → ℕ → ℕ → Status → M Status
  run_loader fuel fl target size failure = pure failure
  run_loader fuel fl target size success = do
    setup_core fl target size
    s ← run run_flash_loader
    timeout ← wait_halted fuel
    if timeout == 0 then check_written else run_error

  unfoldable pub flash_loader_run : ℕ → FlashLoader → ℕ → List ℕ → ℕ → M Status
  flash_loader_run fuel fl target buf size = do
    s ← write_buffer_to_sram fl.buf_addr buf size
    run_loader fuel fl target size s
