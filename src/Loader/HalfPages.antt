-- ===== src/Loader/HalfPages.antt =====
-- src/stlink-lib/flash_loader.c: `stm32l1_write_half_pages`, by the program in SRAM or, where that
-- fails on the first half page, by writes over the debug port.
use stlink.Base.{
  ℕ, zero, suc, ◌+◌, ◌-◌, ◌*◌, ◌/◌, ◌%◌, ◌^◌, Bool, true, false, not, ◌&&◌, ◌==◌, ltb, none, List,
  take, drop, bit, bit_or, add32, u32, clear_mask, if◌then◌else◌,
}
use stlink.Target.{Status, success, failure, Hardware, M, ◌>>=◌, ◌>>◌, pure, gets}
use stlink.Access.{store, load, read_debug32, fill_buffer, write_mem32}
use stlink.Flash.Reg
use stlink.Flash.Control.{get_stm32l0_flash_base}
use stlink.Flash.Status.{wait_flash_busy}
use stlink.Loader.Init.{FlashLoader}
use stlink.Loader.Run.{flash_loader_run}

-- FLASH_L1_FPRG and FLASH_L1_PROG
abbrev pub flash_l1_fprg : ℕ
flash_l1_fprg = 10

abbrev pub flash_l1_prog : ℕ
flash_l1_prog = 3

abbrev pub is_failure : Status → Bool
is_failure failure = true
is_failure success = false

-- Whether the program is still used after its first run.
unfoldable pub keeps_loader : ℕ → Status → Bool
keeps_loader count s = not (is_failure s && count == 0)

module _ ⦃hw : Hardware⦄ (fuel : ℕ) where
  -- One half page in parts of 64 bytes, until one fails, in at most `rounds` rounds.
  unfoldable pub soft_write : ℕ → ℕ → List ℕ → ℕ → ℕ → M Status
  soft_write zero addr base pagesize off = λ w. none
  soft_write (suc rounds) addr base pagesize off = elim (ltb off pagesize) [
    | false ↦ pure success
    | true ↦
        let chunk = if ltb 64 (pagesize - off) then 64 else pagesize - off in
        fill_buffer (take chunk (drop off base))
        >> write_mem32 (add32 addr off) (chunk % 2 ^ 16)
        >>= λ s. elim s [
          | failure ↦ pure failure
          | success ↦ soft_write rounds addr base pagesize (off + 64)
        ]
  ]

  -- One half page: the result, and whether the program is used for the next.
  unfoldable pub after_run : ℕ → List ℕ → ℕ → Bool → Status → M (Status × Bool)
  after_run addr base pagesize true s = pure (s, true)
  after_run addr base pagesize false s =
      soft_write (pagesize + 1) addr base pagesize 0 >>= λ r. pure (r, false)

  unfoldable pub write_half_page : FlashLoader → ℕ → List ℕ → ℕ → ℕ → Bool → M (Status × Bool)
  write_half_page fl addr base pagesize count true = do
    s ← flash_loader_run fuel fl addr base pagesize
    after_run addr base pagesize (keeps_loader count s) s
  write_half_page fl addr base pagesize count false = after_run addr base pagesize false success

  -- `left` half pages from number `count` on, with `ret` from the one before.
  unfoldable pub write_half_pages : FlashLoader → ℕ → List ℕ → ℕ → ℕ → ℕ → Bool → M Status
  write_half_pages fl addr base pagesize zero count use_loader = pure success
  write_half_pages fl addr base pagesize (suc left) count use_loader =
      write_half_page fl (add32 addr (u32 (count * pagesize))) (drop (count * pagesize) base)
        pagesize count use_loader
      >>= λ (s, uses). elim s [
        | failure ↦ pure failure
        | success ↦
            wait_flash_busy fuel >> write_half_pages fl addr base pagesize left (suc count) uses
      ]

  unfoldable pub stm32l1_write_half_pages : FlashLoader → ℕ → List ℕ → ℕ → ℕ → M Status
  stm32l1_write_half_pages fl addr base len pagesize = do
    regs ← gets get_stm32l0_flash_base
    val ← load (regs + Reg.flash_pecr_off)
    let half = bit_or val (bit flash_l1_fprg)
    store (regs + Reg.flash_pecr_off) half
    let prog = bit_or half (bit flash_l1_prog)
    store (regs + Reg.flash_pecr_off) prog
    wait_flash_busy fuel
    s ← write_half_pages fl addr base pagesize (len / pagesize) 0 true
    r ← read_debug32 (regs + Reg.flash_pecr_off) prog
    store (regs + Reg.flash_pecr_off)
        (clear_mask r.1 (bit_or (bit flash_l1_fprg) (bit flash_l1_prog)))
    pure s
