-- ===== src/Loader/Write.antt =====
-- src/stlink-lib/flash_loader.c: `stlink_flashloader_write` for each family. `base` is what lies in
-- the host's memory from the pointer on.
use stlink.Base.{
  ℕ, zero, suc, ◌+◌, ◌-◌, ◌*◌, ◌/◌, ◌%◌, ◌==◌, ltb, none, List, take, drop, bit, has_bits, add32,
  if◌then◌else◌, true, false,
}
use stlink.Target.{
  FlashType, unknown, c0, f0_f1_f3, f1_xl, f2_f4, f7, g0, g4, h7, l0_l1, l4, l5_u5_h5, wb_wl,
  Status, success, failure, Hardware, M, ◌>>=◌, ◌>>◌, pure, gets, skip, on_success, uninitialised,
}
use stlink.Access.{store, read_debug32, read_uint32, fill_buffer, write_mem32}
use stlink.Flash.Reg
use stlink.Flash.Control.{get_stm32l0_flash_base}
use stlink.Flash.Status.{wait_flash_busy, check_flash_error}
use stlink.Flash.Lock.{lock_flash, unlock_flash_if}
use stlink.Loader.Init.{FlashLoader}
use stlink.Loader.Run.{flash_loader_run}
use stlink.Loader.HalfPages.{stm32l1_write_half_pages}

-- L0_WRITE_BLOCK_SIZE and L1_WRITE_BLOCK_SIZE, as the code chooses between them.
unfoldable pub half_page_size : ℕ → ℕ
half_page_size regs = if regs == Reg.flash_l0_regs_addr then 0x40 else 0x80

-- The size of the next block.
abbrev pub block_size : ℕ → ℕ → ℕ → ℕ
block_size most len off = if ltb most (len - off) then most else len - off

-- The next word of the data on a little-endian host, with 0 for the bytes beyond `len`.
unfoldable pub next_word : List ℕ → ℕ → ℕ → ℕ
next_word base len off = read_uint32 (take (block_size 4 len off) (drop off base)) 0

-- The length that is written: the L5 takes 16 bytes at a time.
unfoldable pub written_length : FlashType → ℕ → ℕ
written_length l5_u5_h5 len = if len % 16 == 0 then len else add32 len (16 - len % 16)
written_length _ len = len

-- `len / sl->flash_pgsz`, the pages that a message counts: a page size of 0 is divided by.
unfoldable pub count_pages : M (Unit {0})
count_pages w = if w.sl.flash_pgsz == 0 then none else skip w

module _ ⦃hw : Hardware⦄ (fuel : ℕ) where
  -- F2, F4, F7 and L4, in blocks of the buffer in SRAM, in at most `rounds` rounds.
  unfoldable pub write_blocks : ℕ → FlashLoader → ℕ → List ℕ → ℕ → ℕ → ℕ → M Status
  write_blocks zero fl addr base len buf_size off = λ w. none
  write_blocks (suc rounds) fl addr base len buf_size off = elim (ltb off len) [
    | false ↦ check_flash_error
    | true ↦
        flash_loader_run fuel fl (add32 addr off) (drop off base) (block_size buf_size len off)
        >>= λ s. elim s [
          | failure ↦ check_flash_error >> pure failure
          | success ↦
              write_blocks rounds fl addr base len buf_size (off + block_size buf_size len off)
        ]
  ]

  unfoldable pub write_by_loader : ℕ → FlashLoader → ℕ → List ℕ → ℕ → M Status
  write_by_loader rounds fl addr base len = do
    size ← gets (λ sl. sl.sram_size)
    write_blocks rounds fl addr base len (if ltb 0x8000 size then 0x8000 else 0x4000) 0

  -- WB, WL, G0, G4, L5, U5, H5 and C0: word by word. The result is `off` after the loop.
  unfoldable pub write_words : ℕ → ℕ → List ℕ → ℕ → ℕ → M ℕ
  write_words zero addr base len off = λ w. none
  write_words (suc rounds) addr base len off = elim (ltb off len) [
    | false ↦ pure off
    | true ↦
        store (add32 addr off) (next_word base len off)
        >> wait_flash_busy fuel
        >> write_words rounds addr base len (add32 off 4)
  ]

  -- Words go in pairs: an odd one is followed by a word of zeros.
  unfoldable pub write_by_words : ℕ → ℕ → List ℕ → ℕ → M Status
  write_by_words rounds addr base len = do
    t ← gets (λ sl. sl.flash_type)
    count_pages
    off ← write_words rounds addr base (written_length t len) 0
    if off / 4 % 2 == 0 then skip else (store (add32 addr off) 0 >> wait_flash_busy fuel)
    check_flash_error

  -- `do read(&val); while (val & 1);` in at most `polls` polls.
  unfoldable pub wait_l0 : ℕ → ℕ → ℕ → M ℕ
  wait_l0 zero regs val = λ w. none
  wait_l0 (suc polls) regs val = read_debug32 (regs + Reg.flash_sr_off) val >>= λ r.
      elim (has_bits r.1 (bit 0)) [ true ↦ wait_l0 polls regs r.1 | false ↦ pure r.1 ]

  -- The words that are left, in whole.
  unfoldable pub write_rest_l0 : ℕ → ℕ → ℕ → List ℕ → ℕ → ℕ → ℕ → M Status
  write_rest_l0 zero regs addr base len off val = λ w. none
  write_rest_l0 (suc rounds) regs addr base len off val = elim (ltb off len) [
    | false ↦ check_flash_error
    | true ↦
        store (add32 addr off) (read_uint32 (drop off base) 0) >> wait_l0 fuel regs val >>= λ v.
        write_rest_l0 rounds regs addr base len (add32 off 4) v
  ]

  -- Half pages first, where there is more than one block.
  unfoldable pub write_at_l0 : ℕ → ℕ → FlashLoader → ℕ → List ℕ → ℕ → M Status
  write_at_l0 rounds regs fl addr base len = do
    old ← uninitialised
    let pagesize = half_page_size regs
    if ltb pagesize len
        then (do
          s ← stm32l1_write_half_pages fuel fl addr base len pagesize
          on_success s (write_rest_l0 rounds regs addr base len (len / pagesize * pagesize) old))
        else write_rest_l0 rounds regs addr base len 0 old

  unfoldable pub write_l0 : ℕ → FlashLoader → ℕ → List ℕ → ℕ → M Status
  write_l0 rounds fl addr base len = do
    regs ← gets get_stm32l0_flash_base
    count_pages
    write_at_l0 rounds regs fl addr base len

  -- F0, F1, F3 and F1_XL: page by page, and each under its own unlocking.
  unfoldable pub write_pages : ℕ → FlashLoader → ℕ → List ℕ → ℕ → ℕ → M Status
  write_pages zero fl addr base len off = λ w. none
  write_pages (suc rounds) fl addr base len off = elim (ltb off len) [
    | false ↦ check_flash_error
    | true ↦ gets (λ sl. sl.flash_pgsz) >>= λ pgsz.
        unlock_flash_if
        >> flash_loader_run fuel fl (add32 addr off) (drop off base) (block_size pgsz len off)
        >>= λ s. elim s [
          | failure ↦ check_flash_error >> pure failure
          | success ↦ lock_flash >> write_pages rounds fl addr base len (add32 off pgsz)
        ]
  ]

  -- H7: 64 bytes of the buffer for each part of the data, the last one with what the buffer
  -- held before.
  unfoldable pub write_h7 : ℕ → ℕ → List ℕ → ℕ → ℕ → M Status
  write_h7 zero addr base len off = λ w. none
  write_h7 (suc rounds) addr base len off = elim (ltb off len) [
    | false ↦ check_flash_error
    | true ↦
        fill_buffer (take (block_size 64 len off) (drop off base))
        >> write_mem32 (add32 addr off) 64
        >> wait_flash_busy fuel
        >> write_h7 rounds addr base len (off + block_size 64 len off)
  ]

  unfoldable pub write_by_type : FlashType → ℕ → FlashLoader → ℕ → List ℕ → ℕ → M Status
  write_by_type f2_f4 rounds fl addr base len = write_by_loader rounds fl addr base len
  write_by_type f7 rounds fl addr base len = write_by_loader rounds fl addr base len
  write_by_type l4 rounds fl addr base len = write_by_loader rounds fl addr base len
  write_by_type wb_wl rounds fl addr base len = write_by_words rounds addr base len
  write_by_type g0 rounds fl addr base len = write_by_words rounds addr base len
  write_by_type g4 rounds fl addr base len = write_by_words rounds addr base len
  write_by_type l5_u5_h5 rounds fl addr base len = write_by_words rounds addr base len
  write_by_type c0 rounds fl addr base len = write_by_words rounds addr base len
  write_by_type l0_l1 rounds fl addr base len = write_l0 rounds fl addr base len
  write_by_type f0_f1_f3 rounds fl addr base len = write_pages rounds fl addr base len 0
  write_by_type f1_xl rounds fl addr base len = write_pages rounds fl addr base len 0
  write_by_type h7 rounds fl addr base len = write_h7 rounds addr base len 0
  write_by_type unknown rounds fl addr base len = pure failure

  unfoldable pub flashloader_write : ℕ → FlashLoader → ℕ → List ℕ → ℕ → M Status
  flashloader_write rounds fl addr base len = do
    t ← gets (λ sl. sl.flash_type)
    write_by_type t rounds fl addr base len
