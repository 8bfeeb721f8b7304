-- ===== src/Write.antt =====
-- src/stlink-lib/common_flash.c: writing data or a file to the flash, from the check of the range to
-- the verification and the start of the program that was written.
pub mod Verified
pub mod Returns
pub mod Optimised
use stlink.Base.{
  ℕ, zero, suc, ◌+◌, ◌-◌, ◌%◌, Bool, true, false, not, ◌&&◌, ◌==◌, ltb, leb, Option, none, some,
  List, length, bit_and, add32, if◌then◌else◌,
}
use stlink.Target.{
  Stlink, EraseType, no_erase, section_erase, mass_erase, Status, success, failure, run_normal,
  Hardware, M, ◌>>=◌, ◌>>◌, pure, gets, skip, on_success,
}
use stlink.Access.{byte_at, load, write_reg}
use stlink.Core.{core_id, run}
use stlink.Calculate.{calculate_pagesize}
use stlink.Flash.Range.{
  check_address_range_validity, check_address_range_validity_otp, check_address_alignment,
  erase_flash_section,
}
use stlink.Flash.Verify.{verify_write_flash}
use stlink.Gdb.Blocks.{get_erased_pattern}
use stlink.Loader.Init.{FlashLoader, fresh_loader}
use stlink.Loader.Start.{flashloader_start}
use stlink.Loader.Write.{flashloader_write}
use stlink.Loader.Stop.{flashloader_stop}

-- `erase_type == SECTION_ERASE`
abbrev pub is_section_erase : EraseType → Bool
is_section_erase section_erase = true
is_section_erase _ = false

-- How many of the first `idx` bytes are the erased pattern, from the last one on.
unfoldable pub count_empty : List ℕ → ℕ → ℕ → ℕ
count_empty bytes pattern zero = 0
count_empty bytes pattern (suc idx) =
    let rest = count_empty bytes pattern idx in if byte_at bytes idx == pattern then suc rest else 0

-- `num_empty`: whole words of the erased pattern at the end, where the context asks for it.
unfoldable pub num_empty : Stlink → List ℕ → ℕ → ℕ
num_empty sl bytes len =
    if sl.opt == 0
    then 0
    else (let n = count_empty bytes (get_erased_pattern sl.flash_type) len in n - bit_and n 3)

-- The length of the data that is left, which is all of it where nothing would be.
unfoldable pub kept_length : ℕ → ℕ → ℕ
kept_length empty len = if empty == len then len else len - empty

module _ ⦃hw : Hardware⦄ (fuel rounds : ℕ) where
  -- `stlink_flashloader_stop`, and the verification.
  unfoldable pub stop_and_verify : FlashLoader → ℕ → List ℕ → ℕ → M Status
  stop_and_verify fl addr base len = do
    s ← flashloader_stop fl
    on_success s (verify_write_flash rounds addr base len)

  unfoldable pub write_started : ℕ → List ℕ → ℕ → Status × FlashLoader → M Status
  write_started addr base len (failure, fl) = pure failure
  write_started addr base len (success, fl) = do
    s ← flashloader_write fuel rounds fl addr base len
    on_success s (stop_and_verify fl addr base len)

  -- Start, write, stop and verify, each only after the one before succeeded.
  unfoldable pub program_flash : ℕ → List ℕ → ℕ → M Status
  program_flash addr base len = do
    fl ← fresh_loader
    r ← flashloader_start fuel fl
    write_started addr base len r

  -- The range is erased where the caller asks for it; the status of the core id is ignored.
  unfoldable pub erase_and_write : ℕ → List ℕ → ℕ → Bool → EraseType → M Status
  erase_and_write addr base len eraseonly erase_type = do
    s ← core_id
    e ←
        (if is_section_erase erase_type
          then erase_flash_section fuel rounds addr len true
          else pure success)
    on_success e (if eraseonly then pure success else program_flash addr base len)

  -- An odd length is made even. Only an even one has the alignment of its address checked.
  unfoldable pub write_in_range : ℕ → List ℕ → ℕ → Bool → EraseType → Status → M Status
  write_in_range addr base len eraseonly erase_type failure = pure failure
  write_in_range addr base len eraseonly erase_type success =
      if len % 2 == 0
      then (check_address_alignment rounds addr >>= λ s.
          on_success s (erase_and_write addr base len eraseonly erase_type))
      else erase_and_write addr base (add32 len 1) eraseonly erase_type

  unfoldable pub write_flash : ℕ → List ℕ → ℕ → Bool → EraseType → M Status
  write_flash addr base len eraseonly erase_type = do
    calculate_pagesize addr
    valid ← gets (λ sl. check_address_range_validity sl addr len)
    write_in_range addr base len eraseonly erase_type valid

  unfoldable pub write_otp_in_range : ℕ → List ℕ → ℕ → Status → M Status
  write_otp_in_range addr base len failure = pure failure
  write_otp_in_range addr base len success = do s ← core_id; program_flash addr base len

  unfoldable pub write_otp : ℕ → List ℕ → ℕ → M Status
  write_otp addr base len = do
    valid ← gets (λ sl. check_address_range_validity_otp sl addr len)
    write_otp_in_range addr base len valid

  -- The pc is set to the reset routine, the second word of the vector table, and the core runs.
  unfoldable pub fwrite_finalize : ℕ → M (Unit {0})
  fwrite_finalize addr = do
    val ← load (add32 addr 4)
    s ← write_reg val 15
    r ← run run_normal
    skip

  unfoldable pub mwrite_flash : List ℕ → ℕ → ℕ → EraseType → M Status
  mwrite_flash bytes len addr erase_type = do
    empty ← gets (λ sl. num_empty sl bytes len)
    err ← write_flash addr bytes (kept_length empty len) (empty == len) erase_type
    fwrite_finalize addr
    pure err

  -- A range that begins in the one-time programmable memory is written without erasing it.
  unfoldable pub fwrite_mapped : List ℕ → ℕ → EraseType → M Status
  fwrite_mapped bytes addr erase_type = do
    sl ← gets (λ sl. sl)
    let len = length bytes
    let empty = num_empty sl bytes len
    err ←
        (if leb sl.otp_base addr && ltb addr (add32 sl.otp_base sl.otp_size)
          then write_otp addr bytes (kept_length empty len)
          else write_flash addr bytes (kept_length empty len) (empty == len) erase_type)
    fwrite_finalize addr
    pure err

  -- The file as `map_file` finds it; `none` where it fails.
  unfoldable pub fwrite_flash : Option (List ℕ) → ℕ → EraseType → M Status
  fwrite_flash none addr erase_type = pure failure
  fwrite_flash (some bytes) addr erase_type = fwrite_mapped bytes addr erase_type
