-- ===== src/Write/Verified.antt =====
-- Writing, on a target whose memory may change with every access but a read.
use stlink.Base.{
  ℕ, ◌+◌, ◌%◌, ◌^◌, ◌<◌, ◌≡◌, ◌==◌, Bool-cases, inl, inr, false, some, List, take, add32,
  if◌then◌else◌,
}
use stlink.Target.{Trace, EraseType, Status, success, failure, Hardware, World}
use stlink.Target.Ensures.{Ensures, ensures_rules}
use stlink.Flash.Verify.{verify_write_flash}
use stlink.Flash.Verify.Memory.{slice}
use stlink.Flash.Verify.Sound.{ReadsMemory, verify_write_flash-Ensures}
use stlink.Loader.Init.{FlashLoader}
use stlink.Write.{
  stop_and_verify, write_started, program_flash, erase_and_write, write_in_range, write_flash,
  write_otp_in_range, write_otp,
}

-- The length that is written: an odd one is made even.
unfoldable pub even_length : ℕ → ℕ
even_length len = if len % 2 == 0 then len else add32 len 1

module _ ⦃hw : Hardware⦄ (mem : Trace → ℕ → ℕ) (reads : ReadsMemory mem) (fuel rounds addr : ℕ)
    (base : List ℕ) where
  -- The memory holds the first `len` bytes of the data.
  pub Holds : ℕ → World → Type 0
  Holds len w = slice (mem w.trace) addr len ≡ take len base

  -- The range ends below 4G, with room for a round of the comparison.
  pub Below : ℕ → Type 0
  Below len = (addr + len < 2 ^ 32) × (len + 0x1800 < 2 ^ 32)

  verify_write_flash-Holds :
      (len : ℕ) → Below len → Ensures (Holds len) (verify_write_flash rounds addr base len)
  unfolding Holds Below
  verify_write_flash-Holds len (top, small) =
      verify_write_flash-Ensures mem reads addr base rounds len top small

  stop_and_verify-Holds :
      (fl : FlashLoader) (len : ℕ)
      → Below len
      → Ensures (Holds len) (stop_and_verify fuel rounds fl addr base len)
  unfolding stop_and_verify
  stop_and_verify-Holds fl len below = search (ensures_rules, verify_write_flash-Holds len below)

  write_started-Holds :
      (r : Status × FlashLoader) (len : ℕ)
      → Below len
      → Ensures (Holds len) (write_started fuel rounds addr base len r)
  unfolding write_started
  write_started-Holds (failure, fl) len below = search ensures_rules
  write_started-Holds (success, fl) len below =
      search (ensures_rules, stop_and_verify-Holds fl len below)

  program_flash-Holds :
      (len : ℕ) → Below len → Ensures (Holds len) (program_flash fuel rounds addr base len)
  unfolding program_flash
  program_flash-Holds len below = search (ensures_rules, write_started-Holds)

  erase_and_write-Holds :
      (len : ℕ) (t : EraseType)
      → Below len
      → Ensures (Holds len) (erase_and_write fuel rounds addr base len false t)
  unfolding erase_and_write
  erase_and_write-Holds len t below = search (ensures_rules, program_flash-Holds) depth 10

  write_in_range-Holds :
      (len : ℕ) (t : EraseType) (s : Status)
      → Below (even_length len)
      → Ensures (Holds (even_length len)) (write_in_range fuel rounds addr base len false t s)
  unfolding write_in_range even_length
  write_in_range-Holds len t failure below = search ensures_rules
  write_in_range-Holds len t success below = elim (Bool-cases (len % 2 == 0)) [
    | inl even ↦
        let whole : Below len = rw even at below in
        rw even (search (ensures_rules, erase_and_write-Holds len t whole))
    | inr odd ↦
        let whole : Below (add32 len 1) = rw odd at below in
        rw odd (erase_and_write-Holds (add32 len 1) t whole)
  ]

  -- If every read of bytes answers from the memory and leaves it, and the range ends below 4G,
  -- then wherever stlink_write_flash is asked to do more than erase and returns success, the
  -- memory at the address holds the data, up to the length made even. What the other accesses do to
  -- the memory, and what the target answers to them, is arbitrary.
  pub write_flash-Holds :
      (len : ℕ) (t : EraseType) (w w' : World)
      → addr + even_length len < 2 ^ 32
      → even_length len + 0x1800 < 2 ^ 32
      → write_flash fuel rounds addr base len false t w ≡ some (success, w')
      → slice (mem w'.trace) addr (even_length len) ≡ take (even_length len) base
  unfolding Holds Below write_flash
  write_flash-Holds len t w w' top small e =
      let h : Ensures (Holds (even_length len)) (write_flash fuel rounds addr base len false t) =
        search (ensures_rules, λ (s : Status). write_in_range-Holds len t s (top, small)) in
      h.at w w' e

  write_otp_in_range-Holds :
      (len : ℕ) (s : Status)
      → Below len
      → Ensures (Holds len) (write_otp_in_range fuel rounds addr base len s)
  unfolding write_otp_in_range
  write_otp_in_range-Holds len failure below = search ensures_rules
  write_otp_in_range-Holds len success below = search (ensures_rules, program_flash-Holds)

  -- If every read of bytes answers from the memory and leaves it, and the range ends below 4G,
  -- then wherever stlink_write_otp returns success, the memory at the address holds the data.
  pub write_otp-Holds :
      (len : ℕ) (w w' : World)
      → addr + len < 2 ^ 32
      → len + 0x1800 < 2 ^ 32
      → write_otp fuel rounds addr base len w ≡ some (success, w')
      → slice (mem w'.trace) addr len ≡ take len base
  unfolding Holds Below write_otp
  write_otp-Holds len w w' top small e =
      let h : Ensures (Holds len) (write_otp fuel rounds addr base len) =
        search (ensures_rules, λ (s : Status). write_otp_in_range-Holds len s (top, small)) in
      h.at w w' e
