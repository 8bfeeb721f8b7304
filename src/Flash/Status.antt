-- ===== src/Flash/Status.antt =====
-- src/stlink-lib/common_flash.c: the status registers, waiting for the busy bit, and the error bits.
pub mod Wait
use stlink.Base.{
  ℕ, zero, suc, ◌+◌, ◌-◌, ◌^◌, Bool, true, false, not, ◌&&◌, ◌||◌, ◌==◌, Option, none, some, bit_or,
  bit_and, bit, clear_mask, has_bits, if◌then◌else◌,
}
use stlink.Target.{
  Stlink, FlashType, unknown, c0, f0_f1_f3, f1_xl, f2_f4, f7, g0, g4, h7, l0_l1, l4, l5_u5_h5,
  wb_wl, Bank, bank_1, bank_2, Status, success, failure, Hardware, M, ◌>>=◌, ◌>>◌, pure, gets, skip,
}
use stlink.Access.{load, store, write_debug32}
use stlink.Flash.Reg
use stlink.Flash.Control.{get_stm32l0_flash_base, has_dual_bank, by_bank}

-- The status register of a bank; `none` where the type is unsupported. `read_flash_sr` and
-- `write_flash_sr` choose it alike.
unfoldable pub sr_register : Stlink → FlashType → Bank → Option ℕ
sr_register sl c0 bank = some Reg.flash_c0_sr
sr_register sl f0_f1_f3 bank = some (by_bank bank Reg.flash_sr Reg.flash_sr2)
sr_register sl f1_xl bank = some (by_bank bank Reg.flash_sr Reg.flash_sr2)
sr_register sl f2_f4 bank = some Reg.flash_f4_sr
sr_register sl f7 bank = some Reg.flash_f7_sr
sr_register sl g0 bank = some Reg.flash_gx_sr
sr_register sl g4 bank = some Reg.flash_gx_sr
sr_register sl h7 bank = some (by_bank bank Reg.flash_h7_sr1 Reg.flash_h7_sr2)
sr_register sl l0_l1 bank = some (get_stm32l0_flash_base sl + Reg.flash_sr_off)
sr_register sl l4 bank = some Reg.flash_l4_sr
sr_register sl l5_u5_h5 bank = some Reg.flash_l5_nssr
sr_register sl wb_wl bank = some Reg.flash_wb_sr
sr_register sl unknown bank = none

-- The shift of the busy bit.
unfoldable pub busy_shift : FlashType → Option ℕ
busy_shift c0 = some Reg.flash_c0_sr_bsy
busy_shift f0_f1_f3 = some Reg.flash_sr_bsy
busy_shift f1_xl = some Reg.flash_sr_bsy
busy_shift l0_l1 = some Reg.flash_sr_bsy
busy_shift f2_f4 = some Reg.flash_f4_sr_bsy
busy_shift f7 = some Reg.flash_f7_sr_bsy
busy_shift g0 = some Reg.flash_gx_sr_bsy
busy_shift g4 = some Reg.flash_gx_sr_bsy
busy_shift h7 = some Reg.flash_h7_sr_qw
busy_shift l4 = some Reg.flash_l4_sr_bsy
busy_shift l5_u5_h5 = some Reg.flash_l5_nssr_bsy
busy_shift wb_wl = some Reg.flash_wb_sr_bsy
busy_shift unknown = none

abbrev pub is_h7 : FlashType → Bool
is_h7 h7 = true
is_h7 _ = false

abbrev pub is_f1_xl : FlashType → Bool
is_f1_xl f1_xl = true
is_f1_xl _ = false

-- `flash_type == F1_XL || (flash_type == H7 && chip_flags & CHIP_F_HAS_DUAL_BANK)`
abbrev pub polls_bank_2 : Stlink → Bool
polls_bank_2 sl = is_f1_xl sl.flash_type || (is_h7 sl.flash_type && has_dual_bank sl)

-- The bits that `check_flash_error` tests.
unfoldable pub error_mask : Stlink → FlashType → ℕ
error_mask sl c0 = Reg.flash_c0_sr_error_mask
error_mask sl f0_f1_f3 = Reg.flash_sr_error_mask
error_mask sl f1_xl = Reg.flash_sr_error_mask
error_mask sl f2_f4 = Reg.flash_f4_sr_error_mask
error_mask sl f7 = Reg.flash_f7_sr_error_mask
error_mask sl g0 = Reg.flash_gx_sr_error_mask
error_mask sl g4 = Reg.flash_gx_sr_error_mask
error_mask sl h7 = Reg.flash_h7_sr_error_mask
error_mask sl l0_l1 =
    if get_stm32l0_flash_base sl == Reg.flash_lx_regs_addr
    then Reg.flash_l1_sr_error_mask
    else Reg.flash_l0_sr_error_mask
error_mask sl l4 = Reg.flash_l4_sr_error_mask
error_mask sl l5_u5_h5 = Reg.flash_l5_nssr_error_mask
error_mask sl wb_wl = Reg.flash_wb_sr_error_mask
error_mask sl unknown = 0

-- Whether `check_flash_error` reads the second bank's status too.
unfoldable pub checks_bank_2 : Stlink → FlashType → Bool
checks_bank_2 sl f1_xl = true
checks_bank_2 sl g0 = has_dual_bank sl
checks_bank_2 sl g4 = has_dual_bank sl
checks_bank_2 sl h7 = has_dual_bank sl
checks_bank_2 sl _ = false

module _ ⦃hw : Hardware⦄ where
  unfoldable pub write_sr_at : Option ℕ → ℕ → M Status
  write_sr_at none val = pure failure
  write_sr_at (some reg) val = write_debug32 reg val

  unfoldable pub write_flash_sr : Bank → ℕ → M Status
  write_flash_sr bank val = do
    reg ← gets (λ sl. sr_register sl sl.flash_type bank)
    write_sr_at reg val

  -- What the `switch` clears: nothing for F1_XL, which falls under `default`.
  unfoldable pub clear_error_of : Stlink → FlashType → M (Unit {0})
  clear_error_of sl unknown = skip
  clear_error_of sl f1_xl = skip
  clear_error_of sl h7 = do
    write_flash_sr bank_1 Reg.flash_h7_sr_error_mask
    if has_dual_bank sl then write_flash_sr bank_2 Reg.flash_h7_sr_error_mask >> skip else skip
  clear_error_of sl t = write_flash_sr bank_1 (error_mask sl t) >> skip

  unfoldable pub clear_flash_error : M (Unit {0})
  clear_flash_error = do sl ← gets (λ sl. sl); clear_error_of sl sl.flash_type

  -- The -1 of an unsupported type is 0xffffffff as a uint32_t.
  unfoldable pub read_sr_at : Option ℕ → M ℕ
  read_sr_at none = pure 0xffffffff
  read_sr_at (some reg) = load reg

  unfoldable pub read_flash_sr : Bank → M ℕ
  read_flash_sr bank = do reg ← gets (λ sl. sr_register sl sl.flash_type bank); read_sr_at reg

  unfoldable pub busy_at : Option ℕ → M ℕ
  busy_at none = pure 0xffffffff
  busy_at (some shift) = do
    sl ← gets (λ sl. sl)
    sr ← read_flash_sr bank_1
    if polls_bank_2 sl
        then (read_flash_sr bank_2 >>= λ sr2.
            pure (bit_or (bit_and sr (bit shift)) (bit_and sr2 (bit shift))))
        else pure (bit_and sr (bit shift))

  unfoldable pub is_flash_busy : M ℕ
  is_flash_busy = do shift ← gets (λ sl. busy_shift sl.flash_type); busy_at shift

  -- `while (is_flash_busy(sl));` with at most `fuel` polls.
  unfoldable pub wait_flash_busy : ℕ → M (Unit {0})
  wait_flash_busy zero = λ w. none
  wait_flash_busy (suc fuel) =
      is_flash_busy >>= λ b. elim (b == 0) [ true ↦ skip | false ↦ wait_flash_busy fuel ]

  -- The error bits of the first bank; an unknown type reads none.
  unfoldable pub read_errors : FlashType → ℕ → M ℕ
  read_errors unknown mask = pure 0
  read_errors _ mask = do sr ← read_flash_sr bank_1; pure (bit_and sr mask)

  -- Which error is reported changes only the message: the result is -1 where any is set.
  unfoldable pub check_flash_error : M Status
  check_flash_error = do
    sl ← gets (λ sl. sl)
    let mask = error_mask sl sl.flash_type
    res ← read_errors sl.flash_type mask
    if checks_bank_2 sl sl.flash_type
        then (do
          sr2 ← read_flash_sr bank_2
          pure (if bit_or res (bit_and sr2 mask) == 0 then success else failure))
        else pure (if res == 0 then success else failure)
