-- ===== src/Flash/Control.antt =====
-- src/stlink-lib/common_flash.c: reading and changing the control register of the flash, its busy
-- and error bits apart.
use stlink.Base.{ℕ, ◌*◌, Bool, ◌||◌, ◌==◌, bit_or, bit, clear_mask, has_bits, if◌then◌else◌, u32}
use stlink.Target.{
  Stlink, FlashType, c0, f2_f4, f7, g0, g4, h7, l4, l5_u5_h5, wb_wl, Bank, bank_1, bank_2, Hardware,
  M, ◌>>=◌, ◌>>◌, pure, gets, chip_f_has_dual_bank,
}
use stlink.Target.Chipid.{
  chipid_l1_cat2, chipid_l1_md, chipid_l1_md_plus, chipid_l1_md_plus_hd, chipid_l152_re,
  chipid_h7ax,
}
use stlink.Access.{load, store}
use stlink.Flash.Reg

-- The addresses that `switch` gives by name and by default.
unfoldable pub get_stm32l0_flash_base : Stlink → ℕ
get_stm32l0_flash_base sl =
    if sl.chip_id == chipid_l1_cat2
      || (sl.chip_id == chipid_l1_md
          || (sl.chip_id == chipid_l1_md_plus
              || (sl.chip_id == chipid_l1_md_plus_hd || sl.chip_id == chipid_l152_re)))
    then Reg.flash_lx_regs_addr
    else Reg.flash_l0_regs_addr

-- `sl->chip_flags & CHIP_F_HAS_DUAL_BANK`
abbrev pub has_dual_bank : Stlink → Bool
has_dual_bank sl = has_bits sl.chip_flags chip_f_has_dual_bank

abbrev pub by_bank : Bank → ℕ → ℕ → ℕ
by_bank bank_1 a b = a
by_bank bank_2 a b = b

-- The control register that `read_flash_cr` reads.
unfoldable pub flash_cr_register : FlashType → Bank → ℕ
flash_cr_register c0 bank = Reg.flash_c0_cr
flash_cr_register f2_f4 bank = Reg.flash_f4_cr
flash_cr_register f7 bank = Reg.flash_f7_cr
flash_cr_register g0 bank = Reg.flash_gx_cr
flash_cr_register g4 bank = Reg.flash_gx_cr
flash_cr_register h7 bank = by_bank bank Reg.flash_h7_cr1 Reg.flash_h7_cr2
flash_cr_register l4 bank = Reg.flash_l4_cr
flash_cr_register l5_u5_h5 bank = Reg.flash_l5_nscr
flash_cr_register wb_wl bank = Reg.flash_wb_cr
flash_cr_register _ bank = by_bank bank Reg.flash_cr Reg.flash_cr2

-- The register and the bits of `set_flash_cr_strt`.
unfoldable pub strt_register : FlashType → Bank → ℕ
strt_register c0 bank = Reg.flash_c0_cr
strt_register f2_f4 bank = Reg.flash_f4_cr
strt_register f7 bank = Reg.flash_f7_cr
strt_register g0 bank = Reg.flash_gx_cr
strt_register g4 bank = Reg.flash_gx_cr
strt_register h7 bank = by_bank bank Reg.flash_h7_cr1 Reg.flash_h7_cr2
strt_register l4 bank = Reg.flash_l4_cr
strt_register l5_u5_h5 bank = Reg.flash_l5_nscr
strt_register wb_wl bank = Reg.flash_wb_cr
strt_register _ bank = by_bank bank Reg.flash_cr Reg.flash_cr2

-- FLASH_H7_CR_START(chipid)
abbrev pub flash_h7_cr_start : ℕ → ℕ
flash_h7_cr_start chipid = if chipid == chipid_h7ax then 5 else 7

unfoldable pub strt_bits : Stlink → FlashType → ℕ
strt_bits sl c0 = bit Reg.flash_c0_cr_strt
strt_bits sl f2_f4 = bit Reg.flash_f4_cr_strt
strt_bits sl f7 = bit Reg.flash_f7_cr_strt
strt_bits sl g0 = bit Reg.flash_gx_cr_strt
strt_bits sl g4 = bit Reg.flash_gx_cr_strt
strt_bits sl h7 = bit (flash_h7_cr_start sl.chip_id)
strt_bits sl l4 = bit Reg.flash_l4_cr_strt
strt_bits sl l5_u5_h5 = bit Reg.flash_l5_nscr_nsstrt
strt_bits sl wb_wl = bit Reg.flash_wb_cr_strt
strt_bits sl _ = bit Reg.flash_cr_strt

-- The page erase bit: `set_flash_cr_per` and `clear_flash_cr_per` choose the same register.
unfoldable pub per_register : FlashType → Bank → ℕ
per_register c0 bank = Reg.flash_c0_cr
per_register g0 bank = Reg.flash_gx_cr
per_register g4 bank = Reg.flash_gx_cr
per_register l5_u5_h5 bank = Reg.flash_l5_nscr
per_register wb_wl bank = Reg.flash_wb_cr
per_register _ bank = by_bank bank Reg.flash_cr Reg.flash_cr2

-- The registers and bits of `set_flash_cr_mer`; the register is that of `set_flash_cr_strt`.
unfoldable pub mer_bits : Stlink → FlashType → ℕ
mer_bits sl g0 =
    if has_dual_bank sl
    then bit_or (bit Reg.flash_gx_cr_mer1) (bit Reg.flash_gx_cr_mer2)
    else bit Reg.flash_gx_cr_mer1
mer_bits sl g4 =
    if has_dual_bank sl
    then bit_or (bit Reg.flash_gx_cr_mer1) (bit Reg.flash_gx_cr_mer2)
    else bit Reg.flash_gx_cr_mer1
mer_bits sl h7 = bit Reg.flash_h7_cr_ber
mer_bits sl l4 = bit_or (bit Reg.flash_l4_cr_mer1) (bit Reg.flash_l4_cr_mer2)
mer_bits sl l5_u5_h5 = bit_or (bit Reg.flash_l5_nscr_nsmer1) (bit Reg.flash_l5_nscr_nsmer2)
mer_bits sl _ = bit Reg.flash_cr_mer

unfoldable pub mer_pg_bits : FlashType → ℕ
mer_pg_bits h7 = bit Reg.flash_h7_cr_pg
mer_pg_bits l4 = bit Reg.flash_l4_cr_pg
mer_pg_bits l5_u5_h5 = bit Reg.flash_l5_nscr_nspg
mer_pg_bits _ = bit Reg.flash_cr_pg

-- The register and bit of `clear_flash_cr_pg`, which falls back to the first bank's FLASH_CR.
unfoldable pub pg_register : FlashType → Bank → ℕ
pg_register c0 bank = Reg.flash_c0_cr
pg_register f2_f4 bank = Reg.flash_f4_cr
pg_register f7 bank = Reg.flash_f7_cr
pg_register g0 bank = Reg.flash_gx_cr
pg_register g4 bank = Reg.flash_gx_cr
pg_register h7 bank = by_bank bank Reg.flash_h7_cr1 Reg.flash_h7_cr2
pg_register l4 bank = Reg.flash_l4_cr
pg_register l5_u5_h5 bank = Reg.flash_l5_nscr
pg_register wb_wl bank = Reg.flash_wb_cr
pg_register _ bank = Reg.flash_cr

unfoldable pub pg_bit : FlashType → ℕ
pg_bit h7 = Reg.flash_h7_cr_pg
pg_bit _ = Reg.flash_cr_pg

-- The registers, masks and shifts of `write_flash_cr_psiz` and `write_flash_cr_snb`.
unfoldable pub sized_register : FlashType → Bank → ℕ
sized_register h7 bank = by_bank bank Reg.flash_h7_cr1 Reg.flash_h7_cr2
sized_register _ bank = Reg.flash_f4_cr

unfoldable pub psize_shift : FlashType → ℕ
psize_shift h7 = Reg.flash_h7_cr_psize
psize_shift _ = 8

unfoldable pub snb_mask : FlashType → ℕ
snb_mask h7 = Reg.flash_h7_cr_snb_mask
snb_mask _ = Reg.flash_f4_cr_snb_mask

unfoldable pub snb_shift : FlashType → ℕ
snb_shift h7 = Reg.flash_h7_cr_snb
snb_shift _ = Reg.flash_f4_cr_snb

unfoldable pub ser_shift : FlashType → ℕ
ser_shift h7 = Reg.flash_h7_cr_ser
ser_shift _ = Reg.flash_f4_cr_ser

module _ ⦃hw : Hardware⦄ where
  unfoldable pub read_flash_cr : Bank → M ℕ
  read_flash_cr bank = do reg ← gets (λ sl. flash_cr_register sl.flash_type bank); load reg

  unfoldable pub write_flash_cr_psiz : ℕ → Bank → M (Unit {0})
  write_flash_cr_psiz n bank = do
    x ← read_flash_cr bank
    sl ← gets (λ sl. sl)
    let shift = psize_shift sl.flash_type
    store (sized_register sl.flash_type bank)
        (bit_or (clear_mask x (u32 (3 * bit shift))) (u32 (n * bit shift)))

  unfoldable pub clear_flash_cr_pg : Bank → M (Unit {0})
  clear_flash_cr_pg bank = do
    x ← read_flash_cr bank
    sl ← gets (λ sl. sl)
    store (pg_register sl.flash_type bank) (clear_mask x (bit (pg_bit sl.flash_type)))

  unfoldable pub write_flash_ar : ℕ → Bank → M (Unit {0})
  write_flash_ar n bank = store (by_bank bank Reg.flash_ar Reg.flash_ar2) n

  unfoldable pub write_flash_cr_snb : ℕ → Bank → M (Unit {0})
  write_flash_cr_snb n bank = do
    x ← read_flash_cr bank
    sl ← gets (λ sl. sl)
    let t = sl.flash_type
    store (sized_register t bank) (
        bit_or (bit_or (clear_mask x (snb_mask t)) (u32 (n * bit (snb_shift t))))
          (bit (ser_shift t)))

  unfoldable pub set_flash_cr_per : Bank → M (Unit {0})
  set_flash_cr_per bank = do
    reg ← gets (λ sl. per_register sl.flash_type bank)
    val ← load reg
    store reg (bit_or val (bit Reg.flash_cr_per))

  unfoldable pub clear_flash_cr_per : Bank → M (Unit {0})
  clear_flash_cr_per bank = do
    reg ← gets (λ sl. per_register sl.flash_type bank)
    n ← read_flash_cr bank
    store reg (clear_mask n (bit Reg.flash_cr_per))

  unfoldable pub write_flash_cr_bker_pnb : ℕ → M (Unit {0})
  write_flash_cr_bker_pnb n = do
    store Reg.flash_l4_sr (clear_mask 0xffffffff (bit Reg.flash_l4_sr_bsy))
    x ← read_flash_cr bank_1
    let a = clear_mask x Reg.flash_l4_cr_opbits
    let b = clear_mask a Reg.flash_l4_cr_pagemask
    let c = clear_mask b (bit Reg.flash_l4_cr_mer1)
    let d = clear_mask c (bit Reg.flash_l4_cr_mer2)
    store Reg.flash_l4_cr
        (bit_or (bit_or d (u32 (n * bit Reg.flash_l4_cr_pnb))) (bit Reg.flash_l4_cr_per))

  unfoldable pub set_flash_cr_strt : Bank → M (Unit {0})
  set_flash_cr_strt bank = do
    sl ← gets (λ sl. sl)
    let reg = strt_register sl.flash_type bank
    val ← load reg
    store reg (bit_or val (strt_bits sl sl.flash_type))

  -- STM32F030 drops the mass erase bit if PG was set.
  unfoldable pub drop_pg : ℕ → ℕ → ℕ → M ℕ
  drop_pg reg pg val =
      if has_bits val pg
      then store reg (clear_mask val pg) >> pure (clear_mask val pg)
      else pure val

  unfoldable pub set_flash_cr_mer : Bool → Bank → M (Unit {0})
  set_flash_cr_mer v bank = do
    sl ← gets (λ sl. sl)
    let reg = strt_register sl.flash_type bank
    val ← load reg
    val' ← drop_pg reg (mer_pg_bits sl.flash_type) val
    let mer = mer_bits sl sl.flash_type
    store reg (if v then bit_or val' mer else clear_mask val' mer)
