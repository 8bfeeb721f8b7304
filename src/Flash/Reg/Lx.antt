-- ===== src/Flash/Reg/Lx.antt =====
-- inc/stm32flash.h: registers and bits of the L0, L1, L4, L5, U5 and H5 series. Sums of a base and an
-- offset, and masks joined by `|`, are written as their values.
use stlink.Base.{ℕ}

abbrev pub flash_lx_regs_addr : ℕ
flash_lx_regs_addr = 0x40023c00

abbrev pub flash_l0_pekey1 : ℕ
flash_l0_pekey1 = 0x89abcdef

abbrev pub flash_l0_pekey2 : ℕ
flash_l0_pekey2 = 0x2030405

abbrev pub flash_l0_prgkey1 : ℕ
flash_l0_prgkey1 = 0x8c9daebf

abbrev pub flash_l0_prgkey2 : ℕ
flash_l0_prgkey2 = 0x13141516

abbrev pub flash_l0_optkey1 : ℕ
flash_l0_optkey1 = 0xfbead9c8

abbrev pub flash_l0_optkey2 : ℕ
flash_l0_optkey2 = 0x24252627

abbrev pub flash_l0_regs_addr : ℕ
flash_l0_regs_addr = 0x40022000

abbrev pub flash_l0_pelock : ℕ
flash_l0_pelock = 0

abbrev pub flash_l0_optlock : ℕ
flash_l0_optlock = 2

abbrev pub flash_l0_sr_error_mask : ℕ
flash_l0_sr_error_mask = 0x13f00

abbrev pub flash_l0_sr_wrperr : ℕ
flash_l0_sr_wrperr = 8

abbrev pub flash_l0_sr_pgaerr : ℕ
flash_l0_sr_pgaerr = 9

abbrev pub flash_l0_sr_notzeroerr : ℕ
flash_l0_sr_notzeroerr = 16

abbrev pub flash_l1_sr_error_mask : ℕ
flash_l1_sr_error_mask = 0x3f00

abbrev pub flash_l4_keyr : ℕ
flash_l4_keyr = 0x40022008

abbrev pub flash_l4_optkeyr : ℕ
flash_l4_optkeyr = 0x4002200c

abbrev pub flash_l4_sr : ℕ
flash_l4_sr = 0x40022010

abbrev pub flash_l4_cr : ℕ
flash_l4_cr = 0x40022014

abbrev pub flash_l4_optr : ℕ
flash_l4_optr = 0x40022020

abbrev pub flash_l4_sr_error_mask : ℕ
flash_l4_sr_error_mask = 0x3f8

abbrev pub flash_l4_sr_progerr : ℕ
flash_l4_sr_progerr = 3

abbrev pub flash_l4_sr_wrperr : ℕ
flash_l4_sr_wrperr = 4

abbrev pub flash_l4_sr_pgaerr : ℕ
flash_l4_sr_pgaerr = 5

abbrev pub flash_l4_sr_bsy : ℕ
flash_l4_sr_bsy = 16

abbrev pub flash_l4_cr_lock : ℕ
flash_l4_cr_lock = 31

abbrev pub flash_l4_cr_optlock : ℕ
flash_l4_cr_optlock = 30

abbrev pub flash_l4_cr_pg : ℕ
flash_l4_cr_pg = 0

abbrev pub flash_l4_cr_per : ℕ
flash_l4_cr_per = 1

abbrev pub flash_l4_cr_mer1 : ℕ
flash_l4_cr_mer1 = 2

abbrev pub flash_l4_cr_mer2 : ℕ
flash_l4_cr_mer2 = 15

abbrev pub flash_l4_cr_strt : ℕ
flash_l4_cr_strt = 16

abbrev pub flash_l4_cr_pnb : ℕ
flash_l4_cr_pnb = 3

abbrev pub flash_l4_cr_opbits : ℕ
flash_l4_cr_opbits = 7

abbrev pub flash_l4_cr_pagemask : ℕ
flash_l4_cr_pagemask = 0xff8

abbrev pub flash_l4_optr_dualbank : ℕ
flash_l4_optr_dualbank = 21

abbrev pub flash_l5_nskeyr : ℕ
flash_l5_nskeyr = 0x40022008

abbrev pub flash_l5_optkeyr : ℕ
flash_l5_optkeyr = 0x40022010

abbrev pub flash_l5_nssr : ℕ
flash_l5_nssr = 0x40022020

abbrev pub flash_l5_nscr : ℕ
flash_l5_nscr = 0x40022028

abbrev pub flash_l5_nscr_nspg : ℕ
flash_l5_nscr_nspg = 0

abbrev pub flash_l5_nscr_nsmer1 : ℕ
flash_l5_nscr_nsmer1 = 2

abbrev pub flash_l5_nscr_nsbker : ℕ
flash_l5_nscr_nsbker = 11

abbrev pub flash_l5_nscr_nsmer2 : ℕ
flash_l5_nscr_nsmer2 = 15

abbrev pub flash_l5_nscr_nsstrt : ℕ
flash_l5_nscr_nsstrt = 16

abbrev pub flash_l5_nscr_optlock : ℕ
flash_l5_nscr_optlock = 30

abbrev pub flash_l5_nscr_nslock : ℕ
flash_l5_nscr_nslock = 31

abbrev pub flash_l5_nssr_nsprogerr : ℕ
flash_l5_nssr_nsprogerr = 3

abbrev pub flash_l5_nssr_nswrperr : ℕ
flash_l5_nssr_nswrperr = 4

abbrev pub flash_l5_nssr_nspgaerr : ℕ
flash_l5_nssr_nspgaerr = 5

abbrev pub flash_l5_nssr_bsy : ℕ
flash_l5_nssr_bsy = 16

abbrev pub flash_l5_nssr_error_mask : ℕ
flash_l5_nssr_error_mask = 0x20fa
