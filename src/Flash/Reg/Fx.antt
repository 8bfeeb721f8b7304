-- ===== src/Flash/Reg/Fx.antt =====
-- inc/stm32flash.h: registers and bits of the F2, F4 and F7 series, and the F0 option keys. Sums of a base and an
-- offset, and masks joined by `|`, are written as their values.
use stlink.Base.{ℕ}

abbrev pub flash_f0_optkey1 : ℕ
flash_f0_optkey1 = 0x45670123

abbrev pub flash_f0_optkey2 : ℕ
flash_f0_optkey2 = 0xcdef89ab

abbrev pub flash_f4_keyr : ℕ
flash_f4_keyr = 0x40023c04

abbrev pub flash_f4_opt_keyr : ℕ
flash_f4_opt_keyr = 0x40023c08

abbrev pub flash_f4_sr : ℕ
flash_f4_sr = 0x40023c0c

abbrev pub flash_f4_cr : ℕ
flash_f4_cr = 0x40023c10

abbrev pub flash_f4_optcr : ℕ
flash_f4_optcr = 0x40023c14

abbrev pub flash_f4_optcr_lock : ℕ
flash_f4_optcr_lock = 0

abbrev pub flash_f4_cr_strt : ℕ
flash_f4_cr_strt = 16

abbrev pub flash_f4_cr_lock : ℕ
flash_f4_cr_lock = 31

abbrev pub flash_f4_cr_ser : ℕ
flash_f4_cr_ser = 1

abbrev pub flash_f4_cr_snb : ℕ
flash_f4_cr_snb = 3

abbrev pub flash_f4_cr_snb_mask : ℕ
flash_f4_cr_snb_mask = 0xf8

abbrev pub flash_f4_sr_error_mask : ℕ
flash_f4_sr_error_mask = 0xf0

abbrev pub flash_f4_sr_pgaerr : ℕ
flash_f4_sr_pgaerr = 5

abbrev pub flash_f4_sr_wrperr : ℕ
flash_f4_sr_wrperr = 4

abbrev pub flash_f4_sr_bsy : ℕ
flash_f4_sr_bsy = 16

abbrev pub flash_f7_keyr : ℕ
flash_f7_keyr = 0x40023c04

abbrev pub flash_f7_opt_keyr : ℕ
flash_f7_opt_keyr = 0x40023c08

abbrev pub flash_f7_sr : ℕ
flash_f7_sr = 0x40023c0c

abbrev pub flash_f7_cr : ℕ
flash_f7_cr = 0x40023c10

abbrev pub flash_f7_optcr : ℕ
flash_f7_optcr = 0x40023c14

abbrev pub flash_f7_optcr_lock : ℕ
flash_f7_optcr_lock = 0

abbrev pub flash_f7_cr_strt : ℕ
flash_f7_cr_strt = 16

abbrev pub flash_f7_cr_lock : ℕ
flash_f7_cr_lock = 31

abbrev pub flash_f7_sr_bsy : ℕ
flash_f7_sr_bsy = 16

abbrev pub flash_f7_sr_pgp_err : ℕ
flash_f7_sr_pgp_err = 6

abbrev pub flash_f7_sr_wrp_err : ℕ
flash_f7_sr_wrp_err = 4

abbrev pub flash_f7_sr_error_mask : ℕ
flash_f7_sr_error_mask = 0xf2
