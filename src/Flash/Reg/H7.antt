-- ===== src/Flash/Reg/H7.antt =====
-- inc/stm32flash.h: registers and bits of the H7 series. Sums of a base and an
-- offset, and masks joined by `|`, are written as their values.
use stlink.Base.{ℕ}

abbrev pub flash_h7_keyr1 : ℕ
flash_h7_keyr1 = 0x52002004

abbrev pub flash_h7_keyr2 : ℕ
flash_h7_keyr2 = 0x52002104

abbrev pub flash_h7_opt_keyr : ℕ
flash_h7_opt_keyr = 0x52002008

abbrev pub flash_h7_cr1 : ℕ
flash_h7_cr1 = 0x5200200c

abbrev pub flash_h7_cr2 : ℕ
flash_h7_cr2 = 0x5200210c

abbrev pub flash_h7_sr1 : ℕ
flash_h7_sr1 = 0x52002010

abbrev pub flash_h7_sr2 : ℕ
flash_h7_sr2 = 0x52002110

abbrev pub flash_h7_optcr : ℕ
flash_h7_optcr = 0x52002018

abbrev pub flash_h7_optcr2 : ℕ
flash_h7_optcr2 = 0x52002118

abbrev pub flash_h7_optcr_optlock : ℕ
flash_h7_optcr_optlock = 0

abbrev pub flash_h7_cr_lock : ℕ
flash_h7_cr_lock = 0

abbrev pub flash_h7_cr_pg : ℕ
flash_h7_cr_pg = 1

abbrev pub flash_h7_cr_ser : ℕ
flash_h7_cr_ser = 2

abbrev pub flash_h7_cr_ber : ℕ
flash_h7_cr_ber = 3

abbrev pub flash_h7_cr_psize : ℕ
flash_h7_cr_psize = 4

abbrev pub flash_h7_cr_snb : ℕ
flash_h7_cr_snb = 8

abbrev pub flash_h7_cr_snb_mask : ℕ
flash_h7_cr_snb_mask = 0x700

abbrev pub flash_h7_sr_qw : ℕ
flash_h7_sr_qw = 2

abbrev pub flash_h7_sr_wrperr : ℕ
flash_h7_sr_wrperr = 17

abbrev pub flash_h7_sr_error_mask : ℕ
flash_h7_sr_error_mask = 0xe0000
