-- ===== src/Flash/Reg/Common.antt =====
-- inc/stm32flash.h: registers and bits of the first series (F0, F1, F3), whose names carry no series. Sums of a base and an
-- offset, and masks joined by `|`, are written as their values.
use stlink.Base.{ℕ}

abbrev pub flash_keyr : ℕ
flash_keyr = 0x40022004

abbrev pub flash_optkeyr : ℕ
flash_optkeyr = 0x40022008

abbrev pub flash_sr : ℕ
flash_sr = 0x4002200c

abbrev pub flash_cr : ℕ
flash_cr = 0x40022010

abbrev pub flash_ar : ℕ
flash_ar = 0x40022014

abbrev pub flash_keyr2 : ℕ
flash_keyr2 = 0x40022044

abbrev pub flash_sr2 : ℕ
flash_sr2 = 0x4002204c

abbrev pub flash_cr2 : ℕ
flash_cr2 = 0x40022050

abbrev pub flash_ar2 : ℕ
flash_ar2 = 0x40022054

abbrev pub flash_key1 : ℕ
flash_key1 = 0x45670123

abbrev pub flash_key2 : ℕ
flash_key2 = 0xcdef89ab

abbrev pub flash_optkey1 : ℕ
flash_optkey1 = 0x8192a3b

abbrev pub flash_optkey2 : ℕ
flash_optkey2 = 0x4c5d6e7f

abbrev pub flash_sr_bsy : ℕ
flash_sr_bsy = 0

abbrev pub flash_sr_pg_err : ℕ
flash_sr_pg_err = 2

abbrev pub flash_sr_wrprt_err : ℕ
flash_sr_wrprt_err = 4

abbrev pub flash_sr_error_mask : ℕ
flash_sr_error_mask = 20

abbrev pub flash_cr_pg : ℕ
flash_cr_pg = 0

abbrev pub flash_cr_per : ℕ
flash_cr_per = 1

abbrev pub flash_cr_mer : ℕ
flash_cr_mer = 2

abbrev pub flash_cr_strt : ℕ
flash_cr_strt = 6

abbrev pub flash_cr_lock : ℕ
flash_cr_lock = 7

abbrev pub flash_cr_optwre : ℕ
flash_cr_optwre = 9

abbrev pub flash_pecr_off : ℕ
flash_pecr_off = 4

abbrev pub flash_pekeyr_off : ℕ
flash_pekeyr_off = 12

abbrev pub flash_prgkeyr_off : ℕ
flash_prgkeyr_off = 16

abbrev pub flash_optkeyr_off : ℕ
flash_optkeyr_off = 20

abbrev pub flash_sr_off : ℕ
flash_sr_off = 24
