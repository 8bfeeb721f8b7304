-- ===== src/Flash/Reg/Gx.antt =====
-- inc/stm32flash.h: registers and bits of the C0, G0, G4, WB and WL series. Sums of a base and an
-- offset, and masks joined by `|`, are written as their values.
use stlink.Base.{ℕ}

abbrev pub flash_c0_keyr : ℕ
flash_c0_keyr = 0x40022008

abbrev pub flash_c0_opt_keyr : ℕ
flash_c0_opt_keyr = 0x4002200c

abbrev pub flash_c0_sr : ℕ
flash_c0_sr = 0x40022010

abbrev pub flash_c0_cr : ℕ
flash_c0_cr = 0x40022014

abbrev pub flash_c0_cr_pnb : ℕ
flash_c0_cr_pnb = 3

abbrev pub flash_c0_cr_strt : ℕ
flash_c0_cr_strt = 16

abbrev pub flash_c0_cr_optlock : ℕ
flash_c0_cr_optlock = 30

abbrev pub flash_c0_cr_lock : ℕ
flash_c0_cr_lock = 31

abbrev pub flash_c0_sr_error_mask : ℕ
flash_c0_sr_error_mask = 0xc3f8

abbrev pub flash_c0_sr_progerr : ℕ
flash_c0_sr_progerr = 3

abbrev pub flash_c0_sr_wrperr : ℕ
flash_c0_sr_wrperr = 4

abbrev pub flash_c0_sr_pgaerr : ℕ
flash_c0_sr_pgaerr = 5

abbrev pub flash_c0_sr_bsy : ℕ
flash_c0_sr_bsy = 16

abbrev pub flash_gx_keyr : ℕ
flash_gx_keyr = 0x40022008

abbrev pub flash_gx_optkeyr : ℕ
flash_gx_optkeyr = 0x4002200c

abbrev pub flash_gx_sr : ℕ
flash_gx_sr = 0x40022010

abbrev pub flash_gx_cr : ℕ
flash_gx_cr = 0x40022014

abbrev pub flash_gx_cr_pg : ℕ
flash_gx_cr_pg = 0

abbrev pub flash_gx_cr_mer1 : ℕ
flash_gx_cr_mer1 = 2

abbrev pub flash_gx_cr_bker : ℕ
flash_gx_cr_bker = 13

abbrev pub flash_gx_cr_mer2 : ℕ
flash_gx_cr_mer2 = 15

abbrev pub flash_gx_cr_strt : ℕ
flash_gx_cr_strt = 16

abbrev pub flash_gx_cr_optlock : ℕ
flash_gx_cr_optlock = 30

abbrev pub flash_gx_cr_lock : ℕ
flash_gx_cr_lock = 31

abbrev pub flash_gx_sr_error_mask : ℕ
flash_gx_sr_error_mask = 0x3fa

abbrev pub flash_gx_sr_progerr : ℕ
flash_gx_sr_progerr = 3

abbrev pub flash_gx_sr_wrperr : ℕ
flash_gx_sr_wrperr = 4

abbrev pub flash_gx_sr_pgaerr : ℕ
flash_gx_sr_pgaerr = 5

abbrev pub flash_gx_sr_bsy : ℕ
flash_gx_sr_bsy = 16

abbrev pub flash_wb_keyr : ℕ
flash_wb_keyr = 0x58004008

abbrev pub flash_wb_opt_keyr : ℕ
flash_wb_opt_keyr = 0x5800400c

abbrev pub flash_wb_sr : ℕ
flash_wb_sr = 0x58004010

abbrev pub flash_wb_cr : ℕ
flash_wb_cr = 0x58004014

abbrev pub flash_wb_cr_strt : ℕ
flash_wb_cr_strt = 16

abbrev pub flash_wb_cr_optlock : ℕ
flash_wb_cr_optlock = 30

abbrev pub flash_wb_cr_lock : ℕ
flash_wb_cr_lock = 31

abbrev pub flash_wb_sr_error_mask : ℕ
flash_wb_sr_error_mask = 0x3f8

abbrev pub flash_wb_sr_progerr : ℕ
flash_wb_sr_progerr = 3

abbrev pub flash_wb_sr_wrperr : ℕ
flash_wb_sr_wrperr = 4

abbrev pub flash_wb_sr_pgaerr : ℕ
flash_wb_sr_pgaerr = 5

abbrev pub flash_wb_sr_bsy : ℕ
flash_wb_sr_bsy = 16
