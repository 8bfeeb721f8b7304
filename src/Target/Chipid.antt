-- ===== src/Target/Chipid.antt =====
-- The chip ids of inc/stm32.h that the flash code tests for.
use stlink.Base.{ℕ}

abbrev pub chipid_f1_md : ℕ
chipid_f1_md = 0x410

abbrev pub chipid_f2 : ℕ
chipid_f2 = 0x411

abbrev pub chipid_f1_ld : ℕ
chipid_f1_ld = 0x412

abbrev pub chipid_f4 : ℕ
chipid_f4 = 0x413

abbrev pub chipid_f1_hd : ℕ
chipid_f1_hd = 0x414

abbrev pub chipid_l4 : ℕ
chipid_l4 = 0x415

abbrev pub chipid_l1_md : ℕ
chipid_l1_md = 0x416

abbrev pub chipid_l0_cat3 : ℕ
chipid_l0_cat3 = 0x417

abbrev pub chipid_f1_conn : ℕ
chipid_f1_conn = 0x418

abbrev pub chipid_f4_hd : ℕ
chipid_f4_hd = 0x419

abbrev pub chipid_f1_vl_md_ld : ℕ
chipid_f1_vl_md_ld = 0x420

abbrev pub chipid_f446 : ℕ
chipid_f446 = 0x421

abbrev pub chipid_f3 : ℕ
chipid_f3 = 0x422

abbrev pub chipid_f4_lp : ℕ
chipid_f4_lp = 0x423

abbrev pub chipid_l0_cat2 : ℕ
chipid_l0_cat2 = 0x425

abbrev pub chipid_l1_md_plus : ℕ
chipid_l1_md_plus = 0x427

abbrev pub chipid_f1_vl_hd : ℕ
chipid_f1_vl_hd = 0x428

abbrev pub chipid_l1_cat2 : ℕ
chipid_l1_cat2 = 0x429

abbrev pub chipid_f1_xld : ℕ
chipid_f1_xld = 0x430

abbrev pub chipid_f411xx : ℕ
chipid_f411xx = 0x431

abbrev pub chipid_f37x : ℕ
chipid_f37x = 0x432

abbrev pub chipid_f4_de : ℕ
chipid_f4_de = 0x433

abbrev pub chipid_f4_dsi : ℕ
chipid_f4_dsi = 0x434

abbrev pub chipid_l43x_l44x : ℕ
chipid_l43x_l44x = 0x435

abbrev pub chipid_l1_md_plus_hd : ℕ
chipid_l1_md_plus_hd = 0x436

abbrev pub chipid_l152_re : ℕ
chipid_l152_re = 0x437

abbrev pub chipid_f334 : ℕ
chipid_f334 = 0x438

abbrev pub chipid_f3xx_small : ℕ
chipid_f3xx_small = 0x439

abbrev pub chipid_f0 : ℕ
chipid_f0 = 0x440

abbrev pub chipid_f412 : ℕ
chipid_f412 = 0x441

abbrev pub chipid_f09x : ℕ
chipid_f09x = 0x442

abbrev pub chipid_f0xx_small : ℕ
chipid_f0xx_small = 0x444

abbrev pub chipid_f04 : ℕ
chipid_f04 = 0x445

abbrev pub chipid_f303_hd : ℕ
chipid_f303_hd = 0x446

abbrev pub chipid_l0_cat5 : ℕ
chipid_l0_cat5 = 0x447

abbrev pub chipid_f0_can : ℕ
chipid_f0_can = 0x448

abbrev pub chipid_f7 : ℕ
chipid_f7 = 0x449

abbrev pub chipid_f76xxx : ℕ
chipid_f76xxx = 0x451

abbrev pub chipid_f72xxx : ℕ
chipid_f72xxx = 0x452

abbrev pub chipid_l0_cat1 : ℕ
chipid_l0_cat1 = 0x457

abbrev pub chipid_f410 : ℕ
chipid_f410 = 0x458

abbrev pub chipid_l496x_l4a6x : ℕ
chipid_l496x_l4a6x = 0x461

abbrev pub chipid_l45x_l46x : ℕ
chipid_l45x_l46x = 0x462

abbrev pub chipid_f413 : ℕ
chipid_f413 = 0x463

abbrev pub chipid_l41x_l42x : ℕ
chipid_l41x_l42x = 0x464

abbrev pub chipid_l4rx : ℕ
chipid_l4rx = 0x470

abbrev pub chipid_h7ax : ℕ
chipid_h7ax = 0x480
