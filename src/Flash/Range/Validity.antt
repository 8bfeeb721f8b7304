-- ===== src/Flash/Range/Validity.antt =====
-- What the range tests of src/stlink-lib/common_flash.c accept, with sums that wrap at 32 bits.
use stlink.Base.{ℕ, ◌+◌, ◌^◌, ◌<◌, ◌≤◌, ◌≡◌, ◌↔◌, arith}
use stlink.Target.{Stlink, success}
use stlink.Flash.Range.{check_address_range_validity, check_address_range_validity_otp}

-- Where neither sum wraps, the test accepts exactly the ranges that lie in the flash and begin
-- below its end.
pub check_address_range_validity_iff :
    (sl : Stlink) (addr size : ℕ)
    → sl.flash_base + sl.flash_size < 2 ^ 32
    → addr + size < 2 ^ 32
    → (check_address_range_validity sl addr size ≡ success) ↔ (
        (sl.flash_base ≤ addr)
        × (addr < sl.flash_base + sl.flash_size)
        × (addr + size ≤ sl.flash_base + sl.flash_size))
unfolding check_address_range_validity
check_address_range_validity_iff sl addr size h g = ground arith

-- A size that wraps the sum below the end of the flash is accepted, although the range leaves the
-- flash.
pub check_address_range_validity_wraps :
    (sl : Stlink) (addr size : ℕ)
    → sl.flash_base + sl.flash_size < 2 ^ 32
    → sl.flash_base ≤ addr
    → addr < sl.flash_base + sl.flash_size
    → size < 2 ^ 32
    → 2 ^ 32 ≤ addr + size
    → (check_address_range_validity sl addr size ≡ success)
      × (sl.flash_base + sl.flash_size < addr + size)
unfolding check_address_range_validity
check_address_range_validity_wraps sl addr size fits lo hi s wraps = ground arith

-- For the OTP area, where neither sum wraps, the test accepts exactly the ranges that lie in it and
-- stop before its last byte.
pub check_address_range_validity_otp_iff :
    (sl : Stlink) (addr size : ℕ)
    → sl.otp_base + sl.otp_size < 2 ^ 32
    → addr + size < 2 ^ 32
    → (check_address_range_validity_otp sl addr size ≡ success) ↔ (
        (sl.otp_base ≤ addr)
        × (addr < sl.otp_base + sl.otp_size)
        × (addr + size < sl.otp_base + sl.otp_size))
unfolding check_address_range_validity_otp
check_address_range_validity_otp_iff sl addr size h g = ground arith
