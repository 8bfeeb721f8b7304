-- ===== src/Flash.antt =====
-- src/stlink-lib/common_flash.c: the flash controller, by concern.
pub mod Reg
pub mod Control
pub mod Status
pub mod Lock
pub mod Option
pub mod Erase
pub mod Range
pub mod Verify
pub mod Keeps
pub mod Returns
