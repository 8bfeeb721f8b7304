-- ===== src/Loader.antt =====
-- src/stlink-lib/flash_loader.c: writing words and blocks to the flash, most families by a program
-- in SRAM.
pub mod Code
pub mod Init
pub mod Run
pub mod Mode
pub mod HalfPages
pub mod Start
pub mod Write
pub mod Stop
pub mod Clock
pub mod Words
pub mod Returns
