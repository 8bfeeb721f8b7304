-- ===== src/Tests.antt =====
-- Targets, sockets and runs at concrete inputs.
mod Blocks
mod Boards
mod Breakpoints
mod Flash
mod Hex
mod Protocol
mod Sectors
mod Watchpoints
mod Writing
