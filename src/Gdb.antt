-- ===== src/Gdb.antt =====
-- src/st-util: the packets of the GDB remote serial protocol.
pub mod Blocks
pub mod Breakpoints
pub mod Packet
pub mod Watchpoints
