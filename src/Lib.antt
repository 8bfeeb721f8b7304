-- ===== src/Lib.antt =====
-- stlink: the flash code and the Intel HEX files of the library, and the packets, breakpoints
-- and watchpoints of its GDB server.
--
-- The program reads and writes the memory of STM32 chips through a debug probe. A context,
-- stlink_t, keeps the parameters of the connected chip and a transfer buffer. The flash code
-- (src/stlink-lib/common_flash.c) erases and checks the chip's flash by reads and writes of its
-- registers, which src/stlink-lib/read_write.c passes to a backend. Sector numbers and page
-- sizes come from src/stlink-lib/calculate.c and from stlink_calculate_pagesize in
-- src/stlink-lib/common.c. The GDB server (src/st-util) talks to GDB by packets with checksums
-- (src/st-util/gdb-remote.c).
--
-- Files and the code they model:
-- - Base: shared names, Boolean tests, lists, bits of words, 32-bit arithmetic.
-- - Target/Types, Target/Chipid: stlink_t, the flash types, return codes and chip ids
--   (inc/stlink.h, inc/stm32.h).
-- - Target/Backend: one call of the backend, and a target as a function of all calls so far;
--   Target/Monad: code as a function from a context and a trace of calls to a result and new
--   ones; Target/Keeps and Target/Ends: rules for what code keeps and for what holds where it
--   returns.
-- - Access: src/stlink-lib/read_write.c; Access/Words: its word codecs.
-- - Calculate: src/stlink-lib/calculate.c and stlink_calculate_pagesize; Calculate/Layout: the
--   sector lists.
-- - Flash/Reg: the registers and bits of inc/stm32flash.h; Flash/Control, Flash/Status,
--   Flash/Lock and Flash/Option: the operations of src/stlink-lib/common_flash.c on the control
--   and status registers, the lock and the option lock; Flash/Status/Wait, Flash/Lock/Effect
--   and Flash/Option/Effect: theorems on them.
-- - Flash/Erase: stlink_erase_flash_page and the mass erase; Flash/Keeps, Flash/Erase/Keeps:
--   what they keep; Flash/Erase/Locked: the lock after them.
-- - Flash/Range: the checks of ranges and alignment, stlink_erase_flash_section,
--   stlink_erase_flash_mass; Flash/Range/Validity, Flash/Range/Alignment, Flash/Range/Section:
--   theorems on them.
-- - Flash/Verify: stlink_verify_write_flash, and check_file of src/stlink-lib/map_file.c;
--   Flash/Verify/Memory, Flash/Verify/File: the comparison of each with memory.
-- - Ihex: stlink_parse_ihex of src/stlink-lib/common.c; Ihex/Writer: its stlink_fread_ihex_
--   functions; Ihex/Lines, Ihex/Records: a line and its bytes; Ihex/Scans, Ihex/Reads: the two
--   scans of a growing file; Ihex/Written, Ihex/RoundTrip: what is written and read back.
-- - Gdb/Packet: src/st-util/gdb-remote.c; Gdb/Packet/Wire: one packet at the receiver;
--   Gdb/Packet/Dialogue: both ends.
-- - Gdb/Blocks: the flash blocks of src/st-util/gdb-server.c and the decoding of vFlashWrite;
--   Gdb/Blocks/Adding, Gdb/Blocks/Image, Gdb/Blocks/Populate, Gdb/Blocks/Escape: the memory
--   that they stand for.
-- - Gdb/Breakpoints: the code breakpoints of src/st-util/gdb-server.c; Gdb/Breakpoints/Table:
--   one run; Gdb/Breakpoints/Registers: the comparators; Gdb/Breakpoints/Stops,
--   Gdb/Breakpoints/Effect, Gdb/Breakpoints/Removal: the addresses stopped at.
-- - Gdb/Watchpoints: the data watchpoints of src/st-util/gdb-server.c; Gdb/Watchpoints/Mask:
--   the loop for their mask; Gdb/Watchpoints/Table: the table.
-- - Core: the calls of src/stlink-lib/common.c on the core (core id, status, voltage, run, the
--   buffer in SRAM); Core/Returns: their termination.
-- - Loader/Code: the programs of src/stlink-lib/flash_loader.c; Loader/Init: their choice and
--   transfer; Loader/Run: one run, its half second by the host's clock; Loader/Mode: the
--   programming bit and the DMA clocks; Loader/HalfPages, Loader/Start, Loader/Write,
--   Loader/Stop: the functions of these names; Loader/Clock: the polls of a run and the wrap of
--   the clock; Loader/Returns and its children: their termination; Loader/Words,
--   Loader/Words/Written, Loader/Returns/Words: the words that are written; Loader/Stop/Locked:
--   the lock at the end.
-- - Write: stlink_write_flash, stlink_write_otp, stlink_mwrite_flash, stlink_fwrite_flash and
--   stlink_fwrite_finalize of src/stlink-lib/common_flash.c; Write/Verified: the memory behind
--   a write; Write/Returns: its termination; Write/Optimised: the data without its erased end.
-- - Target/Ensures, Target/Leads, Target/Returns: rules for what a success, any result, and
--   every start lead to; Flash/Returns, Flash/Erase/Returns, Flash/Range/Returns,
--   Flash/Verify/Returns: the termination of the flash operations; Flash/Verify/Sound: the
--   comparison with a memory that changes; Calculate/Sizes: bounds of the page sizes.
-- - Read: stlink_read and stlink_fread of src/stlink-lib/common.c; Read/Memory: the blocks that
--   are read; Read/File: a flash read into an Intel HEX file.
-- - Tests: targets, sockets and runs at concrete inputs.
--
-- Names are those of the source without the prefixes stlink_ and STM32_. Return codes 0 and
-- below are success and failure; which error message is printed is not modelled. uint32_t
-- arithmetic wraps where the source's does (add32, clear_mask, % 2 ^ 32). The value of an
-- uninitialised local is a parameter of the target, as are all answers of the backend: a read
-- may depend on every call before it, and a failed read leaves the local as it was.
-- src/stlink-lib/usb.c keeps the replies to debug reads and writes in q_buf; this use of the
-- buffer is not modelled, and every transfer of the flash code but the last one of the H7 fills
-- what it sends.
--
-- Loops that poll the target take fuel, the number of polls, and return none where it is used
-- up. The loops over an address range or over data, and that of stlink_read, take a number of
-- rounds; the theorems on them ask for more rounds than bytes, or as many as there are pages,
-- which each round reduces. A run of a program in SRAM is polled until its time is over, on a
-- clock of 32 bits that may wrap, or the core halts, and the theorems ask for more polls than
-- the core needs to halt. Each write or erase may make the flash busy again, for a number of
-- polls that the fuel exceeds. The loop for the mask of a watchpoint takes a number of tests,
-- and 33 are enough below 2G. The loops of the packet code recurse on the bytes that arrive,
-- and end with the stream.
--
-- Not modelled: the transports (src/stlink-lib/usb.c, src/stlink-lib/sg.c), which are the
-- parameter Hardware; the sockets, allocation and strtoul of the packet code, which are the
-- parameter Os; messages, delays and debug output; option bytes, the command line tools, and of
-- the GDB server all but the packets, the breakpoints and watchpoints, and the blocks up to
-- their writing.
pub mod Access
pub mod Base
pub mod Calculate
pub mod Core
pub mod Flash
pub mod Gdb
pub mod Ihex
pub mod Loader
pub mod Read
pub mod Target
pub mod Tests
pub mod Write
