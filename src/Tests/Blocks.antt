-- ===== src/Tests/Blocks.antt =====
-- Flash blocks of a small chip.
use stlink.Base.{ℕ, ◌≡◌, refl, true, some, List, [], ◌∷◌, inl, arith}
use stlink.Target.{success}
use stlink.Gdb.Packet.Wire.{lacks}
use stlink.Gdb.Blocks.{FlashBlock, unescape, align2, flash_populate, flash_write}
use stlink.Gdb.Blocks.Image.{AllFormed, image}
use stlink.Gdb.Blocks.Populate.{overlay, flash_populate-late}
use stlink.Gdb.Blocks.Escape.{escape, unescape-escape_packet, flash_write-escape}
use stlink.Gdb.Blocks.Adding.{Adds, flash_add_block-Adds}
use stlink.Tests.Boards.{small_chip, small_chip-pagesize, start}

-- Eight bytes that are erased.
abbrev small_block : FlashBlock
small_block = record {
  addr = 0x08000000;
  size = 8;
  contents = 255 ∷ 255 ∷ 255 ∷ 255 ∷ 255 ∷ 255 ∷ 255 ∷ 255 ∷ [];
}

flash_add_block-Adds_example : Adds 0x08000400 0x800 (small_block ∷ []) (start small_chip)
flash_add_block-Adds_example =
    flash_add_block-Adds 0x08000400 0x800 (small_block ∷ []) (start small_chip) (omega arith)
      (omega arith) (omega (arith, small_chip-pagesize 0x08000400))

-- Data with a `#` and a `}`, which fill up to four bytes.
abbrev sample_data : List ℕ
sample_data = 35 ∷ 1 ∷ 125 ∷ []

unescape-escape_packet_example :
    (unescape (escape sample_data) ≡ sample_data) × (lacks 35 (escape sample_data) ≡ true)
unescape-escape_packet_example = unescape-escape_packet sample_data

flash_write-escape_example :
    ((q : ℕ)
      → image (flash_write 0x08000002 (escape sample_data) (small_block ∷ [])).1 q
        ≡ overlay 0x08000002 (align2 sample_data) q (image (small_block ∷ []) q))
    × AllFormed (flash_write 0x08000002 (escape sample_data) (small_block ∷ [])).1
flash_write-escape_example =
    flash_write-escape 0x08000002 sample_data (small_block ∷ []) ((refl, omega arith), tt)
      (omega arith) (inl (omega arith), tt)

-- Data that begin two bytes before the block: its first byte should be the third.
flash_populate-late_example :
    image (flash_populate 0x07fffffe (1 ∷ 2 ∷ 3 ∷ 4 ∷ []) (small_block ∷ [])).1 0x08000000 ≡ some 1
flash_populate-late_example =
    flash_populate-late 0x07fffffe (1 ∷ 2 ∷ 3 ∷ 4 ∷ []) small_block 0x08000000 (refl, omega arith)
      (omega arith) (omega arith) (omega arith) (omega arith) (omega arith)

sample_write : flash_write 0x08000002 (escape sample_data) (small_block ∷ []) ≡ (
  success,
  record small_block { contents = 255 ∷ 255 ∷ 35 ∷ 1 ∷ 125 ∷ 0 ∷ 255 ∷ 255 ∷ [] } ∷ [],
)
unfolding flash_write flash_populate
sample_write = refl
