-- ===== src/Tests/Sectors.antt =====
-- Sector numbers, page sizes, ranges and words at concrete addresses.
use stlink.Base.{◌+◌, ◌<◌, ◌≤◌, ◌≡◌, ◌↔◌, [], ◌∷◌, ◌++◌, get_or, arith}
use stlink.Target.{success}
use stlink.Access.{read_uint32, write_uint32}
use stlink.Access.Words.{read_uint32-write_uint32}
use stlink.Calculate.{stm32_flash_base, pagesize_at}
use stlink.Calculate.Layout.{locate, sectors, pagesize_at-locate}
use stlink.Flash.Range.{check_address_range_validity, check_address_range_validity_otp}
use stlink.Flash.Range.Validity.{
  check_address_range_validity_iff, check_address_range_validity_wraps,
  check_address_range_validity_otp_iff,
}
use stlink.Tests.Boards.{small_chip, sector_chip, sector_chip-sectors}

pagesize_at-locate_example :
    pagesize_at sector_chip (stm32_flash_base + 0x13000)
    ≡ get_or (sectors sector_chip.chip_id) (locate (sectors sector_chip.chip_id) 0x13000) 0
pagesize_at-locate_example =
    pagesize_at-locate sector_chip 0x13000 (omega arith) sector_chip-sectors

check_address_range_validity_iff_example :
    (check_address_range_validity small_chip 0x08000400 0x800 ≡ success) ↔ (
      (0x08000000 ≤ 0x08000400)
      × (0x08000400 < 0x08000000 + 0x10000)
      × (0x08000400 + 0x800 ≤ 0x08000000 + 0x10000))
check_address_range_validity_iff_example =
    check_address_range_validity_iff small_chip 0x08000400 0x800 (omega arith) (omega arith)

check_address_range_validity_wraps_example :
    (check_address_range_validity small_chip 0x08000400 0xf8000000 ≡ success)
    × (0x08000000 + 0x10000 < 0x08000400 + 0xf8000000)
check_address_range_validity_wraps_example =
    check_address_range_validity_wraps small_chip 0x08000400 0xf8000000 (omega arith) (omega arith)
      (omega arith) (omega arith) (omega arith)

check_address_range_validity_otp_iff_example :
    (check_address_range_validity_otp small_chip 0x1fff7000 0x400 ≡ success) ↔ (
      (0x1fff7000 ≤ 0x1fff7000)
      × (0x1fff7000 < 0x1fff7000 + 0x400)
      × (0x1fff7000 + 0x400 < 0x1fff7000 + 0x400))
check_address_range_validity_otp_iff_example =
    check_address_range_validity_otp_iff small_chip 0x1fff7000 0x400 (omega arith) (omega arith)

read_uint32-write_uint32_example :
    read_uint32 ((1 ∷ 2 ∷ []) ++ (write_uint32 0xdeadbeef ++ (3 ∷ []))) 2 ≡ 0xdeadbeef
read_uint32-write_uint32_example =
    read_uint32-write_uint32 (1 ∷ 2 ∷ []) (3 ∷ []) 0xdeadbeef (omega arith)
