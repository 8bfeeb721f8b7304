-- ===== src/Flash/Range.antt =====
-- src/stlink-lib/common_flash.c: the tests of an address and a size, and the erase of a section and
-- of the whole flash.
pub mod Validity
pub mod Alignment
pub mod Section
pub mod Returns
use stlink.Base.{
  ℕ, zero, suc, ◌+◌, Bool, true, false, not, ◌&&◌, ◌||◌, ◌==◌, ltb, leb, none, add32, if◌then◌else◌,
}
use stlink.Target.{
  Stlink, FlashType, l0_l1, wb_wl, Status, success, failure, Hardware, M, ◌>>=◌, ◌>>◌, pure, gets,
}
use stlink.Calculate.{calculate_pagesize}
use stlink.Flash.Erase.{erase_flash_page, erase_all_at_once}

unfoldable pub check_address_range_validity : Stlink → ℕ → ℕ → Status
check_address_range_validity sl addr size =
    if ltb addr sl.flash_base || leb (add32 sl.flash_base sl.flash_size) addr
    then failure
    else if ltb (add32 sl.flash_base sl.flash_size) (add32 addr size)
    then failure
    else success

pub check_address_range_validity_otp : Stlink → ℕ → ℕ → Status
check_address_range_validity_otp sl addr size =
    if ltb addr sl.otp_base || leb (add32 sl.otp_base sl.otp_size) addr
    then failure
    else if leb (add32 sl.otp_base sl.otp_size) (add32 addr size)
    then failure
    else success

-- `while (page < addr) page += stlink_calculate_pagesize(sl, page);` in at most `fuel` rounds, and
-- the test after it.
unfoldable pub align_loop : ℕ → ℕ → ℕ → M Status
align_loop zero page addr = λ w. none
align_loop (suc fuel) page addr = elim (ltb page addr) [
  | true ↦ calculate_pagesize page >>= λ size. align_loop fuel (add32 page size) addr
  | false ↦ pure (if page == addr then success else failure)
]

unfoldable pub check_address_alignment : ℕ → ℕ → M Status
check_address_alignment fuel addr = do page ← gets (λ sl. sl.flash_base); align_loop fuel page addr

module _ ⦃hw : Hardware⦄ (fuel : ℕ) where
  -- The body of the `do` loop at `addr`, with `rounds` pages left to look at.
  erase_loop : ℕ → ℕ → ℕ → Bool → M Status
  erase_loop zero addr end align = λ w. none
  erase_loop (suc rounds) addr end align = calculate_pagesize addr >>= λ page_size.
      elim (ltb end (add32 addr page_size) && not align) [
        | true ↦ pure failure
        | false ↦ erase_flash_page fuel addr >>= λ s. elim s [
          | failure ↦ pure failure
          | success ↦ elim (ltb (add32 addr page_size) end) [
            | true ↦ erase_loop rounds (add32 addr page_size) end align
            | false ↦ pure success
          ]
        ]
      ]

  pub erase_flash_section : ℕ → ℕ → ℕ → Bool → M Status
  erase_flash_section rounds base_addr size align_size =
      gets (λ sl. check_address_range_validity sl base_addr size) >>= λ valid. elim valid [
        | failure ↦ pure failure
        | success ↦ check_address_alignment rounds base_addr >>= λ aligned. elim aligned [
          | failure ↦ pure failure
          | success ↦ erase_loop rounds base_addr (add32 base_addr size) align_size
        ]
      ]

  -- `L0_L1 || WB_WL`
  erases_by_section : FlashType → Bool
  erases_by_section l0_l1 = true
  erases_by_section wb_wl = true
  erases_by_section _ = false

  pub erase_flash_mass : ℕ → M Status
  unfolding erases_by_section
  erase_flash_mass rounds = gets (λ sl. sl) >>= λ sl.
      if erases_by_section sl.flash_type
      then erase_flash_section rounds sl.flash_base sl.flash_size false
      else erase_all_at_once fuel
