-- ===== src/Flash/Erase/Returns.antt =====
-- Termination of the erase of a page.
use stlink.Base.{ℕ, ◌^◌, ◌<◌, ◌≤◌, ◌≢◌, ◌∙◌, refl, sym}
use stlink.Target.{
  Stlink, FlashType, unknown, f0_f1_f3, f1_xl, f2_f4, f7, h7, l0_l1, l4, Bank, Status, success,
  failure, M, Hardware,
}
use stlink.Target.Returns.{Returns, Returns-bind, returns_rules}
use stlink.Calculate.{calculate_pagesize, calculate_l4_page}
use stlink.Calculate.Sizes.{pagesize_at-params, pagesize_at_bounds}
use stlink.Core.Returns.{SameParams, SameParams-refl, access_rules}
use stlink.Flash.Control.{
  write_flash_ar, write_flash_cr_snb, set_flash_cr_per, clear_flash_cr_per, write_flash_cr_bker_pnb,
  set_flash_cr_strt,
}
use stlink.Flash.Status.{wait_flash_busy, clear_flash_error}
use stlink.Flash.Lock.{lock_flash, unlock_flash_if}
use stlink.Flash.Status.Wait.{Settles, reads}
use stlink.Flash.Keeps.{SameChip, resized-SameChip}
use stlink.Flash.Returns.{
  Settles-chip, read_flash_cr-Returns, clear_flash_cr_pg-Returns, clear_flash_error-Returns,
  check_flash_error-Returns, lock_flash-Returns, unlock_flash_if-Returns, wait_flash_busy-Returns,
}
use stlink.Flash.Erase.{
  select_sector, unlock_l0, erase_by_sector, erase_unlocked_l0, erase_l0, erase_by_page,
  erase_by_address, erase_h7, erase_by_type, finish_erase, erase_flash_page,
}

-- The chip of `c`, with a page size.
pub record Sized (c sl : Stlink) : Type 0 where
  pub chip : SameChip c sl
  pub some_page : 0 < sl.flash_pgsz
  pub small_page : sl.flash_pgsz ≤ 2 ^ 30

pub Sized-SameParams : (c sl sl' : Stlink) → Sized c sl → SameParams sl sl' → Sized c sl'
Sized-SameParams c sl sl' h s = record {
  chip = record {
    chip_id = s.chip_id ∙ h.chip.chip_id;
    flash_type = s.flash_type ∙ h.chip.flash_type;
    flash_base = s.flash_base ∙ h.chip.flash_base;
    flash_size = s.flash_size ∙ h.chip.flash_size;
    chip_flags = s.chip_flags ∙ h.chip.chip_flags;
    pages = λ p. pagesize_at-params sl sl' p s.chip_id s.flash_pgsz ∙ h.chip.pages p;
  };
  some_page = rw s.flash_pgsz h.some_page;
  small_page = rw s.flash_pgsz h.small_page;
}

module _ ⦃hw : Hardware⦄ {c : Stlink} where
  -- Code that leaves the parameters leaves the chip and its page size.
  pub lift :
      {A : Type 0} (m : M A)
      → ((sl : Stlink) → Sized c sl → Returns (SameParams sl) m)
      → Returns (Sized c) m
  lift m r = record {
    at = λ w h.
        let (a, (w', (e, s))) = (r w.sl h).at w (SameParams-refl w.sl) in
        (a, (w', (e, Sized-SameParams c w.sl w'.sl h s)));
  }

  pub calculate_pagesize-Returns : (a : ℕ) → Returns (Sized c) (calculate_pagesize a)
  unfolding calculate_pagesize
  calculate_pagesize-Returns a = record {
    at = λ w h.
        let b = pagesize_at_bounds w.sl a h.some_page h.small_page in
        (
          _,
          (
            _,
            (
              refl,
              record { chip = resized-SameChip c w.sl a h.chip; some_page = b.0; small_page = b.1 },
            ),
          ),
        );
  }

module _ ⦃hw : Hardware⦄ {c : Stlink} where
  set_flash_cr_per-Returns : (b : Bank) → Returns (SameParams c) (set_flash_cr_per b)
  unfolding set_flash_cr_per
  set_flash_cr_per-Returns b = search access_rules

  clear_flash_cr_per-Returns : (b : Bank) → Returns (SameParams c) (clear_flash_cr_per b)
  unfolding clear_flash_cr_per
  clear_flash_cr_per-Returns b = search (access_rules, read_flash_cr-Returns)

  write_flash_ar-Returns : (n : ℕ) (b : Bank) → Returns (SameParams c) (write_flash_ar n b)
  unfolding write_flash_ar
  write_flash_ar-Returns n b = search access_rules

  write_flash_cr_snb-Returns : (n : ℕ) (b : Bank) → Returns (SameParams c) (write_flash_cr_snb n b)
  unfolding write_flash_cr_snb
  write_flash_cr_snb-Returns n b = search (access_rules, read_flash_cr-Returns)

  write_flash_cr_bker_pnb-Returns : (n : ℕ) → Returns (SameParams c) (write_flash_cr_bker_pnb n)
  unfolding write_flash_cr_bker_pnb
  write_flash_cr_bker_pnb-Returns n = search (access_rules, read_flash_cr-Returns)

  set_flash_cr_strt-Returns : (b : Bank) → Returns (SameParams c) (set_flash_cr_strt b)
  unfolding set_flash_cr_strt
  set_flash_cr_strt-Returns b = search access_rules

  calculate_l4_page-Returns : (a : ℕ) → Returns (SameParams c) (calculate_l4_page a)
  unfolding calculate_l4_page
  calculate_l4_page-Returns a = search access_rules

  unlock_l0-Returns : (a v : ℕ) → Returns (SameParams c) (unlock_l0 a v)
  unfolding unlock_l0
  unlock_l0-Returns a v = search access_rules depth 16

  -- What an erase takes after its page is chosen.
  ruleset page_rules = (
    access_rules, unlock_flash_if-Returns, lock_flash-Returns, set_flash_cr_strt-Returns,
    set_flash_cr_per-Returns, clear_flash_cr_per-Returns, clear_flash_cr_pg-Returns,
    write_flash_ar-Returns, write_flash_cr_snb-Returns,
  )

  module _ (fuel : ℕ) (wait : Returns (SameParams c) (wait_flash_busy fuel)) where
    erase_unlocked_l0-Returns :
        (a p : ℕ) (r : Status × ℕ) → Returns (SameParams c) (erase_unlocked_l0 fuel a p r)
    unfolding erase_unlocked_l0
    erase_unlocked_l0-Returns a p (failure, v) = search access_rules
    erase_unlocked_l0-Returns a p (success, v) = search access_rules depth 14

    erase_l0-Returns : (p : ℕ) → Returns (SameParams c) (erase_l0 fuel p)
    unfolding erase_l0
    erase_l0-Returns p =
        search (access_rules, unlock_l0-Returns, erase_unlocked_l0-Returns) depth 10

    erase_by_page-Returns : (p : ℕ) → Returns (SameParams c) (erase_by_page fuel p)
    unfolding erase_by_page
    erase_by_page-Returns p = search page_rules depth 16

    erase_by_address-Returns : (p : ℕ) → Returns (SameParams c) (erase_by_address fuel p)
    unfolding erase_by_address
    erase_by_address-Returns p = search page_rules depth 16

    erase_h7-Returns : (p : ℕ) → Returns (SameParams c) (erase_h7 fuel p)
    unfolding erase_h7
    erase_h7-Returns p = search page_rules depth 16

module _ ⦃hw : Hardware⦄ {c : Stlink} (settled fuel : ℕ) (known : c.flash_type ≢ unknown)
    (settles : Settles reads c settled) (waits : settled < fuel) where
  wait_at : (sl : Stlink) → Sized c sl → Returns (SameParams sl) (wait_flash_busy fuel)
  wait_at sl h =
      wait_flash_busy-Returns settled fuel (λ u. known (sym h.chip.flash_type ∙ u))
        (Settles-chip c sl settled h.chip.chip_id h.chip.flash_type settles) waits

  wait-Returns : Returns (Sized c) (wait_flash_busy fuel)
  wait-Returns = lift _ wait_at

  select_sector-Returns : (p : ℕ) → Returns (Sized c) (select_sector p)
  unfolding select_sector
  select_sector-Returns p =
      let page : Returns (Sized c) (calculate_l4_page p) =
        lift _ (λ sl h. calculate_l4_page-Returns p) in
      let pnb : (n : ℕ) → Returns (Sized c) (write_flash_cr_bker_pnb n) =
        λ n. lift _ (λ sl h. write_flash_cr_bker_pnb-Returns n) in
      let snb : (n : ℕ) (b : Bank) → Returns (Sized c) (write_flash_cr_snb n b) =
        λ n b. lift _ (λ sl h. write_flash_cr_snb-Returns n b) in
      search (returns_rules, calculate_pagesize-Returns) depth 12

  erase_by_sector-Returns : (p : ℕ) → Returns (Sized c) (erase_by_sector fuel p)
  unfolding erase_by_sector
  erase_by_sector-Returns p =
      let unlock : Returns (Sized c) unlock_flash_if = lift _ (λ sl h. unlock_flash_if-Returns) in
      let strt : (b : Bank) → Returns (Sized c) (set_flash_cr_strt b) =
        λ b. lift _ (λ sl h. set_flash_cr_strt-Returns b) in
      let wait : Returns (Sized c) (wait_flash_busy fuel) = wait-Returns in
      let lock : Returns (Sized c) lock_flash = lift _ (λ sl h. lock_flash-Returns) in
      search (returns_rules, select_sector-Returns) depth 12

  by_page : (p : ℕ) → Returns (Sized c) (erase_by_page fuel p)
  by_page p = lift _ (λ sl h. erase_by_page-Returns fuel (wait_at sl h) p)

  by_address : (p : ℕ) → Returns (Sized c) (erase_by_address fuel p)
  by_address p = lift _ (λ sl h. erase_by_address-Returns fuel (wait_at sl h) p)

  erase_by_type-Returns : (t : FlashType) (p : ℕ) → Returns (Sized c) (erase_by_type fuel t p)
  unfolding erase_by_type
  erase_by_type-Returns unknown p = search returns_rules
  erase_by_type-Returns l0_l1 p = lift _ (λ sl h. erase_l0-Returns fuel (wait_at sl h) p)
  erase_by_type-Returns h7 p =
      Returns-bind _ _ (lift _ (λ sl h. erase_h7-Returns fuel (wait_at sl h) p))
        (λ u. search returns_rules)
  erase_by_type-Returns f2_f4 p = search (returns_rules, erase_by_sector-Returns)
  erase_by_type-Returns f7 p = search (returns_rules, erase_by_sector-Returns)
  erase_by_type-Returns l4 p = search (returns_rules, erase_by_sector-Returns)
  erase_by_type-Returns f0_f1_f3 p = search (returns_rules, by_address)
  erase_by_type-Returns f1_xl p = search (returns_rules, by_address)
  erase_by_type-Returns _ p = search (returns_rules, by_page)

  finish_erase-Returns : (s : Status) → Returns (Sized c) (finish_erase fuel s)
  unfolding finish_erase
  finish_erase-Returns failure = search returns_rules
  finish_erase-Returns success = lift _ (λ sl h. check_flash_error-Returns)

  pub erase_flash_page-Returns : (p : ℕ) → Returns (Sized c) (erase_flash_page fuel p)
  unfolding erase_flash_page
  erase_flash_page-Returns p =
      let wait : Returns (Sized c) (wait_flash_busy fuel) = wait-Returns in
      let clear : Returns (Sized c) clear_flash_error =
        lift _ (λ sl h. clear_flash_error-Returns) in
      search (returns_rules, erase_by_type-Returns, finish_erase-Returns) depth 12
