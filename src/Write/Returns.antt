-- ===== src/Write/Returns.antt =====
-- Termination of programming, verifying and writing.
use stlink.Base.{
  ℕ, ◌+◌, ◌^◌, ◌<◌, ◌≤◌, ◌≡◌, Bool, Bool-cases, inl, inr, true, List, add32, arith, ◌%◌, ◌==◌, sym,
  ◌∙◌, some,
}
use stlink.Target.{EraseType, Stlink, Status, success, failure, World, Hardware}
use stlink.Target.Returns.{
  Returns, Returns-pure, Returns-bind, Returns-on_success, Returns-if, Returns-gets,
}
use stlink.Core.Returns.{SameParams, core_id-Returns}
use stlink.Flash.Verify.Returns.{verify_write_flash-Returns}
use stlink.Core.{core_id}
use stlink.Flash.Keeps.{SameChip-refl}
use stlink.Flash.Returns.{Settles-chip}
use stlink.Flash.Erase.Returns.{Sized, lift, calculate_pagesize-Returns}
use stlink.Flash.Range.Alignment.{HasPages}
use stlink.Flash.Range.Returns.{check_address_alignment-Returns, erase_flash_section-Returns}
use stlink.Write.Verified.{even_length}
use stlink.Loader.Init.{FlashLoader}
use stlink.Loader.Returns.{fresh_loader-Returns}
use stlink.Loader.Returns.Ready.{Ready, wait-Returns}
use stlink.Loader.Returns.Start.{flashloader_start-Returns, flashloader_stop-Returns}
use stlink.Loader.Returns.Write.{flashloader_write-Returns}
use stlink.Write.{
  stop_and_verify, write_started, program_flash, is_section_erase, erase_and_write, write_in_range,
  write_flash, write_otp_in_range, write_otp,
}

module _ ⦃hw : Hardware⦄ {c : Stlink} (settled fuel : ℕ) (ready : Ready c settled fuel)
    (rounds addr : ℕ) (base : List ℕ) where
  stop_and_verify-Returns :
      (fl : FlashLoader) (len : ℕ)
      → len + 0x1800 < 2 ^ 32
      → len < rounds
      → Returns (SameParams c) (stop_and_verify fuel rounds fl addr base len)
  unfolding stop_and_verify
  stop_and_verify-Returns fl len top enough = Returns-bind _ _ (flashloader_stop-Returns fl) (λ s.
      Returns-on_success s _
        (verify_write_flash-Returns rounds addr base len top ready.some_page enough))

  write_started-Returns :
      (len : ℕ) (r : Status × FlashLoader)
      → len + 0x1800 < 2 ^ 32
      → len + c.flash_pgsz < 2 ^ 32
      → len + 16 < rounds
      → Returns (SameParams c) (write_started fuel rounds addr base len r)
  unfolding write_started
  write_started-Returns len (failure, fl) top fits enough = Returns-pure failure
  write_started-Returns len (success, fl) top fits enough =
      Returns-bind _ _
        (flashloader_write-Returns settled fuel ready rounds fl addr base len (omega arith) fits
          enough)
        (λ s. Returns-on_success s _ (stop_and_verify-Returns fl len top (omega arith)))

  -- Start, write, stop and verify.
  pub program_flash-Returns :
      (len : ℕ)
      → len + 0x1800 < 2 ^ 32
      → len + c.flash_pgsz < 2 ^ 32
      → len + 16 < rounds
      → Returns (SameParams c) (program_flash fuel rounds addr base len)
  unfolding program_flash
  program_flash-Returns len top fits enough = Returns-bind _ _ fresh_loader-Returns (λ fl.
      Returns-bind _ _ (flashloader_start-Returns fuel fl (wait-Returns settled fuel ready))
        (λ r. write_started-Returns len r top fits enough))

-- A chip with a page size, whose flash becomes idle and whose core halts within the fuel.
pub record Writable ⦃hw : Hardware⦄ (c : Stlink) (settled fuel : ℕ) : Type 0 where
  pub ready : Ready c settled fuel
  pub small_page : c.flash_pgsz ≤ 2 ^ 30

Sized-Ready :
    ⦃hw : Hardware⦄ (c sl : Stlink) (settled fuel : ℕ)
    → Ready c settled fuel
    → Sized c sl
    → Ready sl settled fuel
Sized-Ready c sl settled fuel r h = record {
  known = λ u. r.known (sym h.chip.flash_type ∙ u);
  settles = Settles-chip c sl settled h.chip.chip_id h.chip.flash_type r.settles;
  halts = r.halts;
  waits = r.waits;
  some_page = h.some_page;
}

-- The range of `len` bytes at `addr` is in pages that have sizes and end below 4G, it has at most
-- 2G, and there are rounds enough for it.
pub record InPages (c : Stlink) (addr len rounds : ℕ) : Type 0 where
  pub pages : HasPages c (addr + len + 1)
  pub top : addr + len < 2 ^ 32
  pub small : len ≤ 2 ^ 31
  pub enough : addr + len + 16 < rounds

module _ ⦃hw : Hardware⦄ {c : Stlink} (settled fuel : ℕ) (writable : Writable c settled fuel)
    (rounds addr : ℕ) (base : List ℕ) where
  program_flash-Sized :
      (len : ℕ)
      → InPages c addr len rounds
      → Returns (Sized c) (program_flash fuel rounds addr base len)
  program_flash-Sized len fits =
      let small = fits.small in
      let enough = fits.enough in
      lift _ (λ sl h.
        let page = h.small_page in
        program_flash-Returns settled fuel (Sized-Ready c sl settled fuel writable.ready h) rounds
          addr base len (omega arith) (omega arith) (omega arith))

  core_id-Sized : Returns (Sized c) core_id
  core_id-Sized = lift _ (λ sl h. core_id-Returns)

  erase_and_write-Returns :
      (len : ℕ) (eraseonly : Bool) (t : EraseType)
      → InPages c addr len rounds
      → Returns (Sized c) (erase_and_write fuel rounds addr base len eraseonly t)
  unfolding erase_and_write
  erase_and_write-Returns len eraseonly t fits =
      let r = writable.ready in
      let enough = fits.enough in
      Returns-bind _ _ core_id-Sized (λ s.
        Returns-bind _ _
          (Returns-if (is_section_erase t) _ _
            (erase_flash_section-Returns settled fuel r.known r.settles r.waits rounds addr len true
              fits.top fits.pages (omega arith))
            (Returns-pure success))
          (λ e.
            Returns-on_success e _
              (Returns-if eraseonly _ _ (Returns-pure success) (program_flash-Sized len fits))))

  write_in_range-Returns :
      (len : ℕ) (eraseonly : Bool) (t : EraseType) (s : Status)
      → InPages c addr (even_length len) rounds
      → Returns (Sized c) (write_in_range fuel rounds addr base len eraseonly t s)
  unfolding write_in_range even_length
  write_in_range-Returns len eraseonly t failure fits = Returns-pure failure
  write_in_range-Returns len eraseonly t success fits = elim (Bool-cases (len % 2 == 0)) [
    | inl even ↦
        let whole : InPages c addr len rounds = rw even at fits in
        let below : HasPages c addr = record {
          some_size = λ p lt. whole.pages.some_size p (omega arith);
          fits = λ p lt. whole.pages.fits p (omega arith);
        } in
        let enough = whole.enough in
        rw even (
          Returns-bind _ _ (check_address_alignment-Returns rounds addr below (omega arith))
            (λ s. Returns-on_success s _ (erase_and_write-Returns len eraseonly t whole)))
    | inr odd ↦
        let whole : InPages c addr (add32 len 1) rounds = rw odd at fits in
        rw odd (erase_and_write-Returns (add32 len 1) eraseonly t whole)
  ]

  write_flash-Sized :
      (len : ℕ) (eraseonly : Bool) (t : EraseType)
      → InPages c addr (even_length len) rounds
      → Returns (Sized c) (write_flash fuel rounds addr base len eraseonly t)
  unfolding write_flash
  write_flash-Sized len eraseonly t fits =
      Returns-bind _ _ (calculate_pagesize-Returns addr) (λ n.
        Returns-bind _ _ (Returns-gets _) (λ s. write_in_range-Returns len eraseonly t s fits))

  write_otp_in_range-Returns :
      (len : ℕ) (s : Status)
      → InPages c addr len rounds
      → Returns (Sized c) (write_otp_in_range fuel rounds addr base len s)
  unfolding write_otp_in_range
  write_otp_in_range-Returns len failure fits = Returns-pure failure
  write_otp_in_range-Returns len success fits =
      Returns-bind _ _ core_id-Sized (λ s. program_flash-Sized len fits)

start_Sized : ⦃hw : Hardware⦄ (settled fuel : ℕ) (c : Stlink) → Writable c settled fuel → Sized c c
start_Sized settled fuel c h = record {
  chip = SameChip-refl c;
  some_page = h.ready.some_page;
  small_page = h.small_page;
}

module _ ⦃hw : Hardware⦄ (settled fuel rounds addr len : ℕ) (base : List ℕ) (w : World)
    (writable : Writable w.sl settled fuel) where
  -- If the flash type is known, the flash is idle after some number of debug reads in a row, a run
  -- of the program in SRAM halts after as many polls in a row, the fuel is more than this number,
  -- the page size is between 1 and 1G, the range, made even, has at most 2G, ends below 4G and is
  -- in pages that have sizes and end below 4G, and the rounds are more than its end plus 16, then
  -- stlink_write_flash returns a status, for every erase type, whatever the host's clock shows and
  -- whatever errors the target answers with otherwise.
  pub write_flash-Returns :
      (eraseonly : Bool) (t : EraseType)
      → InPages w.sl addr (even_length len) rounds
      → (s : Status) × ((w' : World) × (write_flash fuel rounds addr base len eraseonly t w
            ≡ some (s, w')))
  write_flash-Returns eraseonly t fits =
      let (s, (w', (e, h))) =
        (write_flash-Sized settled fuel writable rounds addr base len eraseonly t fits).at w
          (start_Sized settled fuel w.sl writable) in
      (s, (w', e))

  -- The same of stlink_write_otp.
  pub write_otp-Returns :
      InPages w.sl addr len rounds
      → (s : Status) × ((w' : World) × (write_otp fuel rounds addr base len w ≡ some (s, w')))
  unfolding write_otp
  write_otp-Returns fits =
      let r : Returns (Sized w.sl) (write_otp fuel rounds addr base len) =
        Returns-bind _ _ (Returns-gets _)
          (λ s. write_otp_in_range-Returns settled fuel writable rounds addr base len s fits) in
      let (s, (w', (e, h))) = r.at w (start_Sized settled fuel w.sl writable) in (s, (w', e))
