-- ===== src/Loader/Returns/HalfPages.antt =====
-- Termination of the half pages and the words of the L0 and the L1.
use stlink.Base.{
  ℕ, zero, suc, ◌+◌, ◌-◌, ◌^◌, ◌<◌, ◌≤◌, ◌≡◌, refl, sym, ◌∙◌, Bool, Bool-cases, inl, inr, true,
  false, ltb, ltb→lt, ltb→le, some, List, add32, arith, has_bits, bit, bit_and, ◌∷◌,
}
use stlink.Target.{
  Access, Trace, Stlink, l0_l1, bank_1, Status, success, failure, World, Hardware, ◌>>=◌, pure,
  gets,
}
use stlink.Target.Returns.{Answers, Returns, Returns-pure, Returns-bind}
use stlink.Access.{value_or, read_debug32}
use stlink.Core.Returns.{
  SameParams, access_rules, store-Returns, fill_buffer-Returns, write_mem32-Returns,
}
use stlink.Flash.Reg
use stlink.Flash.Control.{get_stm32l0_flash_base}
use stlink.Flash.Status.{wait_flash_busy, sr_register, busy_shift}
use stlink.Flash.Status.Wait.{reads}
use stlink.Flash.Returns.{check_flash_error-Returns}
use stlink.Loader.Init.{FlashLoader}
use stlink.Loader.HalfPages.{
  keeps_loader, soft_write, after_run, write_half_page, write_half_pages, stm32l1_write_half_pages,
}
use stlink.Loader.Write.{wait_l0, write_rest_l0, write_at_l0, write_l0}
use stlink.Loader.Returns.Ready.{Ready, count_pages-Returns, wait-Returns, run-Returns, by_status}

module _ ⦃hw : Hardware⦄ {c : Stlink} (settled fuel : ℕ) (ready : Ready c settled fuel) where
  soft_write-Returns :
      (rounds a : ℕ) (bs : List ℕ) (size off : ℕ)
      → size - off < rounds
      → Returns (SameParams c) (soft_write fuel rounds a bs size off)
  unfolding soft_write
  soft_write-Returns zero a bs size off enough = absurd (omega arith)
  soft_write-Returns (suc rounds) a bs size off enough = elim (Bool-cases (ltb off size)) [
    | inr e ↦ rw (soft_write, e) (Returns-pure success)
    | inl e ↦
        let lt = ltb→lt off size e in
        let rest = soft_write-Returns rounds a bs size (off + 64) (omega arith) in
        rw (soft_write, e)
          (Returns-bind _ _
            (Returns-bind _ _ (fill_buffer-Returns _) (λ u. write_mem32-Returns _ _))
            (λ s. by_status _ _ s (Returns-pure failure) rest))
  ]

  after_run-Returns :
      (a : ℕ) (bs : List ℕ) (size : ℕ) (uses : Bool) (s : Status)
      → Returns (SameParams c) (after_run fuel a bs size uses s)
  unfolding after_run
  after_run-Returns a bs size true s = Returns-pure _
  after_run-Returns a bs size false s =
      Returns-bind _ _ (soft_write-Returns (size + 1) a bs size 0 (omega arith))
        (λ r. Returns-pure _)

  write_half_page-Returns :
      (fl : FlashLoader) (a : ℕ) (bs : List ℕ) (size count : ℕ) (uses : Bool)
      → Returns (SameParams c) (write_half_page fuel fl a bs size count uses)
  unfolding write_half_page
  write_half_page-Returns fl a bs size count true =
      Returns-bind _ _ (run-Returns settled fuel ready fl a bs size)
        (λ s. after_run-Returns a bs size (keeps_loader count s) s)
  write_half_page-Returns fl a bs size count false = after_run-Returns a bs size false success

  write_half_pages-Returns :
      (fl : FlashLoader) (a : ℕ) (bs : List ℕ) (size left count : ℕ) (uses : Bool)
      → Returns (SameParams c) (write_half_pages fuel fl a bs size left count uses)
  unfolding write_half_pages
  write_half_pages-Returns fl a bs size zero count uses = Returns-pure success
  write_half_pages-Returns fl a bs size (suc left) count uses =
      Returns-bind _ _ (write_half_page-Returns fl _ _ size count uses) (λ p.
        by_status _ _ p.0 (Returns-pure failure) (
          Returns-bind _ _ (wait-Returns settled fuel ready)
            (λ u. write_half_pages-Returns fl a bs size left (suc count) p.1)))

  stm32l1_write_half_pages-Returns :
      (fl : FlashLoader) (a : ℕ) (bs : List ℕ) (len size : ℕ)
      → Returns (SameParams c) (stm32l1_write_half_pages fuel fl a bs len size)
  unfolding stm32l1_write_half_pages
  stm32l1_write_half_pages-Returns fl a bs len size =
      let wait : Returns (SameParams c) (wait_flash_busy fuel) = wait-Returns settled fuel ready in
      search (access_rules, write_half_pages-Returns) depth 16

  -- After `settled` debug reads in a row, a register reads with its first bit clear.
  abbrev Idles : ℕ → Type 0
  Idles reg =
      (t : Trace) → settled ≤ reads t → (v : ℕ) × (hw.word t reg ≡ some v) × (bit_and v (bit 0) ≡ 0)

  late_idle :
      (reg old : ℕ) (t : Trace)
      → Idles reg
      → settled ≤ reads t
      → has_bits (value_or (hw.word t reg) old) (bit 0) ≡ false
  late_idle reg old t idle late = let (v, e, z) = idle t late in rw e (rw z refl)

  wait_l0-Answers :
      (polls regs old : ℕ) (w : World)
      → Idles (regs + Reg.flash_sr_off)
      → settled - reads w.trace < polls
      → SameParams c w.sl
      → Answers (SameParams c) (wait_l0 fuel polls regs old w)
  unfolding wait_l0 read_debug32 ◌>>=◌ pure
  wait_l0-Answers zero regs old w idle enough h = absurd (omega arith)
  wait_l0-Answers (suc polls) regs old w idle enough h =
      let reg : ℕ = regs + Reg.flash_sr_off in
      let v : ℕ = value_or (hw.word w.trace reg) old in
      elim (Bool-cases (has_bits v (bit 0))) [
        | inr e ↦ (
          v,
          (
            record w { trace = Access.read_debug32 reg ∷ w.trace },
            (rw (wait_l0, ◌>>=◌, e) refl, h),
          ),
        )
        | inl e ↦ elim (Bool-cases (ltb (reads w.trace) settled)) [
          | inr late ↦
              let idles = late_idle reg old w.trace idle (ltb→le (reads w.trace) settled late) in
              let bad : true ≡ false = sym e ∙ idles in cc
          | inl early ↦
              let lt = ltb→lt (reads w.trace) settled early in
              let (a, (w', (run, same))) =
                wait_l0-Answers polls regs v
                  (record w { trace = Access.read_debug32 reg ∷ w.trace }) idle (omega (arith, lt))
                  h in
              (a, (w', (rw (wait_l0, ◌>>=◌, e) run, same)))
        ]
      ]

  -- The chip that settles is an L0 or an L1 with these registers.
  Settles-Idles :
      (sl : Stlink)
      → SameParams c sl
      → sl.flash_type ≡ l0_l1
      → Idles (get_stm32l0_flash_base sl + Reg.flash_sr_off)
  unfolding sr_register busy_shift get_stm32l0_flash_base
  Settles-Idles sl h e t late =
      let f : c.flash_type ≡ l0_l1 = sym h.flash_type ∙ e in
      ready.settles.idle t bank_1 (get_stm32l0_flash_base sl + Reg.flash_sr_off) 0 late
        (rw (f, h.chip_id) refl) (rw f refl)

  write_rest_l0-Returns :
      (rounds regs a : ℕ) (bs : List ℕ) (len off old : ℕ)
      → Idles (regs + Reg.flash_sr_off)
      → len + 4 < 2 ^ 32
      → len - off < rounds
      → Returns (SameParams c) (write_rest_l0 fuel rounds regs a bs len off old)
  unfolding write_rest_l0
  write_rest_l0-Returns zero regs a bs len off old idle top enough = absurd (omega arith)
  write_rest_l0-Returns (suc rounds) regs a bs len off old idle top enough =
      elim (Bool-cases (ltb off len)) [
        | inr e ↦ rw (write_rest_l0, e) check_flash_error-Returns
        | inl e ↦
            let lt = ltb→lt off len e in
            let waits = ready.waits in
            let wait : (v : ℕ) → Returns (SameParams c) (wait_l0 fuel fuel regs v) =
              λ v. record { at = λ w h. wait_l0-Answers fuel regs v w idle (omega arith) h } in
            rw (write_rest_l0, e)
              (Returns-bind _ _ (Returns-bind _ _ (store-Returns _ _) (λ u. wait old)) (λ v.
                write_rest_l0-Returns rounds regs a bs len (add32 off 4) v idle top (omega arith)))
      ]

  pub write_l0-Returns :
      (rounds : ℕ) (fl : FlashLoader) (a : ℕ) (bs : List ℕ) (len : ℕ) (w : World)
      → w.sl.flash_type ≡ l0_l1
      → len + 4 < 2 ^ 32
      → len < rounds
      → SameParams c w.sl
      → Answers (SameParams c) (write_l0 fuel rounds fl a bs len w)
  unfolding write_l0 write_at_l0 ◌>>=◌ gets
  write_l0-Returns rounds fl a bs len w e top enough h =
      let regs : ℕ = get_stm32l0_flash_base w.sl in
      let idle = Settles-Idles w.sl h e in
      let rest : (off old : ℕ)
          → Returns (SameParams c) (write_rest_l0 fuel rounds regs a bs len off old) =
        λ off old. write_rest_l0-Returns rounds regs a bs len off old idle top (omega arith) in
      let all : Returns (SameParams c) (write_at_l0 fuel rounds regs fl a bs len) =
        search (access_rules, stm32l1_write_half_pages-Returns) in
      (Returns-bind _ _ (count_pages-Returns ready.some_page) (λ u. all)).at w h
