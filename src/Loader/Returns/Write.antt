-- ===== src/Loader/Returns/Write.antt =====
-- Termination of the writing for each family.
use stlink.Base.{
  ℕ, zero, suc, ◌+◌, ◌-◌, ◌^◌, ◌<◌, ◌≤◌, ◌≡◌, refl, Bool-cases, inl, inr, ltb, ltb→lt, List, drop,
  add32, arith, if◌then◌else◌,
}
use stlink.Target.{
  Stlink, FlashType, unknown, f0_f1_f3, f1_xl, f2_f4, f7, h7, l0_l1, l4, l5_u5_h5, failure, World,
  Hardware, ◌>>=◌, gets,
}
use stlink.Target.Returns.{Answers, Returns, Returns-pure, Returns-bind, Returns-gets_known}
use stlink.Core.Returns.{
  SameParams, access_rules, store-Returns, fill_buffer-Returns, write_mem32-Returns,
}
use stlink.Flash.Status.{wait_flash_busy}
use stlink.Flash.Returns.{check_flash_error-Returns, lock_flash-Returns, unlock_flash_if-Returns}
use stlink.Loader.Returns.Ready.{Ready, count_pages-Returns, wait-Returns, run-Returns, by_status}
use stlink.Loader.Init.{FlashLoader}
use stlink.Loader.Returns.HalfPages.{write_l0-Returns}
use stlink.Loader.Write.{
  block_size, written_length, write_blocks, write_by_loader, write_words, write_by_words,
  write_pages, write_h7, write_by_type, flashloader_write,
}

written_length_le : (t : FlashType) (len : ℕ) → len + 32 < 2 ^ 32 → written_length t len ≤ len + 16
unfolding written_length
written_length_le l5_u5_h5 len top = ground arith
written_length_le _ len top = omega arith

module _ ⦃hw : Hardware⦄ {c : Stlink} (fuel : ℕ) (some_page : 0 < c.flash_pgsz)
    (wait : Returns (SameParams c) (wait_flash_busy fuel)) where
  write_words-Returns :
      (rounds a : ℕ) (bs : List ℕ) (len off : ℕ)
      → len + 4 < 2 ^ 32
      → len - off < rounds
      → Returns (SameParams c) (write_words fuel rounds a bs len off)
  unfolding write_words
  write_words-Returns zero a bs len off top enough = absurd (omega arith)
  write_words-Returns (suc rounds) a bs len off top enough = elim (Bool-cases (ltb off len)) [
    | inr e ↦ rw (write_words, e) (Returns-pure off)
    | inl e ↦
        let lt = ltb→lt off len e in
        let rest = write_words-Returns rounds a bs len (add32 off 4) top (omega arith) in
        rw (write_words, e)
          (Returns-bind _ _ (Returns-bind _ _ (store-Returns _ _) (λ u. wait)) (λ u. rest))
  ]

  pub write_by_words-Returns :
      (rounds a : ℕ) (bs : List ℕ) (len : ℕ)
      → len + 32 < 2 ^ 32
      → len + 16 < rounds
      → Returns (SameParams c) (write_by_words fuel rounds a bs len)
  unfolding write_by_words
  write_by_words-Returns rounds a bs len top enough = Returns-gets_known _ _ (λ sl h.
      let most = written_length_le sl.flash_type len top in
      Returns-bind _ _ (count_pages-Returns some_page) (λ u.
        Returns-bind _ _
          (write_words-Returns rounds a bs (written_length sl.flash_type len) 0
            (omega (arith, most)) (omega (arith, most)))
          (λ off. search (access_rules, check_flash_error-Returns) depth 10)))

module _ ⦃hw : Hardware⦄ {c : Stlink} (settled fuel : ℕ) (ready : Ready c settled fuel) where
  write_blocks-Returns :
      (rounds : ℕ) (fl : FlashLoader) (a : ℕ) (bs : List ℕ) (len size off : ℕ)
      → 0 < size
      → len - off < rounds
      → Returns (SameParams c) (write_blocks fuel rounds fl a bs len size off)
  unfolding write_blocks
  write_blocks-Returns zero fl a bs len size off pos enough = absurd (omega arith)
  write_blocks-Returns (suc rounds) fl a bs len size off pos enough =
      elim (Bool-cases (ltb off len)) [
        | inr e ↦ rw (write_blocks, e) check_flash_error-Returns
        | inl e ↦
            let lt = ltb→lt off len e in
            let n : ℕ = block_size size len off in
            let some_bytes : 0 < n = ground arith in
            let rest = write_blocks-Returns rounds fl a bs len size (off + n) pos (omega arith) in
            rw (write_blocks, e)
              (Returns-bind _ _ (run-Returns settled fuel ready fl (add32 a off) (drop off bs) n)
                (λ s. by_status _ _ s (search (access_rules, check_flash_error-Returns)) rest))
      ]

  write_by_loader-Returns :
      (rounds : ℕ) (fl : FlashLoader) (a : ℕ) (bs : List ℕ) (len : ℕ)
      → len < rounds
      → Returns (SameParams c) (write_by_loader fuel rounds fl a bs len)
  unfolding write_by_loader
  write_by_loader-Returns rounds fl a bs len enough = Returns-gets_known _ _ (λ sl h.
      write_blocks-Returns rounds fl a bs len (if ltb 0x8000 sl.sram_size then 0x8000 else 0x4000) 0
        (ground arith) (omega arith))

  write_pages-Returns :
      (rounds : ℕ) (fl : FlashLoader) (a : ℕ) (bs : List ℕ) (len off : ℕ)
      → len + c.flash_pgsz < 2 ^ 32
      → len - off < rounds
      → Returns (SameParams c) (write_pages fuel rounds fl a bs len off)
  unfolding write_pages
  write_pages-Returns zero fl a bs len off top enough = absurd (omega arith)
  write_pages-Returns (suc rounds) fl a bs len off top enough = elim (Bool-cases (ltb off len)) [
    | inr e ↦ rw (write_pages, e) check_flash_error-Returns
    | inl e ↦
        let lt = ltb→lt off len e in
        let pos = ready.some_page in
        rw (write_pages, e)
          (Returns-gets_known _ _ (λ sl h.
            let p : sl.flash_pgsz ≡ c.flash_pgsz = h.flash_pgsz in
            let rest =
              write_pages-Returns rounds fl a bs len (add32 off sl.flash_pgsz) top (omega arith) in
            Returns-bind _ _
              (Returns-bind _ _ unlock_flash_if-Returns
                (λ u. run-Returns settled fuel ready _ _ _ _))
              (λ s.
                by_status _ _ s (search (access_rules, check_flash_error-Returns))
                  (Returns-bind _ _ lock_flash-Returns (λ u. rest)))))
  ]

  write_h7-Returns :
      (rounds a : ℕ) (bs : List ℕ) (len off : ℕ)
      → len - off < rounds
      → Returns (SameParams c) (write_h7 fuel rounds a bs len off)
  unfolding write_h7
  write_h7-Returns zero a bs len off enough = absurd (omega arith)
  write_h7-Returns (suc rounds) a bs len off enough = elim (Bool-cases (ltb off len)) [
    | inr e ↦ rw (write_h7, e) check_flash_error-Returns
    | inl e ↦
        let lt = ltb→lt off len e in
        let n : ℕ = block_size 64 len off in
        let some_bytes : 0 < n = ground arith in
        let wait = wait-Returns settled fuel ready in
        let rest = write_h7-Returns rounds a bs len (off + n) (omega arith) in
        rw (write_h7, e)
          (Returns-bind _ _
            (Returns-bind _ _
              (Returns-bind _ _ (fill_buffer-Returns _) (λ u. write_mem32-Returns _ _)) (λ u. wait))
            (λ u. rest))
  ]

  write_by_type-Answers :
      (t : FlashType) (rounds : ℕ) (fl : FlashLoader) (a : ℕ) (bs : List ℕ) (len : ℕ) (w : World)
      → w.sl.flash_type ≡ t
      → len + 32 < 2 ^ 32
      → len + c.flash_pgsz < 2 ^ 32
      → len + 16 < rounds
      → SameParams c w.sl
      → Answers (SameParams c) (write_by_type fuel t rounds fl a bs len w)
  unfolding write_by_type
  write_by_type-Answers unknown rounds fl a bs len w e top fits enough h =
      (Returns-pure failure).at w h
  write_by_type-Answers l0_l1 rounds fl a bs len w e top fits enough h =
      write_l0-Returns settled fuel ready rounds fl a bs len w e (omega arith) (omega arith) h
  write_by_type-Answers f2_f4 rounds fl a bs len w e top fits enough h =
      (write_by_loader-Returns rounds fl a bs len (omega arith)).at w h
  write_by_type-Answers f7 rounds fl a bs len w e top fits enough h =
      (write_by_loader-Returns rounds fl a bs len (omega arith)).at w h
  write_by_type-Answers l4 rounds fl a bs len w e top fits enough h =
      (write_by_loader-Returns rounds fl a bs len (omega arith)).at w h
  write_by_type-Answers f0_f1_f3 rounds fl a bs len w e top fits enough h =
      (write_pages-Returns rounds fl a bs len 0 fits (omega arith)).at w h
  write_by_type-Answers f1_xl rounds fl a bs len w e top fits enough h =
      (write_pages-Returns rounds fl a bs len 0 fits (omega arith)).at w h
  write_by_type-Answers h7 rounds fl a bs len w e top fits enough h =
      (write_h7-Returns rounds a bs len 0 (omega arith)).at w h
  write_by_type-Answers _ rounds fl a bs len w e top fits enough h =
      (write_by_words-Returns fuel ready.some_page (wait-Returns settled fuel ready) rounds a bs len
          top enough).at
        w h

  -- Writing returns, with more rounds than bytes.
  pub flashloader_write-Returns :
      (rounds : ℕ) (fl : FlashLoader) (a : ℕ) (bs : List ℕ) (len : ℕ)
      → len + 32 < 2 ^ 32
      → len + c.flash_pgsz < 2 ^ 32
      → len + 16 < rounds
      → Returns (SameParams c) (flashloader_write fuel rounds fl a bs len)
  unfolding flashloader_write ◌>>=◌ gets
  flashloader_write-Returns rounds fl a bs len top fits enough = record {
    at = λ w h. write_by_type-Answers w.sl.flash_type rounds fl a bs len w refl top fits enough h;
  }
