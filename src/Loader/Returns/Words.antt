-- ===== src/Loader/Returns/Words.antt =====
-- Termination and words of the writing to a flash that is programmed word by word.
use stlink.Base.{ℕ, ◌+◌, ◌^◌, ◌<◌, ◌≡◌, ◌≢◌, ◌∙◌, refl, Bool, true, false, some, List, take, arith}
use stlink.Target.{
  FlashType, unknown, c0, g0, g4, l5_u5_h5, wb_wl, Status, World, Hardware, ◌>>=◌, gets,
}
use stlink.Target.Returns.{Returns}
use stlink.Core.Returns.{SameParams, SameParams-refl}
use stlink.Loader.Init.{FlashLoader}
use stlink.Loader.Write.{written_length, write_by_words, write_by_type, flashloader_write}
use stlink.Loader.Words.{debug_writes, put_words, put_pad, word_count}
use stlink.Loader.Words.Written.{write_by_words-Put}
use stlink.Flash.Status.Wait.{Settles, reads}
use stlink.Flash.Returns.{wait_flash_busy-Returns}
use stlink.Loader.Returns.Write.{write_by_words-Returns}

-- WB, WL, G0, G4, L5, U5, H5 and C0.
unfoldable pub programs_words : FlashType → Bool
programs_words wb_wl = true
programs_words g0 = true
programs_words g4 = true
programs_words l5_u5_h5 = true
programs_words c0 = true
programs_words _ = false

module _ ⦃hw : Hardware⦄ (fuel rounds : ℕ) (fl : FlashLoader) (addr : ℕ) (base : List ℕ)
    (len : ℕ) where
  write_by_type-words :
      (t : FlashType) (w : World)
      → programs_words t ≡ true
      → write_by_type fuel t rounds fl addr base len w ≡ write_by_words fuel rounds addr base len w
  unfolding programs_words write_by_type
  write_by_type-words wb_wl w h = refl
  write_by_type-words g0 w h = refl
  write_by_type-words g4 w h = refl
  write_by_type-words l5_u5_h5 w h = refl
  write_by_type-words c0 w h = refl
  write_by_type-words _ w h = let bad : false ≡ true = h in cc

  flashloader_write-words :
      (w : World)
      → programs_words w.sl.flash_type ≡ true
      → flashloader_write fuel rounds fl addr base len w
        ≡ write_by_words fuel rounds addr base len w
  unfolding flashloader_write ◌>>=◌ gets
  flashloader_write-words w h = write_by_type-words w.sl.flash_type w h

  -- On the families that are programmed word by word, if the flash is idle after some number of
  -- debug reads in a row, the fuel is more than this number, the page size is above 0, the rounds are
  -- more than the length plus 16, and the range ends 32 bytes below 4G, then stlink_flashloader_write returns a status,
  -- and the debug writes it adds are the little-endian words of the data at consecutive addresses,
  -- in order, each once, and a word of zeros behind an odd number of them. The data has its length,
  -- on the L5 the length up to a multiple of 16, which takes bytes behind the data with it.
  pub flashloader_write-put_words :
      (settled : ℕ) (w : World)
      → w.sl.flash_type ≢ unknown
      → Settles reads w.sl settled
      → settled < fuel
      → 0 < w.sl.flash_pgsz
      → programs_words w.sl.flash_type ≡ true
      → addr + len + 32 < 2 ^ 32
      → len + 16 < rounds
      → (s : Status) × ((w' : World) × ((flashloader_write fuel rounds fl addr base len w
              ≡ some (s, w'))
            × (debug_writes w'.trace
                ≡ put_pad (word_count (written_length w.sl.flash_type len)) addr (
                    put_words
                      (word_count (written_length w.sl.flash_type len))
                      addr
                      (take (written_length w.sl.flash_type len) base)
                      (debug_writes w.trace)))))
  flashloader_write-put_words settled w known settles waits pos words top enough =
      let all : Returns (SameParams w.sl) (write_by_words fuel rounds addr base len) =
        write_by_words-Returns fuel pos (wait_flash_busy-Returns settled fuel known settles waits)
          rounds addr base len (omega arith) enough in
      let (s, (w', (e, h))) = all.at w (SameParams-refl w.sl) in
      (
        s,
        (
          w',
          (
            flashloader_write-words w words ∙ e,
            write_by_words-Put fuel rounds addr base len w w' s top e,
          ),
        ),
      )
