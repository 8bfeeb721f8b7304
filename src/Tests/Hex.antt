-- ===== src/Tests/Hex.antt =====
-- Intel HEX files at concrete bytes.
use stlink.Base.{ℕ, ◌≡◌, refl, true, ltb, none, Option, some, List, [], ◌∷◌, ◌++◌, arith}
use stlink.Ihex.{decode, checked, line_cksum, parse_pair, record_line, malformed, blank, parse_ihex}
use stlink.Ihex.Writer.{
  Files, crlf, eof_text, fread_ihex, print, newsegment, print_parts, writeline, worker, workers,
  init, finalize,
}
use stlink.Ihex.Written.{Prints}
use stlink.Target.{World}
use stlink.Flash.Verify.Memory.{slice}
use stlink.Read.{fread}
use stlink.Read.File.{parse_ihex-fread}
use stlink.Tests.Boards.{board, image, small_chip, start}
use stlink.Ihex.RoundTrip.{parse_ihex-fread_ihex, parse_ihex-single}

-- A host on which every call succeeds.
abbrev good_files : Files
good_files = record { prints = λ before text. true; opens = true; closes = λ file. true }

good_files-Prints : Prints ⦃fs = good_files⦄
good_files-Prints = record { prints = λ before text. refl; opens = refl; closes = λ file. refl }

-- Two blocks behind the start of the flash.
abbrev sample_blocks : List (List ℕ)
sample_blocks = (222 ∷ 173 ∷ 0 ∷ []) ∷ (13 ∷ []) ∷ []

parse_ihex-fread_ihex_example :
    parse_ihex (λ n. ltb n 1024) (fread_ihex ⦃fs = good_files⦄ 0x08000004 sample_blocks) 255
    ≡ some (record { mem = 222 ∷ 173 ∷ 0 ∷ 13 ∷ []; size = 4; begin = 0x08000004 })
parse_ihex-fread_ihex_example =
    parse_ihex-fread_ihex ⦃fs = good_files⦄ (λ n. ltb n 1024) 0x08000004 255 sample_blocks
      good_files-Prints refl (omega arith, (omega arith, (omega arith, (omega arith, tt))))
      (omega arith) (omega arith) (omega arith)

parse_ihex-single_example :
    parse_ihex (λ n. true) (fread_ihex ⦃fs = good_files⦄ 0x08000000 ((7 ∷ []) ∷ [])) 255 ≡ none
parse_ihex-single_example =
    parse_ihex-single ⦃fs = good_files⦄ (λ n. true) 0x08000000 255 7 good_files-Prints (omega arith)
      (omega arith)

-- The file for the two blocks, ":020000040800F2", ":04000400DEAD000D60" and ":00000001FF".
sample_file :
    fread_ihex ⦃fs = good_files⦄ 0x08000004 sample_blocks
    ≡ some (
        (58 ∷ 48 ∷ 50 ∷ 48 ∷ 48 ∷ 48 ∷ 48 ∷ 48 ∷ 52 ∷ 48 ∷ 56 ∷ 48 ∷ 48 ∷ 70 ∷ 50 ∷ crlf)
        ++ ((58 ∷ 48 ∷ 52 ∷ 48 ∷ 48 ∷ 48 ∷ 52 ∷ 48 ∷ 48 ∷ 68 ∷ 69 ∷ 65 ∷ 68 ∷ 48 ∷ 48 ∷ 48 ∷ 68 ∷ 54
              ∷ 48 ∷ crlf)
            ++ eof_text))
unfolding fread_ihex workers worker writeline newsegment print_parts print init finalize
sample_file = refl

-- Lower-case digits are read, and a wrong checksum is refused.
lower_case :
    decode (58 ∷ 48 ∷ 48 ∷ 48 ∷ 48 ∷ 48 ∷ 48 ∷ 48 ∷ 49 ∷ 102 ∷ 102 ∷ crlf)
    ≡ record_line 0 0 1 (58 ∷ 48 ∷ 48 ∷ 48 ∷ 48 ∷ 48 ∷ 48 ∷ 48 ∷ 49 ∷ 102 ∷ 102 ∷ [])
unfolding decode checked line_cksum parse_pair
lower_case = refl

wrong_cksum : decode (58 ∷ 48 ∷ 48 ∷ 48 ∷ 48 ∷ 48 ∷ 48 ∷ 48 ∷ 49 ∷ 70 ∷ 69 ∷ crlf) ≡ malformed
unfolding decode checked line_cksum parse_pair
wrong_cksum = refl

empty_line : decode crlf ≡ blank
unfolding decode
empty_line = refl

parse_ihex-fread_example :
    (file : Option (List ℕ)) × ((w' : World) × ((fread ⦃hw = board⦄ ⦃fs = good_files⦄ 7 0x08000100 6
            (start small_chip)
          ≡ some (file, w'))
        × (parse_ihex (λ n. true) file 255
            ≡ some (record {
              mem = 0 ∷ 1 ∷ 2 ∷ 3 ∷ 4 ∷ 5 ∷ 6 ∷ 7 ∷ [];
              size = 8;
              begin = 0x08000100;
            }))))
unfolding slice
parse_ihex-fread_example =
    parse_ihex-fread ⦃hw = board⦄ ⦃fs = good_files⦄ (λ n. true) image 7 0x08000100 6 255
      (start small_chip) (λ t a n. refl) (λ a. omega arith) good_files-Prints (omega arith) refl
      (omega arith) (omega arith) (omega arith) (omega arith) refl
