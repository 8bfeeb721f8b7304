-- ===== src/Ihex/RoundTrip.antt =====
-- A file that `stlink_fread` writes, read by `stlink_parse_ihex`.
use stlink.Base.{
  ℕ, ◌+◌, ◌-◌, ◌^◌, ◌<◌, ◌≤◌, ◌≡◌, refl, sym, ap, ◌∙◌, Bool, true, false, Option, none, some, List,
  [], ◌∷◌, ◌++◌, length, length-append, add32, leb, lines_of, arith,
}
use mathlib.Core.Path.{subst}
use mathlib.Core.List.{append_assoc, append-nil}
use stlink.Ihex.{
  parse_pair, line_cksum, line_size, checked, decode, Span, Fill, span_record, span_lines,
  fill_record, fill_lines, first_span, fill_image, parse_ihex,
}
use stlink.Ihex.Writer.{Files, Worker, eof_text, finalize, init, workers, fread_ihex}
use stlink.Ihex.Lines.{AllBytes}
use stlink.Ihex.Records.{AllBytes-left, AllBytes-right}
use stlink.Ihex.Scans.{then_span, span_lines-append, then_fill, fill_lines-append}
use stlink.Ihex.Reads.{Reads, end_of, empty_fill, empty_Reads}
use stlink.Ihex.Written.{Prints, print-Prints, Wrote, writeline-Wrote, worker-Wrote}

module _ (start total erased : ℕ) where
  fill_image-Reads :
      (allocates : ℕ → Bool) (file : List ℕ) (lba end : ℕ) (bs : List ℕ)
      (x : Reads start total erased file lba bs)
      → allocates total ≡ true
      → length bs ≡ total
      → 2 ≤ total
      → total < 2 ^ 32
      → start + total ≤ 2 ^ 32
      → end ≡ start + total - 1
      → fill_image allocates erased
          (x.lines ++ (eof_text ∷ []))
          (record { lba = lba; begin = start; end = end; eof_found = true })
        ≡ some (record { mem = bs; size = total; begin = start })
  unfolding fill_image then_fill fill_lines decode checked fill_record line_cksum parse_pair
  fill_image-Reads allocates file lba end bs x room all two less top e =
      let size : add32 (end - start) 1 ≡ total = omega arith in
      let span : leb end start ≡ false = ground arith in
      let filled_with : List ℕ → Fill = λ m. record { lba = lba; memory = m } in
      let filled : fill_lines start end (empty_fill start total erased) (x.lines ++ (eof_text ∷ []))
          ≡ some (record { lba = lba; memory = bs }) =
        ap
          (λ (n : ℕ).
            fill_lines start n (empty_fill start total erased) (x.lines ++ (eof_text ∷ [])))
          e
        ∙ fill_lines-append start (end_of start total erased) (empty_fill start total erased)
            x.lines (eof_text ∷ [])
        ∙ ap (λ (s : Option Fill). then_fill start (end_of start total erased) s (eof_text ∷ []))
            (x.fills 0 (omega arith))
        ∙ ap (λ (m : List ℕ). some (filled_with m)) (append-nil bs) in
      rw (size, span, room, filled)
        (ap (λ (n : ℕ). some (record { mem = bs; size = n; begin = start })) size)

  eof_line : lines_of line_size [] eof_text ≡ eof_text ∷ []
  unfolding lines_of
  eof_line = refl

  eof_span :
      (file : List ℕ) (lba b : ℕ) (bs : List ℕ) (x : Reads start total erased file lba (b ∷ bs))
      → span_lines first_span (x.lines ++ (eof_text ∷ []))
        ≡ some (record { lba = lba; begin = start; end = start + length bs; eof_found = true })
  unfolding then_span span_lines decode checked span_record line_cksum parse_pair
  eof_span file lba b bs x =
      span_lines-append first_span x.lines (eof_text ∷ [])
      ∙ ap (λ (s : Option Span). then_span s (eof_text ∷ [])) x.spans

  -- The end-of-file record makes a file that is read.
  parse_ihex-Reads :
      (allocates : ℕ → Bool) (file : List ℕ) (lba : ℕ) (bs : List ℕ)
      → Reads start total erased file lba bs
      → allocates total ≡ true
      → length bs ≡ total
      → 2 ≤ total
      → total < 2 ^ 32
      → start + total ≤ 2 ^ 32
      → parse_ihex allocates (some (file ++ eof_text)) erased
        ≡ some (record { mem = bs; size = total; begin = start })
  unfolding parse_ihex
  parse_ihex-Reads allocates file lba [] x room all two less top = absurd (omega arith)
  parse_ihex-Reads allocates file lba (b ∷ bs) x room all two less top =
      ap
        (λ (ls : List (List ℕ)). elim (span_lines first_span ls) [
          | none ↦ none
          | some s ↦ fill_image allocates erased ls s
        ])
        (x.splits eof_text ∙ ap (λ (ls : List (List ℕ)). x.lines ++ ls) eof_line)
      ∙ rw (eof_span file lba b bs x) (
          fill_image-Reads allocates file lba (start + length bs) (b ∷ bs) x room all two less top
            (omega arith))

abbrev pub concat : List (List ℕ) → List ℕ
concat [] = []
concat (block ∷ blocks) = block ++ concat blocks

module _ ⦃fs : Files⦄ (start total erased : ℕ) where
  workers-Wrote :
      (blocks : List (List ℕ)) (all : List ℕ) (w : Worker)
      → Prints
      → start + total ≤ 2 ^ 32
      → length all + length (concat blocks) ≤ total
      → AllBytes (concat blocks)
      → Wrote start total erased all w
      → (v : Worker) × ((workers blocks w ≡ some v)
          × Wrote start total erased (all ++ concat blocks) v)
  unfolding workers
  workers-Wrote [] all w p top fits h x =
      (w, (refl, subst (λ (t : List ℕ). Wrote start total erased t w) (sym (append-nil all)) x))
  workers-Wrote (block ∷ blocks) all w p top fits h x =
      let (v, (e, y)) =
        worker-Wrote start total erased block all w p top
          (omega (arith, length-append block (concat blocks)))
          (AllBytes-left block (concat blocks) h) x in
      let (u, (f, z)) =
        workers-Wrote blocks (all ++ block) v p top
          (omega (arith, length-append block (concat blocks), length-append all block))
          (AllBytes-right block (concat blocks) h) y in
      (
        u,
        (
          rw (workers, e) f,
          subst (λ (t : List ℕ). Wrote start total erased t u)
              (append_assoc all block (concat blocks)) z,
        ),
      )

  -- The file is the records of all the bytes and the end-of-file record.
  fread_ihex-Reads :
      (blocks : List (List ℕ))
      → Prints
      → start + total ≤ 2 ^ 32
      → start < 2 ^ 32
      → length (concat blocks) ≤ total
      → AllBytes (concat blocks)
      → (file : List ℕ) × ((lba : ℕ) × ((fread_ihex start blocks ≡ some (file ++ eof_text))
            × Reads start total erased file lba (concat blocks)))
  unfolding fread_ihex init finalize
  fread_ihex-Reads blocks p top low fits h =
      let begun : Worker = record { file = []; addr = start; lba = 0; buf = [] } in
      let at_start : Wrote start total erased [] begun = record {
        flushed = [];
        reads = empty_Reads start total erased;
        whole = refl;
        at = omega arith;
        short = omega arith;
        small = tt;
      } in
      let (v, (e, y)) = workers-Wrote blocks [] begun p top (omega arith) h at_start in
      let (u, (f, (z, empty))) =
        writeline-Wrote start total erased (concat blocks) v.file v.addr v.lba v.buf p top fits y in
      let all : z.flushed ≡ concat blocks =
        sym (z.whole ∙ ap (λ (t : List ℕ). z.flushed ++ t) empty ∙ append-nil z.flushed) in
      (
        u.file,
        (
          u.lba,
          (
            rw
                (
                  fread_ihex,
                  p.opens,
                  e,
                  finalize,
                  f,
                  print-Prints eof_text u p,
                  p.closes (u.file ++ eof_text),
                )
                refl,
            subst (Reads start total erased u.file u.lba) all z.reads,
          ),
        ),
      )

module _ ⦃fs : Files⦄ where
  -- If every text is printed and the memory can be allocated, then the file that is written for
  -- blocks of at least two bytes in all, which fit into 32 bits of addresses, is read back as
  -- these bytes, with the address that they start at.
  pub parse_ihex-fread_ihex :
      (allocates : ℕ → Bool) (start erased : ℕ) (blocks : List (List ℕ))
      → Prints
      → allocates (length (concat blocks)) ≡ true
      → AllBytes (concat blocks)
      → 2 ≤ length (concat blocks)
      → length (concat blocks) < 2 ^ 32
      → start + length (concat blocks) ≤ 2 ^ 32
      → parse_ihex allocates (fread_ihex start blocks) erased
        ≡ some (record { mem = concat blocks; size = length (concat blocks); begin = start })
  parse_ihex-fread_ihex allocates start erased blocks p room h two less top =
      let total : ℕ = length (concat blocks) in
      let (file, (lba, (e, x))) =
        fread_ihex-Reads start total erased blocks p top (omega arith) (omega arith) h in
      ap (λ (f : Option (List ℕ)). parse_ihex allocates f erased) e
      ∙ parse_ihex-Reads start total erased allocates file lba (concat blocks) x room refl two less
          top

  -- If every text is printed, then the file that is written for a single byte is refused.
  pub parse_ihex-single :
      (allocates : ℕ → Bool) (start erased b : ℕ)
      → Prints
      → start < 2 ^ 32
      → b < 2 ^ 8
      → parse_ihex allocates (fread_ihex start ((b ∷ []) ∷ [])) erased ≡ none
  unfolding parse_ihex fill_image
  parse_ihex-single allocates start erased b p low lt =
      let (file, (lba, (e, x))) =
        fread_ihex-Reads start 1 erased ((b ∷ []) ∷ []) p (omega arith) low (omega arith)
          (lt, tt) in
      let none_left : leb (start + 0) start ≡ true = ground arith in
      ap (λ (f : Option (List ℕ)). parse_ihex allocates f erased) e
      ∙ ap
          (λ (ls : List (List ℕ)). elim (span_lines first_span ls) [
            | none ↦ none
            | some s ↦ fill_image allocates erased ls s
          ])
          (x.splits eof_text ∙ ap (λ (ls : List (List ℕ)). x.lines ++ ls) (eof_line start 1 erased))
      ∙ rw (eof_span start 1 erased file lba b [] x, none_left) refl
