-- ===== src/Ihex/Reads.antt =====
-- What the scans make of a file, kept as the file grows by the records that the writer prints.
use stlink.Base.{
  ℕ, zero, suc, ◌+◌, ◌-◌, ◌*◌, ◌%◌, ◌^◌, ◌<◌, ◌≤◌, ◌≡◌, refl, sym, ap, ◌∙◌, Option, some, List, [],
  ◌∷◌, ◌++◌, length, length-append, replicate, add32, lines_of, arith,
}
use mathlib.Core.List.{append_assoc}
use stlink.Ihex.{
  parse_hex, line_size, decode, Span, span_record, span_line, span_lines, Fill, fill_record,
  fill_line, fill_lines, first_span,
}
use stlink.Ihex.Writer.{segment}
use stlink.Ihex.Lines.{AllBytes, hex_bytes, record_text, lines_of-record_text}
use stlink.Ihex.Records.{
  segment_bytes, data_bytes, segment-AllBytes, data_AllBytes, decode-segment, decode-data,
  linear_address-segment, parse_hex-data, length-data,
}
use stlink.Ihex.Scans.{
  then_span, span_lines-append, then_fill, fill_lines-append, span_of, extend-span_of,
  fill_bytes-todo,
}

module _ (start total erased : ℕ) where
  abbrev pub end_of : ℕ
  end_of = start + total - 1

  abbrev pub empty_fill : Fill
  empty_fill = record { lba = 0; memory = replicate total erased }

  -- The file is whole lines, which hold the first bytes of the range and leave the scans at `lba`.
  pub record Reads (file : List ℕ) (lba : ℕ) (bs : List ℕ) : Type 0 where
    pub lines : List (List ℕ)
    pub splits :
        (rest : List ℕ) → lines_of line_size [] (file ++ rest) ≡ lines ++ lines_of line_size [] rest
    pub spans : span_lines first_span lines ≡ some (span_of start lba (length bs))
    pub fills :
        (k : ℕ)
        → length bs + k ≡ total
        → fill_lines start end_of empty_fill lines
          ≡ some (record { lba = lba; memory = bs ++ replicate k erased })

  pub empty_Reads : Reads [] 0 []
  unfolding span_lines fill_lines
  empty_Reads = record {
    lines = [];
    splits = λ rest. refl;
    spans = refl;
    fills =
        λ k e. ap (λ (n : ℕ). some (record { lba = 0; memory = replicate n erased })) (omega arith);
  }

  -- One more record.
  grow :
      (file : List ℕ) (lba lba' : ℕ) (bs bs' r : List ℕ) (n : ℕ)
      → Reads file lba bs
      → AllBytes r
      → length r ≤ 258
      → length bs' ≡ length bs + n
      → span_line (span_of start lba (length bs)) (decode (record_text r))
        ≡ some (span_of start lba' (length bs'))
      → ((k : ℕ)
          → length bs' + k ≡ total
          → fill_line start end_of
              (record { lba = lba; memory = bs ++ replicate (n + k) erased })
              (decode (record_text r))
            ≡ some (record { lba = lba'; memory = bs' ++ replicate k erased }))
      → Reads (file ++ record_text r) lba' bs'
  unfolding span_lines fill_lines then_span then_fill
  grow file lba lba' bs bs' r n x small short size span fill = record {
    lines = x.lines ++ (record_text r ∷ []);
    splits = λ rest.
        ap (lines_of line_size []) (append_assoc file (record_text r) rest)
        ∙ x.splits (record_text r ++ rest)
        ∙ ap (λ (ls : List (List ℕ)). x.lines ++ ls) (lines_of-record_text r rest small short)
        ∙ sym (append_assoc x.lines (record_text r ∷ []) (lines_of line_size [] rest));
    spans =
        span_lines-append first_span x.lines (record_text r ∷ [])
        ∙ ap (λ (s : Option Span). then_span s (record_text r ∷ [])) x.spans
        ∙ rw (span_lines, span) refl;
    fills = λ k e.
        fill_lines-append start end_of empty_fill x.lines (record_text r ∷ [])
        ∙ ap (λ (s : Option Fill). then_fill start end_of s (record_text r ∷ []))
            (x.fills (n + k) (omega arith))
        ∙ rw (fill_lines, fill k e) refl;
  }

  -- A linear address record changes the address only.
  pub segment-Reads :
      (file : List ℕ) (lba addr : ℕ) (bs : List ℕ)
      → Reads file lba bs
      → addr < 2 ^ 32
      → Reads (file ++ record_text (segment_bytes addr)) (segment addr) bs
  unfolding span_record fill_record
  segment-Reads file lba addr bs x small =
      grow file lba (segment addr) bs bs (segment_bytes addr) 0 x (segment-AllBytes addr)
        (omega arith) (omega arith)
        (ap (span_line (span_of start lba (length bs))) (decode-segment addr)
          ∙ segment-span (length bs))
        (λ k e.
          ap
            (fill_line start end_of (record { lba = lba; memory = bs ++ replicate (0 + k) erased }))
            (decode-segment addr)
          ∙ ap (λ (a : ℕ). some (record { lba = a; memory = bs ++ replicate (0 + k) erased }))
              (linear_address-segment addr small)
          ∙ ap (λ (n : ℕ). some (record { lba = segment addr; memory = bs ++ replicate n erased }))
              (omega arith))
    where
      segment-span :
          (n : ℕ)
          → span_record (span_of start lba n) 2 0 4 (58 ∷ hex_bytes (segment_bytes addr))
            ≡ some (span_of start (segment addr) n)
      segment-span zero = rw (linear_address-segment addr small) refl
      segment-span (suc n) = rw (linear_address-segment addr small) refl

  -- A data record behind the bytes before it adds its bytes.
  pub data_Reads :
      (file : List ℕ) (addr b : ℕ) (bs buf : List ℕ)
      → Reads file (segment addr) bs
      → AllBytes (b ∷ buf)
      → length buf < 16
      → addr ≡ start + length bs
      → length bs + suc (length buf) ≤ total
      → start + total ≤ 2 ^ 32
      → Reads (file ++ record_text (data_bytes addr (b ∷ buf))) (segment addr) (bs ++ (b ∷ buf))
  unfolding span_record fill_record
  data_Reads file addr b bs buf x small short at fits top =
      let r : List ℕ = data_bytes addr (b ∷ buf) in
      let split : segment addr + addr % 2 ^ 16 ≡ start + length bs = omega arith in
      let more : suc (length bs + length buf) ≡ length (bs ++ (b ∷ buf)) =
        omega (arith, length-append bs (b ∷ buf)) in
      grow file (segment addr) (segment addr) bs (bs ++ (b ∷ buf)) r (suc (length buf)) x
        (data_AllBytes addr (b ∷ buf) small (omega arith))
        (omega (arith, length-data addr (b ∷ buf))) (length-append bs (b ∷ buf))
        (ap (span_line (span_of start (segment addr) (length bs)))
            (decode-data addr (b ∷ buf) small (omega arith))
          ∙ ap some (
              extend-span_of start (segment addr) (addr % 2 ^ 16) (length bs) (length buf)
                (length bs + length buf) refl split (omega arith))
          ∙ ap (λ (n : ℕ). some (span_of start (segment addr) n)) more)
        (λ k e.
          ap
            (fill_line start end_of (record {
              lba = segment addr;
              memory = bs ++ replicate (suc (length buf) + k) erased;
            }))
            (decode-data addr (b ∷ buf) small (omega arith))
          ∙ ap (λ (m : List ℕ). some (record { lba = segment addr; memory = m }))
              (fill_bytes-todo start end_of (add32 (segment addr) (addr % 2 ^ 16)) 0 k erased _
                (b ∷ buf) bs
                (λ j lt.
                  ap (λ (i : ℕ). parse_hex (58 ∷ hex_bytes r) (9 + i * 2)) (omega arith)
                  ∙ parse_hex-data addr (b ∷ buf) j small (omega arith) lt)
                (omega arith) (omega arith) (omega arith)))
