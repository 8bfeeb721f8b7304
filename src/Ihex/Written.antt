-- ===== src/Ihex/Written.antt =====
-- The writer where every text is printed: what it has put into the file.
use stlink.Base.{
  ℕ, suc, ◌+◌, ◌%◌, ◌^◌, ◌<◌, ◌≤◌, ◌≡◌, refl, sym, ap, ◌∙◌, ◌==◌, true, false, some, List, [], ◌∷◌,
  ◌++◌, length, length-append, add32, hex2, Bool-cases, inl, inr, ==_iff, arith, if◌then◌else◌,
}
use mathlib.Core.Path.{subst}
use mathlib.Core.List.{append_assoc, append-nil}
use stlink.Ihex.Writer.{
  Files, Worker, segment, segment_text, hex_texts, line_head, line_tail, print, newsegment,
  print_parts, writeline, worker,
}
use stlink.Ihex.Lines.{AllBytes, hex_bytes, record_text}
use stlink.Ihex.Records.{AllBytes-append, data_bytes, line_text-record}
use stlink.Ihex.Reads.{Reads, segment-Reads, data_Reads}

module _ ⦃fs : Files⦄ where
  -- Every text is printed, and the file is opened and closed.
  pub record Prints : Type 0 where
    pub prints : (before text : List ℕ) → fs.prints before text ≡ true
    pub opens : fs.opens ≡ true
    pub closes : (file : List ℕ) → fs.closes file ≡ true

  pub print-Prints :
      (text : List ℕ) (w : Worker)
      → Prints
      → print text w ≡ some (record w { file = w.file ++ text })
  unfolding print
  print-Prints text w p = rw (p.prints w.file text) refl

  print_parts-hex_texts :
      (bs : List ℕ) (w : Worker)
      → Prints
      → print_parts (hex_texts bs) w ≡ some (record w { file = w.file ++ hex_bytes bs })
  unfolding print_parts
  print_parts-hex_texts [] w p =
      ap (λ (f : List ℕ). some (record w { file = f })) (sym (append-nil w.file))
  print_parts-hex_texts (b ∷ bs) w p =
      rw (print_parts, print-Prints (hex2 b) w p)
        (print_parts-hex_texts bs (record w { file = w.file ++ hex2 b }) p
          ∙ ap (λ (f : List ℕ). some (record w { file = f }))
              (append_assoc w.file (hex2 b) (hex_bytes bs)))

  newsegment-Prints :
      (w : Worker)
      → Prints
      → newsegment w
        ≡ some (record w { file = w.file ++ segment_text w.addr; lba = segment w.addr })
  unfolding newsegment
  newsegment-Prints w p = rw (newsegment, print-Prints (segment_text w.addr) w p) refl

  -- A line, behind the linear address if that is new.
  writeline-line :
      (file lead : List ℕ) (addr lba seg b : ℕ) (buf : List ℕ)
      → Prints
      → (if lba == segment addr
          then some (record { file = file; addr = addr; lba = lba; buf = b ∷ buf })
          else newsegment (record { file = file; addr = addr; lba = lba; buf = b ∷ buf }))
        ≡ some (record { file = lead; addr = addr; lba = seg; buf = b ∷ buf })
      → writeline (record { file = file; addr = addr; lba = lba; buf = b ∷ buf })
        ≡ some (record {
          file = lead ++ record_text (data_bytes addr (b ∷ buf));
          addr = add32 addr (length (b ∷ buf));
          lba = seg;
          buf = [];
        })
  unfolding writeline
  writeline-line file lead addr lba seg b buf p e =
      let more : (suc (length buf) == 0) ≡ false = ground arith in
      let head : List ℕ = line_head addr (b ∷ buf) in
      let body : List ℕ = hex_bytes (b ∷ buf) in
      let tail : List ℕ = line_tail addr (b ∷ buf) in
      let at : List ℕ → Worker = λ f. record { file = f; addr = addr; lba = seg; buf = b ∷ buf } in
      let done : List ℕ → Worker =
        λ f. record { file = f; addr = add32 addr (length (b ∷ buf)); lba = seg; buf = [] } in
      rw
        (
          writeline,
          more,
          e,
          print-Prints head (at lead) p,
          print_parts-hex_texts (b ∷ buf) (at (lead ++ head)) p,
          print-Prints tail (at ((lead ++ head) ++ body)) p,
        )
        (ap (λ (f : List ℕ). some (done f))
          (append_assoc (lead ++ head) body tail
            ∙ append_assoc lead head (body ++ tail)
            ∙ ap (λ (t : List ℕ). lead ++ t) (line_text-record addr (b ∷ buf))))

module _ ⦃fs : Files⦄ (start total erased : ℕ) where
  -- Behind `lead` the scans are at the segment of the address.
  segment_step :
      (file : List ℕ) (addr lba : ℕ) (buf bs : List ℕ)
      → Prints
      → Reads start total erased file lba bs
      → addr < 2 ^ 32
      → (lead : List ℕ) × (((if lba == segment addr
              then some (record { file = file; addr = addr; lba = lba; buf = buf })
              else newsegment (record { file = file; addr = addr; lba = lba; buf = buf }))
            ≡ some (record { file = lead; addr = addr; lba = segment addr; buf = buf }))
          × Reads start total erased lead (segment addr) bs)
  segment_step file addr lba buf bs p x small = elim (Bool-cases (lba == segment addr)) [
    | inl same ↦
        let e : lba ≡ segment addr = (==_iff lba (segment addr)).0 same in
        (
          file,
          (
            rw same
                (ap (λ (l : ℕ). some (record { file = file; addr = addr; lba = l; buf = buf })) e),
            subst (λ (l : ℕ). Reads start total erased file l bs) e x,
          ),
        )
    | inr other ↦ (
      file ++ segment_text addr,
      (
        rw other (newsegment-Prints (record { file = file; addr = addr; lba = lba; buf = buf }) p),
        segment-Reads start total erased file lba addr bs x small,
      ),
    )
  ]

  -- The file holds the bytes before those in the buffer.
  pub record Wrote (all : List ℕ) (w : Worker) : Type 0 where
    pub flushed : List ℕ
    pub reads : Reads start total erased w.file w.lba flushed
    pub whole : all ≡ flushed ++ w.buf
    pub at : w.addr ≡ (start + length flushed) % 2 ^ 32
    pub short : length w.buf ≤ 16
    pub small : AllBytes w.buf

  abbrev pub Flushed : List ℕ → Worker → Type 0
  Flushed all w = (v : Worker) × ((writeline w ≡ some v) × (Wrote all v × (v.buf ≡ [])))

  pub writeline-Wrote :
      (all : List ℕ) (file : List ℕ) (addr lba : ℕ) (buf : List ℕ)
      → Prints
      → start + total ≤ 2 ^ 32
      → length all ≤ total
      → Wrote all (record { file = file; addr = addr; lba = lba; buf = buf })
      → Flushed all (record { file = file; addr = addr; lba = lba; buf = buf })
  unfolding writeline
  writeline-Wrote all file addr lba [] p top fits x =
      (record { file = file; addr = addr; lba = lba; buf = [] }, (refl, (x, refl)))
  writeline-Wrote all file addr lba (b ∷ buf) p top fits x =
      let size : length all ≡ length x.flushed + suc (length buf) =
        ap length x.whole ∙ length-append x.flushed (b ∷ buf) in
      let short : length buf < 16 = omega (arith, x.short) in
      let here : addr ≡ start + length x.flushed = omega (arith, x.at) in
      let (lead, (seg, y)) =
        segment_step file addr lba (b ∷ buf) x.flushed p x.reads (omega arith) in
      (
        _,
        (
          writeline-line file lead addr lba (segment addr) b buf p seg,
          (
            record {
              flushed = x.flushed ++ (b ∷ buf);
              reads =
                  data_Reads start total erased lead addr b x.flushed buf y x.small short here
                    (omega arith) top;
              whole = x.whole ∙ sym (append-nil (x.flushed ++ (b ∷ buf)));
              at = omega (arith, length-append x.flushed (b ∷ buf));
              short = omega arith;
              small = tt;
            },
            refl,
          ),
        ),
      )

  -- One more byte in the buffer.
  push :
      (all : List ℕ) (w : Worker) (b : ℕ)
      → b < 2 ^ 8
      → length w.buf < 16
      → Wrote all w
      → Wrote (all ++ (b ∷ [])) (record w { buf = w.buf ++ (b ∷ []) })
  push all w b lt room x = record {
    flushed = x.flushed;
    reads = x.reads;
    whole = ap (λ (t : List ℕ). t ++ (b ∷ [])) x.whole ∙ append_assoc x.flushed w.buf (b ∷ []);
    at = x.at;
    short = omega (arith, length-append w.buf (b ∷ []));
    small = AllBytes-append w.buf (b ∷ []) x.small (lt, tt);
  }

  pub worker-Wrote :
      (block all : List ℕ) (w : Worker)
      → Prints
      → start + total ≤ 2 ^ 32
      → length all + length block ≤ total
      → AllBytes block
      → Wrote all w
      → (v : Worker) × ((worker block w ≡ some v) × Wrote (all ++ block) v)
  unfolding worker
  worker-Wrote [] all w p top fits h x =
      (w, (refl, subst (λ (t : List ℕ). Wrote t w) (sym (append-nil all)) x))
  worker-Wrote (b ∷ block) all w p top fits (lt, h) x = elim (Bool-cases (length w.buf == 16)) [
    | inl full ↦
        let (v, (e, (y, empty))) =
          writeline-Wrote all w.file w.addr w.lba w.buf p top (omega arith) x in
        let (u, (f, z)) =
          worker-Wrote block (all ++ (b ∷ [])) (record v { buf = v.buf ++ (b ∷ []) }) p top
            (omega (arith, length-append all (b ∷ []))) h
            (push all v b lt (omega (arith, ap length empty)) y) in
        (
          u,
          (
            rw (worker, full, e) f,
            subst (λ (t : List ℕ). Wrote t u) (append_assoc all (b ∷ []) block) z,
          ),
        )
    | inr room ↦
        let space : length w.buf < 16 = ground (arith, x.short) in
        let (u, (f, z)) =
          worker-Wrote block (all ++ (b ∷ [])) (record w { buf = w.buf ++ (b ∷ []) }) p top
            (omega (arith, length-append all (b ∷ []))) h (push all w b lt space x) in
        (
          u,
          (
            rw (worker, room) f,
            subst (λ (t : List ℕ). Wrote t u) (append_assoc all (b ∷ []) block) z,
          ),
        )
  ]
