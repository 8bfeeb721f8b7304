-- ===== src/Read/File.antt =====
-- A flash that is read into an Intel HEX file, and the file parsed.
use stlink.Base.{
  ℕ, zero, suc, ◌+◌, ◌-◌, ◌%◌, ◌^◌, ◌<◌, ◌≤◌, ◌≡◌, refl, sym, ap, ◌∙◌, Bool, Bool-cases, true, ltb,
  inl, inr, Option, Option-cases, none, some, List, [], ◌∷◌, length, arith,
}
use mathlib.Core.Path.{subst}
use stlink.Target.{Hardware, World, ◌>>=◌, pure, gets}
use stlink.Ihex.{parse_ihex}
use stlink.Ihex.Writer.{Files, Worker, init, worker, workers, fread_ihex}
use stlink.Ihex.Lines.{AllBytes}
use stlink.Ihex.Written.{Prints}
use stlink.Ihex.RoundTrip.{concat, parse_ihex-fread_ihex}
use stlink.Flash.Verify.Memory.{slice, HasMemory}
use stlink.Read.{aligned, first_part, read_size, read, fread}
use stlink.Read.Memory.{fold, read_blocks, read_blocks-slice, read_loop-blocks, aligned_bounds}

first_part_bounds :
    (pgsz : ℕ)
    → 0 < pgsz
    → pgsz % 4 ≡ 0
    → (0 < first_part pgsz) × ((first_part pgsz ≤ 0x1800) × (first_part pgsz % 4 ≡ 0))
first_part_bounds pgsz p e = elim (Bool-cases (ltb 0x1800 pgsz)) [
  | inl l ↦ rw l (omega arith, (omega arith, omega arith))
  | inr l ↦ rw l (p, (ground (arith, l), e))
]

aligned_two : (n : ℕ) → 0 < n → 2 ≤ aligned n
aligned_two n h = ground arith

length-slice : (image : ℕ → ℕ) (a n : ℕ) → length (slice image a n) ≡ n
unfolding slice
length-slice image a zero = refl
length-slice image a (suc n) = ap suc (length-slice image (suc a) n)

slice-AllBytes :
    (image : ℕ → ℕ) (a n : ℕ) → ((i : ℕ) → image i < 2 ^ 8) → AllBytes (slice image a n)
unfolding slice
slice-AllBytes image a zero h = tt
slice-AllBytes image a (suc n) h = (h a, slice-AllBytes image (suc a) n h)

slice_here : (image : ℕ → ℕ) (a n : ℕ) → slice image (a + 0) (n - 0) ≡ slice image a n
slice_here image a n =
    let e : a + 0 ≡ a = omega arith in let f : n - 0 ≡ n = omega arith in rw (e, f) refl

module _ ⦃hw : Hardware⦄ ⦃fs : Files⦄ where
  fold-workers : (blocks : List (List ℕ)) (w : Worker) → fold worker blocks w ≡ workers blocks w
  unfolding workers
  fold-workers [] w = refl
  fold-workers (b ∷ blocks) w = elim (Option-cases (worker b w)) [
    | inl e ↦
        let run : fold worker (b ∷ blocks) w ≡ none =
          ap (λ (o : Option Worker). elim o [ none ↦ none | some v ↦ fold worker blocks v ]) e in
        rw (workers, e) run
    | inr (v, e) ↦
        let run : fold worker (b ∷ blocks) w ≡ fold worker blocks v =
          ap (λ (o : Option Worker). elim o [ none ↦ none | some v ↦ fold worker blocks v ]) e in
        rw (workers, e) (run ∙ fold-workers blocks v)
  ]

  -- Reading into a file is writing the blocks that the target has.
  fread-blocks :
      (image : ℕ → ℕ) (fuel addr size : ℕ) (w : World)
      → HasMemory hw image
      → 0 < first_part w.sl.flash_pgsz
      → first_part w.sl.flash_pgsz ≤ 0x1800
      → read_size w.sl.flash_size size + 0x1800 ≤ 2 ^ 32
      → read_size w.sl.flash_size size < fuel
      → (w' : World) × (fread fuel addr size w
          ≡ some (
            fread_ihex addr (
                read_blocks image fuel addr
                  (read_size w.sl.flash_size size)
                  (first_part w.sl.flash_pgsz)
                  0),
            w',
          ))
  unfolding fread read fread_ihex gets pure ◌>>=◌
  fread-blocks image fuel addr size w h p le span enough = elim (Option-cases (init addr)) [
    | inl e ↦ (w, rw (fread, fread_ihex, e) refl)
    | inr (begun, e) ↦
        let n : ℕ = read_size w.sl.flash_size size in
        let c : ℕ = first_part w.sl.flash_pgsz in
        let blocks : List (List ℕ) = read_blocks image fuel addr n c 0 in
        let (w', run) =
          read_loop-blocks image worker fuel addr n c 0 begun w h p le span (omega arith) in
        elim (Option-cases (workers blocks begun)) [
          | inl f ↦ (
            w',
            rw (fread, fread_ihex, e, ◌>>=◌, read, ◌>>=◌, run, fold-workers blocks begun, f) refl,
          )
          | inr (v, f) ↦ (
            w',
            rw (fread, fread_ihex, e, ◌>>=◌, read, ◌>>=◌, run, fold-workers blocks begun, f) refl,
          )
        ]
  ]

  -- If the target's memory does not change and holds bytes, every text is printed, the memory can be
  -- allocated, the page size is a multiple of 4 above 0, something is read, and it
  -- ends below 4G up to a whole word and is at least 6K shorter than 4G, then with more tests than bytes stlink_fread returns, and the file
  -- that it writes is parsed as the memory of the range, up to a whole word, and its address.
  pub parse_ihex-fread :
      (allocates : ℕ → Bool) (image : ℕ → ℕ) (fuel addr size erased : ℕ) (w : World)
      → HasMemory hw image
      → ((a : ℕ) → image a < 2 ^ 8)
      → Prints
      → 0 < w.sl.flash_pgsz
      → w.sl.flash_pgsz % 4 ≡ 0
      → read_size w.sl.flash_size size + 0x1800 ≤ 2 ^ 32
      → read_size w.sl.flash_size size < fuel
      → 0 < read_size w.sl.flash_size size
      → addr + aligned (read_size w.sl.flash_size size) < 2 ^ 32
      → allocates (aligned (read_size w.sl.flash_size size)) ≡ true
      → (file : Option (List ℕ)) × ((w' : World) × ((fread fuel addr size w ≡ some (file, w'))
            × (parse_ihex allocates file erased
                ≡ some (record {
                  mem = slice image addr (aligned (read_size w.sl.flash_size size));
                  size = aligned (read_size w.sl.flash_size size);
                  begin = addr;
                }))))
  parse_ihex-fread allocates image fuel addr size erased w h small p page words span enough more top
        room =
      let n : ℕ = read_size w.sl.flash_size size in
      let c : ℕ = first_part w.sl.flash_pgsz in
      let some_part : (0 < c) × ((c ≤ 0x1800) × (c % 4 ≡ 0)) =
        first_part_bounds w.sl.flash_pgsz page words in
      let (least, most) = aligned_bounds n in
      let blocks : List (List ℕ) = read_blocks image fuel addr n c 0 in
      let whole : concat blocks ≡ slice image addr (aligned n) =
        read_blocks-slice image fuel addr n c 0 some_part.0 some_part.1.1 (omega arith) more
          (omega arith) (omega (arith, some_part.1.0)) (omega arith)
        ∙ slice_here image addr (aligned n) in
      let count : length (concat blocks) ≡ aligned n =
        ap length whole ∙ length-slice image addr (aligned n) in
      let (w', run) = fread-blocks image fuel addr size w h some_part.0 some_part.1.0 span enough in
      (
        fread_ihex addr blocks,
        (
          w',
          (
            run,
            parse_ihex-fread_ihex allocates addr erased blocks p (ap allocates count ∙ room)
                  (subst AllBytes (sym whole) (slice-AllBytes image addr (aligned n) small))
                  (omega (arith, count, aligned_two n more)) (omega (arith, count))
                  (omega (arith, count))
                ∙ ap (λ (k : ℕ). some (record { mem = concat blocks; size = k; begin = addr }))
                    count
                ∙ ap (λ (m : List ℕ). some (record { mem = m; size = aligned n; begin = addr }))
                    whole,
          ),
        ),
      )
