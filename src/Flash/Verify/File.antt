-- ===== src/Flash/Verify/File.antt =====
-- `check_file` against a target whose memory does not change.
use stlink.Base.{
  ℕ, zero, suc, ◌+◌, ◌-◌, ◌^◌, ◌<◌, ◌≤◌, ◌≡◌, ◌↔◌, ◌⊎◌, refl, sym, ap, ◌∙◌, inl, inr, Bool,
  Bool-cases, true, false, ltb, ltb→lt, ltb→le, Option, some, List, take, add32, arith,
}
use stlink.Target.{Status, success, failure, Hardware, World, ◌>>=◌, pure, gets}
use stlink.Flash.Verify.{bytes_eq, compare_size, round_size, compare_round, check_loop, check_file}
use stlink.Flash.Verify.Memory.{
  slice, HasMemory, part_eq, compare_round-eq, rest_eq, rest_eq-split, rest_eq-done, verdict,
  verdict_iff, bytes_eq_iff,
}

module _ ⦃hw : Hardware⦄ (image : ℕ → ℕ) (memory : HasMemory hw image) (address : ℕ)
    (content : List ℕ) where
  abbrev Checks : ℕ → ℕ → ℕ → ℕ → World → Type 0
  Checks fuel len off cmp w =
      (w' : World) × (check_loop fuel address content len off cmp w
        ≡ some (
          verdict image memory address content (rest_eq image memory address content len off),
          w',
        ))

  -- One round, by its result.
  abbrev checked_round : Bool → ℕ → ℕ → ℕ → ℕ → World → Option (Status × World)
  checked_round true fuel len off cmp w = check_loop fuel address content len (add32 off cmp) cmp w
  checked_round false fuel len off cmp w = some (failure, w)

  check_loop-round :
      (fuel len off cmp : ℕ) (w w' : World) (b : Bool)
      → ltb off len ≡ true
      → compare_round address content off (round_size off cmp len) w ≡ some (b, w')
      → check_loop (suc fuel) address content len off cmp w ≡ checked_round b fuel len off cmp w'
  unfolding check_loop ◌>>=◌ pure
  check_loop-round fuel len off cmp w w' true e r = rw (e, check_loop, ◌>>=◌, r)
  check_loop-round fuel len off cmp w w' false e r = rw (e, check_loop, ◌>>=◌, r)

  check_loop-done :
      (fuel len off cmp : ℕ) (w : World)
      → ltb off len ≡ false
      → check_loop (suc fuel) address content len off cmp w ≡ some (success, w)
  unfolding check_loop pure
  check_loop-done fuel len off cmp w e = rw (e, check_loop)

  -- A round that is shortened is the last.
  rest_eq-step :
      (len off n cmp : ℕ)
      → (n ≡ cmp) ⊎ ((len ≤ off + n) × (len ≤ off + cmp))
      → rest_eq image memory address content len (off + n)
        ≡ rest_eq image memory address content len (off + cmp)
  rest_eq-step len off n cmp (inl e) =
      ap (λ (k : ℕ). rest_eq image memory address content len (off + k)) e
  rest_eq-step len off n cmp (inr (a, b)) =
      rest_eq-done image memory address content len (off + n) a
      ∙ sym (rest_eq-done image memory address content len (off + cmp) b)

  check_loop-Checks :
      (fuel len off cmp : ℕ) (w : World)
      → address + len < 2 ^ 32
      → len + 0x1800 < 2 ^ 32
      → 0 < cmp
      → cmp ≤ 0x1800
      → len - off < fuel
      → Checks fuel len off cmp w
  check_loop-Checks zero len off cmp w top small pos max enough = absurd (omega arith)
  check_loop-Checks (suc fuel) len off cmp w top small pos max enough =
      elim (Bool-cases (ltb off len)) [
        | inr done ↦ (
          w,
          check_loop-done fuel len off cmp w done
              ∙ rw (rest_eq-done image memory address content len off (ltb→le off len done)) refl,
        )
        | inl more ↦
            let n : ℕ = round_size off cmp len in
            let lt : off < len = ltb→lt off len more in
            let bounds : (n ≤ len - off) × (n ≤ cmp) × (0 < n) = ground arith in
            let last : (n ≡ cmp) ⊎ ((len ≤ off + n) × (len ≤ off + cmp)) = ground arith in
            let moves : add32 off cmp ≡ off + cmp = omega arith in
            let (v, run) = compare_round-eq image memory address content off n w (omega arith) in
            let split = rest_eq-split image memory address content len off n bounds.0 top lt in
            let opened =
              check_loop-round fuel len off cmp w v (part_eq image memory address content off n)
                more run in
            elim (Bool-cases (part_eq image memory address content off n)) [
              | inr differ ↦ (v, opened ∙ rw (split, differ) refl)
              | inl same ↦
                  let (w', rest) =
                    check_loop-Checks fuel len (off + cmp) cmp v top small pos max (omega arith) in
                  (
                    w',
                    opened
                        ∙ rw (split, same, rest_eq-step len off n cmp last)
                            (ap (λ (k : ℕ). check_loop fuel address content len k cmp v) moves
                              ∙ rest),
                  )
            ]
      ]

  -- If the memory does not change, the range ends below 4G and is more than 6K shorter than 4G, then
  -- with more fuel than bytes and a page size above 0 check_file returns, and succeeds exactly if
  -- the memory at the address holds the first `len` bytes of the file.
  pub check_file-slice :
      (fuel len : ℕ) (w : World)
      → address + len < 2 ^ 32
      → len + 0x1800 < 2 ^ 32
      → 0 < w.sl.flash_pgsz
      → len < fuel
      → (s : Status) × ((w' : World) × ((check_file fuel content len address w ≡ some (s, w'))
            × ((s ≡ success) ↔ (slice image address len ≡ take len content))))
  unfolding check_file ◌>>=◌ gets
  check_file-slice fuel len w top small pos enough =
      let cmp : ℕ = compare_size w.sl.flash_pgsz in
      let b : (0 < cmp) × (cmp ≤ 0x1800) = ground arith in
      let (w', run) = check_loop-Checks fuel len 0 cmp w top small b.0 b.1 (omega arith) in
      let e : address + 0 ≡ address = omega arith in
      let f : len - 0 ≡ len = omega arith in
      (
        verdict image memory address content
            (bytes_eq (slice image address len) (take len content)),
        (
          w',
          (
            run ∙ rw (e, f) refl,
            verdict_iff image memory address content _
                (bytes_eq_iff (slice image address len) (take len content)),
          ),
        ),
      )
