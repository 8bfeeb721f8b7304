-- ===== src/Flash/Verify/Sound.antt =====
-- The verification of the flash on a target whose memory may change with every access but a read.
use stlink.Base.{
  ℕ, zero, suc, ◌+◌, ◌-◌, ◌%◌, ◌^◌, ◌<◌, ◌≤◌, ◌≡◌, refl, sym, ap, ◌∙◌, inl, inr, Bool, Bool-cases,
  true, false, ltb, ltb→lt, ltb→le, Option, some, List, ◌∷◌, ◌++◌, take, drop, add32, arith,
}
use stlink.Target.{Access, Trace, Status, success, failure, Hardware, World, ◌>>=◌, pure, gets}
use stlink.Target.Ends.{after_eq}
use stlink.Target.Ensures.{Ensures, not_failure, not_none}
use stlink.Access.{read_mem32}
use stlink.Flash.Verify.{
  bytes_eq, compare_size, round_size, aligned_size, compare_round, verify_loop, verify_write_flash,
}
use stlink.Flash.Verify.Memory.{
  slice, take-append_slice, drop-drop, bytes_eq_iff, bytes_eq-split, aligned_size_lem,
}

-- `mem` is the memory after each sequence of accesses: reads of bytes answer from it, and leave it.
pub record ReadsMemory ⦃hw : Hardware⦄ (mem : Trace → ℕ → ℕ) : Type 0 where
  pub bytes : (t : Trace) (a n : ℕ) → hw.bytes t a n ≡ some (slice (mem t) a n)
  pub kept : (t : Trace) (a n : ℕ) → mem (Access.read_mem32 a n ∷ t) ≡ mem t

module _ ⦃hw : Hardware⦄ (mem : Trace → ℕ → ℕ) (reads : ReadsMemory mem) (address : ℕ)
    (content : List ℕ) where
  -- The memory in a state is that of the data, from `off` up to `len`.
  abbrev rest_same : ℕ → ℕ → World → Bool
  rest_same len off w =
      bytes_eq (slice (mem w.trace) (address + off) (len - off))
        (take (len - off) (drop off content))

  abbrev part_same : ℕ → ℕ → World → Bool
  part_same off n w =
      bytes_eq (slice (mem w.trace) (add32 address off) n) (take n (drop off content))

  -- The state after `m` bytes were read.
  abbrev filled_by : ℕ → ℕ → World → World
  filled_by a m w = record {
    sl = record (w.sl) { q_buf = take m (slice (mem w.trace) a m) ++ drop m w.sl.q_buf };
    trace = Access.read_mem32 a m ∷ w.trace;
  }

  read_mem32-filled :
      (a m : ℕ) (w : World) → m % 4 ≡ 0 → read_mem32 a m w ≡ some (success, filled_by a m w)
  unfolding read_mem32
  read_mem32-filled a m w h = rw (h, reads.bytes w.trace a m)

  compare_round-same :
      (off n : ℕ) (w : World)
      → n ≤ 0x1800
      → (v : World) × ((compare_round address content off n w ≡ some (part_same off n w, v))
          × (mem v.trace ≡ mem w.trace))
  unfolding compare_round ◌>>=◌ gets
  compare_round-same off n w h =
      let m : ℕ = aligned_size n % 2 ^ 16 in
      let a : ℕ = add32 address off in
      let m4 : m % 4 ≡ 0 = omega (arith, aligned_size_lem n h) in
      let le : n ≤ m = omega (arith, aligned_size_lem n h) in
      (
        filled_by a m w,
        (
          rw (
            ◌>>=◌,
            read_mem32-filled a m w m4,
            take-append_slice (mem w.trace) a n m (drop m w.sl.q_buf) le,
          ),
          reads.kept w.trace a m,
        ),
      )

  rest_same-split :
      (len off n : ℕ) (w v : World)
      → mem v.trace ≡ mem w.trace
      → n ≤ len - off
      → address + len < 2 ^ 32
      → off < len
      → part_same off n w ≡ true
      → rest_same len (off + n) v ≡ true
      → rest_same len off w ≡ true
  rest_same-split len off n w v kept h fits lt part rest =
      let a : add32 address off ≡ address + off = omega arith in
      let b : address + off + n ≡ address + (off + n) = omega arith in
      let c : len - off - n ≡ len - (off + n) = omega arith in
      let p = rw a at part in
      let r = rw kept at rest in
      bytes_eq-split (mem w.trace) (address + off) n (len - off) (drop off content) h
      ∙ rw (b, c, drop-drop n off content, p, r) refl

  -- What a round leads to.
  abbrev after_round : Bool → ℕ → ℕ → ℕ → ℕ → World → Option (Status × World)
  after_round true fuel len off n w = verify_loop fuel address content len (add32 off n) n w
  after_round false fuel len off n w = some (failure, w)

  verify_loop-round :
      (fuel len off cmp : ℕ) (w v : World) (b : Bool)
      → ltb off len ≡ true
      → compare_round address content off (round_size off cmp len) w ≡ some (b, v)
      → verify_loop (suc fuel) address content len off cmp w
        ≡ after_round b fuel len off (round_size off cmp len) v
  unfolding verify_loop ◌>>=◌ pure
  verify_loop-round fuel len off cmp w v true e r = rw (e, verify_loop, ◌>>=◌, r)
  verify_loop-round fuel len off cmp w v false e r = rw (e, verify_loop, ◌>>=◌, r)

  verify_loop-done :
      (fuel len off cmp : ℕ) (w : World)
      → ltb off len ≡ false
      → verify_loop (suc fuel) address content len off cmp w ≡ some (success, w)
  unfolding verify_loop ◌>>=◌ pure
  verify_loop-done fuel len off cmp w e = rw (e, verify_loop)

  -- Nothing is left to compare.
  rest_same-done : (len off : ℕ) (w : World) → len ≤ off → rest_same len off w ≡ true
  unfolding bytes_eq slice
  rest_same-done len off w h = let e : len - off ≡ 0 = omega arith in rw e

  verify_loop-same :
      (fuel len off cmp : ℕ) (w w' : World)
      → address + len < 2 ^ 32
      → len + 0x1800 < 2 ^ 32
      → cmp ≤ 0x1800
      → verify_loop fuel address content len off cmp w ≡ some (success, w')
      → (rest_same len off w ≡ true) × (mem w'.trace ≡ mem w.trace)
  unfolding verify_loop
  verify_loop-same zero len off cmp w w' top small max h = absurd (not_none w' h)
  verify_loop-same (suc fuel) len off cmp w w' top small max h = elim (Bool-cases (ltb off len)) [
    | inr done ↦ (
      rest_same-done len off w (ltb→le off len done),
      after_eq (λ (u : World). mem u.trace ≡ mem w.trace) success success w w'
          (sym (verify_loop-done fuel len off cmp w done) ∙ h) refl,
    )
    | inl more ↦
        let n : ℕ = round_size off cmp len in
        let lt : off < len = ltb→lt off len more in
        let bounds : (n ≤ len - off) × (n ≤ cmp) = ground arith in
        let moves : add32 off n ≡ off + n = omega arith in
        let (v, (run, kept)) = compare_round-same off n w (omega arith) in
        let opened = verify_loop-round fuel len off cmp w v (part_same off n w) more run in
        elim (Bool-cases (part_same off n w)) [
          | inr differ ↦ absurd (
              not_failure v w'
                (ap (λ (b : Bool). after_round b fuel len off n v) (sym differ) ∙ sym opened ∙ h))
          | inl same ↦
              let went = ap (λ (b : Bool). after_round b fuel len off n v) same in
              let next = ap (λ (k : ℕ). verify_loop fuel address content len k n v) moves in
              let (rest, kept2) =
                verify_loop-same fuel len (off + n) n v w' top small (omega arith)
                  (sym (opened ∙ went ∙ next) ∙ h) in
              (rest_same-split len off n w v kept bounds.0 top lt same rest, kept2 ∙ kept)
        ]
  ]

  -- Where the verification returns success, the memory holds the data.
  pub verify_write_flash-Ensures :
      (fuel len : ℕ)
      → address + len < 2 ^ 32
      → len + 0x1800 < 2 ^ 32
      → Ensures
          (λ w. slice (mem w.trace) address len ≡ take len content)
          (verify_write_flash fuel address content len)
  unfolding verify_write_flash ◌>>=◌ gets
  verify_write_flash-Ensures fuel len top small = record {
    at = λ w w' h.
        let cmp : ℕ = compare_size w.sl.flash_pgsz in
        let max : cmp ≤ 0x1800 = ground arith in
        let (same, kept) = verify_loop-same fuel len 0 cmp w w' top small max h in
        let e : address + 0 ≡ address = omega arith in
        let f : len - 0 ≡ len = omega arith in
        rw kept (
          (bytes_eq_iff (slice (mem w.trace) address len) (take len content)).0
            (rw (e, f) at same));
  }
