-- ===== src/Flash/Verify/Memory.antt =====
-- The comparison against a target whose memory does not change: the rounds together decide whether
-- the whole range equals the data.
use stlink.Base.{
  ℕ, zero, suc, ◌+◌, ◌-◌, ◌*◌, ◌/◌, ◌%◌, ◌^◌, ◌<◌, ◌≤◌, ◌≡◌, ◌↔◌, refl, ap, ◌∙◌, inl, inr, Bool,
  Bool-cases, true, false, ◌&&◌, ltb, ltb→lt, ltb→le, Option, some, List, [], ◌∷◌, ◌++◌, take, drop,
  clear_mask, add32, bit_and_mask, bit_and_fields, bit_and-zero_right, if◌then◌else◌, arith,
}
use stlink.Target.{Status, success, failure, Hardware, World, Trace, Access, ◌>>=◌, pure, gets}
use stlink.Access.{read_mem32}
use stlink.Flash.Verify.{
  bytes_eq, compare_size, round_size, aligned_size, compare_round, verify_loop, verify_write_flash,
}

-- `n` bytes of a memory from an address on.
unfoldable pub slice : (ℕ → ℕ) → ℕ → ℕ → List ℕ
slice image a zero = []
slice image a (suc n) = image a ∷ slice image (suc a) n

-- Every read of bytes answers from one unchanging memory.
abbrev pub HasMemory : Hardware → (ℕ → ℕ) → Type 0
HasMemory hw image = (t : Trace) (a n : ℕ) → hw.bytes t a n ≡ some (slice image a n)

take-slice : (image : ℕ → ℕ) (a n m : ℕ) → n ≤ m → take n (slice image a m) ≡ slice image a n
unfolding slice
take-slice image a zero m h = refl
take-slice image a (suc n) zero h = absurd (omega arith)
take-slice image a (suc n) (suc m) h =
    ap (◌∷◌ (image a)) (take-slice image (suc a) n m (omega arith))

pub take-append_slice :
    (image : ℕ → ℕ) (a n m : ℕ) (rest : List ℕ)
    → n ≤ m
    → take n (take m (slice image a m) ++ rest) ≡ slice image a n
unfolding slice
take-append_slice image a zero m rest h = refl
take-append_slice image a (suc n) zero rest h = absurd (omega arith)
take-append_slice image a (suc n) (suc m) rest h =
    ap (◌∷◌ (image a)) (take-append_slice image (suc a) n m rest (omega arith))

pub drop-drop : (m n : ℕ) (xs : List ℕ) → drop m (drop n xs) ≡ drop (n + m) xs
drop-drop m zero xs = let e : 0 + m ≡ m = omega arith in rw e
drop-drop zero (suc n) [] = let e : suc n + 0 ≡ suc n = omega arith in rw e
drop-drop (suc m) (suc n) [] = let e : suc n + suc m ≡ suc (n + suc m) = omega arith in rw e
drop-drop m (suc n) (x ∷ xs) =
    let e : suc n + m ≡ suc (n + m) = omega arith in rw e (drop-drop m n xs)

pub bytes_eq_iff : (xs ys : List ℕ) → (bytes_eq xs ys ≡ true) ↔ (xs ≡ ys)
unfolding bytes_eq
bytes_eq_iff [] [] = (λ h. refl, λ h. refl)
bytes_eq_iff [] (y ∷ ys) = (λ h. cc, λ h. cc)
bytes_eq_iff (x ∷ xs) [] = (λ h. cc, λ h. cc)
bytes_eq_iff (x ∷ xs) (y ∷ ys) = ground (arith, bytes_eq_iff xs ys)

-- Comparing `n` bytes is comparing the first `m`, and then the others.
pub bytes_eq-split :
    (image : ℕ → ℕ) (a m n : ℕ) (xs : List ℕ)
    → m ≤ n
    → bytes_eq (slice image a n) (take n xs) ≡ (
        bytes_eq (slice image a m) (take m xs)
        && bytes_eq (slice image (a + m) (n - m)) (take (n - m) (drop m xs)))
unfolding bytes_eq slice
bytes_eq-split image a zero n xs h =
    let e : a + 0 ≡ a = omega arith in let f : n - 0 ≡ n = omega arith in rw (e, f)
bytes_eq-split image a (suc m) zero xs h = absurd (omega arith)
bytes_eq-split image a (suc m) (suc n) [] h = refl
bytes_eq-split image a (suc m) (suc n) (x ∷ xs) h =
    let e : a + suc m ≡ suc a + m = omega arith in
    let f : suc n - suc m ≡ n - m = omega arith in
    rw (e, f, bytes_eq-split image (suc a) m n xs (omega arith)) (ground arith)

clear_low_two : (x : ℕ) → x < 2 ^ 32 → clear_mask x 3 ≡ x / 4 * 4
clear_low_two x h = ground (
  arith,
  bit_and_fields 2 (x / 4) (x % 4) (2 ^ 30 - 1) 0,
  bit_and_mask 30 (x / 4),
  bit_and-zero_right (x % 4),
)

pub aligned_size_lem :
    (n : ℕ)
    → n ≤ 0x1800
    → (n ≤ aligned_size n) × (aligned_size n % 4 ≡ 0) × (aligned_size n ≤ 0x1804)
aligned_size_lem n h = ground (arith, clear_low_two (n + 4), bit_and_mask 2 n)

module _ ⦃hw : Hardware⦄ (image : ℕ → ℕ) (memory : HasMemory hw image) (address : ℕ)
    (content : List ℕ) where
  -- What one round compares.
  abbrev pub part_eq : ℕ → ℕ → Bool
  part_eq off n = bytes_eq (slice image (add32 address off) n) (take n (drop off content))

  -- The buffer and the trace after `m` bytes were read.
  abbrev filled_by : ℕ → ℕ → World → World
  filled_by a m w = record {
    sl = record (w.sl) { q_buf = take m (slice image a m) ++ drop m w.sl.q_buf };
    trace = Access.read_mem32 a m ∷ w.trace;
  }

  read_mem32-filled :
      (a m : ℕ) (w : World) → m % 4 ≡ 0 → read_mem32 a m w ≡ some (success, filled_by a m w)
  unfolding read_mem32
  read_mem32-filled a m w h = rw (h, memory w.trace a m)

  pub compare_round-eq :
      (off n : ℕ) (w : World)
      → n ≤ 0x1800
      → (w' : World) × (compare_round address content off n w ≡ some (part_eq off n, w'))
  unfolding compare_round ◌>>=◌ gets
  compare_round-eq off n w h =
      let m : ℕ = aligned_size n % 2 ^ 16 in
      let a : ℕ = add32 address off in
      let m4 : m % 4 ≡ 0 = omega (arith, aligned_size_lem n h) in
      let le : n ≤ m = omega (arith, aligned_size_lem n h) in
      (
        filled_by a m w,
        rw (
          ◌>>=◌,
          read_mem32-filled a m w m4,
          take-append_slice image a n m (drop m w.sl.q_buf) le,
        ),
      )

  -- The verdict on what is left from `off` on.
  abbrev pub rest_eq : ℕ → ℕ → Bool
  rest_eq len off =
      bytes_eq (slice image (address + off) (len - off)) (take (len - off) (drop off content))

  -- A round and what is left after it.
  pub rest_eq-split :
      (len off n : ℕ)
      → n ≤ len - off
      → address + len < 2 ^ 32
      → off < len
      → rest_eq len off ≡ (part_eq off n && rest_eq len (off + n))
  rest_eq-split len off n h fits lt =
      let a : add32 address off ≡ address + off = omega arith in
      let b : address + off + n ≡ address + (off + n) = omega arith in
      let c : len - off - n ≡ len - (off + n) = omega arith in
      bytes_eq-split image (address + off) n (len - off) (drop off content) h
      ∙ rw (a, b, c, drop-drop n off content)

  pub rest_eq-done : (len off : ℕ) → len ≤ off → rest_eq len off ≡ true
  unfolding bytes_eq slice
  rest_eq-done len off h = let e : len - off ≡ 0 = omega arith in rw e

  abbrev pub verdict : Bool → Status
  verdict same = if same then success else failure

  abbrev Verifies : ℕ → ℕ → ℕ → ℕ → World → Type 0
  Verifies fuel len off cmp w =
      (w' : World) × (verify_loop fuel address content len off cmp w
        ≡ some (verdict (rest_eq len off), w'))

  verify_loop-done :
      (fuel len off cmp : ℕ) (w : World)
      → ltb off len ≡ false
      → verify_loop (suc fuel) address content len off cmp w ≡ some (success, w)
  unfolding verify_loop ◌>>=◌ pure
  verify_loop-done fuel len off cmp w e = rw (e, verify_loop)

  -- One round, by its result.
  abbrev after_round : Bool → ℕ → ℕ → ℕ → ℕ → World → Option (Status × World)
  after_round true fuel len off n w = verify_loop fuel address content len (add32 off n) n w
  after_round false fuel len off n w = some (failure, w)

  verify_loop-round :
      (fuel len off cmp : ℕ) (w w' : World) (b : Bool)
      → ltb off len ≡ true
      → compare_round address content off (round_size off cmp len) w ≡ some (b, w')
      → verify_loop (suc fuel) address content len off cmp w
        ≡ after_round b fuel len off (round_size off cmp len) w'
  unfolding verify_loop ◌>>=◌ pure
  verify_loop-round fuel len off cmp w w' true e r = rw (e, verify_loop, ◌>>=◌, r)
  verify_loop-round fuel len off cmp w w' false e r = rw (e, verify_loop, ◌>>=◌, r)

  verify_loop-Verifies :
      (fuel len off cmp : ℕ) (w : World)
      → address + len < 2 ^ 32
      → len + 0x1800 < 2 ^ 32
      → 0 < cmp
      → cmp ≤ 0x1800
      → len - off < fuel
      → Verifies fuel len off cmp w
  verify_loop-Verifies zero len off cmp w top small pos max enough = absurd (omega arith)
  verify_loop-Verifies (suc fuel) len off cmp w top small pos max enough =
      elim (Bool-cases (ltb off len)) [
        | inr done ↦ (
          w,
          verify_loop-done fuel len off cmp w done
              ∙ rw (rest_eq-done len off (ltb→le off len done)),
        )
        | inl more ↦
            let n : ℕ = round_size off cmp len in
            let lt : off < len = ltb→lt off len more in
            let bounds : (n ≤ len - off) × (n ≤ cmp) × (0 < n) = ground arith in
            let moves : add32 off n ≡ off + n = omega arith in
            let r = compare_round-eq off n w (omega arith) in
            let split = rest_eq-split len off n bounds.0 top lt in
            let opened = verify_loop-round fuel len off cmp w r.0 (part_eq off n) more r.1 in
            elim (Bool-cases (part_eq off n)) [
              | inr differ ↦ (r.0, opened ∙ rw (split, differ))
              | inl same ↦
                  let rest : Verifies fuel len (off + n) n r.0 =
                    verify_loop-Verifies fuel len (off + n) n r.0 top small (omega arith)
                      (omega arith) (omega arith) in
                  (
                    rest.0,
                    opened
                        ∙ rw (split, same)
                            (ap (λ (k : ℕ). verify_loop fuel address content len k n r.0) moves
                              ∙ rest.1),
                  )
            ]
      ]

  pub verdict_iff : (b : Bool) {P : Type 0} → ((b ≡ true) ↔ P) → (verdict b ≡ success) ↔ P
  verdict_iff true h = (λ e. h.0 refl, λ p. refl)
  verdict_iff false h = (λ e. cc, λ p. let e : false ≡ true = h.1 p in cc)

  -- If the memory does not change, the range ends below 4G and is more than 6K shorter than 4G, then
  -- with more fuel than bytes and a page size above 0 the verification returns, and succeeds exactly
  -- if the memory at the address holds the first `len` bytes of the data.
  pub verify_write_flash-slice :
      (fuel len : ℕ) (w : World)
      → address + len < 2 ^ 32
      → len + 0x1800 < 2 ^ 32
      → 0 < w.sl.flash_pgsz
      → len < fuel
      → (s : Status) × (w' : World) × (verify_write_flash fuel address content len w ≡ some (s, w'))
        × ((s ≡ success) ↔ (slice image address len ≡ take len content))
  unfolding verify_write_flash ◌>>=◌ gets
  verify_write_flash-slice fuel len w top small pos enough =
      let cmp : ℕ = compare_size w.sl.flash_pgsz in
      let b : (0 < cmp) × (cmp ≤ 0x1800) = ground arith in
      let r : Verifies fuel len 0 cmp w =
        verify_loop-Verifies fuel len 0 cmp w top small b.0 b.1 (omega arith) in
      let e : address + 0 ≡ address = omega arith in
      let f : len - 0 ≡ len = omega arith in
      (
        verdict (bytes_eq (slice image address len) (take len content)),
        r.0,
        r.1 ∙ rw (e, f),
        verdict_iff _ (bytes_eq_iff (slice image address len) (take len content)),
      )
