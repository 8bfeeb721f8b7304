-- ===== src/Read/Memory.antt =====
-- `stlink_read` on a target whose memory does not change: what its callback gets.
use stlink.Base.{
  ℕ, zero, suc, ◌+◌, ◌-◌, ◌%◌, ◌^◌, ◌<◌, ◌≤◌, ◌≡◌, refl, ap, ◌∙◌, ◌==◌, Bool-cases, true, false,
  ltb, inl, inr, Option, Option-cases, none, some, List, [], ◌∷◌, ◌++◌, take, drop, add32,
  if◌then◌else◌, arith,
}
use mathlib.Core.List.{append-nil}
use stlink.Target.{Access, Hardware, World, ◌>>=◌, ◌>>◌, pure, gets}
use stlink.Access.{read_mem32}
use stlink.Ihex.RoundTrip.{concat}
use stlink.Flash.Verify.Memory.{slice, HasMemory, take-append_slice}
use stlink.Read.{part_size, aligned, read_loop}

-- The blocks that are read.
abbrev pub read_blocks : (ℕ → ℕ) → ℕ → ℕ → ℕ → ℕ → ℕ → List (List ℕ)
read_blocks image zero addr size cmp off = []
read_blocks image (suc fuel) addr size cmp off =
    let n = part_size size cmp off in
    let rest = read_blocks image fuel addr size n (add32 off n) in
    if ltb off size then slice image (add32 addr off) (aligned n) ∷ rest else []

-- The callback on block after block, until it fails.
abbrev pub fold : {S : Type 0} → (List ℕ → S → Option S) → List (List ℕ) → S → Option S
fold fn [] s = some s
fold fn (b ∷ bs) s = elim (fn b s) [ none ↦ none | some s' ↦ fold fn bs s' ]

pub slice-append :
    (image : ℕ → ℕ) (a n m : ℕ) → slice image a n ++ slice image (a + n) m ≡ slice image a (n + m)
unfolding slice
slice-append image a zero m =
    let e : a + 0 ≡ a = omega arith in let f : 0 + m ≡ m = omega arith in rw (e, f) refl
slice-append image a (suc n) m =
    let e : a + suc n ≡ suc a + n = omega arith in
    let f : suc n + m ≡ suc (n + m) = omega arith in
    rw (e, f) (ap (λ (t : List ℕ). image a ∷ t) (slice-append image (suc a) n m))

pub aligned_bounds : (n : ℕ) → (n ≤ aligned n) × (aligned n ≤ n + 3)
aligned_bounds n = ground arith

part_size_bounds :
    (size cmp off : ℕ)
    → 0 < cmp
    → off < size
    → size + cmp ≤ 2 ^ 32
    → (0 < part_size size cmp off)
      × ((part_size size cmp off ≤ cmp) × (off + part_size size cmp off ≤ size))
part_size_bounds size cmp off h lt room =
    let e : add32 off cmp ≡ off + cmp = omega arith in
    rw e (elim (Bool-cases (ltb size (off + cmp))) [
      | inl e ↦ rw e (ground (arith, e), (ground (arith, e), omega arith))
      | inr e ↦ rw e (h, (omega arith, ground (arith, e)))
    ])

aligned_whole : (n : ℕ) → (aligned n % 4 == 0) ≡ true
aligned_whole n = ground arith

module _ ⦃hw : Hardware⦄ {S : Type 0} (image : ℕ → ℕ) (fn : List ℕ → S → Option S) where
  abbrev after : ℕ → ℕ → World → World
  after a m w = record {
    sl = record (w.sl) { q_buf = take m (slice image a m) ++ drop m w.sl.q_buf };
    trace = Access.read_mem32 a m ∷ w.trace;
  }

  -- The read of one block.
  read_mem32-block :
      (a n : ℕ) (w : World)
      → HasMemory hw image
      → aligned n < 2 ^ 16
      → (read_mem32 a (aligned n % 2 ^ 16) >> gets (λ sl. take (aligned n) sl.q_buf)) w
        ≡ some (slice image a (aligned n), after a (aligned n) w)
  unfolding read_mem32 gets ◌>>=◌
  read_mem32-block a n w h small =
      let e : aligned n % 2 ^ 16 ≡ aligned n = omega arith in
      ap (λ (m : ℕ). (read_mem32 a m >> gets (λ sl. take (aligned n) sl.q_buf)) w) e
      ∙ rw (◌>>=◌, aligned_whole n, h w.trace a (aligned n))
          (ap (λ (b : List ℕ). some (b, after a (aligned n) w))
            (take-append_slice image a (aligned n) (aligned n) (drop (aligned n) w.sl.q_buf)
              (omega arith)))

  pub read_loop-blocks :
      (fuel addr size cmp off : ℕ) (s : S) (w : World)
      → HasMemory hw image
      → 0 < cmp
      → cmp ≤ 0x1800
      → size + 0x1800 ≤ 2 ^ 32
      → size - off < fuel
      → (w' : World) × (read_loop fn fuel addr size cmp off s w
          ≡ some (fold fn (read_blocks image fuel addr size cmp off) s, w'))
  unfolding read_loop pure ◌>>=◌
  read_loop-blocks zero addr size cmp off s w h some_left small room enough = absurd (omega arith)
  read_loop-blocks (suc fuel) addr size cmp off s w h some_left small room enough =
      elim (Bool-cases (ltb off size)) [
        | inr done ↦ (w, rw (read_loop, done) refl)
        | inl more ↦
            let n : ℕ = part_size size cmp off in
            let inside : off < size = ground (arith, more) in
            let part : (0 < n) × ((n ≤ cmp) × (off + n ≤ size)) =
              part_size_bounds size cmp off some_left inside (omega arith) in
            let v : World = after (add32 addr off) (aligned n) w in
            let fits : aligned n < 2 ^ 16 =
              (let (least, most) = aligned_bounds n in omega (arith, part.1.0, most)) in
            let step : add32 off n ≡ off + n = omega (arith, part.1.1) in
            let block : List ℕ = slice image (add32 addr off) (aligned n) in
            elim (Option-cases (fn block s)) [
              | inl failed ↦ (
                v,
                rw (read_loop, more, ◌>>=◌, read_mem32-block (add32 addr off) n w h fits, failed)
                    refl,
              )
              | inr (s', went) ↦
                  let (w', run) =
                    read_loop-blocks fuel addr size n (add32 off n) s' v h part.0
                      (omega (arith, part.1.0)) room
                      (omega (arith, part.0, part.1.1, inside, step)) in
                  (
                    w',
                    rw (read_loop, more, ◌>>=◌, read_mem32-block (add32 addr off) n w h fits, went)
                        run,
                  )
            ]
      ]

read_blocks-end :
    (image : ℕ → ℕ) (fuel addr size cmp off : ℕ)
    → size ≤ off
    → read_blocks image fuel addr size cmp off ≡ []
read_blocks-end image zero addr size cmp off le = refl
read_blocks-end image (suc fuel) addr size cmp off le =
    let e : ltb off size ≡ false = ground arith in rw e refl

aligned-minus :
    (size off : ℕ) → off % 4 ≡ 0 → off < size → aligned (size - off) ≡ aligned size - off
aligned-minus size off e lt = elim (Bool-cases (size % 4 == 0)) [
  | inl w ↦ let v : ((size - off) % 4 == 0) ≡ true = ground (arith, w) in rw (v, w) refl
  | inr w ↦ let v : ((size - off) % 4 == 0) ≡ false = ground (arith, w) in rw (v, w) (omega arith)
]

last_part :
    (size cmp off : ℕ)
    → off < size
    → size ≤ off + cmp
    → size + cmp ≤ 2 ^ 32
    → part_size size cmp off ≡ size - off
last_part size cmp off lt le room =
    let s : add32 off cmp ≡ off + cmp = omega arith in
    rw s (elim (Bool-cases (ltb size (off + cmp))) [
      | inl e ↦ rw e refl
      | inr e ↦ rw e (ground (arith, e))
    ])

-- The blocks together are the memory, up to a whole word.
pub read_blocks-slice :
    (image : ℕ → ℕ) (fuel addr size cmp off : ℕ)
    → 0 < cmp
    → cmp % 4 ≡ 0
    → off % 4 ≡ 0
    → off < size
    → size - off < fuel
    → size + cmp ≤ 2 ^ 32
    → addr + aligned size ≤ 2 ^ 32
    → concat (read_blocks image fuel addr size cmp off)
      ≡ slice image (addr + off) (aligned size - off)
read_blocks-slice image zero addr size cmp off p c o lt enough room top = absurd (omega arith)
read_blocks-slice image (suc fuel) addr size cmp off p c o lt enough room top =
    let sum : add32 off cmp ≡ off + cmp = omega arith in
    let inside : ltb off size ≡ true = ground arith in
    let (over, most) = aligned_bounds size in
    let at : add32 addr off ≡ addr + off = omega (arith, over) in
    elim (Bool-cases (ltb (off + cmp) size)) [
      | inl more ↦
          let next : off + cmp < size = ground (arith, more) in
          let n : part_size size cmp off ≡ cmp =
            (let e : ltb size (add32 off cmp) ≡ false = ground (arith, sum) in rw e refl) in
          let whole : aligned cmp ≡ cmp =
            (let e : (cmp % 4 == 0) ≡ true = ground arith in rw e refl) in
          let rest =
            read_blocks-slice image fuel addr size cmp (off + cmp) p c (omega arith) next
              (omega arith) room top in
          let left : cmp + (aligned size - (off + cmp)) ≡ aligned size - off =
            omega (arith, over, next) in
          let shift : addr + (off + cmp) ≡ addr + off + cmp = omega arith in
          rw (inside, n, sum, at, whole, rest, shift)
            (slice-append image (addr + off) cmp (aligned size - (off + cmp))
              ∙ ap (λ (k : ℕ). slice image (addr + off) k) left)
      | inr last ↦
          let n : part_size size cmp off ≡ size - off =
            last_part size cmp off lt (ground (arith, last)) room in
          rw
            (
              inside,
              n,
              at,
              read_blocks-end image fuel addr size (size - off) (add32 off (size - off))
                  (omega arith),
            )
            (append-nil (slice image (addr + off) (aligned (size - off)))
              ∙ ap (λ (k : ℕ). slice image (addr + off) k) (aligned-minus size off o lt))
    ]
