-- ===== src/Gdb/Blocks/Image.antt =====
-- The memory that the blocks stand for, and what a packet of data makes of it.
use stlink.Base.{
  ℕ, zero, suc, ◌+◌, ◌-◌, ◌^◌, ◌<◌, ◌≤◌, ◌≡◌, ◌⊎◌, refl, ap, ◌∙◌, Bool, Bool-cases, true, false,
  ◌&&◌, inl, inr, ltb, leb, Option, none, some, List, [], ◌∷◌, length, length-take, get_or, take,
  add32, sub32, arith, if◌then◌else◌,
}
use Prim.Native.Nat.{min}
use stlink.Gdb.Blocks.{FlashBlock, copy_to, intersects, copy_start, copy_end, fill_block}

-- A block whose buffer has its size, and which ends below 4G.
abbrev pub Formed : FlashBlock → Type 0
Formed fb = (length fb.contents ≡ fb.size) × (fb.addr + fb.size < 2 ^ 32)

abbrev pub AllFormed : List FlashBlock → Type 0
AllFormed [] = Unit {0}
AllFormed (fb ∷ blocks) = Formed fb × AllFormed blocks

abbrev pub covers : FlashBlock → ℕ → Bool
covers fb q = leb fb.addr q && ltb q (fb.addr + fb.size)

-- The byte that the first block at an address holds.
abbrev pub image : List FlashBlock → ℕ → Option ℕ
image [] q = none
image (fb ∷ blocks) q =
    if covers fb q then some (get_or fb.contents (q - fb.addr) 0) else image blocks q

length-copy_to : (start : ℕ) (src dst : List ℕ) → length (copy_to start src dst) ≡ length dst
length-copy_to start [] dst = refl
length-copy_to start (s ∷ src) [] = refl
length-copy_to zero (s ∷ src) (d ∷ dst) = ap suc (length-copy_to zero src dst)
length-copy_to (suc start) (s ∷ src) (d ∷ dst) = ap suc (length-copy_to start (s ∷ src) dst)

copy_to-inside :
    (start : ℕ) (src dst : List ℕ) (i j : ℕ)
    → i ≡ start + j
    → j < length src
    → start + length src ≤ length dst
    → get_or (copy_to start src dst) i 0 ≡ get_or src j 0
copy_to-inside start [] dst i j e lt fits = absurd (omega arith)
copy_to-inside start (s ∷ src) [] i j e lt fits = absurd (omega arith)
copy_to-inside zero (s ∷ src) (d ∷ dst) zero zero e lt fits = refl
copy_to-inside zero (s ∷ src) (d ∷ dst) zero (suc j) e lt fits = absurd (omega arith)
copy_to-inside zero (s ∷ src) (d ∷ dst) (suc i) zero e lt fits = absurd (omega arith)
copy_to-inside zero (s ∷ src) (d ∷ dst) (suc i) (suc j) e lt fits =
    copy_to-inside zero src dst i j (omega arith) (omega arith) (omega arith)
copy_to-inside (suc start) (s ∷ src) (d ∷ dst) zero j e lt fits = absurd (omega arith)
copy_to-inside (suc start) (s ∷ src) (d ∷ dst) (suc i) j e lt fits =
    copy_to-inside start (s ∷ src) dst i j (omega arith) lt (omega arith)

copy_to-outside :
    (start : ℕ) (src dst : List ℕ) (i : ℕ)
    → (i < start) ⊎ (start + length src ≤ i)
    → get_or (copy_to start src dst) i 0 ≡ get_or dst i 0
copy_to-outside start [] dst i out = refl
copy_to-outside start (s ∷ src) [] i out = refl
copy_to-outside zero (s ∷ src) (d ∷ dst) zero out = absurd (ground arith)
copy_to-outside zero (s ∷ src) (d ∷ dst) (suc i) out = copy_to-outside zero src dst i (ground arith)
copy_to-outside (suc start) (s ∷ src) (d ∷ dst) zero out = refl
copy_to-outside (suc start) (s ∷ src) (d ∷ dst) (suc i) out =
    copy_to-outside start (s ∷ src) dst i (ground arith)

get_or-take : (n : ℕ) (xs : List ℕ) (j : ℕ) → j < n → get_or (take n xs) j 0 ≡ get_or xs j 0
get_or-take zero xs j lt = absurd (omega arith)
get_or-take (suc n) [] j lt = refl
get_or-take (suc n) (x ∷ xs) zero lt = refl
get_or-take (suc n) (x ∷ xs) (suc j) lt = get_or-take n xs j (omega arith)

-- Data from `a` to `b` and a block below 4G.
module _ (a b : ℕ) (fb : FlashBlock) where
  pub meets :
      fb.addr + fb.size < 2 ^ 32
      → intersects a b fb ≡ true
      → (a < fb.addr + fb.size) × (fb.addr < b)
  meets top m =
      let e : add32 fb.addr fb.size ≡ fb.addr + fb.size = omega arith in
      (ground (arith, m, e), ground (arith, m))

  pub meets_not :
      fb.addr + fb.size < 2 ^ 32
      → intersects a b fb ≡ false
      → (fb.addr + fb.size ≤ a) ⊎ (b ≤ fb.addr)
  meets_not top m =
      let e : add32 fb.addr fb.size ≡ fb.addr + fb.size = omega arith in ground (arith, m, e)

  copy_start_lem : copy_start a fb ≡ a - fb.addr
  copy_start_lem = ground arith

  copy_end_lem :
      fb.addr + fb.size < 2 ^ 32
      → b < 2 ^ 32
      → fb.addr < b
      → copy_end b fb ≡ min b (fb.addr + fb.size) - fb.addr
  copy_end_lem top lt over =
      let e : add32 fb.addr fb.size ≡ fb.addr + fb.size = omega arith in
      rw e (elim (Bool-cases (ltb (fb.addr + fb.size) b)) [
        | inl l ↦ rw l (ground (arith, l))
        | inr l ↦ rw l (ground (arith, l))
      ])

  -- The number of bytes that are copied.
  abbrev copied : ℕ
  copied = min b (fb.addr + fb.size) - fb.addr - (a - fb.addr)

  fill_block_lem :
      (bytes : List ℕ)
      → fb.addr + fb.size < 2 ^ 32
      → b < 2 ^ 32
      → a ≤ b
      → intersects a b fb ≡ true
      → fill_block a b bytes fb
        ≡ record fb { contents = copy_to (a - fb.addr) (take copied bytes) fb.contents }
  fill_block_lem bytes top lt le m =
      let (below, over) = meets top m in
      let n : sub32 (copy_end b fb) (copy_start a fb) ≡ copied =
        ap (λ (e : ℕ). sub32 e (copy_start a fb)) (copy_end_lem top lt over)
        ∙ ap (λ (e : ℕ). sub32 (min b (fb.addr + fb.size) - fb.addr) e) copy_start_lem
        ∙ omega arith in
      rw (m, n, copy_start_lem) refl

  pub fill_block-Formed : (bytes : List ℕ) → Formed fb → Formed (fill_block a b bytes fb)
  fill_block-Formed bytes (size, top) = elim (Bool-cases (intersects a b fb)) [
    | inl m ↦ rw m (length-copy_to (copy_start a fb) _ fb.contents ∙ size, top)
    | inr m ↦ rw m (size, top)
  ]

  -- A byte of the block that the data reach comes from as far behind the first byte that is copied.
  pub fill_block-inside :
      (bytes : List ℕ) (q : ℕ)
      → Formed fb
      → b < 2 ^ 32
      → b ≡ a + length bytes
      → a ≤ q
      → q < b
      → fb.addr ≤ q
      → q < fb.addr + fb.size
      → get_or (fill_block a b bytes fb).contents (q - fb.addr) 0
        ≡ get_or bytes (q - fb.addr - (a - fb.addr)) 0
  fill_block-inside bytes q (size, top) lt e lo hi above below =
      let m : intersects a b fb ≡ true =
        (let s : add32 fb.addr fb.size ≡ fb.addr + fb.size = omega arith in ground (arith, s)) in
      ap (λ (f : FlashBlock). get_or f.contents (q - fb.addr) 0)
        (fill_block_lem bytes top lt (omega arith) m)
      ∙ copy_to-inside (a - fb.addr) (take copied bytes) fb.contents (q - fb.addr)
          (q - fb.addr - (a - fb.addr)) (omega arith) (omega (arith, length-take copied bytes))
          (omega (arith, length-take copied bytes))
      ∙ get_or-take copied bytes (q - fb.addr - (a - fb.addr)) (omega arith)

  pub fill_block-outside :
      (bytes : List ℕ) (q : ℕ)
      → Formed fb
      → b < 2 ^ 32
      → b ≡ a + length bytes
      → (q < a) ⊎ (b ≤ q)
      → fb.addr ≤ q
      → get_or (fill_block a b bytes fb).contents (q - fb.addr) 0
        ≡ get_or fb.contents (q - fb.addr) 0
  fill_block-outside bytes q (size, top) lt e out above = elim (Bool-cases (intersects a b fb)) [
    | inl m ↦
        let (below, over) = meets top m in
        ap (λ (f : FlashBlock). get_or f.contents (q - fb.addr) 0)
          (fill_block_lem bytes top lt (omega arith) m)
        ∙ copy_to-outside (a - fb.addr) (take copied bytes) fb.contents (q - fb.addr) (elim out [
          | inl before ↦ inl (omega arith)
          | inr behind ↦ inr (omega (arith, length-take copied bytes))
        ])
    | inr m ↦ rw m refl
  ]
