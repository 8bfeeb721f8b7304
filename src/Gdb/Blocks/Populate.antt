-- ===== src/Gdb/Blocks/Populate.antt =====
-- `flash_populate` as a change of the memory that the blocks stand for.
use stlink.Base.{
  ℕ, ◌+◌, ◌-◌, ◌^◌, ◌<◌, ◌≤◌, ◌≡◌, ◌⊎◌, refl, sym, ap, ◌∙◌, Bool-cases, true, false, ◌&&◌, inl, inr,
  ltb, leb, Option, none, some, List, [], ◌∷◌, length, get_or, add32, arith, if◌then◌else◌,
}
use stlink.Gdb.Blocks.{FlashBlock, intersects, fill_block, fill_blocks, fits_some, flash_populate}
use stlink.Gdb.Blocks.Image.{
  Formed, AllFormed, covers, image, fill_block-Formed, fill_block-inside, fill_block-outside,
}

-- No block begins behind the first byte from `a` and before `b`.
abbrev pub NoneInside : ℕ → ℕ → List FlashBlock → Type 0
NoneInside a b [] = Unit {0}
NoneInside a b (fb ∷ blocks) = ((fb.addr ≤ a) ⊎ (b ≤ fb.addr)) × NoneInside a b blocks

-- The byte at `q` when the bytes are written to `a` of a memory that holds `o` there.
abbrev pub overlay : ℕ → List ℕ → ℕ → Option ℕ → Option ℕ
overlay a bytes q none = none
overlay a bytes q (some v) =
    some (if leb a q && ltb q (a + length bytes) then get_or bytes (q - a) 0 else v)

same_place :
    (a b : ℕ) (bytes : List ℕ) (fb : FlashBlock)
    → ((fill_block a b bytes fb).addr ≡ fb.addr) × ((fill_block a b bytes fb).size ≡ fb.size)
same_place a b bytes fb = elim (Bool-cases (intersects a b fb)) [
  | inl m ↦ rw m (refl, refl)
  | inr m ↦ rw m (refl, refl)
]

fill_block-byte :
    (a : ℕ) (bytes : List ℕ) (fb : FlashBlock) (q : ℕ)
    → Formed fb
    → a + length bytes < 2 ^ 32
    → (fb.addr ≤ a) ⊎ (a + length bytes ≤ fb.addr)
    → covers fb q ≡ true
    → get_or (fill_block a (a + length bytes) bytes fb).contents (q - fb.addr) 0 ≡ (
        if leb a q && ltb q (a + length bytes)
        then get_or bytes (q - a) 0
        else get_or fb.contents (q - fb.addr) 0)
fill_block-byte a bytes fb q h lt apart c =
    let b : ℕ = a + length bytes in
    let above : fb.addr ≤ q = ground (arith, c) in
    let below : q < fb.addr + fb.size = ground (arith, c) in
    elim (Bool-cases (leb a q && ltb q b)) [
      | inl i ↦
          let lo : a ≤ q = ground (arith, i) in
          let hi : q < b = ground (arith, i) in
          let at : q - fb.addr - (a - fb.addr) ≡ q - a = ground (arith, apart, lo, hi, above) in
          rw i (
            fill_block-inside a b fb bytes q h lt refl lo hi above below
            ∙ ap (λ (j : ℕ). get_or bytes j 0) at)
      | inr i ↦ rw i (fill_block-outside a b fb bytes q h lt refl (ground (arith, i)) above)
    ]

fill_blocks-image :
    (a : ℕ) (bytes : List ℕ) (blocks : List FlashBlock) (q : ℕ)
    → AllFormed blocks
    → a + length bytes < 2 ^ 32
    → NoneInside a (a + length bytes) blocks
    → image (fill_blocks a (a + length bytes) bytes blocks) q ≡ overlay a bytes q (image blocks q)
fill_blocks-image a bytes [] q h lt apart = refl
fill_blocks-image a bytes (fb ∷ blocks) q (f, h) lt (x, apart) =
    let (at, size) = same_place a (a + length bytes) bytes fb in
    elim (Bool-cases (covers fb q)) [
      | inl c ↦ rw (at, size, c) (ap some (fill_block-byte a bytes fb q f lt x c))
      | inr c ↦ rw (at, size, c) (fill_blocks-image a bytes blocks q h lt apart)
    ]

fill_blocks-AllFormed :
    (a b : ℕ) (bytes : List ℕ) (blocks : List FlashBlock)
    → AllFormed blocks
    → AllFormed (fill_blocks a b bytes blocks)
fill_blocks-AllFormed a b bytes [] h = tt
fill_blocks-AllFormed a b bytes (fb ∷ blocks) (f, h) =
    (fill_block-Formed a b fb bytes f, fill_blocks-AllFormed a b bytes blocks h)

-- Without a block that the data meet, nothing changes.
fill_blocks-unfit :
    (a b : ℕ) (bytes : List ℕ) (blocks : List FlashBlock)
    → fits_some a b blocks ≡ false
    → fill_blocks a b bytes blocks ≡ blocks
fill_blocks-unfit a b bytes [] h = refl
fill_blocks-unfit a b bytes (fb ∷ blocks) h =
    let m : intersects a b fb ≡ false = ground (arith, h) in
    rw m (
      ap (λ (l : List FlashBlock). fb ∷ l)
        (fill_blocks-unfit a b bytes blocks (ground (arith, h, m))))

flash_populate-blocks :
    (a : ℕ) (bytes : List ℕ) (blocks : List FlashBlock)
    → a + length bytes < 2 ^ 32
    → (flash_populate a bytes blocks).1 ≡ fill_blocks a (a + length bytes) bytes blocks
unfolding flash_populate
flash_populate-blocks a bytes blocks lt =
    let b : add32 a (length bytes) ≡ a + length bytes = omega arith in
    elim (Bool-cases (fits_some a (a + length bytes) blocks)) [
      | inl m ↦ rw (b, m) refl
      | inr m ↦ rw (b, m) (sym (fill_blocks-unfit a (a + length bytes) bytes blocks m))
    ]

-- If every block has its buffer and ends below 4G, the data end below 4G, and no block begins behind
-- their first byte and before their end, then every byte of the blocks that the data cover is that of the data behind
-- flash_populate, every other is as it was, and every block still has its buffer.
pub flash_populate-image :
    (a : ℕ) (bytes : List ℕ) (blocks : List FlashBlock)
    → AllFormed blocks
    → a + length bytes < 2 ^ 32
    → NoneInside a (a + length bytes) blocks
    → ((q : ℕ) → image (flash_populate a bytes blocks).1 q ≡ overlay a bytes q (image blocks q))
      × AllFormed (flash_populate a bytes blocks).1
flash_populate-image a bytes blocks h lt apart =
    let e : (flash_populate a bytes blocks).1 ≡ fill_blocks a (a + length bytes) bytes blocks =
      flash_populate-blocks a bytes blocks lt in
    rw e (
      (λ q. fill_blocks-image a bytes blocks q h lt apart),
      fill_blocks-AllFormed a (a + length bytes) bytes blocks h,
    )

-- If a block has its buffer and ends below 4G, and the data begin before it and end below 4G, then
-- flash_populate puts the first of the data at the begin of the block, the next behind it, and so on.
pub flash_populate-late :
    (a : ℕ) (bytes : List ℕ) (fb : FlashBlock) (q : ℕ)
    → Formed fb
    → a + length bytes < 2 ^ 32
    → a < fb.addr
    → fb.addr ≤ q
    → q < fb.addr + fb.size
    → q < a + length bytes
    → image (flash_populate a bytes (fb ∷ [])).1 q ≡ some (get_or bytes (q - fb.addr) 0)
flash_populate-late a bytes fb q h lt before above below inside =
    let b : ℕ = a + length bytes in
    let (at, size) = same_place a b bytes fb in
    let c : covers fb q ≡ true = ground arith in
    let first : q - fb.addr - (a - fb.addr) ≡ q - fb.addr = omega arith in
    ap (λ (l : List FlashBlock). image l q) (flash_populate-blocks a bytes (fb ∷ []) lt)
    ∙ rw (at, size, c)
        (ap some (
          fill_block-inside a b fb bytes q h lt refl (omega arith) inside above below
          ∙ ap (λ (j : ℕ). get_or bytes j 0) first))
