-- ===== src/Gdb/Blocks/Adding.antt =====
-- `flash_add_block`: when a block is taken, and what it adds.
use stlink.Base.{
  ℕ, zero, suc, ◌+◌, ◌-◌, ◌%◌, ◌^◌, ◌<◌, ◌≤◌, ◌≡◌, ◌↔◌, refl, ap, ◌==◌, Bool-cases, false, not,
  ◌&&◌, ◌||◌, inl, inr, ltb, leb, some, List, ◌∷◌, length, replicate, get_or, add32, arith,
  if◌then◌else◌,
}
use stlink.Target.{Status, success, failure, World, ◌>>=◌, pure, gets}
use stlink.Calculate.{pagesize_at, calculate_pagesize}
use stlink.Gdb.Blocks.{FlashBlock, gdb_flash_base, get_erased_pattern, flash_add_block}
use stlink.Gdb.Blocks.Image.{AllFormed, image}

-- The range lies in the flash, and its begin and its size are multiples of the page size at its
-- begin. Where pages differ in size it may end within one.
abbrev pub InMultiples : World → ℕ → ℕ → Type 0
InMultiples w addr size =
    (gdb_flash_base ≤ addr)
    × ((addr + size ≤ gdb_flash_base + w.sl.flash_size)
        × ((addr % pagesize_at w.sl addr ≡ 0) × (size % pagesize_at w.sl addr ≡ 0)))

-- What adding a block comes to.
abbrev pub Adds : ℕ → ℕ → List FlashBlock → World → Type 0
Adds addr size blocks w =
    (r : Status) × ((blocks' : List FlashBlock) × ((w' : World) × ((flash_add_block addr size blocks
              w
            ≡ some ((r, blocks'), w'))
          × (((r ≡ success) ↔ InMultiples w addr size)
              × ((r ≡ success
                    → ((q : ℕ)
                        → image blocks' q ≡ (
                            if leb addr q && ltb q (addr + size)
                            then some (get_erased_pattern w.sl.flash_type)
                            else image blocks q)))
                  × ((r ≡ failure → blocks' ≡ blocks) × (AllFormed blocks → AllFormed blocks')))))))

length-replicate : (n v : ℕ) → length (replicate n v) ≡ n
length-replicate zero v = refl
length-replicate (suc n) v = ap suc (length-replicate n v)

get_or-replicate : (n v i : ℕ) → i < n → get_or (replicate n v) i 0 ≡ v
get_or-replicate zero v i lt = absurd (omega arith)
get_or-replicate (suc n) v zero lt = refl
get_or-replicate (suc n) v (suc i) lt = get_or-replicate n v i (omega arith)

new_image :
    (addr size v : ℕ) (blocks : List FlashBlock) (q : ℕ)
    → image (record { addr = addr; size = size; contents = replicate size v } ∷ blocks) q
      ≡ (if leb addr q && ltb q (addr + size) then some v else image blocks q)
new_image addr size v blocks q = elim (Bool-cases (leb addr q && ltb q (addr + size))) [
  | inl e ↦
      let above : addr ≤ q = ground (arith, e) in
      let below : q < addr + size = ground (arith, e) in
      rw e (ap some (get_or-replicate size v (q - addr) (omega arith)))
  | inr e ↦ rw e refl
]

refused :
    (addr size : ℕ) (blocks : List FlashBlock) (w w' : World)
    → flash_add_block addr size blocks w ≡ some ((failure, blocks), w')
    → (InMultiples w addr size → failure ≡ success)
    → Adds addr size blocks w
refused addr size blocks w w' run out = (
  failure,
  (blocks, (w', (run, (((λ e. absurd cc), out), ((λ e. absurd cc), ((λ e. refl), (λ h. h))))))),
)

-- If the range and the flash end below 4G and the page size at the begin is above 0, then
-- flash_add_block returns, and takes the range if and only if it lies in the flash and its begin
-- and its size are multiples of this page size. Then the range reads as erased and every other
-- address as before; otherwise the blocks stay as they are. Each block has its buffer if each had
-- before.
pub flash_add_block-Adds :
    (addr size : ℕ) (blocks : List FlashBlock) (w : World)
    → addr + size < 2 ^ 32
    → gdb_flash_base + w.sl.flash_size < 2 ^ 32
    → 0 < pagesize_at w.sl addr
    → Adds addr size blocks w
unfolding flash_add_block gets pure calculate_pagesize ◌>>=◌
flash_add_block-Adds addr size blocks w lt top pos =
    let some_size : (pagesize_at w.sl addr == 0) ≡ false = ground arith in
    let base : add32 gdb_flash_base w.sl.flash_size ≡ gdb_flash_base + w.sl.flash_size =
      omega arith in
    let sized : World = record w { sl = record (w.sl) { flash_pgsz = pagesize_at w.sl addr } } in
    let end : add32 addr size ≡ addr + size = omega arith in
    elim (Bool-cases
      (ltb addr gdb_flash_base || ltb (gdb_flash_base + w.sl.flash_size) (addr + size))) [
        | inl out ↦
            refused addr size blocks w w (rw (flash_add_block, base, end, out) refl)
              (λ p. absurd (ground (arith, out, p.0, p.1.0)))
        | inr within ↦
            elim (Bool-cases (
              not (addr % pagesize_at w.sl addr == 0) || not (size % pagesize_at w.sl addr == 0))) [
                | inl odd ↦
                    refused addr size blocks w sized
                      (rw (flash_add_block, base, end, within, some_size, odd) refl)
                      (λ p. absurd (ground (arith, odd, p.1.1.0, p.1.1.1)))
                | inr even ↦ (
                  success,
                  (
                    record {
                      addr = addr;
                      size = size;
                      contents = replicate size (get_erased_pattern w.sl.flash_type);
                    }
                        ∷ blocks,
                    (
                      sized,
                      (
                        rw (flash_add_block, base, end, within, some_size, even) refl,
                        (
                          (
                            (λ e. (
                              ground (arith, within),
                              (
                                ground (arith, within),
                                (ground (arith, even), ground (arith, even)),
                              ),
                            )),
                            (λ p. refl),
                          ),
                          (
                            (λ e q.
                                new_image addr size (get_erased_pattern w.sl.flash_type) blocks q),
                            ((λ e. absurd cc), (λ h. ((length-replicate size _, lt), h))),
                          ),
                        ),
                      ),
                    ),
                  ),
                )
              ]
      ]
