-- ===== src/Gdb/Blocks.antt =====
-- src/st-util/gdb-server.c: the flash blocks that GDB announces and fills. The list `flash_root` is
-- passed along.
pub mod Image
pub mod Populate
pub mod Escape
pub mod Adding
use stlink.Base.{
  ℕ, zero, suc, ◌+◌, ◌-◌, ◌*◌, ◌/◌, ◌%◌, ◌^◌, ◌==◌, Bool, true, false, not, ◌&&◌, ◌||◌, ltb, leb,
  List, [], ◌∷◌, ◌++◌, none, length, take, replicate, add32, sub32, if◌then◌else◌,
}
use stlink.Target.{
  FlashType, l0_l1, Status, success, failure, World, M, ◌>>=◌, ◌>>◌, pure, gets, Stlink,
}
use stlink.Calculate.{calculate_pagesize}

abbrev pub gdb_flash_base : ℕ
gdb_flash_base = 0x08000000

pub record FlashBlock : Type 0 where
  pub addr : ℕ
  pub size : ℕ
  pub contents : List ℕ

abbrev pub get_erased_pattern : FlashType → ℕ
get_erased_pattern l0_l1 = 0
get_erased_pattern _ = 255

-- `malloc` is not checked; it succeeds here. A page size of 0 would be divided by.
unfoldable pub flash_add_block : ℕ → ℕ → List FlashBlock → M (Status × List FlashBlock)
flash_add_block addr size blocks = do
  sl ← gets (λ c. c)
  if ltb addr gdb_flash_base || ltb (add32 gdb_flash_base sl.flash_size) (add32 addr size)
      then pure (failure, blocks)
      else do
        page ← calculate_pagesize addr
        if page == 0
            then (λ w. none)
            else if not (addr % page == 0) || not (size % page == 0)
            then pure (failure, blocks)
            else pure (
              success,
              record {
                addr = addr;
                size = size;
                contents = replicate size (get_erased_pattern sl.flash_type);
              }
                  ∷ blocks,
            )

-- `memcpy(fb->data + start, ...)` of all of `src`.
abbrev pub copy_to : ℕ → List ℕ → List ℕ → List ℕ
copy_to start [] dst = dst
copy_to start (s ∷ src) [] = []
copy_to zero (s ∷ src) (d ∷ dst) = s ∷ copy_to zero src dst
copy_to (suc start) (s ∷ src) (d ∷ dst) = d ∷ copy_to start (s ∷ src) dst

-- `a < Y && b > X`
abbrev pub intersects : ℕ → ℕ → FlashBlock → Bool
intersects a b fb = ltb a (add32 fb.addr fb.size) && ltb fb.addr b

abbrev pub copy_start : ℕ → FlashBlock → ℕ
copy_start a fb = (if ltb fb.addr a then a else fb.addr) - fb.addr

abbrev pub copy_end : ℕ → FlashBlock → ℕ
copy_end b fb = sub32 (if ltb (add32 fb.addr fb.size) b then add32 fb.addr fb.size else b) fb.addr

-- The source of the copy is `bytes` from its start, wherever the block begins.
abbrev pub fill_block : ℕ → ℕ → List ℕ → FlashBlock → FlashBlock
fill_block a b bytes fb =
    if intersects a b fb
    then record fb {
      contents =
          copy_to (copy_start a fb) (take (sub32 (copy_end b fb) (copy_start a fb)) bytes)
            fb.contents;
    }
    else fb

abbrev pub fill_blocks : ℕ → ℕ → List ℕ → List FlashBlock → List FlashBlock
fill_blocks a b bytes [] = []
fill_blocks a b bytes (fb ∷ blocks) = fill_block a b bytes fb ∷ fill_blocks a b bytes blocks

-- `fit_blocks != 0`
abbrev pub fits_some : ℕ → ℕ → List FlashBlock → Bool
fits_some a b [] = false
fits_some a b (fb ∷ blocks) = intersects a b fb || fits_some a b blocks

unfoldable pub flash_populate : ℕ → List ℕ → List FlashBlock → Status × List FlashBlock
flash_populate addr bytes blocks =
    let b = add32 addr (length bytes) in
    if fits_some addr b blocks
    then (success, fill_blocks addr b bytes blocks)
    else (failure, blocks)

-- `^ 0x20` on a byte.
abbrev pub flip_bit5 : ℕ → ℕ
flip_bit5 c = if c / 2 ^ 5 % 2 == 0 then c + 2 ^ 5 else c - 2 ^ 5

-- The bytes of a `vFlashWrite` packet without their escapes. Behind the last byte stands a NUL.
abbrev pub unescape : List ℕ → List ℕ
unescape [] = []
unescape (c ∷ []) = if c == 125 then flip_bit5 0 ∷ [] else c ∷ []
unescape (c ∷ d ∷ rest) = if c == 125 then flip_bit5 d ∷ unescape rest else c ∷ unescape (d ∷ rest)

-- "fix alignment": an odd number of bytes is filled up with the 0 that `calloc` left.
abbrev pub align2 : List ℕ → List ℕ
align2 bytes = if length bytes % 2 == 0 then bytes else bytes ++ (0 ∷ [])

-- A `vFlashWrite` packet: the bytes behind its address.
unfoldable pub flash_write : ℕ → List ℕ → List FlashBlock → Status × List FlashBlock
unfolding flash_populate
flash_write addr payload blocks = flash_populate addr (align2 (unescape payload)) blocks
