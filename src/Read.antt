-- ===== src/Read.antt =====
-- src/stlink-lib/common.c: reading the flash block by block (`stlink_read`), into a file
-- (`stlink_fread`).
pub mod Memory
pub mod File
use stlink.Base.{
  ℕ, zero, suc, ◌+◌, ◌-◌, ◌*◌, ◌/◌, ◌%◌, ◌^◌, ◌==◌, Bool, true, false, ltb, Option, none, some,
  List, [], ◌∷◌, take, add32, if◌then◌else◌,
}
use stlink.Target.{Hardware, Stlink, World, M, ◌>>=◌, ◌>>◌, pure, gets}
use stlink.Access.{read_mem32}
use stlink.Ihex.Writer.{Files, Worker, init, worker, finalize}

-- The size of a round: at the end, what is left.
abbrev pub part_size : ℕ → ℕ → ℕ → ℕ
part_size size cmp off = if ltb size (add32 off cmp) then size - off else cmp

-- `if (aligned_size & (4 - 1)) aligned_size = (cmp_size + 4) & ~(4 - 1);`
abbrev pub aligned : ℕ → ℕ
aligned n = if n % 4 == 0 then n else (n + 4) / 4 * 4

abbrev pub first_part : ℕ → ℕ
first_part pgsz = if ltb 0x1800 pgsz then 0x1800 else pgsz

-- The size that is read: all of the flash for 0, and no more than the flash.
abbrev pub read_size : ℕ → ℕ → ℕ
read_size flash_size size =
    let n = if ltb size 1 then flash_size else size in if ltb flash_size n then flash_size else n

module _ ⦃hw : Hardware⦄ {S : Type 0} (fn : List ℕ → S → Option S) where
  -- In at most `fuel` tests; `fn` returns `none` where the callback fails, which ends the loop.
  unfoldable pub read_loop : ℕ → ℕ → ℕ → ℕ → ℕ → S → M (Option S)
  read_loop zero addr size cmp off s = λ w. none
  read_loop (suc fuel) addr size cmp off s = elim (ltb off size) [
    | false ↦ pure (some s)
    | true ↦
        let n = part_size size cmp off in
        read_mem32 (add32 addr off) (aligned n % 2 ^ 16)
        >> gets (λ sl. take (aligned n) sl.q_buf)
        >>= λ block. elim (fn block s) [
          | none ↦ pure none
          | some s' ↦ read_loop fuel addr size n (add32 off n) s'
        ]
  ]

  unfoldable pub read : ℕ → ℕ → ℕ → S → M (Option S)
  read fuel addr size s = gets (λ sl. sl) >>= λ sl.
      read_loop fuel addr (read_size sl.flash_size size) (first_part sl.flash_pgsz) 0 s

-- `stlink_fread` with `is_ihex`: the file that is written, or `none` for an error, behind which the
-- source ends the file all the same.
unfoldable pub fread : ⦃hw : Hardware⦄ → ⦃fs : Files⦄ → ℕ → ℕ → ℕ → M (Option (List ℕ))
fread fuel addr size = elim (init addr) [
  | none ↦ pure none
  | some begun ↦ read worker fuel addr size begun >>= λ r. elim r [
    | none ↦ pure none
    | some w ↦ pure (finalize w)
  ]
]
