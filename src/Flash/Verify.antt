-- ===== src/Flash/Verify.antt =====
-- Comparing the flash with data: `stlink_verify_write_flash` of src/stlink-lib/common_flash.c and
-- `check_file` of src/stlink-lib/map_file.c.
pub mod Memory
pub mod File
pub mod Sound
pub mod Returns
use stlink.Base.{
  ℕ, zero, suc, ◌+◌, ◌-◌, ◌^◌, ◌%◌, Bool, true, false, ◌&&◌, ◌==◌, ltb, List, [], ◌∷◌, take, drop,
  none, has_bits, clear_mask, add32, bit_and, not32, if◌then◌else◌,
}
use stlink.Target.{Status, success, failure, Hardware, M, ◌>>=◌, ◌>>◌, pure, gets}
use stlink.Access.{read_mem32}

-- `memcmp(a, b, n) == 0` over the first `n` bytes of each.
unfoldable pub bytes_eq : List ℕ → List ℕ → Bool
bytes_eq [] [] = true
bytes_eq [] (y ∷ ys) = false
bytes_eq (x ∷ xs) [] = false
bytes_eq (x ∷ xs) (y ∷ ys) = (x == y) && bytes_eq xs ys

-- The largest part of the flash that is compared at once.
abbrev pub compare_size : ℕ → ℕ
compare_size pgsz = if ltb 0x1800 pgsz then 0x1800 else pgsz

-- `cmp_size` of one round, and the number of bytes read for it, a multiple of 4.
abbrev pub round_size : ℕ → ℕ → ℕ → ℕ
round_size off cmp_size length = if ltb length (add32 off cmp_size) then length - off else cmp_size

abbrev pub aligned_size : ℕ → ℕ
aligned_size n = if has_bits n 3 then clear_mask (n + 4) 3 else n

module _ ⦃hw : Hardware⦄ where
  -- One comparison. The status of the read is ignored: the buffer is compared as it is.
  unfoldable pub compare_round : ℕ → List ℕ → ℕ → ℕ → M Bool
  compare_round address content off n =
      read_mem32 (add32 address off) (aligned_size n % 2 ^ 16)
      >> gets (λ sl. bytes_eq (take n sl.q_buf) (take n (drop off content)))

  -- In the verification the adjusted size stays for the next round.
  unfoldable pub verify_loop : ℕ → ℕ → List ℕ → ℕ → ℕ → ℕ → M Status
  verify_loop zero address content length off cmp_size = λ w. none
  verify_loop (suc fuel) address content length off cmp_size = elim (ltb off length) [
    | false ↦ pure success
    | true ↦ compare_round address content off (round_size off cmp_size length) >>= λ same.
        elim same [
          | false ↦ pure failure
          | true ↦
              verify_loop fuel address content length (add32 off (round_size off cmp_size length))
                (round_size off cmp_size length)
        ]
  ]

  unfoldable pub verify_write_flash : ℕ → ℕ → List ℕ → ℕ → M Status
  verify_write_flash fuel address content length =
      gets (λ sl. compare_size sl.flash_pgsz) >>= λ cmp_size.
      verify_loop fuel address content length 0 cmp_size

  -- `check_file` keeps its step, so the last round may end beyond the file.
  check_loop : ℕ → ℕ → List ℕ → ℕ → ℕ → ℕ → M Status
  check_loop zero address content length off n_cmp = λ w. none
  check_loop (suc fuel) address content length off n_cmp = elim (ltb off length) [
    | false ↦ pure success
    | true ↦ compare_round address content off (round_size off n_cmp length) >>= λ same. elim same [
      | false ↦ pure failure
      | true ↦ check_loop fuel address content length (add32 off n_cmp) n_cmp
    ]
  ]

  pub check_file : ℕ → List ℕ → ℕ → ℕ → M Status
  check_file fuel content length address = gets (λ sl. compare_size sl.flash_pgsz) >>= λ n_cmp.
      check_loop fuel address content length 0 n_cmp
