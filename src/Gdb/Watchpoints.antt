-- ===== src/Gdb/Watchpoints.antt =====
-- src/st-util/gdb-server.c: data watchpoints. The table `data_watches` is passed along.
pub mod Mask
pub mod Table
use stlink.Base.{
  ℕ, zero, suc, ◌+◌, ◌*◌, ◌/◌, ◌%◌, ◌^◌, ◌==◌, Bool, true, false, not, ◌&&◌, ltb, leb, Option, none,
  some, List, [], ◌∷◌, bit_or, add32, if◌then◌else◌,
}
use stlink.Target.{Status, success, failure, Hardware, World, M, ◌>>=◌, ◌>>◌, pure, uninitialised}
use stlink.Access.{load, store, read_debug32}

-- STLINK_REG_CM3_DWT_COMPn, STLINK_REG_CM3_DWT_MASKn and STLINK_REG_CM3_DWT_FUNn
abbrev pub dwt_comp : ℕ → ℕ
dwt_comp n = 0xe0001020 + n * 16

abbrev pub dwt_mask : ℕ → ℕ
dwt_mask n = 0xe0001024 + n * 16

abbrev pub dwt_fun : ℕ → ℕ
dwt_fun n = 0xe0001028 + n * 16

-- STLINK_REG_CM3_DEMCR and STLINK_REG_CM3_DEMCR_TRCENA
abbrev pub demcr : ℕ
demcr = 0xe000edfc

abbrev pub demcr_trcena : ℕ
demcr_trcena = 2 ^ 24

-- `code_hw_watchpoint`, whose function is 0 where it is disabled, 5, 6 or 7.
pub record Watch : Type 0 where
  pub addr : ℕ
  pub mask : ℕ
  pub function : ℕ

abbrev pub disabled : Watch → Bool
disabled w = w.function == 0

-- `i >>= 1` on an int32_t, kept as its 32 bits: the sign bit stays.
abbrev pub shift_right : ℕ → ℕ
shift_right i = if ltb i (2 ^ 31) then i / 2 else i / 2 + 2 ^ 31

-- `while (i) { i >>= 1; mask++; }` in at most `fuel` tests.
unfoldable pub mask_loop : ℕ → ℕ → ℕ → Option ℕ
mask_loop zero i mask = none
mask_loop (suc fuel) i mask = elim (i == 0) [
  | true ↦ some mask
  | false ↦ mask_loop fuel (shift_right i) (add32 mask 1)
]

module _ ⦃hw : Hardware⦄ where
  -- The first disabled watchpoint from the `i`th on is set.
  unfoldable pub insert_watch : ℕ → ℕ → ℕ → ℕ → List Watch → M (Status × List Watch)
  insert_watch wf addr mask i [] = pure (failure, [])
  insert_watch wf addr mask i (w ∷ ws) = elim (disabled w) [
    | true ↦
        store (dwt_comp i) addr
        >> store (dwt_mask i) mask
        >> store (dwt_fun i) wf
        >> load (dwt_fun i)
        >> pure (success, record { addr = addr; mask = mask; function = wf } ∷ ws)
    | false ↦ insert_watch wf addr mask (i + 1) ws >>= λ r. pure (r.0, w ∷ r.1)
  ]

  unfoldable pub add_data_watchpoint : ℕ → ℕ → ℕ → ℕ → List Watch → M (Status × List Watch)
  add_data_watchpoint fuel wf addr len watches = elim (mask_loop fuel len 0xffffffff) [
    | none ↦ λ w. none
    | some mask ↦ elim (ltb mask 16) [
      | true ↦ insert_watch wf addr mask 0 watches
      | false ↦ pure (failure, watches)
    ]
  ]

  unfoldable pub remove_watch : ℕ → ℕ → List Watch → M (Status × List Watch)
  remove_watch addr i [] = pure (failure, [])
  remove_watch addr i (w ∷ ws) = elim ((w.addr == addr) && not (disabled w)) [
    | true ↦ store (dwt_fun i) 0 >> pure (success, record w { function = 0 } ∷ ws)
    | false ↦ remove_watch addr (i + 1) ws >>= λ r. pure (r.0, w ∷ r.1)
  ]

  unfoldable pub delete_data_watchpoint : ℕ → List Watch → M (Status × List Watch)
  delete_data_watchpoint addr watches = remove_watch addr 0 watches

  unfoldable pub clear_watches : ℕ → List Watch → M (List Watch)
  clear_watches i [] = pure []
  clear_watches i (w ∷ ws) =
      store (dwt_fun i) 0 >> clear_watches (i + 1) ws >>= λ r. pure (record w { function = 0 } ∷ r)

  unfoldable pub init_data_watchpoints : List Watch → M (List Watch)
  init_data_watchpoints watches =
      load demcr >>= λ v. store demcr (bit_or v demcr_trcena) >> clear_watches 0 watches
