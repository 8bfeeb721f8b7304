-- ===== src/Gdb/Watchpoints/Table.antt =====
-- The table of watchpoints: setting, deleting and the slots that are in use.
use stlink.Base.{
  ℕ, suc, ◌+◌, ◌^◌, ◌<◌, ◌≤◌, ◌≡◌, ◌≢◌, ◌↔◌, refl, ap, ◌==◌, true, false, Bool, Bool-cases, inl,
  inr, not, ◌&&◌, ◌||◌, some, ltb, arith, if◌then◌else◌, List, [], ◌∷◌, length,
}
use stlink.Target.{
  Status, success, failure, Hardware, World, M, ◌>>=◌, ◌>>◌, pure, uninitialised, skip,
}
use stlink.Access.{load, store, read_debug32, write_debug32}
use stlink.Gdb.Watchpoints.{
  Watch, disabled, dwt_comp, dwt_mask, dwt_fun, mask_loop, insert_watch, add_data_watchpoint,
}
use stlink.Gdb.Watchpoints.Mask.{mask_loop-exponent}

-- How many watchpoints are enabled.
abbrev pub enabled : List Watch → ℕ
enabled [] = 0
enabled (w ∷ ws) = if disabled w then enabled ws else suc (enabled ws)

-- Whether a watchpoint at the address is enabled.
abbrev pub watched : ℕ → List Watch → Bool
watched addr [] = false
watched addr (w ∷ ws) = ((w.addr == addr) && not (disabled w)) || watched addr ws

module _ ⦃hw : Hardware⦄ where
  -- What setting a watchpoint in the table comes to.
  abbrev pub Inserts : ℕ → List Watch → M (Status × List Watch) → World → Type 0
  Inserts addr ws m w =
      (s : Status) × (ws' : List Watch) × (w' : World) × (m w ≡ some ((s, ws'), w'))
      × (s ≡ success → (enabled ws' ≡ suc (enabled ws)) × (watched addr ws' ≡ true))
      × (s ≡ failure → ws' ≡ ws)
      × ((s ≡ success) ↔ (enabled ws < length ws))

  enabled_le : (ws : List Watch) → enabled ws ≤ length ws
  enabled_le [] = omega arith
  enabled_le (w ∷ ws) = ground (arith, enabled_le ws)

  -- The registers of one watchpoint are written.
  set_here :
      {A : Type 0} (wf addr mask i : ℕ) (r : A) (w : World)
      → (w' : World) × ((store (dwt_comp i) addr
              >> store (dwt_mask i) mask
              >> store (dwt_fun i) wf
              >> load (dwt_fun i)
              >> pure r)
            w
          ≡ some (r, w'))
  unfolding load store read_debug32 write_debug32 pure uninitialised skip ◌>>=◌
  set_here wf addr mask i r w = (_, refl)

  insert_watch-here :
      (wf addr mask i : ℕ) (x : Watch) (ws : List Watch) (w : World)
      → disabled x ≡ true
      → (w' : World) × (insert_watch wf addr mask i (x ∷ ws) w
          ≡ some ((success, record { addr = addr; mask = mask; function = wf } ∷ ws), w'))
  unfolding insert_watch load store read_debug32 write_debug32 pure uninitialised skip ◌>>=◌
  insert_watch-here wf addr mask i x ws w e =
      let set : Watch = record { addr = addr; mask = mask; function = wf } in
      let r : Status × List Watch = (success, set ∷ ws) in
      let (w', run) = set_here wf addr mask i r w in (w', rw (insert_watch, e) run)

  insert_watch-next :
      (wf addr mask i : ℕ) (x : Watch) (ws ws' : List Watch) (s : Status) (w w' : World)
      → disabled x ≡ false
      → insert_watch wf addr mask (i + 1) ws w ≡ some ((s, ws'), w')
      → insert_watch wf addr mask i (x ∷ ws) w ≡ some ((s, x ∷ ws'), w')
  unfolding insert_watch pure ◌>>=◌
  insert_watch-next wf addr mask i x ws ws' s w w' e q = rw (insert_watch, e, ◌>>=◌, q) refl

  insert_watch-Inserts :
      (wf addr mask i : ℕ) (ws : List Watch) (w : World)
      → wf ≢ 0
      → Inserts addr ws (insert_watch wf addr mask i ws) w
  unfolding insert_watch pure
  insert_watch-Inserts wf addr mask i [] w f = (
    failure,
    [],
    w,
    refl,
    (λ e. absurd cc),
    (λ e. refl),
    ((λ e. absurd cc), (λ lt. absurd (omega arith))),
  )
  insert_watch-Inserts wf addr mask i (x ∷ ws) w f = elim (Bool-cases (disabled x)) [
    | inl free ↦
        let (w', run) = insert_watch-here wf addr mask i x ws w free in
        (
          success,
          _,
          w',
          run,
          (λ e. (ground arith, ground arith)),
          (λ e. absurd cc),
          ((λ e. ground (arith, enabled_le ws)), (λ lt. refl)),
        )
    | inr used ↦
        let (s, ws', w', run, good, bad, when) = insert_watch-Inserts wf addr mask (i + 1) ws w f in
        (
          s,
          x ∷ ws',
          w',
          insert_watch-next wf addr mask i x ws ws' s w w' used run,
          (λ e. let g = good e in (ground arith, ground arith)),
          (λ e. ap (λ (t : List Watch). x ∷ t) (bad e)),
          ((λ e. let g = when.0 e in ground arith), (λ lt. when.1 (ground arith))),
        )
  ]

  -- A watchpoint on a length below 64K that is not 0, with 33 tests or more for the mask, is set if and only if some watchpoint is
  -- disabled. Then one more is enabled, and the address is watched; otherwise the table stays as
  -- it is.
  pub add_data_watchpoint-Inserts :
      (k fuel wf addr len : ℕ) (ws : List Watch) (w : World)
      → 33 ≤ fuel
      → wf ≢ 0
      → k < 16
      → 2 ^ k ≤ len
      → len < 2 ^ suc k
      → Inserts addr ws (add_data_watchpoint fuel wf addr len ws) w
  unfolding add_data_watchpoint
  add_data_watchpoint-Inserts k fuel wf addr len ws w enough f small lo hi =
      let mask : mask_loop fuel len 0xffffffff ≡ some k =
        mask_loop-exponent k fuel len enough (omega arith) lo hi in
      let fits : ltb k 16 ≡ true = ground arith in
      let (s, ws', w', run, good, bad, when) = insert_watch-Inserts wf addr k 0 ws w f in
      (s, ws', w', rw (add_data_watchpoint, mask, fits) run, good, bad, when)
