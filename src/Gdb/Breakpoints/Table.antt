-- ===== src/Gdb/Breakpoints/Table.antt =====
-- A run of the update loop as a change of the table and one write.
use stlink.Base.{
  ℕ, zero, suc, ◌+◌, ◌%◌, ◌==◌, ◌≡◌, refl, Bool, Bool-cases, true, false, ◌||◌, inl, inr, some,
  List, [], ◌∷◌, if◌then◌else◌,
}
use stlink.Target.{Access, Trace, Status, success, Hardware, World, ◌>>=◌, pure, skip}
use stlink.Access.{store, write_debug32}
use stlink.Gdb.Breakpoints.{
  Break, Breaks, fp_comp, fpb_addr, break_type, comp_word, update_slot, matches, nothing_found,
  update_loop, update_code_breakpoint,
}

-- The table behind an update.
abbrev pub updated : Bool → ℕ → ℕ → ℕ → List Break → List Break
updated set fpb type zero bps = bps
updated set fpb type (suc n) [] = []
updated set fpb type (suc n) (bp ∷ bps) =
    if matches set fpb bp
    then update_slot set fpb type bp ∷ bps
    else bp ∷ updated set fpb type n bps

-- Whether a slot matches.
abbrev pub any_match : Bool → ℕ → ℕ → List Break → Bool
any_match set fpb zero bps = false
any_match set fpb (suc n) [] = false
any_match set fpb (suc n) (bp ∷ bps) = matches set fpb bp || any_match set fpb n bps

abbrev pub outcome : Bool → ℕ → ℕ → List Break → Status
outcome set fpb n bps = if any_match set fpb n bps then success else nothing_found set

-- The accesses behind an update.
abbrev pub writes : Bool → ℕ → ℕ → ℕ → ℕ → List Break → Trace → Trace
writes set fpb type zero i bps t = t
writes set fpb type (suc n) i [] t = t
writes set fpb type (suc n) i (bp ∷ bps) t =
    if matches set fpb bp
    then Access.write_debug32 (fp_comp i) (comp_word (update_slot set fpb type bp)) ∷ t
    else writes set fpb type n (i + 1) bps t

module _ ⦃hw : Hardware⦄ where
  update_loop-run :
      (set : Bool) (fpb type n i : ℕ) (bps : List Break) (w : World)
      → update_loop set fpb type n i bps w
        ≡ some (
          (outcome set fpb n bps, updated set fpb type n bps),
          record w { trace = writes set fpb type n i bps w.trace },
        )
  unfolding update_loop store write_debug32 pure skip ◌>>=◌
  update_loop-run set fpb type zero i bps w = refl
  update_loop-run set fpb type (suc n) i [] w = refl
  update_loop-run set fpb type (suc n) i (bp ∷ bps) w = elim (Bool-cases (matches set fpb bp)) [
    | inl e ↦ rw (update_loop, e) refl
    | inr e ↦ rw (update_loop, e, ◌>>=◌, update_loop-run set fpb type n (i + 1) bps w) refl
  ]

  pub update_code_breakpoint-run :
      (addr : ℕ) (set : Bool) (s : Breaks) (w : World)
      → (addr % 2 == 0) ≡ true
      → let fpb = fpb_addr s.code_break_rev addr in
        let type = break_type s.code_break_rev addr in
        update_code_breakpoint addr set s w
        ≡ some (
          (
            outcome set fpb s.code_break_num s.code_breaks,
            record s { code_breaks = updated set fpb type s.code_break_num s.code_breaks },
          ),
          record w { trace = writes set fpb type s.code_break_num 0 s.code_breaks w.trace },
        )
  unfolding update_code_breakpoint pure ◌>>=◌
  update_code_breakpoint-run addr set s w even =
      rw
        (
          update_code_breakpoint,
          even,
          ◌>>=◌,
          update_loop-run set (fpb_addr s.code_break_rev addr) (break_type s.code_break_rev addr)
              s.code_break_num 0 s.code_breaks w,
        )
        refl
