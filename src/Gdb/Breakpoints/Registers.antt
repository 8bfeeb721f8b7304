-- ===== src/Gdb/Breakpoints/Registers.antt =====
-- The comparator registers against the table.
use stlink.Base.{
  ℕ, zero, suc, ◌+◌, ◌%◌, ◌==◌, ==_self, ◌<◌, ◌≡◌, refl, ◌∙◌, Bool, Bool-cases, true, false, inl,
  inr, Option, none, some, List, [], ◌∷◌, arith, if◌then◌else◌,
}
use mathlib.Core.Path.{subst}
use stlink.Target.{
  Access, Trace, Status, failure, Hardware, World, M, ◌>>=◌, ◌>>◌, pure, skip, uninitialised,
}
use stlink.Access.{store, read_debug32, write_debug32}
use stlink.Gdb.Breakpoints.{
  Break, Breaks, fp_comp, fp_lar, fp_lar_key, break_type, comp_word, update_slot, matches,
  update_code_breakpoint, clear_breaks, clear_buffer, init_code_breakpoints,
}
use stlink.Gdb.Breakpoints.Table.{updated, writes, update_code_breakpoint-run}

-- The word that was last written to an address.
unfoldable pub written : Trace → ℕ → Option ℕ
written [] a = none
written (Access.write_debug32 b v ∷ t) a = if b == a then some v else written t a
written (_ ∷ t) a = written t a

-- Each of the `n` comparators from the `i`th on was last written the word of its slot.
abbrev pub InSync : ℕ → ℕ → List Break → Trace → Type 0
InSync zero i bps t = Unit {0}
InSync (suc n) i [] t = Unit {0}
InSync (suc n) i (bp ∷ bps) t =
    (written t (fp_comp i) ≡ some (comp_word bp)) × InSync n (i + 1) bps t

written-here :
    (i v : ℕ) (t : Trace) → written (Access.write_debug32 (fp_comp i) v ∷ t) (fp_comp i) ≡ some v
unfolding written
written-here i v t = rw (==_self (fp_comp i)) refl

written-other :
    (i j v : ℕ) (t : Trace)
    → j < i
    → written (Access.write_debug32 (fp_comp j) v ∷ t) (fp_comp i) ≡ written t (fp_comp i)
unfolding written
written-other i j v t lt = let e : (fp_comp j == fp_comp i) ≡ false = ground arith in rw e refl

written-below :
    (i j v : ℕ) (t : Trace)
    → j < i
    → written (Access.write_debug32 (fp_comp i) v ∷ t) (fp_comp j) ≡ written t (fp_comp j)
unfolding written
written-below i j v t lt = let e : (fp_comp i == fp_comp j) ≡ false = ground arith in rw e refl

-- What was written does not change for the comparators of a table.
InSync-same :
    (n i : ℕ) (bps : List Break) (t t' : Trace)
    → ((j : ℕ) → i < suc j → written t' (fp_comp j) ≡ written t (fp_comp j))
    → InSync n i bps t
    → InSync n i bps t'
InSync-same zero i bps t t' same h = tt
InSync-same (suc n) i [] t t' same h = tt
InSync-same (suc n) i (bp ∷ bps) t t' same (e, h) =
    (same i (omega arith) ∙ e, InSync-same n (i + 1) bps t t' (λ j lt. same j (omega arith)) h)

-- An update writes no comparator below the first.
writes-below :
    (set : Bool) (fpb type n i j : ℕ) (bps : List Break) (t : Trace)
    → j < i
    → written (writes set fpb type n i bps t) (fp_comp j) ≡ written t (fp_comp j)
writes-below set fpb type zero i j bps t lt = refl
writes-below set fpb type (suc n) i j [] t lt = refl
writes-below set fpb type (suc n) i j (bp ∷ bps) t lt = elim (Bool-cases (matches set fpb bp)) [
  | inl e ↦ rw e (written-below i j _ t lt)
  | inr e ↦ rw e (writes-below set fpb type n (i + 1) j bps t (omega arith))
]

writes-InSync :
    (set : Bool) (fpb type n i : ℕ) (bps : List Break) (t : Trace)
    → InSync n i bps t
    → InSync n i (updated set fpb type n bps) (writes set fpb type n i bps t)
writes-InSync set fpb type zero i bps t h = tt
writes-InSync set fpb type (suc n) i [] t h = tt
writes-InSync set fpb type (suc n) i (bp ∷ bps) t (e, h) = elim (Bool-cases (matches set fpb bp)) [
  | inl m ↦ rw m (
    written-here i (comp_word (update_slot set fpb type bp)) t,
    InSync-same n (i + 1) bps t _ (λ j lt. written-other j i _ t (omega arith)) h,
  )
  | inr m ↦ rw m (
    writes-below set fpb type n (i + 1) i bps t (omega arith) ∙ e,
    writes-InSync set fpb type n (i + 1) bps t h,
  )
]

cleared : ℕ → ℕ → List Break → Trace → Trace
cleared zero i bps t = t
cleared (suc n) i [] t = t
cleared (suc n) i (bp ∷ bps) t = cleared n (i + 1) bps (Access.write_debug32 (fp_comp i) 0 ∷ t)

freed : ℕ → List Break → List Break
freed zero bps = bps
freed (suc n) [] = []
freed (suc n) (bp ∷ bps) = record bp { type = 0 } ∷ freed n bps

cleared-below :
    (n i j : ℕ) (bps : List Break) (t : Trace)
    → j < i
    → written (cleared n i bps t) (fp_comp j) ≡ written t (fp_comp j)
unfolding cleared
cleared-below zero i j bps t lt = refl
cleared-below (suc n) i j [] t lt = refl
cleared-below (suc n) i j (bp ∷ bps) t lt =
    cleared-below n (i + 1) j bps _ (omega arith) ∙ written-below i j 0 t lt

cleared-InSync :
    (n i : ℕ) (bps : List Break) (t : Trace) → InSync n i (freed n bps) (cleared n i bps t)
unfolding cleared freed
cleared-InSync zero i bps t = tt
cleared-InSync (suc n) i [] t = tt
cleared-InSync (suc n) i (bp ∷ bps) t = (
  cleared-below n (i + 1) i bps _ (omega arith) ∙ written-here i 0 t,
  cleared-InSync n (i + 1) bps _,
)

module _ ⦃hw : Hardware⦄ where
  clear_breaks-run :
      (n i : ℕ) (bps : List Break) (w : World)
      → clear_breaks n i bps w ≡ some (freed n bps, record w { trace = cleared n i bps w.trace })
  unfolding clear_breaks store write_debug32 pure skip ◌>>=◌ cleared freed
  clear_breaks-run zero i bps w = refl
  clear_breaks-run (suc n) i [] w = refl
  clear_breaks-run (suc n) i (bp ∷ bps) w =
      let v : World = record w { trace = Access.write_debug32 (fp_comp i) 0 ∷ w.trace } in
      rw (clear_breaks, ◌>>=◌, clear_breaks-run n (i + 1) bps v) refl

  -- What setting up comes to behind the reads.
  abbrev unlock_and_clear : Bool → ℕ → ℕ → ℕ → List Break → M Breaks
  unlock_and_clear locked n lit rev bps = do
    if locked then store fp_lar fp_lar_key else skip
    r ← clear_breaks n 0 bps
    pure (record { code_break_num = n; code_lit_num = lit; code_break_rev = rev; code_breaks = r })

  unlock_and_clear-InSync :
      (locked : Bool) (n lit rev : ℕ) (bps : List Break) (w : World)
      → (w' : World) × ((unlock_and_clear locked n lit rev bps w
            ≡ some (
              record {
                code_break_num = n;
                code_lit_num = lit;
                code_break_rev = rev;
                code_breaks = freed n bps;
              },
              w',
            ))
          × InSync n 0 (freed n bps) w'.trace)
  unfolding store write_debug32 pure skip ◌>>=◌
  unlock_and_clear-InSync true n lit rev bps w =
      let v : World = record w { trace = Access.write_debug32 fp_lar fp_lar_key ∷ w.trace } in
      (
        record v { trace = cleared n 0 bps v.trace },
        (rw (◌>>=◌, clear_breaks-run n 0 bps v) refl, cleared-InSync n 0 bps v.trace),
      )
  unlock_and_clear-InSync false n lit rev bps w = (
    record w { trace = cleared n 0 bps w.trace },
    (rw (◌>>=◌, clear_breaks-run n 0 bps w) refl, cleared-InSync n 0 bps w.trace),
  )

  init_code_breakpoints-InSync :
      (s : Breaks) (w : World)
      → (s' : Breaks) × ((w' : World) × ((init_code_breakpoints s w ≡ some (s', w'))
            × InSync s'.code_break_num 0 s'.code_breaks w'.trace))
  unfolding init_code_breakpoints store read_debug32 write_debug32 pure skip uninitialised ◌>>=◌
      clear_buffer
  init_code_breakpoints-InSync s w =
      let (w', (run, sync)) = unlock_and_clear-InSync _ _ _ _ s.code_breaks _ in
      (_, (w', (run, sync)))

  update_code_breakpoint-InSync :
      (addr : ℕ) (set : Bool) (s : Breaks) (w : World)
      → InSync s.code_break_num 0 s.code_breaks w.trace
      → (r : Status) × ((s' : Breaks) × ((w' : World) × ((update_code_breakpoint addr set s w
                ≡ some ((r, s'), w'))
              × InSync s'.code_break_num 0 s'.code_breaks w'.trace)))
  unfolding update_code_breakpoint pure
  update_code_breakpoint-InSync addr set s w h = elim (Bool-cases (addr % 2 == 0)) [
    | inl even ↦ (
      _,
      (
        _,
        (
          _,
          (
            update_code_breakpoint-run addr set s w even,
            writes-InSync set _ (break_type s.code_break_rev addr) s.code_break_num 0 s.code_breaks
                w.trace h,
          ),
        ),
      ),
    )
    | inr odd ↦ (failure, (s, (w, (rw (update_code_breakpoint, odd) refl, h))))
  ]

  -- The static variables and the target as a debug session reaches them: by setting up, by updates
  -- of breakpoints, and by accesses that write no comparator.
  pub data Reached : Breaks → World → Type 0 where
    set_up :
        (s s' : Breaks) (w w' : World) → init_code_breakpoints s w ≡ some (s', w') → Reached s' w'
    update :
        (addr : ℕ) (set : Bool) (r : Status) (s s' : Breaks) (w w' : World)
        → Reached s w
        → update_code_breakpoint addr set s w ≡ some ((r, s'), w')
        → Reached s' w'
    elsewhere :
        (s : Breaks) (w w' : World)
        → Reached s w
        → ((j : ℕ) → written w'.trace (fp_comp j) ≡ written w.trace (fp_comp j))
        → Reached s w'

  agree : {A : Type 0} (o : Option A) (a b : A) → o ≡ some a → o ≡ some b → a ≡ b
  agree o a b e f = cc

  -- Wherever a debug session stands, behind setting up, every comparator in use was last written
  -- the word of its slot.
  pub Reached-InSync :
      (s : Breaks) (w : World) → Reached s w → InSync s.code_break_num 0 s.code_breaks w.trace
  Reached-InSync s w (set_up s0 s0' w0 w0' run) =
      let (s1, (w1, (run1, h))) = init_code_breakpoints-InSync s0 w0 in
      let e : (s1, w1) ≡ (s, w) = agree (init_code_breakpoints s0 w0) (s1, w1) (s, w) run1 run in
      subst (λ (p : Breaks × World). InSync p.0.code_break_num 0 p.0.code_breaks p.1.trace) e h
  Reached-InSync s w (update addr set r s0 s0' w0 w0' before run) =
      let (r1, (s1, (w1, (run1, h)))) =
        update_code_breakpoint-InSync addr set s0 w0 (Reached-InSync s0 w0 before) in
      let e : ((r1, s1), w1) ≡ ((r, s), w) =
        agree (update_code_breakpoint addr set s0 w0) ((r1, s1), w1) ((r, s), w) run1 run in
      subst
        (λ (p : (Status × Breaks) × World).
          InSync p.0.1.code_break_num 0 p.0.1.code_breaks p.1.trace)
        e h
  Reached-InSync s w (elsewhere s0 w0 w0' before same) =
      InSync-same s.code_break_num 0 s.code_breaks w0.trace w.trace (λ j lt. same j)
        (Reached-InSync s0 w0 before)
