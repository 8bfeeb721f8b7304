-- ===== src/Gdb/Breakpoints/Removal.antt =====
-- A code breakpoint that is set and then removed.
use stlink.Base.{
  ℕ, zero, suc, ◌%◌, ◌≡◌, refl, ap, ◌∙◌, ◌==◌, ==_self, ==_iff, Bool, Bool-cases, true, false, ◌||◌,
  inl, inr, some, List, [], ◌∷◌, arith,
}
use stlink.Target.{Status, success, Hardware, World, M, ◌>>=◌}
use stlink.Gdb.Breakpoints.{
  Break, Breaks, code_break_rev_v1, fpb_addr, break_type, update_slot, matches, has_slot,
  has_breakpoint, update_code_breakpoint,
}
use stlink.Gdb.Breakpoints.Table.{updated, any_match, outcome, writes, update_code_breakpoint-run}
use stlink.Gdb.Breakpoints.Stops.{Part, part_at, stops}
use stlink.Gdb.Breakpoints.Effect.{
  has_free, any_match-set, any_match-removed, outcome_removed, stops_at,
}

-- An update leaves a slot of its address.
has_slot-updated :
    (set : Bool) (fpb type n : ℕ) (bps : List Break)
    → any_match set fpb n bps ≡ true
    → has_slot fpb n (updated set fpb type n bps) ≡ true
has_slot-updated set fpb type zero bps m = m
has_slot-updated set fpb type (suc n) [] m = m
has_slot-updated set fpb type (suc n) (bp ∷ bps) m = elim (Bool-cases (matches set fpb bp)) [
  | inl e ↦ rw (e, ==_self fpb) refl
  | inr e ↦ rw (e, has_slot-updated set fpb type n bps (ground (arith, m, e))) (ground arith)
]

or_true : (x y : Bool) → y ≡ true → (x || y) ≡ true
or_true x y h = ground arith

shadow :
    (fpb type n : ℕ) (q : Part) (bp : Break) (bps : List Break)
    → bp.type ≡ 0
    → stops fpb q n bps ≡ true
    → stops fpb q
        (suc n)
        (updated false fpb type (suc n) (updated true fpb type (suc n) (bp ∷ bps)))
      ≡ true
shadow fpb type n q bp bps free later =
    let m : matches true fpb bp ≡ true = ground (arith, free) in
    let k : matches false fpb (update_slot true fpb type bp) ≡ true = ground (arith, ==_self fpb) in
    rw (m, k) (or_true _ (stops fpb q n bps) later)

module _ ⦃hw : Hardware⦄ where
  -- Setting a breakpoint and removing it.
  abbrev pub set_and_remove : ℕ → Breaks → M (Status × Breaks)
  set_and_remove addr s =
      update_code_breakpoint addr true s >>= λ r. update_code_breakpoint addr false r.1

  set_and_remove-run :
      (addr : ℕ) (s : Breaks) (w : World)
      → addr % 2 ≡ 0
      → let fpb = fpb_addr s.code_break_rev addr in
        let type = break_type s.code_break_rev addr in
        let n = s.code_break_num in
        (w' : World) × (set_and_remove addr s w
          ≡ some (
            (
              success,
              record s {
                code_breaks = updated false fpb type n (updated true fpb type n s.code_breaks);
              },
            ),
            w',
          ))
  unfolding ◌>>=◌
  set_and_remove-run addr s w even =
      let fpb : ℕ = fpb_addr s.code_break_rev addr in
      let type : ℕ = break_type s.code_break_rev addr in
      let n : ℕ = s.code_break_num in
      let once : (addr % 2 == 0) ≡ true = (==_iff (addr % 2) 0).1 even in
      let t : Breaks = record s { code_breaks = updated true fpb type n s.code_breaks } in
      let v : World = record w { trace = writes true fpb type n 0 s.code_breaks w.trace } in
      let u : Breaks = record s { code_breaks = updated false fpb type n t.code_breaks } in
      let w' : World = record v { trace = writes false fpb type n 0 t.code_breaks v.trace } in
      (
        w',
        rw (◌>>=◌, update_code_breakpoint-run addr true s w once)
            (update_code_breakpoint-run addr false t v once
              ∙ ap (λ (r : Status). some ((r, u), w'))
                  (outcome_removed (any_match false fpb n t.code_breaks))),
      )

  -- Setting a breakpoint succeeds where the first slot is free.
  set_first-run :
      (addr n : ℕ) (s : Breaks) (bp : Break) (bps : List Break) (w : World)
      → addr % 2 ≡ 0
      → bp.type ≡ 0
      → s.code_break_num ≡ suc n
      → s.code_breaks ≡ bp ∷ bps
      → (s1 : Breaks) × ((w1 : World) × (update_code_breakpoint addr true s w
            ≡ some ((success, s1), w1)))
  set_first-run addr n s bp bps w even free num slots =
      let once : (addr % 2 == 0) ≡ true = (==_iff (addr % 2) 0).1 even in
      let fpb : ℕ = fpb_addr s.code_break_rev addr in
      let m : matches true fpb bp ≡ true = ground (arith, free) in
      let found : outcome true fpb s.code_break_num s.code_breaks ≡ success =
        rw (num, slots, m) refl in
      (
        _,
        (
          _,
          update_code_breakpoint-run addr true s w once
              ∙ ap
                  (λ (r : Status). some (
                    (
                      r,
                      record s {
                        code_breaks =
                            updated true fpb (break_type s.code_break_rev addr) s.code_break_num
                              s.code_breaks;
                      },
                    ),
                    record w {
                      trace =
                          writes true fpb (break_type s.code_break_rev addr) s.code_break_num 0
                            s.code_breaks w.trace;
                    },
                  ))
                  found,
        ),
      )

  -- If the first slot is free, then on an even address a breakpoint that a later slot stops at is
  -- still stopped at behind setting it again and removing it, both of which succeed.
  pub set_and_remove-shadowed :
      (addr n lit rev : ℕ) (bp : Break) (bps : List Break) (w : World)
      → addr % 2 ≡ 0
      → bp.type ≡ 0
      → stops (fpb_addr rev addr) (part_at rev addr) n bps ≡ true
      → let s : Breaks = record {
        code_break_num = suc n;
        code_lit_num = lit;
        code_break_rev = rev;
        code_breaks = bp ∷ bps;
      } in
        ((s1 : Breaks) × ((w1 : World) × (update_code_breakpoint addr true s w
              ≡ some ((success, s1), w1))))
        × ((s' : Breaks) × ((w' : World) × ((set_and_remove addr s w ≡ some ((success, s'), w'))
                × (stops_at s' addr ≡ true))))
  set_and_remove-shadowed addr n lit rev bp bps w even free later =
      let s : Breaks = record {
        code_break_num = suc n;
        code_lit_num = lit;
        code_break_rev = rev;
        code_breaks = bp ∷ bps;
      } in
      let (w', run) = set_and_remove-run addr s w even in
      (
        set_first-run addr n s bp bps w even free refl refl,
        (
          _,
          (
            w',
            (
              run,
              shadow (fpb_addr rev addr) (break_type rev addr) n (part_at rev addr) bp bps free
                  later,
            ),
          ),
        ),
      )

  -- On an even address that a slot in use has, or where one is free, a breakpoint that is set and
  -- removed still counts for has_breakpoint, in a unit that compares whole addresses.
  pub set_and_remove-has_breakpoint :
      (addr : ℕ) (s : Breaks) (w : World)
      → addr % 2 ≡ 0
      → (s.code_break_rev == code_break_rev_v1) ≡ false
      → (has_slot addr s.code_break_num s.code_breaks || has_free s.code_break_num s.code_breaks)
        ≡ true
      → (s' : Breaks) × ((w' : World) × ((set_and_remove addr s w ≡ some ((success, s'), w'))
            × (has_breakpoint addr s' ≡ true)))
  set_and_remove-has_breakpoint addr s w even rev room =
      let type : ℕ = break_type s.code_break_rev addr in
      let n : ℕ = s.code_break_num in
      let whole : fpb_addr s.code_break_rev addr ≡ addr = rw rev refl in
      let (w', run) = set_and_remove-run addr s w even in
      let first : has_slot addr n (updated true addr type n s.code_breaks) ≡ true =
        has_slot-updated true addr type n s.code_breaks
          (any_match-set addr n s.code_breaks ∙ room) in
      let second : has_slot addr n
            (updated false addr type n (updated true addr type n s.code_breaks))
          ≡ true =
        has_slot-updated false addr type n _ (any_match-removed addr n _ ∙ first) in
      (
        _,
        (
          w',
          (
            run,
            ap
                  (λ (f : ℕ).
                    has_slot addr n (updated false f type n (updated true f type n s.code_breaks)))
                  whole
                ∙ second,
          ),
        ),
      )
