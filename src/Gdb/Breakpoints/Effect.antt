-- ===== src/Gdb/Breakpoints/Effect.antt =====
-- Setting and removing a code breakpoint.
use stlink.Base.{
  ℕ, zero, suc, ◌%◌, ◌≡◌, ◌↔◌, refl, sym, ap, ◌∙◌, ◌==◌, ==_iff, Bool, true, false, not, ◌&&◌, ◌||◌,
  some, List, [], ◌∷◌, arith, if◌then◌else◌,
}
use stlink.Target.{Status, success, failure, Hardware, World}
use stlink.Gdb.Breakpoints.{Break, Breaks, fpb_addr, break_type, has_slot, update_code_breakpoint}
use stlink.Gdb.Breakpoints.Table.{updated, any_match, outcome, writes, update_code_breakpoint-run}
use stlink.Gdb.Breakpoints.Stops.{
  Part, part_at, stops, Typed, type_of-part_at, hit, stops-set, Once, stops-removed,
}

-- Whether a slot in use is free.
abbrev pub has_free : ℕ → List Break → Bool
has_free zero bps = false
has_free (suc n) [] = false
has_free (suc n) (bp ∷ bps) = (bp.type == 0) || has_free n bps

pub any_match-set :
    (fpb n : ℕ) (bps : List Break)
    → any_match true fpb n bps ≡ (has_slot fpb n bps || has_free n bps)
any_match-set fpb zero bps = refl
any_match-set fpb (suc n) [] = refl
any_match-set fpb (suc n) (bp ∷ bps) = ground (arith, any_match-set fpb n bps)

pub any_match-removed :
    (fpb n : ℕ) (bps : List Break) → any_match false fpb n bps ≡ has_slot fpb n bps
any_match-removed fpb zero bps = refl
any_match-removed fpb (suc n) [] = refl
any_match-removed fpb (suc n) (bp ∷ bps) = ground (arith, any_match-removed fpb n bps)

-- Whether the comparators of the slots in use stop at an address.
abbrev pub stops_at : Breaks → ℕ → Bool
stops_at s a =
    stops (fpb_addr s.code_break_rev a) (part_at s.code_break_rev a) s.code_break_num s.code_breaks

-- Whether two addresses have the same comparator.
abbrev pub same_break : ℕ → ℕ → ℕ → Bool
same_break rev addr a = hit (fpb_addr rev a) (part_at rev a) (fpb_addr rev addr) (part_at rev addr)

outcome_iff : (b : Bool) → ((if b then success else failure) ≡ success) ↔ (b ≡ true)
outcome_iff true = ((λ e. refl), (λ e. refl))
outcome_iff false = ((λ e. absurd cc), (λ e. absurd cc))

outcome_failed : (b : Bool) → (if b then success else failure) ≡ failure → b ≡ false
outcome_failed true e = absurd cc
outcome_failed false e = refl

pub outcome_removed : (b : Bool) → (if b then success else success) ≡ success
outcome_removed true = refl
outcome_removed false = refl

module _ ⦃hw : Hardware⦄ where
  -- What setting a breakpoint comes to.
  abbrev pub Sets : ℕ → Breaks → World → Type 0
  Sets addr s w =
      (r : Status) × ((s' : Breaks) × ((w' : World) × ((update_code_breakpoint addr true s w
              ≡ some ((r, s'), w'))
            × (((r ≡ success) ↔ (
                  (has_slot (fpb_addr s.code_break_rev addr) s.code_break_num s.code_breaks
                    || has_free s.code_break_num s.code_breaks)
                  ≡ true))
                × ((a : ℕ)
                    → (r ≡ success
                        → stops_at s' a ≡ (same_break s.code_break_rev addr a || stops_at s a))
                      × (r ≡ failure → stops_at s' a ≡ stops_at s a))))))

  stops_at-set :
      (addr a : ℕ) (s : Breaks)
      → Typed s.code_breaks
      → stops (fpb_addr s.code_break_rev a) (part_at s.code_break_rev a) s.code_break_num (
          updated true
            (fpb_addr s.code_break_rev addr)
            (break_type s.code_break_rev addr)
            s.code_break_num
            s.code_breaks)
        ≡ ((any_match true (fpb_addr s.code_break_rev addr) s.code_break_num s.code_breaks
              && same_break s.code_break_rev addr a)
            || stops_at s a)
  stops_at-set addr a s h =
      let fpb : ℕ = fpb_addr s.code_break_rev addr in
      let at : ℕ = fpb_addr s.code_break_rev a in
      let q : Part = part_at s.code_break_rev a in
      ap
        (λ (t : ℕ). stops at q s.code_break_num (updated true fpb t s.code_break_num s.code_breaks))
        (type_of-part_at s.code_break_rev addr)
      ∙ stops-set at fpb s.code_break_num (part_at s.code_break_rev addr) q s.code_breaks h

  -- On an even address, a breakpoint is set if and only if a slot in use has the address of its
  -- comparator or is free. Then the comparators stop at it and wherever they did before, and otherwise
  -- they stop where they did. Types are made of the three bits.
  pub update_code_breakpoint-Sets :
      (addr : ℕ) (s : Breaks) (w : World) → addr % 2 ≡ 0 → Typed s.code_breaks → Sets addr s w
  update_code_breakpoint-Sets addr s w even h =
      let fpb : ℕ = fpb_addr s.code_break_rev addr in
      let type : ℕ = break_type s.code_break_rev addr in
      let m : Bool = any_match true fpb s.code_break_num s.code_breaks in
      let matched : outcome true fpb s.code_break_num s.code_breaks ≡ success → m ≡ true =
        (outcome_iff m).0 in
      (
        outcome true fpb s.code_break_num s.code_breaks,
        (
          record s { code_breaks = updated true fpb type s.code_break_num s.code_breaks },
          (
            record w { trace = writes true fpb type s.code_break_num 0 s.code_breaks w.trace },
            (
              update_code_breakpoint-run addr true s w ((==_iff (addr % 2) 0).1 even),
              (
                (
                  (λ e. sym (any_match-set fpb s.code_break_num s.code_breaks) ∙ matched e),
                  (λ e. (outcome_iff m).1 (any_match-set fpb s.code_break_num s.code_breaks ∙ e)),
                ),
                λ a. (
                  (λ e.
                      stops_at-set addr a s h
                      ∙ ap (λ (x : Bool). (x && same_break s.code_break_rev addr a) || stops_at s a)
                          (matched e)),
                  (λ e.
                      stops_at-set addr a s h
                      ∙ ap (λ (x : Bool). (x && same_break s.code_break_rev addr a) || stops_at s a)
                          (outcome_failed m e)),
                ),
              ),
            ),
          ),
        ),
      )

  -- On an even address whose comparator at most one slot in use has, removing a breakpoint
  -- succeeds, and the comparators then stop wherever they did but for this address.
  pub update_code_breakpoint-removes :
      (addr : ℕ) (s : Breaks) (w : World)
      → addr % 2 ≡ 0
      → Typed s.code_breaks
      → Once (fpb_addr s.code_break_rev addr) s.code_break_num s.code_breaks
      → (s' : Breaks) × ((w' : World) × ((update_code_breakpoint addr false s w
              ≡ some ((success, s'), w'))
            × ((a : ℕ)
                → stops_at s' a ≡ (not (same_break s.code_break_rev addr a) && stops_at s a))))
  update_code_breakpoint-removes addr s w even h once =
      let fpb : ℕ = fpb_addr s.code_break_rev addr in
      let type : ℕ = break_type s.code_break_rev addr in
      let n : ℕ = s.code_break_num in
      let s' : Breaks = record s { code_breaks = updated false fpb type n s.code_breaks } in
      let w' : World = record w { trace = writes false fpb type n 0 s.code_breaks w.trace } in
      (
        s',
        (
          w',
          (
            update_code_breakpoint-run addr false s w ((==_iff (addr % 2) 0).1 even)
                ∙ ap (λ (r : Status). some ((r, s'), w'))
                    (outcome_removed (any_match false fpb n s.code_breaks)),
            λ a.
                ap
                  (λ (t : ℕ).
                    stops (fpb_addr s.code_break_rev a) (part_at s.code_break_rev a) n
                      (updated false fpb t n s.code_breaks))
                  (type_of-part_at s.code_break_rev addr)
                ∙ stops-removed (fpb_addr s.code_break_rev a) fpb n (part_at s.code_break_rev addr)
                    (part_at s.code_break_rev a) s.code_breaks h once,
          ),
        ),
      )
