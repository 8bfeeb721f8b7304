-- ===== src/Flash/Range/Section.antt =====
-- `stlink_erase_flash_section` against the list of the pages that a range consists of.
use stlink.Base.{
  ℕ, zero, suc, ◌+◌, ◌-◌, ◌^◌, ◌<◌, ◌≤◌, ◌≡◌, refl, sym, ap, ◌∙◌, Bool, true, false, not, ◌&&◌, ltb,
  Option, none, some, List, [], ◌∷◌, length, add32, arith,
}
use stlink.Target.{Stlink, World, Status, success, failure, Hardware, M, ◌>>=◌, pure, gets}
use stlink.Calculate.{pagesize_at, calculate_pagesize}
use stlink.Flash.Erase.{erase_flash_page}
use stlink.Flash.Erase.Keeps.{erase_flash_page-SameChip}
use stlink.Flash.Keeps.{SameChip, resized, resized-SameChip}
use stlink.Flash.Range.{
  check_address_range_validity, check_address_alignment, erase_loop, erase_flash_section,
}
use stlink.Flash.Range.Alignment.{
  HasPages, IsPageStart, Untouched, check_address_alignment-IsPageStart,
}

-- The page starts from `addr` to `end`, one behind the other, the last page the one that reaches
-- `end`; where sizes are not to be aligned, it ends there.
pub data Pages (sl : Stlink) (align : Bool) (end : ℕ) : ℕ → List ℕ → Type 0 where
  last :
      {addr : ℕ}
      → addr + pagesize_at sl addr < 2 ^ 32
      → end ≤ addr + pagesize_at sl addr
      → (align ≡ false → addr + pagesize_at sl addr ≡ end)
      → Pages sl align end addr (addr ∷ [])
  more :
      {addr : ℕ} {ps : List ℕ}
      → addr + pagesize_at sl addr < end
      → Pages sl align end (addr + pagesize_at sl addr) ps
      → Pages sl align end addr (addr ∷ ps)

module _ ⦃hw : Hardware⦄ (fuel : ℕ) where
  -- The pages are erased in order, each after its size was looked up, until one fails.
  pub erase_each : List ℕ → M Status
  erase_each [] = pure success
  erase_each (p ∷ ps) = calculate_pagesize p >>= λ _.
      erase_flash_page fuel p >>= λ s. elim s [ failure ↦ pure failure | success ↦ erase_each ps ]

  looked_up : ℕ → World → World
  looked_up addr w = record w { sl = resized w.sl (pagesize_at w.sl addr) }

  -- What follows the erase of one page, in the loop and in `erase_each`.
  after_erase : M Status → Option (Status × World) → Option (Status × World)
  after_erase k none = none
  after_erase k (some (failure, w)) = some (failure, w)
  after_erase k (some (success, w)) = k w

  erase_each-cons :
      (p : ℕ) (ps : List ℕ) (w : World)
      → erase_each (p ∷ ps) w
        ≡ after_erase (erase_each ps) (erase_flash_page fuel p (looked_up p w))
  unfolding erase_each looked_up after_erase calculate_pagesize ◌>>=◌ pure
  erase_each-cons p ps w = ground arith

  -- Whether the loop refuses the page at `addr`, and what it does behind it.
  refuses : Bool → ℕ → ℕ → World → Bool
  refuses align end addr w = ltb end (add32 addr (pagesize_at w.sl addr)) && not align

  erase_loop-more :
      (rounds addr end : ℕ) (align : Bool) (w : World)
      → refuses align end addr w ≡ false
      → ltb (add32 addr (pagesize_at w.sl addr)) end ≡ true
      → erase_loop fuel (suc rounds) addr end align w
        ≡ after_erase
            (erase_loop fuel rounds (add32 addr (pagesize_at w.sl addr)) end align)
            (erase_flash_page fuel addr (looked_up addr w))
  unfolding erase_loop looked_up after_erase refuses calculate_pagesize ◌>>=◌ pure
  erase_loop-more rounds addr end align w r m = ground arith

  erase_loop-last :
      (rounds addr end : ℕ) (align : Bool) (w : World)
      → refuses align end addr w ≡ false
      → ltb (add32 addr (pagesize_at w.sl addr)) end ≡ false
      → erase_loop fuel (suc rounds) addr end align w
        ≡ after_erase (pure success) (erase_flash_page fuel addr (looked_up addr w))
  unfolding erase_loop looked_up after_erase refuses calculate_pagesize ◌>>=◌ pure
  erase_loop-last rounds addr end align w r m = ground arith

  -- The two agree, if they agree behind a page that was erased.
  after_erase-eq :
      (c : Stlink) (k j : M Status) (p : ℕ) (w : World)
      → SameChip c w.sl
      → ((v : World) → SameChip c v.sl → k v ≡ j v)
      → after_erase k (erase_flash_page fuel p w) ≡ after_erase j (erase_flash_page fuel p w)
  unfolding after_erase
  after_erase-eq c k j p w h same = go (erase_flash_page fuel p w) refl
    where
      go :
          (r : Option (Status × World))
          → erase_flash_page fuel p w ≡ r
          → after_erase k r ≡ after_erase j r
      go none e = refl
      go (some (failure, v)) e = refl
      go (some (success, v)) e = same v ((erase_flash_page-SameChip fuel p).at w v success h e)

  looked_up-SameChip :
      (c : Stlink) (p : ℕ) (w : World) → SameChip c w.sl → SameChip c (looked_up p w).sl
  unfolding looked_up
  looked_up-SameChip c p w h = resized-SameChip c w.sl p h

  -- The loop over a range erases its pages in order.
  erase_loop-each :
      (c : Stlink) (rounds addr end : ℕ) (align : Bool) (ps : List ℕ) (w : World)
      → Pages c align end addr ps
      → SameChip c w.sl
      → end < 2 ^ 32
      → length ps ≤ rounds
      → erase_loop fuel rounds addr end align w ≡ erase_each ps w
  unfolding refuses erase_each after_erase
  erase_loop-each c rounds addr end align [] w x h top enough = elim x [ ]
  erase_loop-each c zero addr end align (p ∷ ps) w (last f r x) h top enough = absurd (omega arith)
  erase_loop-each c zero addr end align (p ∷ ps) w (more l rest) h top enough = absurd (omega arith)
  erase_loop-each c (suc rounds) addr end align (_ ∷ []) w (last f r x) h top enough =
      let s : pagesize_at w.sl addr ≡ pagesize_at c addr = h.pages addr in
      erase_loop-last rounds addr end align w (rw s (ground arith)) (rw s (ground arith))
      ∙ after_erase-eq c (pure success) (erase_each []) addr (looked_up addr w)
          (looked_up-SameChip c addr w h) (λ v k. refl)
      ∙ sym (erase_each-cons addr [] w)
  erase_loop-each c (suc rounds) addr end align (_ ∷ ps) w (more l rest) h top enough =
      let s : pagesize_at w.sl addr ≡ pagesize_at c addr = h.pages addr in
      let next : add32 addr (pagesize_at w.sl addr) ≡ addr + pagesize_at c addr =
        rw s (omega arith) in
      erase_loop-more rounds addr end align w (rw next (ground arith)) (rw next (ground arith))
      ∙ after_erase-eq c (erase_loop fuel rounds (add32 addr (pagesize_at w.sl addr)) end align)
          (erase_each ps) addr (looked_up addr w) (looked_up-SameChip c addr w h)
          (λ v k. rw next (
            erase_loop-each c rounds (addr + pagesize_at c addr) end align ps v rest k top
              (omega arith)))
      ∙ sym (erase_each-cons addr ps w)

  erase_flash_section-loop :
      (rounds base size : ℕ) (align : Bool) (w w' : World)
      → check_address_range_validity w.sl base size ≡ success
      → check_address_alignment rounds base w ≡ some (success, w')
      → erase_flash_section fuel rounds base size align w
        ≡ erase_loop fuel rounds base (add32 base size) align w'
  unfolding erase_flash_section ◌>>=◌ gets pure
  erase_flash_section-loop rounds base size align w w' v a =
      rw (v, a, erase_flash_section, ◌>>=◌, gets)

  -- If the range lies in the flash, below 4G, and starts at a page, if every page below it has a
  -- size and ends below 4G, if `ps` are its pages, one behind the other (the last one ends with
  -- the range where sizes are not to be aligned), and if the loops have rounds enough for them,
  -- then erasing the range erases the pages `ps` in order until one fails, from a state in which
  -- the target is as it was and the chip's parameters are the same.
  pub erase_flash_section-each :
      (rounds base size : ℕ) (align : Bool) (ps : List ℕ) (w : World)
      → check_address_range_validity w.sl base size ≡ success
      → HasPages w.sl base
      → IsPageStart w.sl base
      → base + size < 2 ^ 32
      → Pages w.sl align (base + size) base ps
      → base - w.sl.flash_base < rounds
      → length ps ≤ rounds
      → (w' : World) × (erase_flash_section fuel rounds base size align w ≡ erase_each ps w')
        × Untouched w.sl w w'
  erase_flash_section-each rounds base size align ps w valid pages start top consists enough many =
      let (s, w', runs, accepts, same) =
        check_address_alignment-IsPageStart rounds base w pages enough in
      let ok : s ≡ success = accepts.1 start in
      let moves : add32 base size ≡ base + size = omega arith in
      (
        w',
        erase_flash_section-loop rounds base size align w w' valid (rw (sym ok) runs)
            ∙ ap (λ (end : ℕ). erase_loop fuel rounds base end align w') moves
            ∙ erase_loop-each w.sl rounds base (base + size) align ps w' consists same.chip top
                many,
        same,
      )
