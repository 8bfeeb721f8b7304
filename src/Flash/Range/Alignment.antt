-- ===== src/Flash/Range/Alignment.antt =====
-- `stlink_check_address_alignment` against the page starts of the flash: the addresses that are
-- reached from its base by whole pages.
use stlink.Base.{
  ℕ, zero, suc, ◌+◌, ◌-◌, ◌*◌, ◌/◌, ◌%◌, ◌^◌, ◌<◌, ◌≤◌, ◌≡◌, ◌↔◌, ◌∙◌, inl, inr, refl, ap, some,
  true, false, Bool-cases, ltb, ltb→lt, ltb→le, ◌==◌, arith, add32, ◌||◌, if◌then◌else◌,
}
use native.Mathlib.Nat.{zero-mod, add-mod_right, div-add-mod'}
use stlink.Target.{◌>>=◌, pure, gets, Stlink, World, Status, success, failure}
use stlink.Calculate.{pagesize_at, calculate_pagesize, is_f4_like, is_f7_like}
use stlink.Calculate.Layout.{pagesize_at-uniform}
use stlink.Flash.Keeps.{SameChip, SameChip-refl, resized, resized-SameChip}
use stlink.Flash.Range.{align_loop, check_address_alignment}

-- `q` is reached from `p` by whole pages.
pub data Reaches (sl : Stlink) (q : ℕ) : ℕ → Type 0 where
  here : {p : ℕ} → p ≡ q → Reaches sl q p
  step : {p : ℕ} → Reaches sl q (p + pagesize_at sl p) → Reaches sl q p

-- A page start is reached from the base of the flash.
abbrev pub IsPageStart : Stlink → ℕ → Type 0
IsPageStart sl q = Reaches sl q sl.flash_base

Reaches-le : {sl : Stlink} {q p : ℕ} → Reaches sl q p → p ≤ q
Reaches-le (here e) = omega arith
Reaches-le (step r) = omega (arith, Reaches-le r)

after_step : {sl : Stlink} {q p : ℕ} → Reaches sl q p → p < q → Reaches sl q (p + pagesize_at sl p)
after_step (here e) lt = absurd (omega arith)
after_step (step r) lt = r

-- Every page below `addr` has a size, and none ends above 4G.
pub record HasPages (sl : Stlink) (addr : ℕ) : Type 0 where
  pub some_size : (p : ℕ) → p < addr → 0 < pagesize_at sl p
  pub fits : (p : ℕ) → p < addr → p + pagesize_at sl p < 2 ^ 32

-- The target was not accessed, and the chip is that of `sl`.
pub record Untouched (sl : Stlink) (w w' : World) : Type 0 where
  pub trace : w'.trace ≡ w.trace
  pub chip : SameChip sl w'.sl

-- What a run of the loop from `page` gives.
abbrev Decides : Stlink → ℕ → ℕ → ℕ → World → Type 0
Decides sl fuel page addr w =
    (s : Status) × (w' : World) × (align_loop fuel page addr w ≡ some (s, w'))
    × ((s ≡ success) ↔ Reaches sl addr page)
    × Untouched sl w w'

align_loop-below :
    (fuel page addr : ℕ) (w : World)
    → ltb page addr ≡ true
    → align_loop (suc fuel) page addr w
      ≡ align_loop fuel
          (add32 page (pagesize_at w.sl page))
          addr
          (record w { sl = resized w.sl (pagesize_at w.sl page) })
unfolding align_loop calculate_pagesize ◌>>=◌
align_loop-below fuel page addr w e = rw (e, align_loop)

align_loop-above :
    (fuel page addr : ℕ) (w : World)
    → ltb page addr ≡ false
    → align_loop (suc fuel) page addr w ≡ some ((if page == addr then success else failure), w)
unfolding align_loop pure
align_loop-above fuel page addr w e = rw (e, align_loop)

stops_iff :
    (sl : Stlink) (page addr : ℕ)
    → addr ≤ page
    → ((if page == addr then success else failure) ≡ success) ↔ Reaches sl addr page
stops_iff sl page addr h =
    (λ e. here (ground arith), λ r. let le : page ≤ addr = Reaches-le r in ground arith)

align_loop-Decides :
    (sl : Stlink) (fuel page addr : ℕ) (w : World)
    → HasPages sl addr
    → SameChip sl w.sl
    → addr - page < fuel
    → Decides sl fuel page addr w
align_loop-Decides sl zero page addr w h same enough = absurd (omega arith)
align_loop-Decides sl (suc fuel) page addr w h same enough = elim (Bool-cases (ltb page addr)) [
  | inl below ↦
      let lt : page < addr = ltb→lt page addr below in
      let next : ℕ = page + pagesize_at sl page in
      let w' : World = record w { sl = resized w.sl (pagesize_at w.sl page) } in
      let moves : add32 page (pagesize_at w.sl page) ≡ next =
        omega (arith, same.pages page, h.fits page lt) in
      let rest : Decides sl fuel next addr w' =
        align_loop-Decides sl fuel next addr w' h (resized-SameChip sl w.sl page same)
          (omega (arith, h.some_size page lt)) in
      (
        rest.0,
        rest.1,
        align_loop-below fuel page addr w below
            ∙ ap (λ (p : ℕ). align_loop fuel p addr w') moves
            ∙ rest.2,
        (λ e. step (rest.3.0 e), λ r. rest.3.1 (after_step r lt)),
        record { trace = rest.4.trace; chip = rest.4.chip },
      )
  | inr above ↦ (
    (if page == addr then success else failure),
    w,
    align_loop-above fuel page addr w above,
    stops_iff sl page addr (ltb→le page addr above),
    record { trace = refl; chip = same },
  )
]

-- With more fuel than the distance of `addr` from the base, the alignment test returns, and accepts
-- exactly the page starts, if every page below `addr` has a size and ends below 4G. It does not
-- access the target, and the chip's parameters in the context stay as they were.
pub check_address_alignment-IsPageStart :
    (fuel addr : ℕ) (w : World)
    → HasPages w.sl addr
    → addr - w.sl.flash_base < fuel
    → (s : Status) × (w' : World) × (check_address_alignment fuel addr w ≡ some (s, w'))
      × ((s ≡ success) ↔ IsPageStart w.sl addr)
      × Untouched w.sl w w'
unfolding check_address_alignment ◌>>=◌ gets
check_address_alignment-IsPageStart fuel addr w h enough =
    align_loop-Decides w.sl fuel w.sl.flash_base addr w h (SameChip-refl w.sl) enough

module _ (sl : Stlink) (uniform : (is_f4_like sl.chip_id || is_f7_like sl.chip_id) ≡ false)
    (pos : 0 < sl.flash_pgsz) where
  Reaches-mod : {q p : ℕ} → Reaches sl q p → (p ≤ q) × ((q - p) % sl.flash_pgsz ≡ 0)
  Reaches-mod {q} {p} (here e) =
      let d : q - p ≡ 0 = omega arith in (omega arith, rw (d, zero-mod sl.flash_pgsz))
  Reaches-mod {q} {p} (step r) =
      let (le, m) = Reaches-mod r in
      let size : pagesize_at sl p ≡ sl.flash_pgsz = pagesize_at-uniform sl p uniform in
      let d : q - p ≡ (q - (p + pagesize_at sl p)) + sl.flash_pgsz = omega arith in
      (omega arith, rw d (add-mod_right _ _ ∙ m))

  mod-Reaches : (k q p : ℕ) → p + k * sl.flash_pgsz ≡ q → Reaches sl q p
  mod-Reaches zero q p e = here (omega arith)
  mod-Reaches (suc k) q p e =
      step
        (mod-Reaches k q (p + pagesize_at sl p) (omega (arith, pagesize_at-uniform sl p uniform)))

  -- On a chip whose pages are all of one size, the page starts are the multiples of the size from
  -- the base on.
  pub IsPageStart-uniform_iff :
      (addr : ℕ)
      → IsPageStart sl addr
        ↔ ((sl.flash_base ≤ addr) × ((addr - sl.flash_base) % sl.flash_pgsz ≡ 0))
  IsPageStart-uniform_iff addr = (
    Reaches-mod,
    λ h.
        mod-Reaches ((addr - sl.flash_base) / sl.flash_pgsz) addr sl.flash_base
          (omega (arith, div-add-mod' (addr - sl.flash_base) sl.flash_pgsz)),
  )

-- On a chip whose pages are all of one size above 0, and where the pages below the address end
-- below 4G, stlink_check_address_alignment returns, and accepts exactly the addresses that are a
-- multiple of the page size above the base of the flash.
pub check_address_alignment-multiples :
    (fuel addr : ℕ) (w : World)
    → (is_f4_like w.sl.chip_id || is_f7_like w.sl.chip_id) ≡ false
    → 0 < w.sl.flash_pgsz
    → HasPages w.sl addr
    → addr - w.sl.flash_base < fuel
    → (s : Status) × (w' : World) × (check_address_alignment fuel addr w ≡ some (s, w'))
      × ((s ≡ success)
          ↔ ((w.sl.flash_base ≤ addr) × ((addr - w.sl.flash_base) % w.sl.flash_pgsz ≡ 0)))
check_address_alignment-multiples fuel addr w uniform pos pages enough =
    let (s, w', run, starts, untouched) =
      check_address_alignment-IsPageStart fuel addr w pages enough in
    let multiples = IsPageStart-uniform_iff w.sl uniform pos addr in
    (s, w', run, ((λ e. multiples.0 (starts.0 e)), (λ h. starts.1 (multiples.1 h))))
