-- ===== src/Flash/Range/Returns.antt =====
-- Termination of the alignment test and of the erase of a section.
use stlink.Base.{
  ℕ, zero, suc, ◌+◌, ◌-◌, ◌^◌, ◌<◌, ◌≤◌, ◌≡◌, ◌≢◌, refl, Bool, true, false, not, ◌&&◌, ltb, ltb→lt,
  add32, arith,
}
use stlink.Target.{Stlink, unknown, Status, success, failure, World, M, Hardware, ◌>>=◌}
use stlink.Target.Returns.{Answers, Returns, Returns-pure, Returns-bind, Returns-gets}
use stlink.Calculate.{pagesize_at, calculate_pagesize}
use stlink.Calculate.Sizes.{pagesize_at_bounds}
use stlink.Flash.Status.Wait.{Settles, reads}
use stlink.Flash.Keeps.{resized-SameChip}
use stlink.Flash.Erase.Returns.{Sized, erase_flash_page-Returns}
use stlink.Flash.Range.{align_loop, check_address_alignment, erase_loop, erase_flash_section}
use stlink.Flash.Range.Alignment.{HasPages}

-- By the result of one step.
by_status :
    {c : Stlink} (m n : M Status) (s : Status)
    → Returns (Sized c) m
    → Returns (Sized c) n
    → Returns (Sized c) (elim s [ failure ↦ m | success ↦ n ])
by_status m n failure rm rn = rm
by_status m n success rm rn = rn

by_test :
    {c : Stlink} (m n : M Status) (b : Bool)
    → Returns (Sized c) m
    → (b ≡ false → Returns (Sized c) n)
    → Returns (Sized c) (elim b [ true ↦ m | false ↦ n ])
by_test m n true rm rn = rm
by_test m n false rm rn = rn refl

by_more :
    {c : Stlink} (m n : M Status) (b : Bool)
    → (b ≡ true → Returns (Sized c) m)
    → Returns (Sized c) n
    → Returns (Sized c) (elim b [ true ↦ m | false ↦ n ])
by_more m n true rm rn = rm refl
by_more m n false rm rn = rn

module _ {c : Stlink} where
  -- The page size that is computed is the chip's at that address.
  pub Returns-pagesize :
      (a : ℕ) (k : ℕ → M Status)
      → Returns (Sized c) (k (pagesize_at c a))
      → Returns (Sized c) (calculate_pagesize a >>= k)
  unfolding calculate_pagesize ◌>>=◌
  Returns-pagesize a k r = record {
    at = λ w h.
        let v : World = record w { sl = record (w.sl) { flash_pgsz = pagesize_at w.sl a } } in
        let b = pagesize_at_bounds w.sl a h.some_page h.small_page in
        let sized : Sized c v.sl = record {
          chip = resized-SameChip c w.sl a h.chip;
          some_page = b.0;
          small_page = b.1;
        } in
        let e : pagesize_at w.sl a ≡ pagesize_at c a = h.chip.pages a in
        let go : Answers (Sized c) (k (pagesize_at c a) v) = r.at v sized in
        rw (calculate_pagesize, ◌>>=◌, e) (rw e at go);
  }

  align_loop-Returns :
      (rounds page addr : ℕ)
      → HasPages c addr
      → addr - page < rounds
      → Returns (Sized c) (align_loop rounds page addr)
  unfolding align_loop
  align_loop-Returns zero page addr pages enough = absurd (omega arith)
  align_loop-Returns (suc rounds) page addr pages enough =
      by_more _ _ (ltb page addr)
        (λ e.
          let lt = ltb→lt page addr e in
          let pos = pages.some_size page lt in
          let fits = pages.fits page lt in
          Returns-pagesize page _
            (align_loop-Returns rounds (add32 page (pagesize_at c page)) addr pages (omega arith)))
        (Returns-pure _)

  pub check_address_alignment-Returns :
      (rounds addr : ℕ)
      → HasPages c addr
      → addr < rounds
      → Returns (Sized c) (check_address_alignment rounds addr)
  unfolding check_address_alignment
  check_address_alignment-Returns rounds addr pages enough =
      Returns-bind _ _ (Returns-gets _)
        (λ base. align_loop-Returns rounds base addr pages (omega arith))

module _ ⦃hw : Hardware⦄ {c : Stlink} (settled fuel : ℕ) (known : c.flash_type ≢ unknown)
    (settles : Settles reads c settled) (waits : settled < fuel) where
  erase_loop-Returns :
      (rounds addr end : ℕ) (align : Bool)
      → HasPages c (end + 1)
      → addr ≤ end
      → end - addr < rounds
      → Returns (Sized c) (erase_loop fuel rounds addr end align)
  unfolding erase_loop
  erase_loop-Returns zero addr end align pages le enough = absurd (omega arith)
  erase_loop-Returns (suc rounds) addr end align pages le enough =
      let n : ℕ = pagesize_at c addr in
      let pos = pages.some_size addr (omega arith) in
      let fits = pages.fits addr (omega arith) in
      Returns-pagesize addr _ (
        by_test _ _ (ltb end (add32 addr n) && not align) (Returns-pure failure) (λ e.
          Returns-bind _ _ (erase_flash_page-Returns settled fuel known settles waits addr) (λ s.
            by_status _ _ s (Returns-pure failure) (
              by_more _ _ (ltb (add32 addr n) end)
                (λ m.
                  let lt = ltb→lt (add32 addr n) end m in
                  erase_loop-Returns rounds (add32 addr n) end align pages (omega arith)
                    (omega arith))
                (Returns-pure success)))))

  pub erase_flash_section-Returns :
      (rounds addr len : ℕ) (align : Bool)
      → addr + len < 2 ^ 32
      → HasPages c (addr + len + 1)
      → addr + len < rounds
      → Returns (Sized c) (erase_flash_section fuel rounds addr len align)
  unfolding erase_flash_section
  erase_flash_section-Returns rounds addr len align top pages enough =
      let e : add32 addr len ≡ addr + len = omega arith in
      let below : HasPages c addr = record {
        some_size = λ p lt. pages.some_size p (omega arith);
        fits = λ p lt. pages.fits p (omega arith);
      } in
      Returns-bind _ _ (Returns-gets _) (λ v. by_status _ _ v (Returns-pure failure) (
        Returns-bind _ _ (check_address_alignment-Returns rounds addr below (omega arith)) (λ s.
          by_status _ _ s (Returns-pure failure) (
            rw e (
              erase_loop-Returns rounds addr (addr + len) align pages (omega arith)
                (omega arith))))))
