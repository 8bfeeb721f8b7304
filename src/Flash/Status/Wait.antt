-- ===== src/Flash/Status/Wait.antt =====
-- The busy loop `wait_flash_busy`: when it returns, and when it does not.
use stlink.Base.{
  ℕ, zero, suc, ◌-◌, ◌<◌, ◌≤◌, ◌≡◌, ◌≢◌, refl, sym, ◌∙◌, inl, inr, true, false, Bool-cases, ◌==◌,
  ◌∷◌, [], Option, none, some, Option-cases, bit_and, bit_or, bit, arith,
}
use stlink.Target.{
  Access, Stlink, FlashType, unknown, c0, f0_f1_f3, f1_xl, f2_f4, f7, g0, g4, h7, l0_l1, l4,
  l5_u5_h5, wb_wl, Bank, bank_1, bank_2, World, Hardware, Trace, ◌>>=◌, pure, gets, skip,
  uninitialised,
}
use stlink.Access.{load, read_debug32}
use stlink.Flash.Status.{
  sr_register, busy_shift, polls_bank_2, read_sr_at, read_flash_sr, busy_at, is_flash_busy,
  wait_flash_busy,
}

-- The debug reads since the last other access, which may have made the flash busy.
abbrev pub reads : Trace → ℕ
reads [] = 0
reads (Access.read_debug32 a ∷ t) = suc (reads t)
reads (_ ∷ t) = 0

-- A count of accesses that goes on with every debug read.
abbrev pub Counts : (Trace → ℕ) → Type 0
Counts age = (t : Trace) (a : ℕ) → age t < age (Access.read_debug32 a ∷ t)

pub reads-Counts : Counts reads
reads-Counts t a = omega arith

module _ ⦃hw : Hardware⦄ where
  -- Where `age` counts to `settled`, the status registers of the chip read without the busy bit.
  -- With `reads` for `age`, every write and erase may make the flash busy again.
  pub record Settles (age : Trace → ℕ) (sl : Stlink) (settled : ℕ) : Type 0 where
    pub idle :
        (t : Trace) (bank : Bank) (reg shift : ℕ)
        → settled ≤ age t
        → sr_register sl sl.flash_type bank ≡ some reg
        → busy_shift sl.flash_type ≡ some shift
        → (v : ℕ) × (hw.word t reg ≡ some v) × (bit_and v (bit shift) ≡ 0)

  is_flash_busy-unknown :
      (w : World) → w.sl.flash_type ≡ unknown → is_flash_busy w ≡ some (0xffffffff, w)
  unfolding is_flash_busy busy_at busy_shift ◌>>=◌ gets pure
  is_flash_busy-unknown w e = rw e refl

  -- For an unknown flash type the wait does not return, whatever the fuel.
  pub wait_flash_busy-unknown :
      (fuel : ℕ) (w : World) → w.sl.flash_type ≡ unknown → wait_flash_busy fuel w ≡ none
  unfolding wait_flash_busy ◌>>=◌
  wait_flash_busy-unknown zero w e = refl
  wait_flash_busy-unknown (suc fuel) w e =
      rw (◌>>=◌, is_flash_busy-unknown w e, wait_flash_busy) (wait_flash_busy-unknown fuel w e)

  known_registers :
      (t : FlashType)
      → t ≢ unknown
      → ((sl : Stlink) (bank : Bank) → (reg : ℕ) × (sr_register sl t bank ≡ some reg))
        × ((shift : ℕ) × (busy_shift t ≡ some shift))
  unfolding sr_register busy_shift
  known_registers unknown n = absurd (n refl)
  known_registers c0 n = ((λ sl bank. (_, refl)), (_, refl))
  known_registers f0_f1_f3 n = ((λ sl bank. (_, refl)), (_, refl))
  known_registers f1_xl n = ((λ sl bank. (_, refl)), (_, refl))
  known_registers f2_f4 n = ((λ sl bank. (_, refl)), (_, refl))
  known_registers f7 n = ((λ sl bank. (_, refl)), (_, refl))
  known_registers g0 n = ((λ sl bank. (_, refl)), (_, refl))
  known_registers g4 n = ((λ sl bank. (_, refl)), (_, refl))
  known_registers h7 n = ((λ sl bank. (_, refl)), (_, refl))
  known_registers l0_l1 n = ((λ sl bank. (_, refl)), (_, refl))
  known_registers l4 n = ((λ sl bank. (_, refl)), (_, refl))
  known_registers l5_u5_h5 n = ((λ sl bank. (_, refl)), (_, refl))
  known_registers wb_wl n = ((λ sl bank. (_, refl)), (_, refl))

  -- The world after a read.
  after_read : ℕ → World → World
  after_read reg w = record w { trace = Access.read_debug32 reg ∷ w.trace }

  not_some : (u : ℕ) → ◌≡◌ {A = Option ℕ} none (some u) → ⊥
  not_some u e = cc

  -- A status register is read by one access; the answer is its word, where there is one.
  read_flash_sr-word :
      (bank : Bank) (reg : ℕ) (w : World)
      → sr_register w.sl w.sl.flash_type bank ≡ some reg
      → (v : ℕ) × (read_flash_sr bank w ≡ some (v, after_read reg w))
        × ((u : ℕ) → hw.word w.trace reg ≡ some u → v ≡ u)
  unfolding read_flash_sr read_sr_at load read_debug32 after_read ◌>>=◌ gets pure uninitialised
  read_flash_sr-word bank reg w e = elim (Option-cases (hw.word w.trace reg)) [
    | inl gone ↦
        (hw.uninitialised w.trace, rw (e, gone) refl, λ u f. absurd (not_some u (sym gone ∙ f)))
    | inr (v, read) ↦ (v, rw (e, read) refl, λ u f. cc)
  ]

  no_bits :
      (v1 u1 v2 u2 m : ℕ)
      → v1 ≡ u1
      → v2 ≡ u2
      → bit_and u1 m ≡ 0
      → bit_and u2 m ≡ 0
      → bit_or (bit_and v1 m) (bit_and v2 m) ≡ 0
  no_bits v1 u1 v2 u2 m e f z1 z2 = rw (e, f, z1, z2) refl

  is_flash_busy-single :
      (shift v : ℕ) (w w' : World)
      → busy_shift w.sl.flash_type ≡ some shift
      → polls_bank_2 w.sl ≡ false
      → read_flash_sr bank_1 w ≡ some (v, w')
      → is_flash_busy w ≡ some (bit_and v (bit shift), w')
  unfolding is_flash_busy busy_at gets pure ◌>>=◌
  is_flash_busy-single shift v w w' es single one = rw (es, ◌>>=◌, one, single) refl

  is_flash_busy-both :
      (shift v1 v2 : ℕ) (w w1 w2 : World)
      → busy_shift w.sl.flash_type ≡ some shift
      → polls_bank_2 w.sl ≡ true
      → read_flash_sr bank_1 w ≡ some (v1, w1)
      → read_flash_sr bank_2 w1 ≡ some (v2, w2)
      → is_flash_busy w ≡ some (bit_or (bit_and v1 (bit shift)) (bit_and v2 (bit shift)), w2)
  unfolding is_flash_busy busy_at gets pure ◌>>=◌
  is_flash_busy-both shift v1 v2 w w1 w2 es both one two = rw (es, ◌>>=◌, one, both, two) refl

  -- A poll answers, by one access at least; once the chip has settled it answers 0.
  abbrev Polls : (Trace → ℕ) → ℕ → World → Type 0
  Polls age settled w =
      (b : ℕ) × (w' : World) × (is_flash_busy w ≡ some (b, w'))
      × (w'.sl ≡ w.sl)
      × (age w.trace < age w'.trace)
      × (settled ≤ age w.trace → b ≡ 0)

  is_flash_busy-Polls :
      (age : Trace → ℕ) (settled : ℕ) (w : World)
      → Counts age
      → w.sl.flash_type ≢ unknown
      → Settles age w.sl settled
      → Polls age settled w
  unfolding after_read
  is_flash_busy-Polls age settled w counts known h =
      let (regs, (shift, es)) = known_registers w.sl.flash_type known in
      let (r1, e1) = regs w.sl bank_1 in
      let (r2, e2) = regs w.sl bank_2 in
      let (v1, one, is1) = read_flash_sr-word bank_1 r1 w e1 in
      let (v2, two, is2) = read_flash_sr-word bank_2 r2 (after_read r1 w) e2 in
      let first = counts w.trace r1 in
      let second = counts (after_read r1 w).trace r2 in
      elim (Bool-cases (polls_bank_2 w.sl)) [
        | inl both ↦ (
          _,
          _,
          is_flash_busy-both shift v1 v2 w _ _ es both one two,
          refl,
          omega (arith, first, second),
          λ late.
              let (u1, f1, z1) = h.idle w.trace bank_1 r1 shift late e1 es in
              let (u2, f2, z2) =
                h.idle (after_read r1 w).trace bank_2 r2 shift (omega (arith, first)) e2 es in
              no_bits v1 u1 v2 u2 (bit shift) (is1 u1 f1) (is2 u2 f2) z1 z2,
        )
        | inr single ↦ (
          _,
          _,
          is_flash_busy-single shift v1 w _ es single one,
          refl,
          first,
          λ late. let (u, f, z) = h.idle w.trace bank_1 r1 shift late e1 es in rw (is1 u f) z,
        )
      ]

  wait_flash_busy-again :
      (fuel b : ℕ) (w w' : World)
      → is_flash_busy w ≡ some (b, w')
      → (b == 0) ≡ false
      → wait_flash_busy (suc fuel) w ≡ wait_flash_busy fuel w'
  unfolding wait_flash_busy ◌>>=◌
  wait_flash_busy-again fuel b w w' e f = rw (wait_flash_busy, ◌>>=◌, e, f) refl

  wait_flash_busy-done :
      (fuel b : ℕ) (w w' : World)
      → is_flash_busy w ≡ some (b, w')
      → (b == 0) ≡ true
      → wait_flash_busy (suc fuel) w ≡ some (tt, w')
  unfolding wait_flash_busy ◌>>=◌ skip
  wait_flash_busy-done fuel b w w' e f = rw (wait_flash_busy, ◌>>=◌, e, f) refl

  Settles-same :
      (age : Trace → ℕ) (a b : Stlink) (settled : ℕ)
      → b ≡ a
      → Settles age a settled
      → Settles age b settled
  Settles-same age a b settled e h = rw e h

  -- If the flash type is known, every debug read increases a count of the accesses, and the status
  -- registers read without the busy bit wherever the count has reached a number, then
  -- wait_flash_busy returns, with more fuel than the count is short of it, and leaves the context
  -- as it was.
  pub wait_flash_busy-Settles :
      (age : Trace → ℕ) (settled fuel : ℕ) (w : World)
      → Counts age
      → w.sl.flash_type ≢ unknown
      → Settles age w.sl settled
      → settled - age w.trace < fuel
      → (w' : World) × (wait_flash_busy fuel w ≡ some (tt, w')) × (w'.sl ≡ w.sl)
  wait_flash_busy-Settles age settled zero w counts known h enough = absurd (omega arith)
  wait_flash_busy-Settles age settled (suc fuel) w counts known h enough =
      let (b, w1, poll, same, grows, zero_late) =
        is_flash_busy-Polls age settled w counts known h in
      elim (Bool-cases (b == 0)) [
        | inl idle ↦ (w1, wait_flash_busy-done fuel b w w1 poll idle, same)
        | inr busy ↦
            let early : age w.trace < settled = ground (arith, zero_late) in
            let (w2, rest, kept) =
              wait_flash_busy-Settles age settled fuel w1 counts (rw same known)
                (Settles-same age w.sl w1.sl settled same h) (omega (arith, early, grows)) in
            (w2, wait_flash_busy-again fuel b w w1 poll busy ∙ rest, kept ∙ same)
      ]
