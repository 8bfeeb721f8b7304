-- ===== src/Loader/Clock.antt =====
-- The polls of a run of the program in SRAM.
use stlink.Base.{
  ℕ, suc, ◌+◌, ◌-◌, ◌%◌, ◌^◌, ◌<◌, ◌≤◌, ◌≡◌, ◌↔◌, add32, arith, refl, Bool, true, false, ◌∷◌, some,
  ltb,
}
use stlink.Target.{Access, Trace, World, Hardware, ◌>>=◌, pure, gets}
use stlink.Core.{is_halted, status, is_core_halted, time_ms}
use stlink.Loader.Run.{poll_halted, wait_halted}

-- The polls of the core since the last other access.
abbrev pub polls : Trace → ℕ
polls (Access.status ∷ Access.time_ms ∷ t) = suc (polls t)
polls _ = 0

module _ ⦃hw : Hardware⦄ where
  -- Wherever `n` polls in a row came before, the core answers the next one as halted, as at the
  -- breakpoint that ends the program.
  pub record Halts (n : ℕ) : Type 0 where
    pub at : (t : Trace) → n ≤ polls t → is_halted (hw.status (Access.time_ms ∷ t)).1 ≡ true

  -- The state after one more poll.
  abbrev pub polled : World → World
  polled w = record {
    sl = record (w.sl) { core_stat = (hw.status (Access.time_ms ∷ w.trace)).1 };
    trace = Access.status ∷ Access.time_ms ∷ w.trace;
  }

  abbrev pub halted_at : World → Bool
  halted_at w = is_halted (hw.status (Access.time_ms ∷ w.trace)).1

  pub poll_halted-again :
      (fuel timeout : ℕ) (w : World)
      → ltb (hw.time_ms w.trace % 2 ^ 32) timeout ≡ true
      → halted_at w ≡ false
      → poll_halted (suc fuel) timeout w ≡ poll_halted fuel timeout (polled w)
  unfolding poll_halted time_ms is_core_halted status ◌>>=◌ gets
  poll_halted-again fuel timeout w more e = rw (poll_halted, ◌>>=◌, more, e) refl

  pub poll_halted-halted :
      (fuel timeout : ℕ) (w : World)
      → ltb (hw.time_ms w.trace % 2 ^ 32) timeout ≡ true
      → halted_at w ≡ true
      → poll_halted (suc fuel) timeout w ≡ some (0, polled w)
  unfolding poll_halted time_ms is_core_halted status ◌>>=◌ gets pure
  poll_halted-halted fuel timeout w more e = rw (poll_halted, ◌>>=◌, more, e) refl

  pub poll_halted-late :
      (fuel timeout : ℕ) (w : World)
      → ltb (hw.time_ms w.trace % 2 ^ 32) timeout ≡ false
      → poll_halted (suc fuel) timeout w
        ≡ some (timeout, record w { trace = Access.time_ms ∷ w.trace })
  unfolding poll_halted time_ms ◌>>=◌ pure
  poll_halted-late fuel timeout w e = rw (poll_halted, ◌>>=◌, e) refl

  -- In the last half second before the 32-bit clock wraps, if the clock has not gone back behind the
  -- wrapped timeout when it is read again, the wait for the program ends without asking whether the
  -- core has halted, and what it ends with is 0, which stands for a core that has halted, exactly
  -- if the wait began 500 ms before the wrap.
  pub wait_halted-wraps :
      (fuel : ℕ) (w : World)
      → 2 ^ 32 ≤ hw.time_ms w.trace % 2 ^ 32 + 500
      → hw.time_ms w.trace % 2 ^ 32 + 500 ≤ 2 ^ 32 + hw.time_ms (Access.time_ms ∷ w.trace) % 2 ^ 32
      → (timeout : ℕ) × ((wait_halted (suc fuel) w
            ≡ some (timeout, record w { trace = Access.time_ms ∷ Access.time_ms ∷ w.trace }))
          × ((timeout ≡ 0) ↔ (hw.time_ms w.trace % 2 ^ 32 ≡ 2 ^ 32 - 500)))
  unfolding wait_halted time_ms ◌>>=◌
  wait_halted-wraps fuel w late forward =
      let now : ℕ = hw.time_ms w.trace % 2 ^ 32 in
      let below : now < 2 ^ 32 = omega arith in
      let next : ℕ = hw.time_ms (Access.time_ms ∷ w.trace) % 2 ^ 32 in
      let wrapped : add32 now 500 ≡ now + 500 - 2 ^ 32 = omega (arith, below, late) in
      let over : ltb next (add32 now 500) ≡ false = ground (arith, wrapped, forward) in
      (
        add32 now 500,
        (
          poll_halted-late fuel (add32 now 500) (record w { trace = Access.time_ms ∷ w.trace })
              over,
          ((λ e. omega (arith, e, wrapped, late)), (λ e. omega (arith, e, wrapped))),
        ),
      )
