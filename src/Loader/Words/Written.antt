-- ===== src/Loader/Words/Written.antt =====
-- The words that `stlink_flashloader_write` writes where it goes word by word.
use stlink.Base.{
  ℕ, zero, suc, ◌+◌, ◌-◌, ◌*◌, ◌/◌, ◌%◌, ◌^◌, ◌<◌, ◌≤◌, ◌≡◌, ◌∙◌, refl, sym, ap, Bool, Bool-cases,
  inl, inr, true, false, ◌==◌, ltb, ltb→lt, ltb→le, Option, none, some, List, ◌∷◌, take, drop,
  add32, arith, if◌then◌else◌,
}
use stlink.Target.{
  FlashType, l5_u5_h5, unknown, Bank, Status, World, Hardware, ◌>>=◌, ◌>>◌, pure, gets, skip,
}
use stlink.Target.Ends.{Ends, stays_rules, after_eq}
use stlink.Target.Leads.{never, Leads, Ends-Leads, Leads-pure, Leads-none, Leads-bind}
use stlink.Access.{load, store, read_debug32, write_debug32}
use stlink.Flash.Status.{
  read_sr_at, read_flash_sr, busy_at, is_flash_busy, wait_flash_busy, read_errors,
  check_flash_error,
}
use stlink.Loader.Write.{next_word, written_length, write_words, write_by_words, count_pages}
use stlink.Loader.Words.{debug_writes, put_words, put_pad, word_count, put_words-next}

-- The words so far.
Written : List (ℕ × ℕ) → World → Type 0
Written ws w = debug_writes w.trace ≡ ws

module _ ⦃hw : Hardware⦄ (ws : List (ℕ × ℕ)) where
  read_debug32-Written : (a old : ℕ) → Ends (Written ws) (Written ws) (read_debug32 a old)
  unfolding read_debug32 Written debug_writes
  read_debug32-Written a old = record { at = λ w w' b h e. after_eq (Written ws) _ b _ w' e h }

  load-Written : (a : ℕ) → Ends (Written ws) (Written ws) (load a)
  unfolding load
  load-Written a = search (stays_rules, read_debug32-Written)

  read_sr_at-Written : (r : Option ℕ) → Ends (Written ws) (Written ws) (read_sr_at r)
  unfolding read_sr_at
  read_sr_at-Written none = search stays_rules
  read_sr_at-Written (some r) = load-Written r

  read_flash_sr-Written : (b : Bank) → Ends (Written ws) (Written ws) (read_flash_sr b)
  unfolding read_flash_sr
  read_flash_sr-Written b = search (stays_rules, read_sr_at-Written)

  busy_at-Written : (s : Option ℕ) → Ends (Written ws) (Written ws) (busy_at s)
  unfolding busy_at
  busy_at-Written none = search stays_rules
  busy_at-Written (some s) = search (stays_rules, read_flash_sr-Written)

  is_flash_busy-Written : Ends (Written ws) (Written ws) is_flash_busy
  unfolding is_flash_busy
  is_flash_busy-Written = search (stays_rules, busy_at-Written)

  read_errors-Written : (t : FlashType) (m : ℕ) → Ends (Written ws) (Written ws) (read_errors t m)
  unfolding read_errors
  read_errors-Written unknown m = search stays_rules
  read_errors-Written _ m = search (stays_rules, read_flash_sr-Written)

  check_flash_error-Written : Ends (Written ws) (Written ws) check_flash_error
  unfolding check_flash_error
  check_flash_error-Written =
      search (stays_rules, read_errors-Written, read_flash_sr-Written) depth 10

  -- Once more, or not.
  again-Written :
      (fuel : ℕ) (b : Bool)
      → Leads (Written ws) (wait_flash_busy fuel) (λ u. Written ws)
      → Leads (Written ws) (elim b [ true ↦ skip | false ↦ wait_flash_busy fuel ]) (λ u. Written ws)
  unfolding Written skip pure
  again-Written fuel true h = Leads-pure tt (λ w p. p)
  again-Written fuel false h = h

  wait_flash_busy-Written : (fuel : ℕ) → Leads (Written ws) (wait_flash_busy fuel) (λ u. Written ws)
  unfolding wait_flash_busy
  wait_flash_busy-Written zero = Leads-none
  wait_flash_busy-Written (suc fuel) =
      Leads-bind (λ b. Written ws) _ _ (Ends-Leads _ is_flash_busy-Written)
        (λ b. again-Written fuel (b == 0) (wait_flash_busy-Written fuel))

module _ ⦃hw : Hardware⦄ where
  store-Written :
      (ws : List (ℕ × ℕ)) (a v : ℕ) → Leads (Written ws) (store a v) (λ u. Written ((a, v) ∷ ws))
  unfolding store write_debug32 ◌>>=◌ skip Written debug_writes
  store-Written ws a v = record {
    at = λ w w' u p e. after_eq (Written ((a, v) ∷ ws)) tt u _ w' e (ap (◌∷◌ (a, v)) p);
  }

  -- A word, and the wait after it.
  store_wait-Written :
      (fuel : ℕ) (ws : List (ℕ × ℕ)) (a v : ℕ)
      → Leads (Written ws) (store a v >> wait_flash_busy fuel) (λ u. Written ((a, v) ∷ ws))
  store_wait-Written fuel ws a v =
      Leads-bind (λ u. Written ((a, v) ∷ ws)) _ _ (store-Written ws a v)
        (λ u. wait_flash_busy-Written ((a, v) ∷ ws) fuel)

  -- Where the loop ends, and the words that it wrote.
  abbrev Put : ℕ → List ℕ → ℕ → ℕ → List (ℕ × ℕ) → ℕ → World → Type 0
  Put addr base len off ws off' w =
      (off' ≡ off + 4 * word_count (len - off))
      × Written
          (put_words (word_count (len - off)) (addr + off) (take (len - off) (drop off base)) ws) w

  write_words-Put :
      (fuel rounds addr : ℕ) (base : List ℕ) (len off : ℕ) (ws : List (ℕ × ℕ))
      → addr + len < 2 ^ 32
      → len + 4 < 2 ^ 32
      → Leads (Written ws) (write_words fuel rounds addr base len off) (Put addr base len off ws)
  unfolding write_words put_words Written
  write_words-Put fuel zero addr base len off ws top room = Leads-none
  write_words-Put fuel (suc rounds) addr base len off ws top room =
      elim (Bool-cases (ltb off len)) [
        | inr e ↦
            let le = ltb→le off len e in
            let none_left : len - off ≡ 0 = omega arith in
            rw (write_words, e) (Leads-pure off (λ w p. rw none_left (omega arith, p)))
        | inl e ↦
            let lt = ltb→lt off len e in
            let at : add32 addr off ≡ addr + off = omega arith in
            let moves : add32 off 4 ≡ off + 4 = omega arith in
            let count : word_count (len - off) ≡ suc (word_count (len - (off + 4))) = omega arith in
            let v : ℕ = next_word base len off in
            let rest =
              write_words-Put fuel rounds addr base len (off + 4) ((addr + off, v) ∷ ws) top room in
            rw (write_words, e, at, moves)
              (Leads-bind (λ u. Written ((addr + off, v) ∷ ws)) _ _
                (store_wait-Written fuel ws (addr + off) v)
                (λ u. record {
                  at = λ w w' a p q.
                      let (ends, words) = rest.at w w' a p q in
                      (
                        omega (arith, ends, count),
                        words ∙ sym (put_words-next addr len off base ws lt),
                      );
                }))
      ]

  written_length_room :
      (t : FlashType) (len : ℕ) → len + 32 < 2 ^ 32 → written_length t len ≤ len + 16
  unfolding written_length
  written_length_room l5_u5_h5 len top = ground arith
  written_length_room _ len top = omega arith

  -- The word of zeros, where one is due, and the test of the errors.
  pad-Written :
      (fuel addr n : ℕ) (ws : List (ℕ × ℕ))
      → addr + 4 * n < 2 ^ 32
      → Leads
          (Written ws)
          ((if 4 * n / 4 % 2 == 0
              then skip
              else (store (add32 addr (4 * n)) 0 >> wait_flash_busy fuel))
            >> check_flash_error)
          (λ s. Written (put_pad n addr ws))
  unfolding put_pad Written skip pure
  pad-Written fuel addr n ws top =
      let words : 4 * n / 4 ≡ n = omega arith in
      let at : add32 addr (4 * n) ≡ addr + 4 * n = omega arith in
      elim (Bool-cases (n % 2 == 0)) [
        | inl e ↦
            rw (words, e)
              (Leads-bind (λ u. Written ws) _ _ (Leads-pure tt (λ w p. p))
                (λ u. Ends-Leads _ (check_flash_error-Written ws)))
        | inr e ↦
            rw (words, e, at)
              (Leads-bind (λ u. Written ((addr + 4 * n, 0) ∷ ws)) _ _
                (store_wait-Written fuel ws (addr + 4 * n) 0)
                (λ u. Ends-Leads _ (check_flash_error-Written _)))
      ]

  count_pages-Written : (ws : List (ℕ × ℕ)) → Leads (Written ws) count_pages (λ u. Written ws)
  unfolding count_pages skip
  count_pages-Written ws = record {
    at = λ w w' u p e. elim (Bool-cases (w.sl.flash_pgsz == 0)) [
      | inl z ↦ absurd (never u w' (rw z at e))
      | inr z ↦ after_eq (Written ws) tt u w w' (rw z at e) p
    ];
  }

  pub write_by_words-Put :
      (fuel rounds addr : ℕ) (base : List ℕ) (len : ℕ) (w w' : World) (s : Status)
      → addr + len + 32 < 2 ^ 32
      → write_by_words fuel rounds addr base len w ≡ some (s, w')
      → let all = written_length w.sl.flash_type len in
        debug_writes w'.trace
        ≡ put_pad
            (word_count all)
            addr
            (put_words (word_count all) addr (take all base) (debug_writes w.trace))
  unfolding write_by_words ◌>>=◌ gets Written
  write_by_words-Put fuel rounds addr base len w w' s top e =
      let ws = debug_writes w.trace in
      let all : ℕ = written_length w.sl.flash_type len in
      let most = written_length_room w.sl.flash_type len (omega arith) in
      let n : ℕ = word_count all in
      let whole : all - 0 ≡ all = omega arith in
      let at : addr + 0 ≡ addr = omega arith in
      let zero_off : 0 + 4 * n ≡ 4 * n = omega arith in
      let goal : Leads (Written ws)
          (write_words fuel rounds addr base all 0 >>= λ off.
            (if off / 4 % 2 == 0 then skip else (store (add32 addr off) 0 >> wait_flash_busy fuel))
            >> check_flash_error)
          (λ s. Written (put_pad n addr (put_words n addr (take all base) ws))) =
        Leads-bind (Put addr base all 0 ws) _ _
          (write_words-Put fuel rounds addr base all 0 ws (omega (arith, most))
            (omega (arith, most)))
          (λ off. record {
            at = λ v v' a (ends, words) q.
                let end : off ≡ 4 * n = rw (whole, zero_off) at ends in
                (pad-Written fuel addr n (put_words n addr (take all base) ws)
                    (omega (arith, most))).at
                  v v' a (rw (whole, at) at words) (rw end at q);
          }) in
      (Leads-bind (λ u. Written ws) _ _ (count_pages-Written ws) (λ u. goal)).at w w' s refl e
