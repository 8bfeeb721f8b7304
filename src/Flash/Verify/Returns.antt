-- ===== src/Flash/Verify/Returns.antt =====
-- Termination of the verification of the flash.
use stlink.Base.{
  ℕ, zero, suc, ◌+◌, ◌-◌, ◌^◌, ◌<◌, ◌≤◌, ◌≡◌, Bool, Bool-cases, inl, inr, true, false, ltb, ltb→lt,
  List, add32, arith,
}
use stlink.Target.{Stlink, Status, success, failure, M, Hardware}
use stlink.Target.Returns.{Returns, Returns-pure, Returns-bind, Returns-gets_known}
use stlink.Core.Returns.{SameParams, access_rules}
use stlink.Flash.Verify.{compare_size, round_size, compare_round, verify_loop, verify_write_flash}

-- By the result of one comparison.
by_same :
    {c : Stlink} (m n : M Status) (b : Bool)
    → Returns (SameParams c) m
    → Returns (SameParams c) n
    → Returns (SameParams c) (elim b [ false ↦ m | true ↦ n ])
by_same m n false rm rn = rm
by_same m n true rm rn = rn

module _ ⦃hw : Hardware⦄ {c : Stlink} where
  compare_round-Returns :
      (a : ℕ) (bs : List ℕ) (off n : ℕ) → Returns (SameParams c) (compare_round a bs off n)
  unfolding compare_round
  compare_round-Returns a bs off n = search access_rules

  verify_loop-Returns :
      (rounds a : ℕ) (bs : List ℕ) (len off cmp : ℕ)
      → len + 0x1800 < 2 ^ 32
      → 0 < cmp
      → cmp ≤ 0x1800
      → len - off < rounds
      → Returns (SameParams c) (verify_loop rounds a bs len off cmp)
  unfolding verify_loop
  verify_loop-Returns zero a bs len off cmp top pos max enough = absurd (omega arith)
  verify_loop-Returns (suc rounds) a bs len off cmp top pos max enough =
      elim (Bool-cases (ltb off len)) [
        | inr e ↦ rw (verify_loop, e) (Returns-pure success)
        | inl e ↦
            let lt = ltb→lt off len e in
            let n : ℕ = round_size off cmp len in
            let bounds : (n ≤ len - off) × (n ≤ cmp) × (0 < n) = ground arith in
            let rest =
              verify_loop-Returns rounds a bs len (add32 off n) n top (omega arith) (omega arith)
                (omega arith) in
            rw (verify_loop, e)
              (Returns-bind _ _ (compare_round-Returns a bs off n)
                (λ b. by_same _ _ b (Returns-pure failure) rest))
      ]

  pub verify_write_flash-Returns :
      (rounds a : ℕ) (bs : List ℕ) (len : ℕ)
      → len + 0x1800 < 2 ^ 32
      → 0 < c.flash_pgsz
      → len < rounds
      → Returns (SameParams c) (verify_write_flash rounds a bs len)
  unfolding verify_write_flash
  verify_write_flash-Returns rounds a bs len top pos enough = Returns-gets_known _ _ (λ sl h.
      let p : sl.flash_pgsz ≡ c.flash_pgsz = h.flash_pgsz in
      let b : (0 < compare_size sl.flash_pgsz) × (compare_size sl.flash_pgsz ≤ 0x1800) =
        ground (arith, p) in
      verify_loop-Returns rounds a bs len 0 _ top b.0 b.1 (omega arith))
