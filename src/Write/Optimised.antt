-- ===== src/Write/Optimised.antt =====
-- Writing data without the erased words at its end, and starting the program that was written.
use stlink.Base.{
  ℕ, zero, suc, ◌+◌, ◌-◌, ◌%◌, ◌^◌, ◌<◌, ◌≤◌, ◌≡◌, ◌≢◌, refl, ap, Bool-cases, inl, inr, false, ◌==◌,
  Option, Option-cases, some, List, [], ◌∷◌, ◌++◌, length, take, get_or, replicate, bit_and,
  bit_and_mask, arith,
}
use stlink.Target.{Trace, Stlink, EraseType, Status, success, World, Hardware, ◌>>=◌, pure, gets}
use stlink.Target.Ensures.{not_none}
use stlink.Access.{byte_at}
use stlink.Gdb.Blocks.{get_erased_pattern}
use stlink.Flash.Verify.Memory.{slice}
use stlink.Flash.Verify.Sound.{ReadsMemory}
use stlink.Write.{count_empty, num_empty, kept_length, write_flash, fwrite_finalize, mwrite_flash}
use stlink.Write.Verified.{even_length, write_flash-Holds}

-- From `m` on, up to `len`, all bytes are `p`.
all_from :
    (p m len : ℕ) (xs : List ℕ)
    → ((j : ℕ) → m ≤ j → j < len → get_or xs j 0 ≡ p)
    → m ≤ len
    → len ≤ length xs
    → take m xs ++ replicate (len - m) p ≡ take len xs
all_from p zero zero xs h le fits = refl
all_from p zero (suc len) [] h le fits = absurd (omega arith)
all_from p zero (suc len) (x ∷ xs) h le fits =
    let e : x ≡ p = h 0 (omega arith) (omega arith) in
    let rest =
      all_from p 0 len xs (λ j a b. h (suc j) (omega arith) (omega arith)) (omega arith)
        (omega arith) in
    let d : suc len - 0 ≡ suc (len - 0) = omega arith in
    rw (d, e) (ap (λ (ys : List ℕ). p ∷ ys) rest)
all_from p (suc m) zero xs h le fits = absurd (omega arith)
all_from p (suc m) (suc len) [] h le fits = absurd (omega arith)
all_from p (suc m) (suc len) (x ∷ xs) h le fits =
    let rest =
      all_from p m len xs (λ j a b. h (suc j) (omega arith) (omega arith)) (omega arith)
        (omega arith) in
    let d : suc len - suc m ≡ len - m = omega arith in rw d (ap (λ (ys : List ℕ). x ∷ ys) rest)

count_empty_le : (bs : List ℕ) (p idx : ℕ) → count_empty bs p idx ≤ idx
unfolding count_empty
count_empty_le bs p zero = omega arith
count_empty_le bs p (suc idx) = elim (Bool-cases (byte_at bs idx == p)) [
  | inl e ↦ rw e (omega (arith, count_empty_le bs p idx))
  | inr e ↦ rw e (omega arith)
]

count_empty_same :
    (bs : List ℕ) (p idx j : ℕ) → idx - count_empty bs p idx ≤ j → j < idx → byte_at bs j ≡ p
unfolding count_empty
count_empty_same bs p zero j le lt = absurd (omega arith)
count_empty_same bs p (suc idx) j le lt = elim (Bool-cases (byte_at bs idx == p)) [
  | inr e ↦ let le' = rw e at le in absurd (omega (arith, le'))
  | inl e ↦
      let le' = rw e at le in
      elim (Bool-cases (j == idx)) [
        | inl f ↦
            let same : j ≡ idx = ground (arith, f) in
            let at : byte_at bs idx ≡ p = ground (arith, e) in rw same at
        | inr f ↦
            let other : j ≢ idx = ground (arith, f) in
            count_empty_same bs p idx j (omega (arith, le')) (omega (arith, other))
      ]
]

-- The bytes that are left out are whole words of the erased pattern at the end of the data, at most
-- all of it.
pub num_empty-replicate :
    (sl : Stlink) (bs : List ℕ) (len : ℕ)
    → len ≤ length bs
    → (num_empty sl bs len ≤ len)
      × ((num_empty sl bs len % 4 ≡ 0)
          × (take (len - num_empty sl bs len) bs
                ++ replicate (num_empty sl bs len) (get_erased_pattern sl.flash_type)
              ≡ take len bs))
unfolding num_empty
num_empty-replicate sl bs len fits = elim (Bool-cases (sl.opt == 0)) [
  | inl e ↦
      let whole : len - 0 ≡ len = omega arith in
      let nothing : len - len ≡ 0 = omega arith in
      let all = all_from 0 len len bs (λ j a b. absurd (omega arith)) (omega arith) fits in
      rw e (omega arith, (refl, rw whole (rw nothing at all)))
  | inr e ↦
      let p : ℕ = get_erased_pattern sl.flash_type in
      let k : ℕ = count_empty bs p len in
      let n : ℕ = k - bit_and k 3 in
      let le : k ≤ len = count_empty_le bs p len in
      let mask : bit_and k 3 ≡ k % 4 = bit_and_mask 2 k in
      let less : n ≤ len = omega arith in
      let left : len - (len - n) ≡ n = omega arith in
      let all =
        all_from p (len - n) len bs (λ j a b. count_empty_same bs p len j (omega (arith, mask)) b)
          (omega arith) fits in
      rw e (less, (omega (arith, mask), rw left at all))
]

-- How one run of write, finalize and return ends.
ended :
    (err : Status) (w2 w' : World)
    → ◌≡◌ {A = Option (Status × World)} (some (err, w2)) (some (success, w'))
    → (err ≡ success) × (w2 ≡ w')
ended err w2 w' e = (cc, cc)

module _ ⦃hw : Hardware⦄ (fuel rounds addr len : ℕ) (t : EraseType) (bs : List ℕ) where
  -- The write that `stlink_mwrite_flash` does.
  abbrev optimised_write : ℕ → World → Option (Status × World)
  optimised_write empty w =
      write_flash fuel rounds addr bs (kept_length empty len) (empty == len) t w

  mwrite_flash-parts :
      (w w' : World)
      → mwrite_flash fuel rounds bs len addr t w ≡ some (success, w')
      → (w1 : World) × ((optimised_write (num_empty w.sl bs len) w ≡ some (success, w1))
          × (fwrite_finalize fuel rounds addr w1 ≡ some (tt, w')))
  unfolding mwrite_flash ◌>>=◌ gets pure
  mwrite_flash-parts w w' e =
      let empty : ℕ = num_empty w.sl bs len in
      elim (Option-cases (optimised_write empty w)) [
        | inl f ↦ absurd (not_none w' (rw (mwrite_flash, ◌>>=◌, f) at e))
        | inr ((err, w1), f) ↦ elim (Option-cases (fwrite_finalize fuel rounds addr w1)) [
          | inl g ↦ absurd (not_none w' (rw (mwrite_flash, ◌>>=◌, f, g) at e))
          | inr ((u, w2), g) ↦
              let (ok, same) = ended err w2 w' (rw (mwrite_flash, ◌>>=◌, f, g) at e) in
              (w1, (rw ok at f, rw same at g))
        ]
      ]

  -- If every read of bytes answers from the memory and leaves it, the range ends below 4G, and the
  -- data is not all erased, then wherever stlink_mwrite_flash returns success, the data is a
  -- written part followed by whole words of the erased pattern; after stlink_write_flash, the
  -- memory at the address held the written part, up to the length made even, and the last step was
  -- to start the program.
  pub mwrite_flash-Holds :
      (mem : Trace → ℕ → ℕ) (w w' : World)
      → ReadsMemory mem
      → len ≤ length bs
      → num_empty w.sl bs len ≢ len
      → addr + len + 1 < 2 ^ 32
      → len + 1 + 0x1800 < 2 ^ 32
      → mwrite_flash fuel rounds bs len addr t w ≡ some (success, w')
      → (kept : ℕ) × ((empty : ℕ) × ((w1 : World) × ((take kept bs
                  ++ replicate empty (get_erased_pattern w.sl.flash_type)
                ≡ take len bs)
              × ((empty % 4 ≡ 0)
                  × ((slice (mem w1.trace) addr (even_length kept) ≡ take (even_length kept) bs)
                      × (fwrite_finalize fuel rounds addr w1 ≡ some (tt, w')))))))
  unfolding kept_length even_length
  mwrite_flash-Holds mem w w' reads fits some_data top small e =
      let empty : ℕ = num_empty w.sl bs len in
      let (w1, (wrote, finalized)) = mwrite_flash-parts w w' e in
      let (le, (words, parts)) = num_empty-replicate w.sl bs len fits in
      let other : (empty == len) ≡ false = ground (arith, some_data) in
      let wrote' = rw other at wrote in
      let most : even_length (len - empty) ≤ len + 1 = ground arith in
      (
        len - empty,
        (
          empty,
          (
            w1,
            (
              parts,
              (
                words,
                (
                  write_flash-Holds mem reads fuel rounds addr bs (len - empty) t w w1
                      (omega (arith, most)) (omega (arith, most)) wrote',
                  finalized,
                ),
              ),
            ),
          ),
        ),
      )
