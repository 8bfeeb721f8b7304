-- ===== src/Loader/Words.antt =====
-- The words that are written to a flash that is programmed word by word.
pub mod Written
use stlink.Base.{
  take-take, take-all, drop-take, ℕ, zero, suc, ◌+◌, ◌-◌, ◌*◌, ◌/◌, ◌%◌, ◌^◌, ◌<◌, ◌≤◌, ◌≡◌, ◌∙◌,
  refl, sym, ap, Bool, Bool-cases, inl, inr, true, false, ◌==◌, ltb, ltb→lt, ltb→le, Option, none,
  some, List, [], ◌∷◌, take, drop, add32, arith, if◌then◌else◌,
}
use stlink.Target.{
  Access, Trace, FlashType, l5_u5_h5, unknown, Bank, Status, World, Hardware, ◌>>=◌, ◌>>◌, pure,
  gets, skip,
}
use stlink.Target.Ends.{Ends, stays_rules, after_eq}
use stlink.Target.Leads.{Leads, Ends-Leads, Leads-pure, Leads-none, Leads-bind}
use stlink.Access.{load, store, read_debug32, write_debug32, read_uint32}
use stlink.Flash.Status.{
  read_sr_at, read_flash_sr, busy_at, is_flash_busy, wait_flash_busy, read_errors,
  check_flash_error,
}
use stlink.Flash.Verify.Memory.{drop-drop}
use stlink.Loader.Write.{next_word, written_length, write_words, write_by_words}

-- The words that were written over the debug port, the latest first.
unfoldable pub debug_writes : Trace → List (ℕ × ℕ)
debug_writes [] = []
debug_writes (Access.write_debug32 a v ∷ t) = (a, v) ∷ debug_writes t
debug_writes (_ ∷ t) = debug_writes t

-- `n` little-endian words of the data, from an address on, put on a list one after the other.
unfoldable pub put_words : ℕ → ℕ → List ℕ → List (ℕ × ℕ) → List (ℕ × ℕ)
put_words zero addr bytes ws = ws
put_words (suc n) addr bytes ws =
    put_words n (addr + 4) (drop 4 bytes) ((addr, read_uint32 (take 4 bytes) 0) ∷ ws)

-- Words go in pairs: an odd number of them is followed by a word of zeros.
unfoldable pub put_pad : ℕ → ℕ → List (ℕ × ℕ) → List (ℕ × ℕ)
put_pad n addr ws = if n % 2 == 0 then ws else (addr + 4 * n, 0) ∷ ws

abbrev pub word_count : ℕ → ℕ
word_count len = (len + 3) / 4

next_word-take :
    (base : List ℕ) (len off : ℕ)
    → next_word base len off ≡ read_uint32 (take 4 (take (len - off) (drop off base))) 0
unfolding next_word
next_word-take base len off = elim (Bool-cases (ltb 4 (len - off))) [
  | inl e ↦
      let lt = ltb→lt 4 (len - off) e in
      rw (e, take-take 4 (len - off) (drop off base) (omega arith)) refl
  | inr e ↦
      let le = ltb→le 4 (len - off) e in
      rw (e, take-all 4 (len - off) (drop off base) (omega arith)) refl
]

-- The first of the words that are left.
pub put_words-next :
    (addr len off : ℕ) (base : List ℕ) (ws : List (ℕ × ℕ))
    → off < len
    → put_words (word_count (len - off)) (addr + off) (take (len - off) (drop off base)) ws
      ≡ put_words
          (word_count (len - (off + 4)))
          (addr + (off + 4))
          (take (len - (off + 4)) (drop (off + 4) base))
          ((addr + off, next_word base len off) ∷ ws)
unfolding put_words
put_words-next addr len off base ws lt =
    let k : ℕ = word_count (len - (off + 4)) in
    let bs : List ℕ = take (len - off) (drop off base) in
    let v : ℕ = read_uint32 (take 4 bs) 0 in
    let count : word_count (len - off) ≡ suc k = omega arith in
    let left : len - off - 4 ≡ len - (off + 4) = omega arith in
    let sum : addr + off + 4 ≡ addr + (off + 4) = omega arith in
    let rest : drop 4 bs ≡ take (len - (off + 4)) (drop (off + 4) base) =
      drop-take 4 (len - off) (drop off base)
      ∙ rw left (ap (λ (xs : List ℕ). take (len - (off + 4)) xs) (drop-drop 4 off base)) in
    ap (λ (n : ℕ). put_words n (addr + off) bs ws) count
    ∙ ap (λ (a : ℕ). put_words k a (drop 4 bs) ((addr + off, v) ∷ ws)) sum
    ∙ ap (λ (xs : List ℕ). put_words k (addr + (off + 4)) xs ((addr + off, v) ∷ ws)) rest
    ∙ ap
        (λ (x : ℕ).
          put_words k (addr + (off + 4)) (take (len - (off + 4)) (drop (off + 4) base))
            ((addr + off, x) ∷ ws))
        (sym (next_word-take base len off))
