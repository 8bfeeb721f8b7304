-- ===== src/Ihex/Scans.antt =====
-- The two scans of `stlink_parse_ihex` over a file that grows record by record.
use stlink.Base.{
  ℕ, zero, suc, ◌+◌, ◌-◌, ◌*◌, ◌^◌, ◌<◌, ◌≤◌, ◌≡◌, refl, sym, ap, ◌∙◌, true, false, Option, none,
  some, Option-cases, inl, inr, List, [], ◌∷◌, ◌++◌, length, get_or, replicate, add32, sub32, ltb,
  leb, length-append, if◌then◌else◌, arith,
}
use mathlib.Core.List.{append_assoc, append-nil}
use stlink.Ihex.{
  parse_hex, decode, Span, extend, span_line, span_lines, Fill, set, place, fill_bytes, fill_line,
  fill_lines,
}

-- The first scan goes on with further lines.
unfoldable pub then_span : Option Span → List (List ℕ) → Option Span
then_span none ms = none
then_span (some s) ms = span_lines s ms

pub span_lines-append :
    (s : Span) (ls ms : List (List ℕ)) → span_lines s (ls ++ ms) ≡ then_span (span_lines s ls) ms
unfolding span_lines then_span
span_lines-append s [] ms = refl
span_lines-append s (l ∷ ls) ms = elim (Option-cases (span_line s (decode l))) [
  | inl e ↦ rw (span_lines, e) refl
  | inr (v, e) ↦ rw (span_lines, e) (span_lines-append v ls ms)
]

unfoldable pub then_fill : ℕ → ℕ → Option Fill → List (List ℕ) → Option Fill
then_fill begin end none ms = none
then_fill begin end (some s) ms = fill_lines begin end s ms

pub fill_lines-append :
    (begin end : ℕ) (s : Fill) (ls ms : List (List ℕ))
    → fill_lines begin end s (ls ++ ms) ≡ then_fill begin end (fill_lines begin end s ls) ms
unfolding fill_lines then_fill
fill_lines-append begin end s [] ms = refl
fill_lines-append begin end s (l ∷ ls) ms = elim (Option-cases (fill_line begin end s (decode l))) [
  | inl e ↦ rw (fill_lines, e) refl
  | inr (v, e) ↦ rw (fill_lines, e) (fill_lines-append begin end v ls ms)
]

-- What the first scan has found when `n` bytes from `start` on were read.
abbrev pub span_of : ℕ → ℕ → ℕ → Span
span_of start lba zero = record { lba = lba; begin = 0xffffffff; end = 0; eof_found = false }
span_of start lba (suc n) = record { lba = lba; begin = start; end = start + n; eof_found = false }

least : (start b m : ℕ) → b ≡ start → start ≤ m → (if ltb b m then b else m) ≡ start
least start b m e le = ground arith

kept : (start b n : ℕ) → b ≡ start + n → (if ltb b start then b else start) ≡ start
kept start b n e = ground arith

greatest : (old new e : ℕ) → e ≡ new → old ≤ new → (if ltb old e then e else old) ≡ new
greatest old new e f le = ground arith

-- A data record of `k` bytes behind `n` bytes.
pub extend-span_of :
    (start lba offset n k m : ℕ)
    → m ≡ n + k
    → lba + offset ≡ start + n
    → start + (n + suc k) ≤ 2 ^ 32
    → extend (span_of start lba n) (suc k) offset ≡ span_of start lba (suc m)
extend-span_of start lba offset zero k m f e le =
    rw
      (
        least start (add32 lba offset) 0xffffffff (omega arith) (omega arith),
        greatest 0 (start + m) (sub32 (add32 (add32 lba offset) (suc k)) 1) (omega arith)
            (omega arith),
      )
      refl
extend-span_of start lba offset (suc n) k m f e le =
    rw
      (
        kept start (add32 lba offset) (suc n) (omega arith),
        greatest (start + n) (start + m) (sub32 (add32 (add32 lba offset) (suc k)) 1) (omega arith)
            (omega arith),
      )
      refl

set-append :
    (pre : List ℕ) (x : ℕ) (rest : List ℕ) (v : ℕ)
    → set (pre ++ (x ∷ rest)) (length pre) v ≡ (pre ++ (v ∷ [])) ++ rest
set-append [] x rest v = refl
set-append (p ∷ pre) x rest v = ap (λ (t : List ℕ). p ∷ t) (set-append pre x rest v)

place-inside :
    (begin end addr n b : ℕ) (memory : List ℕ)
    → addr ≡ begin + n
    → addr ≤ end
    → place begin end addr b memory ≡ set memory n b
place-inside begin end addr n b memory e le =
    let d : addr - begin ≡ n = omega arith in
    let below : leb begin addr ≡ true = ground arith in
    let above : leb addr end ≡ true = ground arith in rw (below, above, d) refl

-- The bytes of a record land behind those before it.
pub fill_bytes-todo :
    (begin end addr i k erased : ℕ) (t todo pre : List ℕ)
    → ((j : ℕ) → j < length todo → parse_hex t (9 + (i + j) * 2) ≡ get_or todo j 0)
    → addr + i ≡ begin + length pre
    → addr + i + length todo ≤ end + 1
    → end < 2 ^ 32
    → fill_bytes begin end addr t (length todo) i (pre ++ replicate (length todo + k) erased)
      ≡ (pre ++ todo) ++ replicate k erased
unfolding fill_bytes
fill_bytes-todo begin end addr i k erased t [] pre reads at fits top =
    let e : 0 + k ≡ k = omega arith in
    ap (λ (n : ℕ). pre ++ replicate n erased) e
    ∙ ap (λ (q : List ℕ). q ++ replicate k erased) (sym (append-nil pre))
fill_bytes-todo begin end addr i k erased t (b ∷ todo) pre reads at fits top =
    let n : suc (length todo) + k ≡ suc (length todo + k) = omega arith in
    let first : parse_hex t (9 + i * 2) ≡ b =
      ap (λ (x : ℕ). parse_hex t x) (omega arith) ∙ reads 0 (omega arith) in
    let later : (j : ℕ) → j < length todo → parse_hex t (9 + (i + 1 + j) * 2) ≡ get_or todo j 0 =
      λ j lt. ap (λ (x : ℕ). parse_hex t x) (omega arith) ∙ reads (suc j) (omega arith) in
    ap
      (λ (x : ℕ).
        fill_bytes begin end addr t (length todo) (i + 1)
          (place begin end (add32 addr i) (parse_hex t (9 + i * 2)) (pre ++ replicate x erased)))
      n
    ∙ ap (λ (q : List ℕ). fill_bytes begin end addr t (length todo) (i + 1) q)
        (ap
            (λ (x : ℕ).
              place begin end (add32 addr i) x (pre ++ replicate (suc (length todo + k)) erased))
            first
          ∙ place-inside begin end (add32 addr i) (length pre) b _ (omega arith) (omega arith)
          ∙ set-append pre erased (replicate (length todo + k) erased) b)
    ∙ fill_bytes-todo begin end addr (i + 1) k erased t todo (pre ++ (b ∷ [])) later
        (omega (arith, length-append pre (b ∷ []))) (omega arith) top
    ∙ ap (λ (q : List ℕ). q ++ replicate k erased) (append_assoc pre (b ∷ []) todo)
