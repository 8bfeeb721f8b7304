-- ===== src/Access/Words.antt =====
-- The word codecs of src/stlink-lib/read_write.c, one after the other.
use stlink.Base.{
  ℕ, suc, ◌+◌, ◌*◌, ◌^◌, ◌<◌, ◌≡◌, refl, ap, ◌∙◌, List, [], ◌∷◌, ◌++◌, length, get_or, bit_or_join,
  arith,
}
use stlink.Access.{read_uint16, write_uint16, read_uint32, write_uint32}

get_or-append :
    (before rest : List ℕ) (i : ℕ) → get_or (before ++ rest) (length before + i) 0 ≡ get_or rest i 0
get_or-append [] rest i = ap (λ (n : ℕ). get_or rest n 0) (omega arith)
get_or-append (c ∷ before) rest i =
    let e : length (c ∷ before) + i ≡ suc (length before + i) = omega arith in
    ap (λ (n : ℕ). get_or (c ∷ (before ++ rest)) n 0) e ∙ get_or-append before rest i

read_uint32-bytes :
    (c : List ℕ) (pt b0 b1 b2 b3 : ℕ)
    → get_or c pt 0 ≡ b0
    → get_or c (pt + 1) 0 ≡ b1
    → get_or c (pt + 2) 0 ≡ b2
    → get_or c (pt + 3) 0 ≡ b3
    → b0 < 2 ^ 8
    → b1 < 2 ^ 8
    → b2 < 2 ^ 8
    → read_uint32 c pt ≡ b0 + b1 * 2 ^ 8 + b2 * 2 ^ 16 + b3 * 2 ^ 24
unfolding read_uint32
read_uint32-bytes c pt b0 b1 b2 b3 e0 e1 e2 e3 h0 h1 h2 =
    let two = bit_or_join 8 b0 b1 h0 in
    let three = bit_or_join 16 (b0 + b1 * 2 ^ 8) b2 (omega arith) in
    let four = bit_or_join 24 (b0 + b1 * 2 ^ 8 + b2 * 2 ^ 16) b3 (omega arith) in
    rw (e0, e1, e2, e3, two, three, four) refl

read_uint16-bytes :
    (c : List ℕ) (pt b0 b1 : ℕ)
    → get_or c pt 0 ≡ b0
    → get_or c (pt + 1) 0 ≡ b1
    → b0 < 2 ^ 8
    → read_uint16 c pt ≡ b0 + b1 * 2 ^ 8
unfolding read_uint16
read_uint16-bytes c pt b0 b1 e0 e1 h0 = rw (e0, e1) (bit_or_join 8 b0 b1 h0)

-- What `write_uint32` puts at an offset of a buffer, `read_uint32` reads there, for any uint32_t.
pub read_uint32-write_uint32 :
    (before after : List ℕ) (ui : ℕ)
    → ui < 2 ^ 32
    → read_uint32 (before ++ (write_uint32 ui ++ after)) (length before) ≡ ui
unfolding read_uint32 write_uint32
read_uint32-write_uint32 before after ui h =
    let here = get_or-append before (write_uint32 ui ++ after) in
    read_uint32-bytes _ (length before) _ _ _ _
      (ap (λ (n : ℕ). get_or (before ++ (write_uint32 ui ++ after)) n 0) (omega arith) ∙ here 0)
      (here 1) (here 2) (here 3) (omega arith) (omega arith) (omega arith)
    ∙ omega arith

-- The same of `write_uint16` and `read_uint16`, for any uint16_t.
pub read_uint16-write_uint16 :
    (before after : List ℕ) (ui : ℕ)
    → ui < 2 ^ 16
    → read_uint16 (before ++ (write_uint16 ui ++ after)) (length before) ≡ ui
unfolding read_uint16 write_uint16
read_uint16-write_uint16 before after ui h =
    let here = get_or-append before (write_uint16 ui ++ after) in
    read_uint16-bytes _ (length before) _ _
      (ap (λ (n : ℕ). get_or (before ++ (write_uint16 ui ++ after)) n 0) (omega arith) ∙ here 0)
      (here 1) (omega arith)
    ∙ omega arith
