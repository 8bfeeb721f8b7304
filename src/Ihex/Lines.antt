-- ===== src/Ihex/Lines.antt =====
-- The text of a record, and what `decode` makes of it.
use stlink.Base.{
  ℕ, zero, suc, ◌+◌, ◌-◌, ◌*◌, ◌/◌, ◌%◌, ◌^◌, ◌<◌, ◌≤◌, ◌≡◌, refl, ap, ◌∙◌, ◌==◌, true, false, ltb,
  bit_or_fields, List, [], ◌∷◌, ◌++◌, length, length-append, get_or, c_string, hex2, lines_of,
  passes_below, passed, ==_iff, ==_self, arith, upper_digit,
}
use mathlib.Core.List.{append_assoc}
use stlink.Ihex.{
  parse_pair, parse_hex, glue, trim, line_cksum, line_size, record_line, checked, decode,
}
use stlink.Ihex.Writer.{crlf, add_bytes}

-- Every byte is below 256.
abbrev pub AllBytes : List ℕ → Type 0
AllBytes [] = Unit {0}
AllBytes (b ∷ bs) = (b < 2 ^ 8) × AllBytes bs

-- Two digits of each byte.
abbrev pub hex_bytes : List ℕ → List ℕ
hex_bytes [] = []
hex_bytes (b ∷ bs) = hex2 b ++ hex_bytes bs

-- The `:`, the digits and the end of the line.
abbrev pub record_text : List ℕ → List ℕ
record_text bs = 58 ∷ (hex_bytes bs ++ crlf)

pair_table :
    passes_below (λ b. parse_pair (upper_digit (b / 2 ^ 4)) (upper_digit (b % 2 ^ 4)) == b) 256
    ≡ true
unfolding passes_below parse_pair
pair_table = refl

parse_pair-hex2 :
    (b : ℕ) → b < 2 ^ 8 → parse_pair (upper_digit (b / 2 ^ 4)) (upper_digit (b % 2 ^ 4)) ≡ b
parse_pair-hex2 b h = (==_iff _ b).0 (
    passed (λ n. parse_pair (upper_digit (n / 2 ^ 4)) (upper_digit (n % 2 ^ 4)) == n) 256 b h
      pair_table)

upper_digit_bounds : (n : ℕ) → n < 16 → (48 ≤ upper_digit n) × (upper_digit n < 71)
upper_digit_bounds n h = ground arith

-- No byte of the list is the end of a line, a NUL or a blank.
abbrev HasDigits : List ℕ → Type 0
HasDigits [] = Unit {0}
HasDigits (c ∷ cs) = (48 ≤ c) × HasDigits cs

hex_bytes-HasDigits : (bs : List ℕ) → AllBytes bs → HasDigits (hex_bytes bs)
hex_bytes-HasDigits [] h = tt
hex_bytes-HasDigits (b ∷ bs) (lt, h) = (
  (upper_digit_bounds (b / 2 ^ 4) (omega arith)).0,
  ((upper_digit_bounds (b % 2 ^ 4) (omega arith)).0, hex_bytes-HasDigits bs h),
)

pub length-hex_bytes : (bs : List ℕ) → length (hex_bytes bs) ≡ 2 * length bs
length-hex_bytes [] = omega arith
length-hex_bytes (b ∷ bs) = omega (arith, length-hex_bytes bs)

pub hex_bytes-append : (bs cs : List ℕ) → hex_bytes (bs ++ cs) ≡ hex_bytes bs ++ hex_bytes cs
hex_bytes-append [] cs = refl
hex_bytes-append (b ∷ bs) cs = rw (hex_bytes-append bs cs) refl

c_string-digits : (cs : List ℕ) → HasDigits cs → c_string (cs ++ crlf) ≡ cs ++ crlf
c_string-digits [] h = refl
c_string-digits (zero ∷ cs) (le, h) = absurd (omega arith)
c_string-digits (suc c ∷ cs) (le, h) = ap (λ (t : List ℕ). suc c ∷ t) (c_string-digits cs h)

glue-digit : (c : ℕ) (cs : List ℕ) → 48 ≤ c → glue c cs ≡ c ∷ cs
glue-digit c [] h = ground arith
glue-digit c (d ∷ cs) h = refl

trim-digits : (cs : List ℕ) → HasDigits cs → trim (cs ++ crlf) ≡ cs
trim-digits [] h = refl
trim-digits (c ∷ cs) (le, h) = rw (trim-digits cs h) (glue-digit c cs le)

line_cksum-hex_bytes :
    (k : ℕ) (bs : List ℕ) → AllBytes bs → line_cksum k (hex_bytes bs) ≡ add_bytes k bs
unfolding line_cksum
line_cksum-hex_bytes k [] h = refl
line_cksum-hex_bytes k (b ∷ bs) (lt, h) =
    rw (parse_pair-hex2 b lt) (line_cksum-hex_bytes ((k + b) % 2 ^ 8) bs h)

-- The digits of the `i`th byte are read as that byte.
pub parse_hex-hex_bytes :
    (c : ℕ) (bs : List ℕ) (i : ℕ)
    → AllBytes bs
    → i < length bs
    → parse_hex (c ∷ hex_bytes bs) (1 + i * 2) ≡ get_or bs i 0
parse_hex-hex_bytes c [] i h lt = absurd (omega arith)
parse_hex-hex_bytes c (b ∷ bs) zero (small, h) lt = parse_pair-hex2 b small
parse_hex-hex_bytes c (b ∷ bs) (suc i) (small, h) lt =
    let e : 1 + suc i * 2 ≡ suc (suc (1 + i * 2)) = omega arith in
    let f : suc (suc (1 + i * 2)) + 1 ≡ suc (suc (1 + i * 2 + 1)) = omega arith in
    ap (λ (n : ℕ). parse_hex (c ∷ hex_bytes (b ∷ bs)) n) e
    ∙ ap
        (λ (n : ℕ).
          parse_pair (get_or (upper_digit (b % 2 ^ 4) ∷ hex_bytes bs) (1 + i * 2) 0)
            (get_or (c ∷ hex_bytes (b ∷ bs)) n 0))
        f
    ∙ parse_hex-hex_bytes (upper_digit (b % 2 ^ 4)) bs i h (omega arith)

size_long : (count : ℕ) → ltb ((count + 5) * 2 + 1) 11 ≡ false
size_long count = ground arith

size_odd : (count : ℕ) → ((count + 5) * 2 + 1 == line_size - 1) ≡ false
size_odd count = ground arith

-- A record whose bytes fit its length and add up to 0 is read as the bytes say.
pub decode-record_text :
    (count hi lo ty : ℕ) (payload : List ℕ)
    → AllBytes (count ∷ hi ∷ lo ∷ ty ∷ payload)
    → length payload ≡ count + 1
    → add_bytes 0 (count ∷ hi ∷ lo ∷ ty ∷ payload) ≡ 0
    → decode (record_text (count ∷ hi ∷ lo ∷ ty ∷ payload))
      ≡ record_line count (hi * 2 ^ 8 + lo) ty (58 ∷ hex_bytes (count ∷ hi ∷ lo ∷ ty ∷ payload))
unfolding decode checked
decode-record_text count hi lo ty payload h e sum =
    let bs : List ℕ = count ∷ hi ∷ lo ∷ ty ∷ payload in
    let digits : HasDigits (58 ∷ hex_bytes bs) = (omega arith, hex_bytes-HasDigits bs h) in
    let n : length (58 ∷ hex_bytes bs) ≡ (count + 5) * 2 + 1 =
      omega (arith, length-hex_bytes payload, e) in
    let clean : (line_cksum 0 (hex_bytes bs) == 0) ≡ true =
      ap (λ (k : ℕ). k == 0) (line_cksum-hex_bytes 0 bs h ∙ sum) in
    ap (λ (t : List ℕ). checked (trim t)) (c_string-digits (58 ∷ hex_bytes bs) digits)
    ∙ ap checked (trim-digits (58 ∷ hex_bytes bs) digits)
    ∙ rw
        (
          parse_hex-hex_bytes 58 bs 0 h (omega arith),
          parse_hex-hex_bytes 58 bs 1 h (omega arith),
          parse_hex-hex_bytes 58 bs 2 h (omega arith),
          parse_hex-hex_bytes 58 bs 3 h (omega arith),
          n,
          size_long count,
          size_odd count,
          clean,
          ==_self ((count + 5) * 2 + 1),
          bit_or_fields 8 lo hi h.1.1.0,
        )
        refl

lines_of-inside :
    (size c : ℕ) (line cs : List ℕ)
    → (c == 10) ≡ false
    → length line + 2 < size
    → lines_of size line (c ∷ cs) ≡ lines_of size (line ++ (c ∷ [])) cs
unfolding lines_of
lines_of-inside size c [] cs other short =
    let room : (2 == size) ≡ false = ground arith in rw (lines_of, other, room) refl
lines_of-inside size c (d ∷ line) cs other short =
    let room : (suc (length line) + 2 == size) ≡ false = ground arith in
    rw (lines_of, other, room) refl

-- `fgets` reads digits up to the end of their line.
lines_of-digits :
    (size : ℕ) (line cs rest : List ℕ)
    → HasDigits cs
    → length line + length cs + 3 < size
    → lines_of size line ((cs ++ crlf) ++ rest) ≡ (line ++ (cs ++ crlf)) ∷ lines_of size [] rest
unfolding lines_of
lines_of-digits size line [] rest h short =
    lines_of-inside size 13 line (10 ∷ rest) refl (omega arith)
    ∙ ap (λ (t : List ℕ). t ∷ lines_of size [] rest) (append_assoc line (13 ∷ []) (10 ∷ []))
lines_of-digits size line (c ∷ cs) rest (le, h) short =
    lines_of-inside size c line ((cs ++ crlf) ++ rest) (ground arith) (omega arith)
    ∙ lines_of-digits size (line ++ (c ∷ [])) cs rest h (omega (arith, length-append line (c ∷ [])))
    ∙ ap (λ (t : List ℕ). t ∷ lines_of size [] rest) (append_assoc line (c ∷ []) (cs ++ crlf))

-- `fgets` reads a record of at most 258 bytes as one line.
pub lines_of-record_text :
    (bs rest : List ℕ)
    → AllBytes bs
    → length bs ≤ 258
    → lines_of line_size [] (record_text bs ++ rest) ≡ record_text bs ∷ lines_of line_size [] rest
lines_of-record_text bs rest h short =
    lines_of-digits line_size [] (58 ∷ hex_bytes bs) rest (omega arith, hex_bytes-HasDigits bs h)
      (omega (arith, length-hex_bytes bs))
