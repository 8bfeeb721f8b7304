-- ===== src/Ihex/Records.antt =====
-- The records that `stlink_fread_ihex_newsegment` and `stlink_fread_ihex_writeline` print, as the
-- parser decodes them.
use stlink.Base.{
  ℕ, zero, suc, ◌+◌, ◌*◌, ◌/◌, ◌%◌, ◌^◌, ◌<◌, ◌≡◌, refl, sym, ap, ◌∙◌, List, [], ◌∷◌, ◌++◌, length,
  length-append, get_or, bit_or_fields, hex2, arith,
}
use mathlib.Core.List.{append_assoc}
use stlink.Ihex.{parse_hex, decode, record_line, linear_address}
use stlink.Ihex.Writer.{crlf, segment, negated, segment_text, add_bytes, line_head, line_tail}
use stlink.Ihex.Lines.{
  AllBytes, hex_bytes, hex_bytes-append, record_text, parse_hex-hex_bytes, decode-record_text,
}

negated_fits : (sum : ℕ) → negated sum < 2 ^ 8
negated_fits sum = omega arith

-- The bytes of an extended linear address record.
abbrev pub segment_bytes : ℕ → List ℕ
segment_bytes addr =
    let hi = addr / 2 ^ 16 % 2 ^ 16 / 2 ^ 8 in
    let lo = addr / 2 ^ 16 % 2 ^ 16 % 2 ^ 8 in
    2
    ∷ 0
    ∷ 0
    ∷ 4
    ∷ hi
    ∷ lo
    ∷ negated ((2 + 4 + addr / 2 ^ 24 % 2 ^ 8 + addr / 2 ^ 16 % 2 ^ 8) % 2 ^ 8)
    ∷ []

-- The bytes of a data record.
abbrev pub data_bytes : ℕ → List ℕ → List ℕ
data_bytes addr buf =
    let sum = (length buf + addr / 2 ^ 8 % 2 ^ 8 + addr % 2 ^ 8) % 2 ^ 8 in
    length buf
    ∷ addr % 2 ^ 16 / 2 ^ 8
    ∷ addr % 2 ^ 16 % 2 ^ 8
    ∷ 0
    ∷ (buf ++ (negated (add_bytes sum buf) ∷ []))

abbrev pub eof_bytes : List ℕ
eof_bytes = 0 ∷ 0 ∷ 0 ∷ 1 ∷ 255 ∷ []

pub segment_text-record : (addr : ℕ) → segment_text addr ≡ record_text (segment_bytes addr)
segment_text-record addr = refl

pub segment-AllBytes : (addr : ℕ) → AllBytes (segment_bytes addr)
segment-AllBytes addr = (
  omega arith,
  (omega arith, (omega arith, (omega arith, (omega arith, (omega arith, (negated_fits _, tt)))))),
)

segment_sum : (addr : ℕ) → add_bytes 0 (segment_bytes addr) ≡ 0
segment_sum addr = omega arith

pub decode-segment :
    (addr : ℕ)
    → decode (record_text (segment_bytes addr))
      ≡ record_line 2 0 4 (58 ∷ hex_bytes (segment_bytes addr))
decode-segment addr =
    let hi = addr / 2 ^ 16 % 2 ^ 16 / 2 ^ 8 in
    let lo = addr / 2 ^ 16 % 2 ^ 16 % 2 ^ 8 in
    let sum = (2 + 4 + addr / 2 ^ 24 % 2 ^ 8 + addr / 2 ^ 16 % 2 ^ 8) % 2 ^ 8 in
    decode-record_text 2 0 0 4 (hi ∷ lo ∷ negated sum ∷ []) (segment-AllBytes addr) refl
      (segment_sum addr)

pub linear_address-segment :
    (addr : ℕ) → addr < 2 ^ 32 → linear_address (58 ∷ hex_bytes (segment_bytes addr)) ≡ segment addr
linear_address-segment addr small =
    let hi = addr / 2 ^ 16 % 2 ^ 16 / 2 ^ 8 in
    let lo = addr / 2 ^ 16 % 2 ^ 16 % 2 ^ 8 in
    rw
      (
        parse_hex-hex_bytes 58 (segment_bytes addr) 4 (segment-AllBytes addr) (omega arith),
        parse_hex-hex_bytes 58 (segment_bytes addr) 5 (segment-AllBytes addr) (omega arith),
        bit_or_fields 24 (lo * 2 ^ 16) hi (omega arith),
      )
      (omega arith)

pub AllBytes-append : (bs cs : List ℕ) → AllBytes bs → AllBytes cs → AllBytes (bs ++ cs)
AllBytes-append [] cs h g = g
AllBytes-append (b ∷ bs) cs (lt, h) g = (lt, AllBytes-append bs cs h g)

pub AllBytes-left : (bs cs : List ℕ) → AllBytes (bs ++ cs) → AllBytes bs
AllBytes-left [] cs h = tt
AllBytes-left (b ∷ bs) cs (lt, h) = (lt, AllBytes-left bs cs h)

pub AllBytes-right : (bs cs : List ℕ) → AllBytes (bs ++ cs) → AllBytes cs
AllBytes-right [] cs h = h
AllBytes-right (b ∷ bs) cs (lt, h) = AllBytes-right bs cs h

pub data_AllBytes :
    (addr : ℕ) (buf : List ℕ) → AllBytes buf → length buf < 2 ^ 8 → AllBytes (data_bytes addr buf)
data_AllBytes addr buf h small = (
  small,
  (omega arith, (omega arith, (omega arith, AllBytes-append buf _ h (negated_fits _, tt)))),
)

-- The checksum makes the sum of the record 0.
add_bytes-negated :
    (k : ℕ) (bs : List ℕ) → k < 2 ^ 8 → add_bytes k (bs ++ (negated (add_bytes k bs) ∷ [])) ≡ 0
add_bytes-negated k [] small = omega arith
add_bytes-negated k (b ∷ bs) small = add_bytes-negated ((k + b) % 2 ^ 8) bs (omega arith)

data_sum : (addr : ℕ) (buf : List ℕ) → add_bytes 0 (data_bytes addr buf) ≡ 0
data_sum addr buf =
    let sum : ℕ = (length buf + addr / 2 ^ 8 % 2 ^ 8 + addr % 2 ^ 8) % 2 ^ 8 in
    let e : ((((0 + length buf) % 2 ^ 8 + addr % 2 ^ 16 / 2 ^ 8) % 2 ^ 8 + addr % 2 ^ 16 % 2 ^ 8)
              % 2 ^ 8
            + 0)
          % 2 ^ 8
        ≡ sum =
      omega arith in
    ap (λ (k : ℕ). add_bytes k (buf ++ (negated (add_bytes sum buf) ∷ []))) e
    ∙ add_bytes-negated sum buf (omega arith)

pub decode-data :
    (addr : ℕ) (buf : List ℕ)
    → AllBytes buf
    → length buf < 2 ^ 8
    → decode (record_text (data_bytes addr buf))
      ≡ record_line (length buf) (addr % 2 ^ 16) 0 (58 ∷ hex_bytes (data_bytes addr buf))
decode-data addr buf h small =
    let sum : ℕ = (length buf + addr / 2 ^ 8 % 2 ^ 8 + addr % 2 ^ 8) % 2 ^ 8 in
    let offset : addr % 2 ^ 16 / 2 ^ 8 * 2 ^ 8 + addr % 2 ^ 16 % 2 ^ 8 ≡ addr % 2 ^ 16 =
      omega arith in
    decode-record_text (length buf) (addr % 2 ^ 16 / 2 ^ 8) (addr % 2 ^ 16 % 2 ^ 8) 0 _
      (data_AllBytes addr buf h small) (length-append buf (negated (add_bytes sum buf) ∷ []))
      (data_sum addr buf)
    ∙ ap (λ (o : ℕ). record_line (length buf) o 0 (58 ∷ hex_bytes (data_bytes addr buf))) offset

-- The parts of a line make a record.
pub line_text-record :
    (addr : ℕ) (buf : List ℕ)
    → line_head addr buf ++ (hex_bytes buf ++ line_tail addr buf)
      ≡ record_text (data_bytes addr buf)
line_text-record addr buf =
    let sum : ℕ = (length buf + addr / 2 ^ 8 % 2 ^ 8 + addr % 2 ^ 8) % 2 ^ 8 in
    let ck : ℕ = negated (add_bytes sum buf) in
    ap (λ (t : List ℕ). line_head addr buf ++ t)
      (sym (append_assoc (hex_bytes buf) (hex2 ck) crlf)
        ∙ ap (λ (t : List ℕ). t ++ crlf) (sym (hex_bytes-append buf (ck ∷ []))))

get_or-append : (xs ys : List ℕ) (i : ℕ) → i < length xs → get_or (xs ++ ys) i 0 ≡ get_or xs i 0
get_or-append [] ys i lt = absurd (omega arith)
get_or-append (x ∷ xs) ys zero lt = refl
get_or-append (x ∷ xs) ys (suc i) lt = get_or-append xs ys i (omega arith)

-- The byte of a data record at index `i`.
pub parse_hex-data :
    (addr : ℕ) (buf : List ℕ) (i : ℕ)
    → AllBytes buf
    → length buf < 2 ^ 8
    → i < length buf
    → parse_hex (58 ∷ hex_bytes (data_bytes addr buf)) (9 + i * 2) ≡ get_or buf i 0
parse_hex-data addr buf i h small lt =
    let bs : List ℕ = data_bytes addr buf in
    let e : 9 + i * 2 ≡ 1 + suc (suc (suc (suc i))) * 2 = omega arith in
    let sum : ℕ = (length buf + addr / 2 ^ 8 % 2 ^ 8 + addr % 2 ^ 8) % 2 ^ 8 in
    let ck : ℕ = negated (add_bytes sum buf) in
    ap (λ (n : ℕ). parse_hex (58 ∷ hex_bytes bs) n) e
    ∙ parse_hex-hex_bytes 58 bs (suc (suc (suc (suc i)))) (data_AllBytes addr buf h small)
        (omega (arith, length-append buf (ck ∷ [])))
    ∙ get_or-append buf (ck ∷ []) i lt

pub length-data : (addr : ℕ) (buf : List ℕ) → length (data_bytes addr buf) ≡ length buf + 5
length-data addr buf =
    let sum : ℕ = (length buf + addr / 2 ^ 8 % 2 ^ 8 + addr % 2 ^ 8) % 2 ^ 8 in
    omega (arith, length-append buf (negated (add_bytes sum buf) ∷ []))
