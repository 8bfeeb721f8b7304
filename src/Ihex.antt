-- ===== src/Ihex.antt =====
-- src/stlink-lib/common.c: Intel HEX files, read by `stlink_parse_ihex`.
pub mod Writer
pub mod Lines
pub mod Records
pub mod Scans
pub mod Reads
pub mod Written
pub mod RoundTrip
use stlink.Base.{
  ℕ, zero, suc, ◌+◌, ◌-◌, ◌*◌, ◌%◌, ◌^◌, ◌==◌, Bool, true, false, not, ◌&&◌, ◌||◌, ltb, leb, Option,
  none, some, List, [], ◌∷◌, ◌++◌, length, get_or, drop, replicate, bit_or, add32, sub32, c_string,
  lines_of, if◌then◌else◌,
}

abbrev pub digit_value : ℕ → Option ℕ
digit_value c =
    if leb 48 c && leb c 57
    then some (c - 48)
    else if leb 65 c && leb c 70
    then some (c - 65 + 10)
    else if leb 97 c && leb c 102
    then some (c - 97 + 10)
    else none

-- The two digits of `stlink_parse_hex`, 0 where one is no digit.
unfoldable pub parse_pair : ℕ → ℕ → ℕ
parse_pair c d = elim (digit_value c) [
  | none ↦ 0
  | some hi ↦ elim (digit_value d) [ none ↦ 0 | some lo ↦ bit_or (hi * 2 ^ 4) lo ]
]

-- Behind the end of a line stands no digit.
abbrev pub parse_hex : List ℕ → ℕ → ℕ
parse_hex line i = parse_pair (get_or line i 0) (get_or line (i + 1) 0)

abbrev pub is_eol : ℕ → Bool
is_eol c = (c == 10) || (c == 13)

abbrev pub glue : ℕ → List ℕ → List ℕ
glue c [] = if is_eol c then [] else c ∷ []
glue c (d ∷ rest) = c ∷ d ∷ rest

-- The line without the end-of-line bytes at its end.
abbrev pub trim : List ℕ → List ℕ
trim [] = []
trim (c ∷ cs) = glue c (trim cs)

-- `for (i = 1; i < l; i += 2) chksum += stlink_parse_hex(line + i);`
unfoldable pub line_cksum : ℕ → List ℕ → ℕ
line_cksum chksum [] = chksum
line_cksum chksum (c ∷ []) = (chksum + parse_pair c 0) % 2 ^ 8
line_cksum chksum (c ∷ d ∷ cs) = line_cksum ((chksum + parse_pair c d) % 2 ^ 8) cs

-- `sizeof(line)`
abbrev pub line_size : ℕ
line_size = 523

-- A line that is skipped, one that is refused, and the length, offset and type of a record with
-- the trimmed line.
pub data Line : Type 0 where
  blank malformed : Line
  record_line : ℕ → ℕ → ℕ → List ℕ → Line

unfoldable pub checked : List ℕ → Line
checked t =
    let reclen = parse_hex t 1 in
    if ltb (length t) 11 || (length t == line_size - 1)
    then malformed
    else if not (line_cksum 0 (drop 1 t) == 0)
    then malformed
    else if not ((reclen + 5) * 2 + 1 == length t)
    then malformed
    else record_line reclen (bit_or (parse_hex t 3 * 2 ^ 8) (parse_hex t 5)) (parse_hex t 7) t

unfoldable pub decode : List ℕ → Line
decode line =
    let first = get_or line 0 0 in
    if is_eol first
    then blank
    else if not (first == 58)
    then malformed
    else checked (trim (c_string line))

-- The state of the first scan.
pub record Span : Type 0 where
  pub lba : ℕ
  pub begin : ℕ
  pub end : ℕ
  pub eof_found : Bool

abbrev pub extend : Span → ℕ → ℕ → Span
extend s reclen offset =
    let b = add32 s.lba offset in
    let e = sub32 (add32 b reclen) 1 in
    record s {
      begin = if ltb b s.begin then b else s.begin;
      end = if ltb s.end e then e else s.end;
    }

-- The address of an extended linear address record.
abbrev pub linear_address : List ℕ → ℕ
linear_address t = bit_or (parse_hex t 9 * 2 ^ 24) (parse_hex t 11 * 2 ^ 16)

-- One record in the first scan: data, end of file, linear address; the start address is ignored,
-- and any other type is refused.
unfoldable pub span_record : Span → ℕ → ℕ → ℕ → List ℕ → Option Span
span_record s reclen offset rectype t =
    if rectype == 0
    then some (extend s reclen offset)
    else if rectype == 1
    then some (record s { eof_found = true })
    else if rectype == 4
    then (if reclen == 2 then some (record s { lba = linear_address t }) else none)
    else if rectype == 5
    then some s
    else none

abbrev pub span_line : Span → Line → Option Span
span_line s blank = some s
span_line s malformed = none
span_line s (record_line reclen offset rectype t) = span_record s reclen offset rectype t

unfoldable pub span_lines : Span → List (List ℕ) → Option Span
span_lines s [] = some s
span_lines s (line ∷ rest) = elim (span_line s (decode line)) [
  | none ↦ none
  | some s' ↦ span_lines s' rest
]

-- The state of the second scan.
pub record Fill : Type 0 where
  pub lba : ℕ
  pub memory : List ℕ

abbrev pub set {ℓ} : {A : Type ℓ} → List A → ℕ → A → List A
set [] i v = []
set (x ∷ xs) zero v = v ∷ xs
set (x ∷ xs) (suc i) v = x ∷ set xs i v

-- `if (addr >= *begin && addr <= end) data[addr - *begin] = b;`
abbrev pub place : ℕ → ℕ → ℕ → ℕ → List ℕ → List ℕ
place begin end addr b memory =
    if leb begin addr && leb addr end then set memory (addr - begin) b else memory

-- The bytes of a record from the `i`th on, `count` of them.
unfoldable pub fill_bytes : ℕ → ℕ → ℕ → List ℕ → ℕ → ℕ → List ℕ → List ℕ
fill_bytes begin end addr t zero i memory = memory
fill_bytes begin end addr t (suc count) i memory =
    fill_bytes begin end addr t count (i + 1)
      (place begin end (add32 addr i) (parse_hex t (9 + i * 2)) memory)

unfoldable pub fill_record : ℕ → ℕ → Fill → ℕ → ℕ → ℕ → List ℕ → Option Fill
fill_record begin end s reclen offset rectype t =
    if rectype == 0
    then some (record s { memory = fill_bytes begin end (add32 s.lba offset) t reclen 0 s.memory })
    else if rectype == 1
    then some s
    else if rectype == 4
    then (if reclen == 2 then some (record s { lba = linear_address t }) else none)
    else if rectype == 5
    then some s
    else none

abbrev pub fill_line : ℕ → ℕ → Fill → Line → Option Fill
fill_line begin end s blank = some s
fill_line begin end s malformed = none
fill_line begin end s (record_line reclen offset rectype t) =
    fill_record begin end s reclen offset rectype t

unfoldable pub fill_lines : ℕ → ℕ → Fill → List (List ℕ) → Option Fill
fill_lines begin end s [] = some s
fill_lines begin end s (line ∷ rest) = elim (fill_line begin end s (decode line)) [
  | none ↦ none
  | some s' ↦ fill_lines begin end s' rest
]

-- What the call returns through its pointers.
pub record Image : Type 0 where
  pub mem : List ℕ
  pub size : ℕ
  pub begin : ℕ

abbrev pub first_span : Span
first_span = record { lba = 0; begin = 0xffffffff; end = 0; eof_found = false }

-- The second scan, if there was an end-of-file record, if the first scan found data, and if the
-- memory can be allocated.
unfoldable pub fill_image : (ℕ → Bool) → ℕ → List (List ℕ) → Span → Option Image
fill_image allocates erased lines s =
    let size = add32 (s.end - s.begin) 1 in
    if not s.eof_found
    then none
    else if leb s.end s.begin
    then none
    else if not (allocates size)
    then none
    else elim (fill_lines s.begin s.end (record { lba = 0; memory = replicate size erased })
        lines) [
          | none ↦ none
          | some f ↦ some (record { mem = f.memory; size = size; begin = s.begin })
        ]

-- `none` is -1. A file that cannot be opened is `none`.
unfoldable pub parse_ihex : (ℕ → Bool) → Option (List ℕ) → ℕ → Option Image
parse_ihex allocates none erased = none
parse_ihex allocates (some file) erased =
    let lines = lines_of line_size [] file in
    elim (span_lines first_span lines) [
      | none ↦ none
      | some s ↦ fill_image allocates erased lines s
    ]
