-- ===== src/Ihex/Writer.antt =====
-- src/stlink-lib/common.c: Intel HEX files, written by the callbacks of `stlink_fread`.
use stlink.Base.{
  ℕ, ◌+◌, ◌-◌, ◌*◌, ◌/◌, ◌%◌, ◌^◌, ◌==◌, Bool, true, false, Option, none, some, List, [], ◌∷◌, ◌++◌,
  length, add32, hex2, hex4, if◌then◌else◌,
}

-- Whether `fprintf` writes a text whole, which may depend on what was written before, and whether
-- the file can be opened and closed.
pub record Files : Type 0 where
  pub prints : List ℕ → List ℕ → Bool
  pub opens : Bool
  pub closes : List ℕ → Bool

-- `buf` holds the first `buf_pos` bytes of the buffer.
pub record Worker : Type 0 where
  pub file : List ℕ
  pub addr : ℕ
  pub lba : ℕ
  pub buf : List ℕ

abbrev pub crlf : List ℕ
crlf = 13 ∷ 10 ∷ []

-- `addr & 0xFFFF0000`
abbrev pub segment : ℕ → ℕ
segment addr = addr / 2 ^ 16 * 2 ^ 16

-- `(uint8_t) (0x100 - sum)`
abbrev pub negated : ℕ → ℕ
negated sum = (2 ^ 8 - sum) % 2 ^ 8

-- ":02000004%04X%02X\r\n"
abbrev pub segment_text : ℕ → List ℕ
segment_text addr =
    let sum = (2 + 4 + addr / 2 ^ 24 % 2 ^ 8 + addr / 2 ^ 16 % 2 ^ 8) % 2 ^ 8 in
    58
    ∷ 48
    ∷ 50
    ∷ 48
    ∷ 48
    ∷ 48
    ∷ 48
    ∷ 48
    ∷ 52
    ∷ (hex4 (addr / 2 ^ 16 % 2 ^ 16) ++ (hex2 (negated sum) ++ crlf))

-- `%02X` of each byte.
abbrev pub hex_texts : List ℕ → List (List ℕ)
hex_texts [] = []
hex_texts (b ∷ bs) = hex2 b ∷ hex_texts bs

-- `sum += b` in a uint8_t.
abbrev pub add_bytes : ℕ → List ℕ → ℕ
add_bytes sum [] = sum
add_bytes sum (b ∷ bs) = add_bytes ((sum + b) % 2 ^ 8) bs

-- ":%02X%04X00", and "%02X\r\n" behind the bytes.
abbrev pub line_head : ℕ → List ℕ → List ℕ
line_head addr buf = 58 ∷ (hex2 (length buf) ++ (hex4 (addr % 2 ^ 16) ++ (48 ∷ 48 ∷ [])))

abbrev pub line_tail : ℕ → List ℕ → List ℕ
line_tail addr buf =
    let sum = (length buf + addr / 2 ^ 8 % 2 ^ 8 + addr % 2 ^ 8) % 2 ^ 8 in
    hex2 (negated (add_bytes sum buf)) ++ crlf

-- ":00000001FF\r\n"
abbrev pub eof_text : List ℕ
eof_text = 58 ∷ 48 ∷ 48 ∷ 48 ∷ 48 ∷ 48 ∷ 48 ∷ 48 ∷ 49 ∷ 70 ∷ 70 ∷ crlf

module _ ⦃fs : Files⦄ where
  -- `none` is a text that was not written whole.
  unfoldable pub print : List ℕ → Worker → Option Worker
  print text w = if fs.prints w.file text then some (record w { file = w.file ++ text }) else none

  unfoldable pub newsegment : Worker → Option Worker
  newsegment w = elim (print (segment_text w.addr) w) [
    | none ↦ none
    | some w' ↦ some (record w' { lba = segment w.addr })
  ]

  -- The line is printed in parts; a part that fails ends the file.
  unfoldable pub print_parts : List (List ℕ) → Worker → Option Worker
  print_parts [] w = some w
  print_parts (text ∷ rest) w = elim (print text w) [ none ↦ none | some w' ↦ print_parts rest w' ]

  unfoldable pub writeline : Worker → Option Worker
  writeline w = elim (length w.buf == 0) [
    | true ↦ some w
    | false ↦ elim (if w.lba == segment w.addr then some w else newsegment w) [
      | none ↦ none
      | some v ↦ elim (print (line_head w.addr w.buf) v) [
        | none ↦ none
        | some u ↦ elim (print_parts (hex_texts w.buf) u) [
          | none ↦ none
          | some t ↦ elim (print (line_tail w.addr w.buf) t) [
            | none ↦ none
            | some r ↦ some (record r { addr = add32 r.addr (length w.buf); buf = [] })
          ]
        ]
      ]
    ]
  ]

  -- `the_arg->buf[the_arg->buf_pos++] = block[i]`, behind a line that is full.
  unfoldable pub worker : List ℕ → Worker → Option Worker
  worker [] w = some w
  worker (b ∷ block) w = elim (if length w.buf == 16 then writeline w else some w) [
    | none ↦ none
    | some v ↦ worker block (record v { buf = v.buf ++ (b ∷ []) })
  ]

  unfoldable pub finalize : Worker → Option (List ℕ)
  finalize w = elim (writeline w) [
    | none ↦ none
    | some v ↦ elim (print eof_text v) [
      | none ↦ none
      | some u ↦ if fs.closes u.file then some u.file else none
    ]
  ]

  unfoldable pub init : ℕ → Option Worker
  init addr = if fs.opens then some (record { file = []; addr = addr; lba = 0; buf = [] }) else none

  -- The blocks that `stlink_read` passes to the callback, in order.
  unfoldable pub workers : List (List ℕ) → Worker → Option Worker
  workers [] w = some w
  workers (block ∷ rest) w = elim (worker block w) [ none ↦ none | some v ↦ workers rest v ]

  -- `stlink_fread` with `is_ihex`, where every block is read: the file that is written. Behind a block that
  -- fails the source still ends the file, and returns an error all the same.
  unfoldable pub fread_ihex : ℕ → List (List ℕ) → Option (List ℕ)
  fread_ihex addr blocks = elim (init addr) [
    | none ↦ none
    | some w ↦ elim (workers blocks w) [ none ↦ none | some v ↦ finalize v ]
  ]
