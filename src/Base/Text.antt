-- ===== src/Base/Text.antt =====
-- Text as bytes: strings up to their NUL, hexadecimal digits and lines.
use Prim.Native.Nat.{ℕ, zero, suc, ◌+◌, ◌/◌, ◌%◌, ◌^◌}
use mathlib.Core.Bool.{true, false, ◌||◌}
use mathlib.Core.List.{List, [], ◌∷◌, ◌++◌}
use stlink.Base.Tests.{◌==◌, ltb, if◌then◌else◌}
use stlink.Base.Lists.{length}

-- The bytes before the terminating NUL.
abbrev pub c_string : List ℕ → List ℕ
c_string [] = []
c_string (zero ∷ cs) = []
c_string (suc c ∷ cs) = suc c ∷ c_string cs

-- A digit of `%X`.
abbrev pub upper_digit : ℕ → ℕ
upper_digit n = if ltb n 10 then 48 + n else 55 + n

-- `%02X` of a byte.
abbrev pub hex2 : ℕ → List ℕ
hex2 b = upper_digit (b / 2 ^ 4) ∷ upper_digit (b % 2 ^ 4) ∷ []

-- `%04X` of a uint16_t.
abbrev pub hex4 : ℕ → List ℕ
hex4 n = hex2 (n / 2 ^ 8) ++ hex2 (n % 2 ^ 8)

-- What `fgets` reads into a buffer of `size` bytes, call by call, with `line` read so far: a line
-- ends behind a newline, where the buffer is full, and at the end of the file.
unfoldable pub lines_of : ℕ → List ℕ → List ℕ → List (List ℕ)
lines_of size [] [] = []
lines_of size (c ∷ line) [] = (c ∷ line) ∷ []
lines_of size line (c ∷ cs) = elim ((c == 10) || (length line + 2 == size)) [
  | true ↦ (line ++ (c ∷ [])) ∷ lines_of size [] cs
  | false ↦ lines_of size (line ++ (c ∷ [])) cs
]
