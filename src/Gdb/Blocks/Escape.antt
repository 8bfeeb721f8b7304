-- ===== src/Gdb/Blocks/Escape.antt =====
-- The escapes of a `vFlashWrite` packet, and the packet as a whole.
use stlink.Base.{
  ℕ, ◌+◌, ◌^◌, ◌<◌, ◌≡◌, refl, ap, ◌∙◌, ◌==◌, Bool, Bool-cases, true, false, ◌||◌, inl, inr, List,
  [], ◌∷◌, length, arith, if◌then◌else◌,
}
use stlink.Gdb.Packet.Wire.{lacks}
use stlink.Gdb.Blocks.{FlashBlock, flip_bit5, unescape, align2, flash_write}
use stlink.Gdb.Blocks.Image.{AllFormed, image}
use stlink.Gdb.Blocks.Populate.{NoneInside, overlay, flash_populate-image}

-- `#`, `$`, `*` and `}` are escaped.
abbrev pub is_special : ℕ → Bool
is_special c = (c == 35) || ((c == 36) || ((c == 42) || (c == 125)))

-- What GDB sends for data.
abbrev pub escape : List ℕ → List ℕ
escape [] = []
escape (c ∷ cs) = if is_special c then 125 ∷ flip_bit5 c ∷ escape cs else c ∷ escape cs

flip_bit5-flip_bit5 : (c : ℕ) → flip_bit5 (flip_bit5 c) ≡ c
flip_bit5-flip_bit5 c = ground arith

unescape-plain : (c : ℕ) (cs : List ℕ) → (c == 125) ≡ false → unescape (c ∷ cs) ≡ c ∷ unescape cs
unescape-plain c [] e = rw e refl
unescape-plain c (d ∷ cs) e = rw e refl

unescape-escape : (cs : List ℕ) → unescape (escape cs) ≡ cs
unescape-escape [] = refl
unescape-escape (c ∷ cs) = elim (Bool-cases (is_special c)) [
  | inl s ↦ rw (s, flip_bit5-flip_bit5 c) (ap (λ (t : List ℕ). c ∷ t) (unescape-escape cs))
  | inr s ↦
      let e : (c == 125) ≡ false = ground (arith, s) in
      rw s (unescape-plain c (escape cs) e ∙ ap (λ (t : List ℕ). c ∷ t) (unescape-escape cs))
]

special_flips : (c : ℕ) → is_special c ≡ true → (flip_bit5 c == 35) ≡ false
special_flips c s = ground (arith, s)

lacks-escape : (cs : List ℕ) → lacks 35 (escape cs) ≡ true
lacks-escape [] = refl
lacks-escape (c ∷ cs) = elim (Bool-cases (is_special c)) [
  | inl s ↦ rw (s, special_flips c s) (lacks-escape cs)
  | inr s ↦ let e : (c == 35) ≡ false = ground (arith, s) in rw (s, e) (lacks-escape cs)
]

-- Data that are escaped are read back, and hold no `#`, at which a packet would end.
pub unescape-escape_packet :
    (cs : List ℕ) → (unescape (escape cs) ≡ cs) × (lacks 35 (escape cs) ≡ true)
unescape-escape_packet cs = (unescape-escape cs, lacks-escape cs)

-- If every block has its buffer and ends below 4G, the data with their filling byte end below 4G,
-- and no block begins behind their first byte and before their end, then behind a `vFlashWrite` packet of
-- escaped data every byte of the blocks that the data cover is theirs, every other is as it was,
-- and every block still has its buffer.
pub flash_write-escape :
    (a : ℕ) (cs : List ℕ) (blocks : List FlashBlock)
    → AllFormed blocks
    → a + length (align2 cs) < 2 ^ 32
    → NoneInside a (a + length (align2 cs)) blocks
    → ((q : ℕ)
        → image (flash_write a (escape cs) blocks).1 q ≡ overlay a (align2 cs) q (image blocks q))
      × AllFormed (flash_write a (escape cs) blocks).1
unfolding flash_write
flash_write-escape a cs blocks h lt apart =
    rw (unescape-escape cs) (flash_populate-image a (align2 cs) blocks h lt apart)
