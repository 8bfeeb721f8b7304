-- ===== src/Gdb/Breakpoints/Stops.antt =====
-- The addresses at which the comparators of a table stop, and what an update makes of them.
use stlink.Base.{
  ℕ, zero, suc, ◌/◌, ◌%◌, ◌<◌, ◌≡◌, ◌⊎◌, refl, sym, ap, ◌∙◌, ◌==◌, ==_iff, Bool, Bool-cases, true,
  false, not, ◌&&◌, ◌||◌, inl, inr, List, [], ◌∷◌, bit_or, clear_mask, has_bits, passes_below,
  passed, arith, if◌then◌else◌,
}
use stlink.Gdb.Breakpoints.{
  Break, code_break_low, code_break_high, code_break_remap, code_break_rev_v1, break_type, matches,
  has_slot,
}
use stlink.Gdb.Breakpoints.Table.{updated, any_match}

-- What a comparator can match: the low or the high half of a word, or an address.
pub data Part : Type 0 where
  low high whole : Part

abbrev pub type_of : Part → ℕ
type_of low = code_break_low
type_of high = code_break_high
type_of whole = code_break_remap

abbrev pub same : Part → Part → Bool
same low low = true
same high high = true
same whole whole = true
same p q = false

abbrev pub part_at : ℕ → ℕ → Part
part_at rev addr =
    if rev == code_break_rev_v1 then (if addr / 2 % 2 == 0 then low else high) else whole

-- Whether some comparator stops at the part.
abbrev pub stops : ℕ → Part → ℕ → List Break → Bool
stops addr p zero bps = false
stops addr p (suc n) [] = false
stops addr p (suc n) (bp ∷ bps) =
    ((bp.addr == addr) && has_bits bp.type (type_of p)) || stops addr p n bps

-- Every type is made of the three bits.
abbrev pub Typed : List Break → Type 0
Typed [] = Unit {0}
Typed (bp ∷ bps) = (bp.type < 8) × Typed bps

abbrev pub equal : Bool → Bool → Bool
equal true b = b
equal false b = not b

equal_eq : (a b : Bool) → equal a b ≡ true → a ≡ b
equal_eq true b h = sym h
equal_eq false true h = h
equal_eq false false h = refl

or_table :
    (p q : Part)
    → passes_below
        (λ x.
          equal (has_bits (bit_or x (type_of p)) (type_of q)) (same q p || has_bits x (type_of q)))
        8
      ≡ true
unfolding passes_below
or_table low low = refl
or_table low high = refl
or_table low whole = refl
or_table high low = refl
or_table high high = refl
or_table high whole = refl
or_table whole low = refl
or_table whole high = refl
or_table whole whole = refl

clear_table :
    (p q : Part)
    → passes_below
        (λ x.
          equal
            (has_bits (clear_mask x (type_of p)) (type_of q))
            (not (same q p) && has_bits x (type_of q)))
        8
      ≡ true
unfolding passes_below
clear_table low low = refl
clear_table low high = refl
clear_table low whole = refl
clear_table high low = refl
clear_table high high = refl
clear_table high whole = refl
clear_table whole low = refl
clear_table whole high = refl
clear_table whole whole = refl

has_bits-bit_or :
    (x : ℕ) (p q : Part)
    → x < 8
    → has_bits (bit_or x (type_of p)) (type_of q) ≡ (same q p || has_bits x (type_of q))
has_bits-bit_or x p q h = equal_eq _ _ (
    passed
      (λ y.
        equal (has_bits (bit_or y (type_of p)) (type_of q)) (same q p || has_bits y (type_of q)))
      8 x h (or_table p q))

has_bits-clear_mask :
    (x : ℕ) (p q : Part)
    → x < 8
    → has_bits (clear_mask x (type_of p)) (type_of q) ≡ (not (same q p) && has_bits x (type_of q))
has_bits-clear_mask x p q h = equal_eq _ _ (
    passed
      (λ y.
        equal (has_bits (clear_mask y (type_of p)) (type_of q))
          (not (same q p) && has_bits y (type_of q)))
      8 x h (clear_table p q))

pub type_of-part_at : (rev addr : ℕ) → break_type rev addr ≡ type_of (part_at rev addr)
type_of-part_at rev addr = elim (Bool-cases (rev == code_break_rev_v1)) [
  | inr other ↦ rw other refl
  | inl first ↦ elim (Bool-cases (addr / 2 % 2 == 0)) [
    | inl e ↦ rw (first, e) refl
    | inr e ↦ rw (first, e) refl
  ]
]

-- The address and the part of an update.
abbrev pub hit : ℕ → Part → ℕ → Part → Bool
hit a q fpb p = (fpb == a) && same q p

no_bits : (q : Part) → has_bits 0 (type_of q) ≡ false
no_bits low = refl
no_bits high = refl
no_bits whole = refl

added : (b c s h : Bool) → (b ≡ c) ⊎ (h ≡ false) → (b && (s || h)) ≡ ((b && s) || (c && h))
added b c s h e = ground arith

or_swap : (x y z : Bool) → (x || (y || z)) ≡ (y || (x || z))
or_swap x y z = ground arith

or_assoc : (x y z : Bool) → ((x || y) || z) ≡ (x || (y || z))
or_assoc x y z = ground arith

set_slot :
    (a fpb : ℕ) (p q : Part) (bp : Break)
    → bp.type < 8
    → matches true fpb bp ≡ true
    → ((fpb == a) && has_bits (bit_or bp.type (type_of p)) (type_of q))
      ≡ (hit a q fpb p || ((bp.addr == a) && has_bits bp.type (type_of q)))
set_slot a fpb p q bp h m =
    ap (λ (x : Bool). (fpb == a) && x) (has_bits-bit_or bp.type p q h)
    ∙ added (fpb == a) (bp.addr == a) (same q p) (has_bits bp.type (type_of q))
        (elim (Bool-cases (fpb == bp.addr)) [
          | inl e ↦ inl (ap (λ (x : ℕ). x == a) ((==_iff fpb bp.addr).0 e))
          | inr e ↦
              let free : bp.type ≡ 0 = ground arith in
              inr (ap (λ (x : ℕ). has_bits x (type_of q)) free ∙ no_bits q)
        ])

-- An update that sets adds its address and part, if a slot matches, and removes none.
pub stops-set :
    (a fpb n : ℕ) (p q : Part) (bps : List Break)
    → Typed bps
    → stops a q n (updated true fpb (type_of p) n bps)
      ≡ ((any_match true fpb n bps && hit a q fpb p) || stops a q n bps)
stops-set a fpb zero p q bps h = refl
stops-set a fpb (suc n) p q [] h = refl
stops-set a fpb (suc n) p q (bp ∷ bps) (lt, h) = elim (Bool-cases (matches true fpb bp)) [
  | inl m ↦ rw (m, set_slot a fpb p q bp lt m) (or_assoc (hit a q fpb p) _ _)
  | inr m ↦
      rw (m, stops-set a fpb n p q bps h) (or_swap _ (any_match true fpb n bps && hit a q fpb p) _)
]

-- At most one slot in use has the address.
abbrev pub Once : ℕ → ℕ → List Break → Type 0
Once fpb zero bps = Unit {0}
Once fpb (suc n) [] = Unit {0}
Once fpb (suc n) (bp ∷ bps) =
    ((bp.addr == fpb) ≡ true → has_slot fpb n bps ≡ false) × Once fpb n bps

no_slot-stops :
    (a n : ℕ) (q : Part) (bps : List Break) → has_slot a n bps ≡ false → stops a q n bps ≡ false
no_slot-stops a zero q bps h = refl
no_slot-stops a (suc n) q [] h = refl
no_slot-stops a (suc n) q (bp ∷ bps) h =
    let rest : stops a q n bps ≡ false = no_slot-stops a n q bps (ground (arith, h)) in
    let other : (bp.addr == a) ≡ false = ground (arith, h) in rw (other, rest) refl

dropped :
    (b s h r : Bool)
    → (b ≡ true → r ≡ false)
    → ((b && (not s && h)) || r) ≡ (not (b && s) && ((b && h) || r))
dropped b s h r e = ground arith

passed_by :
    (c s y r : Bool)
    → (c ≡ true → y ≡ false)
    → (y || (not (c && s) && r)) ≡ (not (c && s) && (y || r))
passed_by c s y r e = ground arith

-- An update that removes drops its address and part only.
pub stops-removed :
    (a fpb n : ℕ) (p q : Part) (bps : List Break)
    → Typed bps
    → Once fpb n bps
    → stops a q n (updated false fpb (type_of p) n bps) ≡ (not (hit a q fpb p) && stops a q n bps)
stops-removed a fpb zero p q bps h once = ground arith
stops-removed a fpb (suc n) p q [] h once = ground arith
stops-removed a fpb (suc n) p q (bp ∷ bps) (lt, h) (here, once) =
    elim (Bool-cases (matches false fpb bp)) [
      | inl m ↦
          let e : fpb ≡ bp.addr = ground arith in
          let rest : (fpb == a) ≡ true → stops a q n bps ≡ false = λ t.
            no_slot-stops a n q bps
              (ap (λ (x : ℕ). has_slot x n bps) (sym ((==_iff fpb a).0 t)) ∙ here (ground arith)) in
          rw (m, has_bits-clear_mask bp.type p q lt)
            (dropped (fpb == a) (same q p) (has_bits bp.type (type_of q)) (stops a q n bps) rest
              ∙ ap
                  (λ (x : ℕ).
                    not (hit a q fpb p)
                    && (((x == a) && has_bits bp.type (type_of q)) || stops a q n bps))
                  e)
      | inr m ↦
          let away : (fpb == a) ≡ true → ((bp.addr == a) && has_bits bp.type (type_of q)) ≡ false =
            λ t. ground arith in
          rw (m, stops-removed a fpb n p q bps h once)
            (passed_by (fpb == a) (same q p) _ (stops a q n bps) away)
    ]
