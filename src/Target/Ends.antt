-- ===== src/Target/Ends.antt =====
-- What holds where code returns, from what held where it started, with one rule for each way to
-- build code.
use stlink.Base.{◌≡◌, refl, Bool, true, false, Option, none, some, if◌then◌else◌}
use mathlib.Core.Path.{subst}
use stlink.Target.{Stlink, World, M, Hardware, ◌>>=◌, pure, gets, uninitialised}

-- Wherever code that starts in `P` returns, `Q` holds.
pub record Ends {A : Type 0} (P Q : World → Type 0) (m : M A) : Type 0 where
  pub at : (w w' : World) (a : A) → P w → m w ≡ some (a, w') → Q w'

pub after_eq :
    {A : Type 0} (P : World → Type 0) (a b : A) (w w' : World)
    → ◌≡◌ {A = Option (A × World)} (some (a, w)) (some (b, w'))
    → P w
    → P w'
after_eq P a b w w' e h = let p : w ≡ w' = cc in subst P p h

module _ {P Q : World → Type 0} where
  Ends-after :
      {A B : Type 0} {R : World → Type 0} (m : M A) (f : A → M B)
      → Ends P R m
      → ((a : A) → Ends R Q (f a))
      → (r : Option (A × World)) (w w' : World) (b : B) → m w ≡ r
      → P w
      → (m >>= f) w ≡ some (b, w')
      → Q w'
  unfolding ◌>>=◌
  Ends-after {B = B} m f em ef none w w' b q h e =
      let bad : ◌≡◌ {A = Option (B × World)} none (some (b, w')) = rw (◌>>=◌, q) at e in cc
  Ends-after m f em ef (some (a, v)) w w' b q h e =
      (ef a).at v w' b (em.at w v a h q) (rw (◌>>=◌, q) at e)

  -- Code that keeps `P`, and then code that ends in `Q`.
  pub Ends-prefix :
      {A B : Type 0} (m : M A) (f : A → M B)
      → Ends P P m
      → ((a : A) → Ends P Q (f a))
      → Ends P Q (m >>= f)
  Ends-prefix m f em ef = record { at = λ w w' b h e. Ends-after m f em ef (m w) w w' b refl h e }

  -- Code that ends in `Q`, and then code that keeps `Q`.
  pub Ends-suffix :
      {A B : Type 0} (m : M A) (f : A → M B)
      → Ends P Q m
      → ((a : A) → Ends Q Q (f a))
      → Ends P Q (m >>= f)
  Ends-suffix m f em ef = record { at = λ w w' b h e. Ends-after m f em ef (m w) w w' b refl h e }

module _ {P : World → Type 0} where
  pub Ends-pure : {A : Type 0} (a : A) → Ends P P (pure a)
  unfolding pure
  Ends-pure a = record { at = λ w w' b h e. after_eq P a b w w' e h }

  pub Ends-gets : {A : Type 0} (f : Stlink → A) → Ends P P (gets f)
  unfolding gets
  Ends-gets f = record { at = λ w w' b h e. after_eq P (f w.sl) b w w' e h }

  pub Ends-if :
      {A : Type 0} (b : Bool) (m n : M A) → Ends P P m → Ends P P n → Ends P P (if b then m else n)
  Ends-if true m n em en = em
  Ends-if false m n em en = en

  pub Ends-uninitialised : ⦃hw : Hardware⦄ → Ends P P uninitialised
  unfolding uninitialised
  Ends-uninitialised = record { at = λ w w' b h e. after_eq P _ b w w' e h }

pub ruleset stays_rules = (Ends-pure, Ends-gets, Ends-if, Ends-uninitialised, Ends-prefix)
