-- ===== src/Target/Keeps.antt =====
-- Properties of the context that code keeps, with one rule for each way to build code.
use stlink.Base.{◌≡◌, refl, Bool, true, false, Option, none, some, if◌then◌else◌}
use mathlib.Core.Path.{subst}
use stlink.Target.{Stlink, World, M, Hardware, ◌>>=◌, pure, gets, skip, uninitialised}

-- Wherever `m` returns, `P` still holds of the context.
pub record Keeps {ℓ} {A : Type ℓ} (P : Stlink → Type ℓ) (m : M A) : Type ℓ where
  pub at : (w w' : World) (a : A) → P w.sl → m w ≡ some (a, w') → P w'.sl

-- Where the code returns at once.
pub kept :
    {A : Type 0} (P : Stlink → Type 0) (a b : A) (w w' : World)
    → ◌≡◌ {A = Option (A × World)} (some (a, w)) (some (b, w'))
    → P w.sl
    → P w'.sl
kept P a b w w' e h = let p : w ≡ w' = cc in subst (λ (v : World). P v.sl) p h

module _ {P : Stlink → Type 0} where
  pub Keeps-pure : {A : Type 0} (a : A) → Keeps P (pure a)
  unfolding pure
  Keeps-pure a = record { at = λ w w' b h e. kept P a b w w' e h }

  pub Keeps-skip : Keeps P skip
  unfolding skip
  Keeps-skip = record { at = λ w w' b h e. kept P tt b w w' e h }

  pub Keeps-gets : {A : Type 0} (f : Stlink → A) → Keeps P (gets f)
  unfolding gets
  Keeps-gets f = record { at = λ w w' b h e. kept P (f w.sl) b w w' e h }

  pub Keeps-uninitialised : ⦃hw : Hardware⦄ → Keeps P uninitialised
  unfolding uninitialised
  Keeps-uninitialised = record { at = λ w w' b h e. kept P _ b w w' e h }

  pub Keeps-if :
      {A : Type 0} (b : Bool) (m n : M A) → Keeps P m → Keeps P n → Keeps P (if b then m else n)
  Keeps-if true m n km kn = km
  Keeps-if false m n km kn = kn

  Keeps-after :
      {A B : Type 0} (m : M A) (f : A → M B)
      → Keeps P m
      → ((a : A) → Keeps P (f a))
      → (r : Option (A × World)) (w w' : World) (b : B) → m w ≡ r
      → P w.sl
      → (m >>= f) w ≡ some (b, w')
      → P w'.sl
  unfolding ◌>>=◌
  Keeps-after {A} {B} m f km kf none w w' b q h e =
      let bad : ◌≡◌ {A = Option (B × World)} none (some (b, w')) = rw (◌>>=◌, q) at e in cc
  Keeps-after {A} {B} m f km kf (some (a, v)) w w' b q h e =
      (kf a).at v w' b (km.at w v a h q) (rw (◌>>=◌, q) at e)

  pub Keeps-bind :
      {A B : Type 0} (m : M A) (f : A → M B)
      → Keeps P m
      → ((a : A) → Keeps P (f a))
      → Keeps P (m >>= f)
  Keeps-bind m f km kf = record { at = λ w w' b h e. Keeps-after m f km kf (m w) w w' b refl h e }

pub ruleset keeps_rules =
    (Keeps-pure, Keeps-skip, Keeps-gets, Keeps-uninitialised, Keeps-if, Keeps-bind)
