-- ===== src/Target/Ensures.antt =====
-- What holds where code returns success, with one rule for each way to build code that reports a
-- status.
use stlink.Base.{◌≡◌, refl, Bool, true, false, Option, none, some, if◌then◌else◌}
use stlink.Target.{Status, success, failure, World, M, ◌>>=◌, pure, on_success}

-- Wherever code returns success, `Q` holds.
pub record Ensures (Q : World → Type 0) (m : M Status) : Type 0 where
  pub at : (w w' : World) → m w ≡ some (success, w') → Q w'

pub not_failure :
    (w w' : World) → ◌≡◌ {A = Option (Status × World)} (some (failure, w)) (some (success, w')) → ⊥
not_failure w w' e = let s : failure ≡ success = cc in cc

pub not_none : (w' : World) → ◌≡◌ {A = Option (Status × World)} none (some (success, w')) → ⊥
not_none w' e = cc

module _ {Q : World → Type 0} where
  pub Ensures-failure : Ensures Q (pure failure)
  unfolding pure
  Ensures-failure = record { at = λ w w' e. absurd (not_failure w w' e) }

  pub Ensures-on_success : (s : Status) (m : M Status) → Ensures Q m → Ensures Q (on_success s m)
  unfolding on_success
  Ensures-on_success failure m h = Ensures-failure
  Ensures-on_success success m h = h

  pub Ensures-if :
      (b : Bool) (m n : M Status) → Ensures Q m → Ensures Q n → Ensures Q (if b then m else n)
  Ensures-if true m n em en = em
  Ensures-if false m n em en = en

  Ensures-after :
      {A : Type 0} (m : M A) (f : A → M Status)
      → ((a : A) → Ensures Q (f a))
      → (r : Option (A × World)) (w w' : World) → m w ≡ r
      → (m >>= f) w ≡ some (success, w')
      → Q w'
  unfolding ◌>>=◌
  Ensures-after m f ef none w w' q e = absurd (not_none w' (rw (◌>>=◌, q) at e))
  Ensures-after m f ef (some (a, v)) w w' q e = (ef a).at v w' (rw (◌>>=◌, q) at e)

  pub Ensures-bind :
      {A : Type 0} (m : M A) (f : A → M Status) → ((a : A) → Ensures Q (f a)) → Ensures Q (m >>= f)
  Ensures-bind m f ef = record { at = λ w w' e. Ensures-after m f ef (m w) w w' refl e }

pub ruleset ensures_rules = (Ensures-failure, Ensures-on_success, Ensures-if, Ensures-bind)
