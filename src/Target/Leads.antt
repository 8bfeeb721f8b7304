-- ===== src/Target/Leads.antt =====
-- What code leads to, with its result, with one rule for each way to build code.
use stlink.Base.{◌≡◌, refl, Option, none, some}
use mathlib.Core.Path.{subst}
use stlink.Target.{World, M, ◌>>=◌, pure}
use stlink.Target.Ends.{Ends}

-- Wherever code that starts in `P` returns, `Q` holds of the result and the state.
pub record Leads {A : Type 0} (P : World → Type 0) (m : M A) (Q : A → World → Type 0) : Type 0 where
  pub at : (w w' : World) (a : A) → P w → m w ≡ some (a, w') → Q a w'

pub Ends-Leads : {A : Type 0} {P Q : World → Type 0} (m : M A) → Ends P Q m → Leads P m (λ a. Q)
Ends-Leads m e = record { at = e.at }

returned :
    {A : Type 0} (Q : A → World → Type 0) (a b : A) (w w' : World)
    → ◌≡◌ {A = Option (A × World)} (some (a, w)) (some (b, w'))
    → Q a w
    → Q b w'
returned Q a b w w' e h =
    let p : a ≡ b = cc in
    let q : w ≡ w' = cc in subst (λ (x : _). Q x w') p (subst (λ (v : World). Q a v) q h)

pub never : {A : Type 0} (b : A) (w : World) → ◌≡◌ {A = Option (A × World)} none (some (b, w)) → ⊥
never b w e = cc

module _ {A : Type 0} {P : World → Type 0} {Q : A → World → Type 0} where
  pub Leads-pure : (a : A) → ((w : World) → P w → Q a w) → Leads P (pure a) Q
  unfolding pure
  Leads-pure a h = record { at = λ w w' b p e. returned Q a b w w' e (h w p) }

  pub Leads-none : Leads P (λ w. none) Q
  Leads-none = record { at = λ w w' b p e. absurd (never b w' e) }

  after :
      {B : Type 0} {R : B → World → Type 0} (m : M B) (f : B → M A)
      → Leads P m R
      → ((b : B) → Leads (R b) (f b) Q)
      → (r : Option (B × World)) (w w' : World) (a : A) → m w ≡ r
      → P w
      → (m >>= f) w ≡ some (a, w')
      → Q a w'
  unfolding ◌>>=◌
  after m f lm lf none w w' a q p e = absurd (never a w' (rw (◌>>=◌, q) at e))
  after m f lm lf (some (b, v)) w w' a q p e =
      (lf b).at v w' a (lm.at w v b p q) (rw (◌>>=◌, q) at e)

  pub Leads-bind :
      {B : Type 0} (R : B → World → Type 0) (m : M B) (f : B → M A)
      → Leads P m R
      → ((b : B) → Leads (R b) (f b) Q)
      → Leads P (m >>= f) Q
  Leads-bind R m f lm lf = record { at = λ w w' a p e. after m f lm lf (m w) w w' a refl p e }
