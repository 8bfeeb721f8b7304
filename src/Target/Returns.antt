-- ===== src/Target/Returns.antt =====
-- Code that returns from every state whose context has a property, and keeps the property, with one
-- rule for each way to build code.
use stlink.Base.{◌≡◌, refl, Bool, true, false, Option, some, if◌then◌else◌}
use stlink.Target.{
  Stlink, Status, success, failure, World, M, Hardware, ◌>>=◌, pure, gets, skip, uninitialised,
  on_success,
}

-- A result, in a state whose context has the property.
abbrev pub Answers : {A : Type 0} → (Stlink → Type 0) → Option (A × World) → Type 0
Answers {A} P r = (a : A) × ((w' : World) × ((r ≡ some (a, w')) × P w'.sl))

pub record Returns {A : Type 0} (P : Stlink → Type 0) (m : M A) : Type 0 where
  pub at : (w : World) → P w.sl → Answers P (m w)

module _ {P : Stlink → Type 0} where
  pub Returns-pure : {A : Type 0} (a : A) → Returns P (pure a)
  unfolding pure
  Returns-pure a = record { at = λ w h. (a, (w, (refl, h))) }

  pub Returns-skip : Returns P skip
  unfolding skip
  Returns-skip = record { at = λ w h. (tt, (w, (refl, h))) }

  pub Returns-gets : {A : Type 0} (f : Stlink → A) → Returns P (gets f)
  unfolding gets
  Returns-gets f = record { at = λ w h. (f w.sl, (w, (refl, h))) }

  pub Returns-uninitialised : ⦃hw : Hardware⦄ → Returns P uninitialised
  unfolding uninitialised
  Returns-uninitialised ⦃hw⦄ = record { at = λ w h. (hw.uninitialised w.trace, (w, (refl, h))) }

  pub Returns-if :
      {A : Type 0} (b : Bool) (m n : M A)
      → Returns P m
      → Returns P n
      → Returns P (if b then m else n)
  Returns-if true m n rm rn = rm
  Returns-if false m n rm rn = rn

  pub Returns-on_success : (s : Status) (m : M Status) → Returns P m → Returns P (on_success s m)
  unfolding on_success
  Returns-on_success failure m r = Returns-pure failure
  Returns-on_success success m r = r

  pub Returns-bind :
      {A B : Type 0} (m : M A) (f : A → M B)
      → Returns P m
      → ((a : A) → Returns P (f a))
      → Returns P (m >>= f)
  unfolding ◌>>=◌
  Returns-bind m f rm rf = record {
    at = λ w h.
        let (a, (v, (e, q))) = rm.at w h in
        let (b, (v', (g, q'))) = (rf a).at v q in (b, (v', (rw (◌>>=◌, e) g, q')));
  }

  -- A value of a context with the property.
  pub Returns-gets_known :
      {A B : Type 0} (f : Stlink → A) (k : A → M B)
      → ((sl : Stlink) → P sl → Returns P (k (f sl)))
      → Returns P (gets f >>= k)
  unfolding ◌>>=◌ gets
  Returns-gets_known f k rk = record { at = λ w h. (rk w.sl h).at w h }

pub ruleset returns_rules = (
  Returns-pure, Returns-skip, Returns-gets, Returns-uninitialised, Returns-if, Returns-on_success,
  Returns-bind,
)
