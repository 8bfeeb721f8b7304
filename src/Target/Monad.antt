-- ===== src/Target/Monad.antt =====
-- Code over the context and the target. `none` means that a polling loop used up its fuel.
use stlink.Base.{ℕ, Option, none, some}
use stlink.Target.Types.{Stlink, Status, success, failure}
use stlink.Target.Backend.{Trace, Hardware}

pub record World : Type 0 where
  pub sl : Stlink
  pub trace : Trace

abbrev pub M {ℓ} : Type ℓ → Type ℓ
M A = World → Option (A × World)

infixl 5 ◌>>=◌ ◌>>◌
unfoldable pub ◌>>=◌ {ℓ κ} : {A : Type ℓ} {B : Type κ} → M A → (A → M B) → M B
◌>>=◌ m f w = elim (m w) [ none ↦ none | some (a, w') ↦ f a w' ]

abbrev pub ◌>>◌ {ℓ κ} : {A : Type ℓ} {B : Type κ} → M A → M B → M B
m >> k = m >>= λ _. k

unfoldable pub pure {ℓ} : {A : Type ℓ} → A → M A
pure a w = some (a, w)

-- A value of the context.
unfoldable pub gets {ℓ} : {A : Type ℓ} → (Stlink → A) → M A
gets f w = some (f w.sl, w)

unfoldable pub skip : M (Unit {0})
skip w = some (tt, w)

-- What an uninitialised local holds.
unfoldable pub uninitialised : ⦃hw : Hardware⦄ → M ℕ
uninitialised ⦃hw⦄ w = some (hw.uninitialised w.trace, w)

-- `if (ret) return ret;` before the rest.
unfoldable pub on_success : Status → M Status → M Status
on_success failure m = pure failure
on_success success m = m
