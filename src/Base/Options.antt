-- ===== src/Base/Options.antt =====
-- What holds of every value that an optional computation may return.
use mathlib.Core.Path.{◌≡◌, refl, subst}
use mathlib.Core.Option.{Option, none, some, some-injective}
use mathlib.Core.Option as Opt
use native.Mathlib.Omega.{arith}

pub record Ensures {A : Type 0} (P : A → Type 0) (o : Option A) : Type 0 where
  pub law : (a : A) → o ≡ some a → P a

module _ {A : Type 0} (P : A → Type 0) where
  pub none-Ensures : Ensures P none
  none-Ensures = record { law = λ a e. absurd (ground arith) }

  pub some-Ensures : (a : A) → P a → Ensures P (some a)
  some-Ensures a p = record { law = λ b e. subst P (some-injective a b e) p }

  pub map-Ensures :
      {B : Type 0} (f : B → A) (Q : B → Type 0) (o : Option B)
      → Ensures Q o
      → ((b : B) → Q b → P (f b))
      → Ensures P (Opt.map f o)
  map-Ensures f Q none s k = none-Ensures
  map-Ensures f Q (some b) s k = some-Ensures (f b) (k b (s.law b refl))
