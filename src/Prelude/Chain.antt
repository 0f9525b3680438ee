-- ===== src/Prelude/Chain.antt =====
-- Chains of optional results: `and_then`, and `?` on options.
use mathlib.Core.Path.{◌≡◌, refl}
use mathlib.Core.Option.{Option, none, some}

infixl 5 ◌>>=◌
abbrev pub ◌>>=◌ {ℓ κ} : {A : Type ℓ} {B : Type κ} → Option A → (A → Option B) → Option B
none >>= f = none
some a >>= f = f a

-- A chain that gives a result has one before its last step.
pub bind_inv :
    {A B : Type 0} (o : Option A) (g : A → Option B) (b : B)
    → (o >>= g) ≡ some b
    → (a : A) × (o ≡ some a) × (g a ≡ some b)
bind_inv none g b e = cc
bind_inv (some a) g b e = (a, refl, e)
