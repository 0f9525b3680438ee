-- ===== src/Prelude/Split.antt =====
-- `s.split('@').next()`: the part of a text before its first `@`.
use Prim.Native.Nat.{ℕ}
use Prim.Native.Char.{Char, code}
use Prim.Native.String.{String, ◌++◌}
use mathlib.Core.Path.{◌≡◌, refl, sym, ◌∙◌, ap}
use mathlib.Core.Bool.{Bool, true, false}
use mathlib.Core.Logic.{◌⊎◌, inl, inr}
use native.Mathlib.Omega.{arith}
use text.Mathlib.TextEquality.{Char-path}
use text.Mathlib.TextLemmas.{nil-append, cons-append}
use rust_microservices_archi.Prelude.Tests.{nat_eq, if◌then◌else◌}
use rust_microservices_archi.Prelude.Text.{split_first}

-- No character of the text is an `@`.
abbrev pub HasNoAt : String → Type 0
HasNoAt String.[] = Unit
HasNoAt (String.◌∷◌ c s) = (nat_eq (code c) 64 ≡ false) × HasNoAt s

-- The part without an `@` with which a text begins, up to its first `@` or its end.
pub record IsLocalPart (email name : String) : Type 0 where
  pub no_at : HasNoAt name
  pub rest : (email ≡ name) ⊎ ((domain : String) × (email ≡ name ++ ("@" ++ domain)))

same_code : (n : ℕ) → nat_eq n 64 ≡ true → n ≡ 64
same_code n h = ground arith

at_front :
    (c : Char) (s : String) → nat_eq (code c) 64 ≡ true → String.◌∷◌ c s ≡ String.[] ++ ("@" ++ s)
at_front c s is =
    ap (λ x. String.◌∷◌ x s) (Char-path c "@" (same_code (code c) is))
    ∙ sym (nil-append _ ∙ cons-append "@" String.[] s ∙ ap (String.◌∷◌ "@") (nil-append s))

split_step :
    (c : Char) (s name : String) (b : Bool)
    → nat_eq (code c) 64 ≡ b
    → IsLocalPart s name
    → IsLocalPart (String.◌∷◌ c s) (if b then String.[] else String.◌∷◌ c name)
split_step c s name true is h = record { no_at = tt; rest = inr (s, at_front c s is) }
split_step c s name false is h = record {
  no_at = (is, h.no_at);
  rest = elim h.rest [
    | inl e ↦ inl (ap (String.◌∷◌ c) e)
    | inr (domain, e) ↦ inr (domain, ap (String.◌∷◌ c) e ∙ sym (cons-append c name _))
  ];
}

pub split_first-IsLocalPart : (s : String) → IsLocalPart s (split_first 64 s)
unfolding split_first
split_first-IsLocalPart String.[] = record { no_at = tt; rest = inl refl }
split_first-IsLocalPart (String.◌∷◌ c s) =
    split_step c s (split_first 64 s) (nat_eq (code c) 64) refl (split_first-IsLocalPart s)
