-- ===== src/Postman/Script/Optional.antt =====
-- The optional fields of postman/generator/src/main.rs: a field name that ends in `?`.
use Prim.Native.Char.{Char, code}
use mathlib.Core.Bool.{false≢true}
use mathlib.Core.Option.{some-injective}
use text.Mathlib.TextLemmas.{cons-append}
use text.Mathlib.TextEquality.{Char-path}
use rust_microservices_archi.Prelude.{
  ◌≡◌, ◌↔◌, refl, sym, ap, ◌∙◌, inl, inr, String, ◌<>◌, true, false, Option, none, some, nat_eq,
  Bool-cases, if◌then◌else◌, arith,
}
use rust_microservices_archi.Postman.Text.{push_front, strip_suffix}
use rust_microservices_archi.Postman.Script.{as_optional, parse_optional_field}

-- A text with `?` after it, as the code takes it apart.
stripped : (s : String) → strip_suffix b'?' (s <> "?") ≡ some s
unfolding strip_suffix
stripped String.[] = refl
stripped (String.◌∷◌ c String.[]) = rw (cons-append) refl
stripped (String.◌∷◌ c (String.◌∷◌ x s)) = rw (cons-append) (
    rw (cons-append) (
      ap (push_front c)
        (ap (strip_suffix b'?') (sym (cons-append x s "?")) ∙ stripped (String.◌∷◌ x s))))

last_mark :
    (c : Char) (r : String)
    → (if nat_eq (code c) b'?' then some String.[] else none) ≡ some r
    → (String.◌∷◌ c String.[]) ≡ r <> "?"
last_mark c r e = elim (Bool-cases (nat_eq (code c) b'?')) [
  | inl same ↦
      ap (λ x. String.◌∷◌ x String.[]) (Char-path c "?" (ground arith))
      ∙ ap (λ x. x <> "?")
          (some-injective _ _ (ap (λ b. if b then some String.[] else none) (sym same) ∙ e))
  | inr other ↦ cc (sym e ∙ ap (λ b. if b then some String.[] else none) other)
]

pushed :
    (c : Char) (o : Option String) (s r : String)
    → ((t : String) → o ≡ some t → s ≡ t <> "?")
    → push_front c o ≡ some r
    → String.◌∷◌ c s ≡ r <> "?"
pushed c none s r h e = cc
pushed c (some t) s r h e =
    ap (String.◌∷◌ c) (h t refl)
    ∙ sym (cons-append c t "?")
    ∙ ap (λ x. x <> "?") (some-injective _ _ e)

unstripped : (s r : String) → strip_suffix b'?' s ≡ some r → s ≡ r <> "?"
unfolding strip_suffix
unstripped String.[] r e = cc
unstripped (String.◌∷◌ c String.[]) r e = last_mark c r e
unstripped (String.◌∷◌ c (String.◌∷◌ x s)) r e =
    pushed c (strip_suffix b'?' (String.◌∷◌ x s)) (String.◌∷◌ x s) r (unstripped (String.◌∷◌ x s)) e

as_optional-true :
    (field f : String) (o : Option String) → as_optional field o ≡ (f, true) → o ≡ some f
as_optional-true field f none e = absurd (false≢true (ap (λ x. x.1) e))
as_optional-true field f (some g) e = ap (λ x. some (x.0)) e

as_optional-false :
    (field f : String) (o : Option String) → as_optional field o ≡ (f, false) → field ≡ f
as_optional-false field f none e = ap (λ x. x.0) e
as_optional-false field f (some g) e = absurd (false≢true (sym (ap (λ x. x.1) e)))

-- A field is taken as optional, under a name, exactly when it is that name followed by `?`; any other
-- field keeps its text.
pub parse_optional_field-lem :
    (field f : String)
    → ((parse_optional_field field ≡ (f, true)) ↔ (field ≡ f <> "?"))
      × (parse_optional_field field ≡ (f, false) → field ≡ f)
unfolding parse_optional_field
parse_optional_field-lem field f = (
  (
    λ e. unstripped field f (as_optional-true field f (strip_suffix b'?' field) e),
    λ e. ap (as_optional field) (ap (strip_suffix b'?') e ∙ stripped f),
  ),
  λ e. as_optional-false field f (strip_suffix b'?' field) e,
)
