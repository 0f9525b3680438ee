-- ===== src/Prelude/Prefix.antt =====
-- `strip_prefix` and concatenation.
use Prim.Native.String.{String, ◌++◌}
use mathlib.Core.Path.{◌≡◌, sym, ◌∙◌, ap}
use mathlib.Core.Option.{some, some-injective}
use native.Mathlib.Omega.{arith}
use text.Mathlib.TextEquality.{Char-path}
use text.Mathlib.TextLemmas.{nil-append, cons-append}
use rust_microservices_archi.Prelude.Text.{strip_prefix}

pub strip_prefix-append : (p s : String) → strip_prefix p (p ++ s) ≡ some s
unfolding strip_prefix
strip_prefix-append String.[] s = ap some (nil-append s)
strip_prefix-append (String.◌∷◌ c p) s = rw (cons-append) (ground (arith, strip_prefix-append p s))

pub strip_prefix-some : (p s : String) (r : String) → strip_prefix p s ≡ some r → s ≡ p ++ r
unfolding strip_prefix
strip_prefix-some String.[] s r h = some-injective _ _ h ∙ sym (nil-append r)
strip_prefix-some (String.◌∷◌ c p) String.[] r h = cc
strip_prefix-some (String.◌∷◌ c p) (String.◌∷◌ d s) r h =
    ground (arith, strip_prefix-some p s r, Char-path c d, cons-append c p r)
