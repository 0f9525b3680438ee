-- ===== src/Postman/Script/Braces.antt =====
-- The nesting of braces in a text and in the lines of a script.
use Prim.Native.Char.{code}
use Prim.Native.Nat.{◌/◌}
use mathlib.Core.Option.{some-injective}
use text.Mathlib.TextLemmas.{nil-append, cons-append}
use rust_microservices_archi.Prelude.{
  ℕ, zero, suc, ◌≡◌, refl, ◌∙◌, sym, ap, subst, inl, inr, ◌%◌, String, ◌<>◌, Bool, true, false, not,
  ◌&&◌, ◌||◌, Option, none, some, List, [], ◌∷◌, ◌++◌, nat_eq, all, Option-cases, if◌then◌else◌,
  arith,
}
use rust_microservices_archi.Prelude.Hex.{digits, digit_at}
use rust_microservices_archi.Prelude.Decimal.{digit, decimal_from, decimal}
use rust_microservices_archi.Prelude.Chain.{◌>>=◌}
use rust_microservices_archi.Postman.Text.{strip_suffix}

-- The depth after a character; a brace that closes nothing has none.
abbrev close : ℕ → Option ℕ
close zero = none
close (suc d) = some d

abbrev next : ℕ → ℕ → Option ℕ
next d c = if nat_eq c b'{' then some (suc d) else if nat_eq c b'}' then close d else some d

-- The depth after a text and after lines, if no brace closes what is not open.
abbrev pub scan : ℕ → String → Option ℕ
scan d String.[] = some d
scan d (String.◌∷◌ c s) = next d (code c) >>= λ e. scan e s

abbrev pub scan_lines : ℕ → List String → Option ℕ
scan_lines d [] = some d
scan_lines d (l ∷ ls) = scan d l >>= λ e. scan_lines e ls

bind_assoc : (o : Option ℕ) (f g : ℕ → Option ℕ) → ((o >>= f) >>= g) ≡ (o >>= λ x. f x >>= g)
bind_assoc none f g = refl
bind_assoc (some a) f g = refl

bind_ext : (o : Option ℕ) (f g : ℕ → Option ℕ) → ((x : ℕ) → f x ≡ g x) → (o >>= f) ≡ (o >>= g)
bind_ext none f g h = refl
bind_ext (some a) f g h = h a

pub scan-append : (d : ℕ) (s t : String) → scan d (s <> t) ≡ (scan d s >>= λ e. scan e t)
scan-append d String.[] t = rw (nil-append) refl
scan-append d (String.◌∷◌ c s) t = rw (cons-append) (
    bind_ext (next d (code c)) _ _ (λ e. scan-append e s t)
    ∙ sym (bind_assoc (next d (code c)) (λ e. scan e s) (λ e. scan e t)))

pub scan_lines-append :
    (d : ℕ) (ls ms : List String)
    → scan_lines d (ls ++ ms) ≡ (scan_lines d ls >>= λ e. scan_lines e ms)
scan_lines-append d [] ms = refl
scan_lines-append d (l ∷ ls) ms =
    bind_ext (scan d l) _ _ (λ e. scan_lines-append e ls ms)
    ∙ sym (bind_assoc (scan d l) (λ e. scan_lines e ls) (λ e. scan_lines e ms))

-- Two texts, or two pieces of a script, after each other.
pub then_text :
    (d : ℕ) {e f : ℕ} (s t : String)
    → scan d s ≡ some e
    → scan e t ≡ some f
    → scan d (s <> t) ≡ some f
then_text d s t h k = scan-append d s t ∙ ap (λ o. o >>= λ x. scan x t) h ∙ k

pub then_lines :
    (d : ℕ) {e f : ℕ} (ls ms : List String)
    → scan_lines d ls ≡ some e
    → scan_lines e ms ≡ some f
    → scan_lines d (ls ++ ms) ≡ some f
then_lines d ls ms h k = scan_lines-append d ls ms ∙ ap (λ o. o >>= λ x. scan_lines x ms) h ∙ k

pub then_line :
    (d : ℕ) {e f : ℕ} (l : String) (ls : List String)
    → scan d l ≡ some e
    → scan_lines e ls ≡ some f
    → scan_lines d (l ∷ ls) ≡ some f
then_line d l ls h k = ap (λ o. o >>= λ x. scan_lines x ls) h ∙ k

-- A text without braces leaves the depth as it is.
abbrev pub is_plain : String → Bool
is_plain String.[] = true
is_plain (String.◌∷◌ c s) = not (nat_eq (code c) b'{' || nat_eq (code c) b'}') && is_plain s

pub scan-plain : (d : ℕ) (s : String) → is_plain s ≡ true → scan d s ≡ some d
scan-plain d String.[] h = refl
scan-plain d (String.◌∷◌ c s) h = ground (arith, scan-plain d s)

is_plain-append : (s t : String) → is_plain s ≡ true → is_plain t ≡ true → is_plain (s <> t) ≡ true
is_plain-append String.[] t h k = rw (nil-append) k
is_plain-append (String.◌∷◌ c s) t h k = rw (cons-append) (ground (arith, is_plain-append s t))

is_plain-if :
    (b : Bool) (s t : String)
    → is_plain s ≡ true
    → is_plain t ≡ true
    → is_plain (if b then s else t) ≡ true
is_plain-if true s t h k = h
is_plain-if false s t h k = k

digit_at-plain :
    (ds : List String) (n : ℕ) → all is_plain ds ≡ true → is_plain (digit_at ds n) ≡ true
digit_at-plain [] n h = refl
digit_at-plain (d ∷ ds) zero h = ground arith
digit_at-plain (d ∷ ds) (suc n) h = ground (arith, digit_at-plain ds n)

digit-plain : (n : ℕ) → is_plain (digit n) ≡ true
digit-plain n = digit_at-plain digits n refl

decimal_from-plain : (fuel n : ℕ) → is_plain (decimal_from fuel n) ≡ true
unfolding decimal_from
decimal_from-plain zero n = digit-plain (n % 10)
decimal_from-plain (suc fuel) n =
    is_plain-if _ (digit (n % 10)) (decimal_from fuel (n / 10) <> digit (n % 10))
      (digit-plain (n % 10))
      (is_plain-append (decimal_from fuel (n / 10)) (digit (n % 10))
        (decimal_from-plain fuel (n / 10)) (digit-plain (n % 10)))

pub decimal-plain : (n : ℕ) → is_plain (decimal n) ≡ true
unfolding decimal
decimal-plain n = decimal_from-plain n n

empty-plain :
    (b : Bool) (r : String) → (if b then some String.[] else none) ≡ some r → is_plain r ≡ true
empty-plain true r e = subst (λ t. is_plain t ≡ true) (some-injective _ _ e) refl
empty-plain false r e = cc

pub strip_suffix-plain :
    (d : ℕ) (s r : String) → is_plain s ≡ true → strip_suffix d s ≡ some r → is_plain r ≡ true
unfolding strip_suffix
strip_suffix-plain d String.[] r h e = cc
strip_suffix-plain d (String.◌∷◌ c String.[]) r h e = empty-plain (nat_eq (code c) d) r e
strip_suffix-plain d (String.◌∷◌ c (String.◌∷◌ x s)) r h e =
    elim (Option-cases (strip_suffix d (String.◌∷◌ x s))) [
      | inl stuck ↦ ground arith
      | inr (t, there) ↦ ground (arith, strip_suffix-plain d (String.◌∷◌ x s) t, there)
    ]
