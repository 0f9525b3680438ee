-- ===== src/Prelude/Parse/Printed.antt =====
-- Reading a number undoes printing it.
use Prim.Native.Char.{code}
use Prim.Native.Nat.{◌/◌}
use mathlib.Core.Bool.{false≢true}
use mathlib.Core.Option.{some-injective}
use text.Mathlib.TextLemmas.{nil-append, cons-append}
use rust_microservices_archi.Prelude.{
  ℕ, zero, suc, ◌+◌, ◌-◌, ◌*◌, ◌%◌, ◌^◌, ◌≤◌, ◌<◌, ◌≡◌, refl, ap, ◌∙◌, inl, inr, String, ◌<>◌, Bool,
  true, false, some, nat_eq, Bool-cases, if◌then◌else◌, arith,
}
use rust_microservices_archi.Prelude.Int.{pos}
use rust_microservices_archi.Prelude.Decimal.{digit, decimal_from, decimal}
use rust_microservices_archi.Prelude.Parse.{digits_from, parse_i64, parse_u32}

read_after :
    (s t : String) (n m : ℕ) → digits_from n s ≡ some m → digits_from n (s <> t) ≡ digits_from m t
unfolding digits_from
read_after String.[] t n m h = rw (nil-append) (ap (λ x. digits_from x t) (some-injective _ _ h))
read_after (String.◌∷◌ c s) t n m h =
    rw (cons-append) (ground (arith, read_after s t (n * 10 + (code c - 48)) m))

abbrev is_filled : String → Bool
is_filled String.[] = false
is_filled (String.◌∷◌ c s) = true

is_filled-append : (s t : String) → is_filled t ≡ true → is_filled (s <> t) ≡ true
is_filled-append String.[] t h = rw (nil-append) h
is_filled-append (String.◌∷◌ c s) t h = rw (cons-append) refl

-- One digit.
digit-read :
    (n d : ℕ)
    → d < 10
    → (digits_from n (digit d) ≡ some (n * 10 + d)) × (is_filled (digit d) ≡ true)
unfolding digits_from
digit-read n zero h = (refl, refl)
digit-read n (suc zero) h = (refl, refl)
digit-read n (suc (suc zero)) h = (refl, refl)
digit-read n (suc (suc (suc zero))) h = (refl, refl)
digit-read n (suc (suc (suc (suc zero)))) h = (refl, refl)
digit-read n (suc (suc (suc (suc (suc zero))))) h = (refl, refl)
digit-read n (suc (suc (suc (suc (suc (suc zero)))))) h = (refl, refl)
digit-read n (suc (suc (suc (suc (suc (suc (suc zero))))))) h = (refl, refl)
digit-read n (suc (suc (suc (suc (suc (suc (suc (suc zero)))))))) h = (refl, refl)
digit-read n (suc (suc (suc (suc (suc (suc (suc (suc (suc zero))))))))) h = (refl, refl)
digit-read n (suc (suc (suc (suc (suc (suc (suc (suc (suc (suc d)))))))))) h =
    absurd (omega (arith, h))

decimal_from-read : (fuel n : ℕ) → n ≤ fuel → digits_from 0 (decimal_from fuel n) ≡ some n
unfolding decimal_from
decimal_from-read zero n h = (digit-read 0 (n % 10) (omega arith)).0 ∙ ap some (omega (arith, h))
decimal_from-read (suc fuel) n h = elim (Bool-cases (nat_eq (n / 10) 0)) [
  | inl small ↦
      ap
        (λ b.
          digits_from 0
            (if b then digit (n % 10) else decimal_from fuel (n / 10) <> digit (n % 10)))
        small
      ∙ (digit-read 0 (n % 10) (omega arith)).0
      ∙ ap some (ground arith)
  | inr large ↦
      ap
        (λ b.
          digits_from 0
            (if b then digit (n % 10) else decimal_from fuel (n / 10) <> digit (n % 10)))
        large
      ∙ read_after (decimal_from fuel (n / 10)) (digit (n % 10)) 0 (n / 10)
          (decimal_from-read fuel (n / 10) (ground arith))
      ∙ (digit-read (n / 10) (n % 10) (omega arith)).0
      ∙ ap some (omega arith)
]

is_filled-if :
    (b : Bool) (s t : String)
    → is_filled s ≡ true
    → is_filled t ≡ true
    → is_filled (if b then s else t) ≡ true
is_filled-if true s t h k = h
is_filled-if false s t h k = k

decimal_from-is_filled : (fuel n : ℕ) → is_filled (decimal_from fuel n) ≡ true
unfolding decimal_from
decimal_from-is_filled zero n = (digit-read 0 (n % 10) (omega arith)).1
decimal_from-is_filled (suc fuel) n =
    let last = (digit-read 0 (n % 10) (omega arith)).1 in
    is_filled-if _ (digit (n % 10)) (decimal_from fuel (n / 10) <> digit (n % 10)) last
      (is_filled-append (decimal_from fuel (n / 10)) (digit (n % 10)) last)

-- Digits that are read as a number begin with no sign.
i64-digits :
    (s : String) (n : ℕ)
    → is_filled s ≡ true
    → digits_from 0 s ≡ some n
    → n < 2 ^ 63
    → parse_i64 s ≡ some (pos n)
unfolding parse_i64 digits_from
i64-digits String.[] n f h lt = absurd (false≢true f)
i64-digits (String.◌∷◌ c s) n f h lt = ground arith

u32-digits :
    (s : String) (n : ℕ)
    → is_filled s ≡ true
    → digits_from 0 s ≡ some n
    → n < 2 ^ 32
    → parse_u32 s ≡ some n
unfolding parse_u32 digits_from
u32-digits String.[] n f h lt = absurd (false≢true f)
u32-digits (String.◌∷◌ c s) n f h lt = ground arith

pub parse_i64-decimal : (n : ℕ) → n < 2 ^ 63 → parse_i64 (decimal n) ≡ some (pos n)
unfolding decimal
parse_i64-decimal n lt =
    i64-digits (decimal n) n (decimal_from-is_filled n n) (decimal_from-read n n (omega arith)) lt

pub parse_u32-decimal : (n : ℕ) → n < 2 ^ 32 → parse_u32 (decimal n) ≡ some n
unfolding decimal
parse_u32-decimal n lt =
    u32-digits (decimal n) n (decimal_from-is_filled n n) (decimal_from-read n n (omega arith)) lt
