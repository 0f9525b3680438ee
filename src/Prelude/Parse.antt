-- ===== src/Prelude/Parse.antt =====
-- `str::parse` for the integers that are read from the environment.
pub mod Printed
use Prim.Native.Nat.{ℕ, zero, suc, ◌+◌, ◌-◌, ◌*◌, ◌^◌}
use Prim.Native.Char.{code}
use Prim.Native.String.{String}
use mathlib.Core.Bool.{◌&&◌}
use mathlib.Core.Option.{Option, none, some}
use rust_microservices_archi.Prelude.Tests.{leb, ltb, nat_eq, if◌then◌else◌}
use rust_microservices_archi.Prelude.Int.{ℤ, pos, negsuc}

-- The value of decimal digits after what was read; a character that is none of them is an error.
unfoldable pub digits_from : ℕ → String → Option ℕ
digits_from n String.[] = some n
digits_from n (String.◌∷◌ c s) =
    let rest = digits_from (n * 10 + (code c - 48)) s in
    if leb 48 (code c) && leb (code c) 57 then rest else none

-- At least one digit.
unfoldable pub parse_digits : String → Option ℕ
unfolding digits_from
parse_digits String.[] = none
parse_digits (String.◌∷◌ c s) = digits_from 0 (String.◌∷◌ c s)

-- A magnitude below a bound, and one that is negated.
abbrev pub below : ℕ → Option ℕ → Option ℕ
below bound none = none
below bound (some n) = if ltb n bound then some n else none

abbrev pub positive : Option ℕ → Option ℤ
positive none = none
positive (some n) = some (pos n)

abbrev pub negative : Option ℕ → Option ℤ
negative none = none
negative (some zero) = some (pos 0)
negative (some (suc n)) = some (negsuc n)

unfoldable pub parse_i64 : String → Option ℤ
unfolding parse_digits
parse_i64 String.[] = none
parse_i64 (String.◌∷◌ c s) =
    if nat_eq (code c) b'-'
    then negative (below (2 ^ 63 + 1) (parse_digits s))
    else if nat_eq (code c) b'+'
    then positive (below (2 ^ 63) (parse_digits s))
    else positive (below (2 ^ 63) (parse_digits (String.◌∷◌ c s)))

unfoldable pub parse_u32 : String → Option ℕ
unfolding parse_digits
parse_u32 String.[] = none
parse_u32 (String.◌∷◌ c s) =
    if nat_eq (code c) b'+'
    then below (2 ^ 32) (parse_digits s)
    else below (2 ^ 32) (parse_digits (String.◌∷◌ c s))
