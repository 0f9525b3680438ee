-- ===== src/Prelude/Decimal.antt =====
-- The decimal form of a number.
use Prim.Native.Nat.{ℕ, zero, suc, ◌/◌, ◌%◌}
use Prim.Native.String.{String, ◌++◌}
use rust_microservices_archi.Prelude.Hex.{digits, digit_at}
use rust_microservices_archi.Prelude.Tests.{nat_eq, if◌then◌else◌}

abbrev pub digit : ℕ → String
digit d = digit_at digits d

-- Each round takes one digit, and a number has fewer digits than it counts.
unfoldable pub decimal_from : (fuel n : ℕ) → String
decimal_from zero n = digit (n % 10)
decimal_from (suc fuel) n =
    let rest = decimal_from fuel (n / 10) in
    if nat_eq (n / 10) 0 then digit (n % 10) else rest ++ digit (n % 10)

unfoldable pub decimal : ℕ → String
unfolding decimal_from
decimal n = decimal_from n n
