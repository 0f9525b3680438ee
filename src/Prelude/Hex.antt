-- ===== src/Prelude/Hex.antt =====
-- `format!("{:02x}", byte)`, joined over bytes.
use Prim.Native.Nat.{ℕ, zero, suc, ◌/◌, ◌%◌}
use Prim.Native.String.{String, ◌++◌}
use mathlib.Core.List.{List, [], ◌∷◌}

abbrev pub digits : List String
digits =
    "0" ∷ "1" ∷ "2" ∷ "3" ∷ "4" ∷ "5" ∷ "6" ∷ "7" ∷ "8" ∷ "9" ∷ "a" ∷ "b" ∷ "c" ∷ "d" ∷ "e" ∷ "f"
    ∷ []

abbrev pub digit_at : List String → ℕ → String
digit_at [] n = ""
digit_at (d ∷ ds) zero = d
digit_at (d ∷ ds) (suc n) = digit_at ds n

unfoldable pub hex_lower : List ℕ → String
hex_lower [] = ""
hex_lower (b ∷ bs) = digit_at digits (b / 16 % 16) ++ digit_at digits (b % 16) ++ hex_lower bs
