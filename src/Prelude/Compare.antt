-- ===== src/Prelude/Compare.antt =====
-- What a failed or passed comparison means.
use Prim.Native.Nat.{ℕ, ◌≤◌}
use Prim.Native.String.{String}
use mathlib.Core.Path.{◌≡◌}
use mathlib.Core.Bool.{false, not}
use native.Mathlib.Omega.{arith}
use text.Mathlib.Text.{◌==◌}
use text.Mathlib.TextEquality.{eq_iff}
use rust_microservices_archi.Prelude.Tests.{ltb}

pub not_less : (a b : ℕ) → ltb a b ≡ false → b ≤ a
not_less a b h = ground arith

pub same_text : (a b : String) → not (a == b) ≡ false → a ≡ b
same_text a b h = ground (arith, eq_iff a b)
