-- ===== src/Prelude/Int.antt =====
-- The `i64` of a configuration, and its conversion `as usize` on a 64-bit target.
use Prim.Native.Nat.{ℕ, ◌-◌, ◌%◌, ◌^◌, ◌+◌}

-- `negsuc n` is -(n + 1).
pub data ℤ : Type 0 where
  pos : ℕ → ℤ
  negsuc : ℕ → ℤ

-- `x as usize`: the value modulo 2^64.
unfoldable pub as_usize : ℤ → ℕ
as_usize (pos n) = n % 2 ^ 64
as_usize (negsuc n) = 2 ^ 64 - 1 - n % 2 ^ 64

-- `a + b` on `usize` in a release build.
unfoldable pub wrapping_add : ℕ → ℕ → ℕ
wrapping_add a b = (a + b) % 2 ^ 64
