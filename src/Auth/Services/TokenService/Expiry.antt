-- ===== src/Auth/Services/TokenService/Expiry.antt =====
-- When an access token of auth-service/src/services/token_service.rs expires.
use rust_microservices_archi.Prelude.{ℕ, ◌+◌, ◌^◌, ◌<◌, ◌≡◌, String, Option, arith}
use rust_microservices_archi.Prelude.Int.{ℤ, pos, negsuc, as_usize, wrapping_add}
use rust_microservices_archi.Auth.Models.{Time}
use rust_microservices_archi.Auth.External.{External}
use rust_microservices_archi.Auth.Services.TokenService.{access_claims}

-- The sum of a time and a lifetime of any sign, as integers, when it is not negative.
abbrev IsSum : ℕ → ℤ → ℕ → Type 0
IsSum t (pos n) e = e ≡ t + n
IsSum t (negsuc n) e = e + n + 1 ≡ t

wrapped-bound : (a b : ℕ) → wrapping_add a b < 2 ^ 64
unfolding wrapping_add
wrapped-bound a b = omega arith

wrapped-IsSum :
    (t : ℕ) (ttl : ℤ) (e : ℕ)
    → IsSum t ttl e
    → t < 2 ^ 64
    → e < 2 ^ 64
    → wrapping_add t (as_usize ttl) ≡ e
unfolding wrapping_add as_usize
wrapped-IsSum t (pos n) e h lt le = omega (arith, h)
wrapped-IsSum t (negsuc n) e h lt le = omega (arith, h)

-- The expiry of an access token fits 64 bits; and it is the time of signing plus the configured
-- lifetime, which may be negative, when that sum is not negative and it and the time fit 64 bits.
pub access_claims-exp :
    (ext : External) (now : Time) (user_id : String) (email : Option String)
    (client_id scopes : String) (ttl_secs : ℤ)
    → ((access_claims ext now user_id email client_id scopes ttl_secs).exp < 2 ^ 64)
      × ((e : ℕ)
          → IsSum (ext.timestamp now) ttl_secs e
          → ext.timestamp now < 2 ^ 64
          → e < 2 ^ 64
          → (access_claims ext now user_id email client_id scopes ttl_secs).exp ≡ e)
unfolding access_claims
access_claims-exp ext now user_id email client_id scopes ttl_secs = (
  wrapped-bound (ext.timestamp now) (as_usize ttl_secs),
  λ e h lt le. wrapped-IsSum (ext.timestamp now) ttl_secs e h lt le,
)
