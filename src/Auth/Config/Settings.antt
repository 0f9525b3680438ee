-- ===== src/Auth/Config/Settings.antt =====
-- What auth-service reads from the variables of its environment.
use rust_microservices_archi.Prelude.{ℕ, ◌^◌, ◌<◌, ◌≡◌, refl, String, Option, none, some, get_or}
use rust_microservices_archi.Prelude.Int.{pos}
use rust_microservices_archi.Prelude.Decimal.{decimal}
use rust_microservices_archi.Prelude.Parse.{parse_i64}
use rust_microservices_archi.Prelude.Parse.Printed.{parse_i64-decimal}
use rust_microservices_archi.Auth.Config.{from_env}

-- A variable that is not set, or holds the decimal form of a number below 2^63.
abbrev pub shown : Option ℕ → Option String
shown none = none
shown (some n) = some (decimal n)

abbrev pub IsSmall : Option ℕ → Type 0
IsSmall none = Unit
IsSmall (some n) = n < 2 ^ 63

read_or :
    (n : ℕ) (text : String) (v : Option ℕ)
    → parse_i64 text ≡ some (pos n)
    → IsSmall v
    → parse_i64 (get_or text (shown v)) ≡ some (pos (get_or n v))
read_or n text none e h = e
read_or n text (some k) e h = parse_i64-decimal k h

default_secs : parse_i64 "300" ≡ some (pos 300)
unfolding parse_i64
default_secs = refl

default_days : parse_i64 "7" ≡ some (pos 7)
unfolding parse_i64
default_days = refl

-- With a JWT secret, and each lifetime either not set or set to the decimal form of a number below
-- 2^63, the configuration is read, with that secret and those lifetimes; a lifetime that is not set is
-- 300 seconds or 7 days.
pub from_env-reads :
    (var : String → Option String) (secret : String) (ttl_secs ttl_days : Option ℕ)
    → var "JWT_SECRET" ≡ some secret
    → var "ACCESS_TOKEN_TTL_SECS" ≡ shown ttl_secs
    → var "REFRESH_TOKEN_TTL_DAYS" ≡ shown ttl_days
    → IsSmall ttl_secs
    → IsSmall ttl_days
    → from_env var
      ≡ some (record {
        jwt_secret = secret;
        access_token_ttl_secs = pos (get_or 300 ttl_secs);
        refresh_token_ttl_days = pos (get_or 7 ttl_days);
      })
unfolding from_env
from_env-reads var secret ttl_secs ttl_days s a d ha hd = rw s (
    rw a (
      rw d (
        rw (read_or 300 "300" ttl_secs default_secs ha)
          (rw (read_or 7 "7" ttl_days default_days hd) refl))))
