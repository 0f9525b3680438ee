-- ===== src/Auth/Config.antt =====
-- auth-service/src/config.rs: `AppConfig::from_env` over the variables of the environment. `none` is a
-- panic.
pub mod Settings
use rust_microservices_archi.Prelude.{String, Option, none, some, get_or}
use rust_microservices_archi.Prelude.Parse.{parse_i64}
use rust_microservices_archi.Prelude.Chain.{◌>>=◌}
use rust_microservices_archi.Auth.Models.{AppConfig}

unfoldable pub from_env : (var : String → Option String) → Option AppConfig
unfolding parse_i64
from_env var = do
  secret ← var "JWT_SECRET"
  ttl_secs ← parse_i64 (get_or "300" (var "ACCESS_TOKEN_TTL_SECS"))
  ttl_days ← parse_i64 (get_or "7" (var "REFRESH_TOKEN_TTL_DAYS"))
  some (record {
    jwt_secret = secret;
    access_token_ttl_secs = ttl_secs;
    refresh_token_ttl_days = ttl_days;
  })
