-- ===== src/Tests/Startup.antt =====
-- The configuration and the pools at concrete environments.
use rust_microservices_archi.Prelude.{
  ℕ, ◌≡◌, refl, String, ◌==◌, Option, none, some, if◌then◌else◌, arith,
}
use rust_microservices_archi.Prelude.Int.{pos}
use rust_microservices_archi.Prelude.Decimal.{decimal}
use rust_microservices_archi.Auth.Config.{from_env}
use rust_microservices_archi.Auth.Config.Settings.{from_env-reads}
use rust_microservices_archi.Shared.Pools.{init_pools, init_pool}
use rust_microservices_archi.Shared.Pools.OneServer.{init_pools-init_pool}

abbrev environment : String → Option String
environment name =
    if name == "JWT_SECRET"
    then some "jwt"
    else if name == "ACCESS_TOKEN_TTL_SECS"
    then some "900"
    else if name == "DATABASE_URL"
    then some "postgres://master"
    else if name == "DATABASE_READ_URL"
    then some "postgres://replica"
    else none

lifetime-printed : environment "ACCESS_TOKEN_TTL_SECS" ≡ some (decimal 900)
unfolding decimal
lifetime-printed = refl

from_env-reads_example :
    from_env environment
    ≡ some (record {
      jwt_secret = "jwt";
      access_token_ttl_secs = pos 900;
      refresh_token_ttl_days = pos 7;
    })
from_env-reads_example =
    from_env-reads environment "jwt" (some 900) none refl lifetime-printed refl (omega arith) tt

-- A pool as the attempt, the size and the URL that it was opened with.
abbrev open_pool : ℕ → ℕ → String → Option (ℕ × ℕ × String)
open_pool attempt size url = some (attempt, size, url)

init_pools-init_pool_example :
    init_pools environment open_pool 0
    ≡ some (record { write = (0, 10, "postgres://master"); read = (1, 10, "postgres://replica") })
unfolding init_pool
init_pools-init_pool_example = init_pools-init_pool environment open_pool 0
