-- ===== src/Shared/Pools.antt =====
-- shared/src/db.rs: the database pools, with sqlx's connecting as a parameter. `none` is a panic.
pub mod OneServer
use rust_microservices_archi.Prelude.{ℕ, suc, String, Option, none, some, get_or, ◌≡◌}
use rust_microservices_archi.Prelude.Parse.{parse_u32}
use rust_microservices_archi.Prelude.Chain.{◌>>=◌}

pub record DbPools (Pool : Type 0) : Type 0 where
  pub write : Pool
  pub read : Pool

-- `connect n max_size url`: what the n-th attempt to connect gives, a pool or an error. Two attempts
-- at the same server may end differently.
module _ {Pool : Type 0} (var : String → Option String)
    (connect : ℕ → ℕ → String → Option Pool) where
  -- The panic of `create_pool` stands for the error.
  unfoldable pub create_pool : (attempt : ℕ) → (url : String) → (max_size : ℕ) → Option Pool
  create_pool attempt url max_size = connect attempt max_size url

  -- Two attempts, the first one with the number `attempt`.
  unfoldable pub init_pools : (attempt : ℕ) → Option (DbPools Pool)
  unfolding parse_u32 create_pool
  init_pools attempt = do
    write_url ← var "DATABASE_URL"
    max_size ← parse_u32 (get_or "10" (var "DB_POOL_MAX_SIZE"))
    write ← create_pool attempt write_url max_size
    read ← create_pool (suc attempt) (get_or write_url (var "DATABASE_READ_URL")) max_size
    some (record { write = write; read = read })

  unfoldable pub init_pool : (attempt : ℕ) → Option Pool
  unfolding parse_u32
  init_pool attempt = do
    database_url ← var "DATABASE_URL"
    max_size ← parse_u32 (get_or "10" (var "DB_POOL_MAX_SIZE"))
    connect attempt max_size database_url
