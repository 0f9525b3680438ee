-- ===== src/Shared/Pools/OneServer.antt =====
-- The pools of shared/src/db.rs beside the one pool of `init_pool`.
use rust_microservices_archi.Prelude.{
  ℕ, suc, ◌≡◌, refl, String, ◌==◌, Option, none, some, get_or, if◌then◌else◌,
}
use rust_microservices_archi.Prelude.Chain.{◌>>=◌}
use rust_microservices_archi.Prelude.Parse.{parse_u32}
use rust_microservices_archi.Shared.Pools.{DbPools, init_pools, init_pool}

-- The environment with its URL for reading, if it has one, as the URL of the database.
abbrev pub for_reading : (String → Option String) → String → Option String
for_reading var name =
    if name == "DATABASE_URL"
    then (var "DATABASE_URL" >>= λ url. some (get_or url (var "DATABASE_READ_URL")))
    else var name

module _ {Pool : Type 0} where
  abbrev pub pair : Option Pool → Option Pool → Option (DbPools Pool)
  pair first second = do write ← first; read ← second; some (record { write = write; read = read })

  open_each :
      (url : Option String) (size : Option ℕ) (reading : String → String)
      (first second : ℕ → String → Option Pool)
      → (url >>= λ u. size >>= λ n. pair (first n u) (second n (reading u)))
        ≡ pair
            (url >>= λ u. size >>= λ n. first n u)
            ((url >>= λ u. some (reading u)) >>= λ u. size >>= λ n. second n u)
  open_each none size reading first second = refl
  open_each (some u) none reading first second = refl
  open_each (some u) (some n) reading first second = refl

-- The two pools are those that `init_pool` opens, one attempt after the other: the first with the
-- environment as it is, the second with the URL for reading, if one is set, in place of the URL of the
-- database, and with the same size. There is a panic exactly where one of the two panics.
pub init_pools-init_pool :
    {Pool : Type 0} (var : String → Option String) (connect : ℕ → ℕ → String → Option Pool)
    (attempt : ℕ)
    → init_pools var connect attempt
      ≡ pair (init_pool var connect attempt) (init_pool (for_reading var) connect (suc attempt))
unfolding init_pools init_pool
init_pools-init_pool var connect attempt =
    open_each (var "DATABASE_URL") (parse_u32 (get_or "10" (var "DB_POOL_MAX_SIZE")))
      (λ url. get_or url (var "DATABASE_READ_URL")) (connect attempt) (connect (suc attempt))
