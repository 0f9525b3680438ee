-- ===== src/Shared/Health/Verdict.antt =====
-- The statuses of the health check of shared/src/health.rs.
use rust_microservices_archi.Prelude.{◌≡◌, ◌↔◌, ◌⊎◌, String, Bool, true, arith}
use rust_microservices_archi.Shared.Health.{health_check}

-- The health check of a service answers 200 just when the master, the replica and Redis answered;
-- it answers 503 otherwise.
pub health_check_iff :
    (write_ok read_ok redis_ok : Bool) (name : String)
    → (((health_check write_ok read_ok redis_ok name).status ≡ 200)
        ↔ ((write_ok ≡ true) × (read_ok ≡ true) × (redis_ok ≡ true)))
      × (((health_check write_ok read_ok redis_ok name).status ≡ 200)
          ⊎ ((health_check write_ok read_ok redis_ok name).status ≡ 503))
unfolding health_check
health_check_iff w r c name = (ground arith, ground arith)
