-- ===== src/Shared/Health.antt =====
-- shared/src/health.rs; the health controllers of both services are the same handler with their own
-- name. A probe is whether a connection was acquired, or whether Redis answered.
pub mod Verdict
use rust_microservices_archi.Prelude.{String, Bool, ◌&&◌, if◌then◌else◌}
use rust_microservices_archi.Json.{str, obj, end, field}
use rust_microservices_archi.Http.{HttpResponse}

abbrev up_or_down : Bool → String
up_or_down b = if b then "up" else "down"

unfoldable pub health_check : (write_ok read_ok redis_ok : Bool) → String → HttpResponse
health_check write_ok read_ok redis_ok service_name =
    if write_ok && read_ok && redis_ok
    then (record {
      status = 200;
      body = obj (
          field "status" (str "healthy") (
            field "service" (str service_name) (
              field "master" (str "up")
                (field "replica" (str "up") (field "redis" (str "up") end)))));
    })
    else (record {
      status = 503;
      body = obj (
          field "status" (str "degraded") (
            field "service" (str service_name) (
              field "master" (str (up_or_down write_ok)) (
                field "replica" (str (up_or_down read_ok))
                  (field "redis" (str (up_or_down redis_ok)) end)))));
    })

-- auth-service/src/controllers/health_controller.rs
unfoldable pub auth_health_check : (write_ok read_ok redis_ok : Bool) → HttpResponse
unfolding health_check
auth_health_check write_ok read_ok redis_ok = health_check write_ok read_ok redis_ok "auth-service"

-- user-service/src/controllers/health_controller.rs
unfoldable pub user_health_check : (write_ok read_ok redis_ok : Bool) → HttpResponse
unfolding health_check
user_health_check write_ok read_ok redis_ok = health_check write_ok read_ok redis_ok "user-service"
