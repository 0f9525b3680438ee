-- ===== src/User/UserController.antt =====
-- user-service/src/controllers/v1/user_controller.rs: each handler extracts the user of the request,
-- checks its scope, and answers with the service's result or the error's response.
pub mod Guarded
use rust_microservices_archi.Prelude.{ℕ, String, Result, ok, err}
use rust_microservices_archi.Json.{Json, null}
use rust_microservices_archi.Http.{HttpResponse}
use rust_microservices_archi.Jwt.{Claims}
use rust_microservices_archi.Effects.{Prog, ret, call, ◌>>=◌, ◌>>◌, pure, lift}
use rust_microservices_archi.Shared.Errors.{ServiceError, error_response}
use rust_microservices_archi.Shared.JwtAuth.{HttpRequest, extract_user, require_scope}
use rust_microservices_archi.User.Models.{NewUser, UpdateUser}
use rust_microservices_archi.User.Calls.{Op, Reply, Action}
use rust_microservices_archi.User.Cache.{External, user_to_json, users_to_json}
use rust_microservices_archi.User.UserService

abbrev respond : ℕ → Json → HttpResponse
respond status body = record { status = status; body = body }

-- The framework turns the error of an extractor or a handler into its response.
abbrev pub to_response : Result ServiceError HttpResponse → HttpResponse
to_response (ok r) = r
to_response (err e) = error_response e

abbrev pub answer : Action HttpResponse → Prog Op Reply HttpResponse
answer (ret r) = ret (to_response r)
answer (call o k) = call o (λ r. answer (k r))

module _ (decode : String → String → Result String Claims) (ext : External)
    (req : HttpRequest) where
  -- The extractor and `require_scope`, which open every handler.
  unfoldable pub authorized : String → Action HttpResponse → Action HttpResponse
  authorized scope handler = do
    auth ← lift (extract_user decode req)
    lift (require_scope auth scope)
    handler

  unfoldable pub list_users : Action HttpResponse
  unfolding authorized
  list_users =
      authorized "read"
        (do users ← UserService.list_users ext; pure (respond 200 (users_to_json users)))

  unfoldable pub get_user : ℕ → Action HttpResponse
  unfolding authorized
  get_user id =
      authorized "read"
        (do user ← UserService.get_user_by_id ext id; pure (respond 200 (user_to_json user)))

  unfoldable pub create_user : NewUser → Action HttpResponse
  unfolding authorized
  create_user json =
      authorized "write"
        (do user ← UserService.create_user ext json; pure (respond 201 (user_to_json user)))

  unfoldable pub update_user : ℕ → UpdateUser → Action HttpResponse
  unfolding authorized
  update_user id json =
      authorized "write"
        (do user ← UserService.update_user ext id json; pure (respond 200 (user_to_json user)))

  unfoldable pub delete_user : ℕ → Action HttpResponse
  unfolding authorized
  delete_user id = authorized "write" (do UserService.delete_user ext id; pure (respond 204 null))
