-- ===== src/Auth/Controllers.antt =====
-- auth-service/src/controllers/v1: the handlers, which answer with the service's result or the
-- error's response.
pub mod Registration
pub mod Conflict
use rust_microservices_archi.Prelude.{ℕ, String, Option, none, some, Result, ok, err}
use rust_microservices_archi.Prelude.Int.{ℤ}
use rust_microservices_archi.Json.{Json, Fields, str, num, obj, end, field}
use rust_microservices_archi.Http.{HttpResponse}
use rust_microservices_archi.Effects.{Prog, ret, call, ◌>>=◌, ◌>>◌, pure}
use rust_microservices_archi.Auth.Models.{
  RegisterRequest, RegisterResponse, ClientRegisterRequest, ClientRegisterResponse, AuthorizeParams,
  LoginRequest, AuthorizeResponse, TokenRequest, TokenResponse, RevokeRequest, AppConfig,
}
use rust_microservices_archi.Auth.Errors.{ServiceError, error_response}
use rust_microservices_archi.Auth.External.{External}
use rust_microservices_archi.Auth.Calls.{Op, Reply, Action}
use rust_microservices_archi.Auth.KafkaService.{publish_user_event}
use rust_microservices_archi.Auth.Services.AuthService
use rust_microservices_archi.Auth.Services.OAuthService
use rust_microservices_archi.Auth.Services.OAuthService.Authorize
use rust_microservices_archi.Auth.Services.OAuthService.Exchange

abbrev respond : ℕ → Json → HttpResponse
respond status body = record { status = status; body = body }

-- The framework turns the error of a handler into its response.
abbrev pub to_response : Result ServiceError HttpResponse → HttpResponse
to_response (ok r) = r
to_response (err e) = error_response e

abbrev pub answer : Action HttpResponse → Prog Op Reply HttpResponse
answer (ret r) = ret (to_response r)
answer (call o k) = call o (λ r. answer (k r))

abbrev registered_json : RegisterResponse → Json
registered_json r = obj (field "id" (num r.id) (field "email" (str r.email) end))

abbrev client_json : ClientRegisterResponse → Json
client_json r = obj (
    field "client_id" (str r.client_id) (
      field "client_secret" (str r.client_secret) (
        field "client_name" (str r.client_name)
          (field "redirect_uri" (str r.redirect_uri) (field "scopes" (str r.scopes) end)))))

abbrev code_json : AuthorizeResponse → Json
code_json r = obj (field "code" (str r.code) (field "state" (str r.state) end))

-- `refresh_token` is left out when there is none.
abbrev with_refresh : Option String → Fields → Fields
with_refresh none fs = fs
with_refresh (some t) fs = field "refresh_token" (str t) fs

module _ (ext : External) where
  unfoldable pub token_json : (ℤ → Json) → TokenResponse → Json
  token_json print_int r = obj (
      field "access_token" (str r.access_token) (
        with_refresh r.refresh_token (
          field "token_type" (str r.token_type)
            (field "expires_in" (print_int r.expires_in) (field "scope" (str r.scope) end)))))

  -- auth_controller.rs: a failure to publish is reported and dropped.
  unfoldable pub register : RegisterRequest → Action HttpResponse
  register json = do
    response ← AuthService.register ext json
    publish_user_event ext "user.events"
        (record { event_type = "user.registered"; user_id = response.id; email = response.email })
    pure (respond 201 (registered_json response))

  -- client_controller.rs
  unfoldable pub register_client : ClientRegisterRequest → Action HttpResponse
  register_client json = do
    response ← OAuthService.register_client ext json
    pure (respond 201 (client_json response))

  -- oauth_controller.rs
  unfoldable pub authorize : AuthorizeParams → LoginRequest → Action HttpResponse
  authorize params json = do
    response ← Authorize.authorize ext params json
    pure (respond 200 (code_json response))

  unfoldable pub token : (ℤ → Json) → AppConfig → TokenRequest → Action HttpResponse
  token print_int config form = do
    response ← Exchange.token ext config form
    pure (respond 200 (token_json print_int response))

  unfoldable pub revoke : RevokeRequest → Action HttpResponse
  revoke form = do Exchange.revoke ext form; pure (respond 200 (obj end))
