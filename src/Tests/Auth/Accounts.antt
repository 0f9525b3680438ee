-- ===== src/Tests/Auth/Accounts.antt =====
-- The theorems on registration, authorization, revocation, scopes and the client cache.
use rust_microservices_archi.Prelude.{arith}
use rust_microservices_archi.Effects.{run}
use rust_microservices_archi.Auth.Calls.WellFormed.{IsWellFormed, run-IsWellFormed}
use rust_microservices_archi.Tests.Auth.{stored}
use rust_microservices_archi.Prelude.{◌≡◌, refl, ◌↔◌, String, ◌<>◌, Option, [], ◌∷◌, ok, All}
use rust_microservices_archi.Prelude.Text.{split_whitespace}
use rust_microservices_archi.Effects.{trace}
use rust_microservices_archi.Auth.Models.{
  RegisterRequest, ClientRegisterRequest, ClientRegisterResponse,
}
use rust_microservices_archi.Auth.Controllers.{register}
use rust_microservices_archi.Auth.Controllers.Registration.{
  IsRegistered, register_endpoint-IsRegistered,
}
use rust_microservices_archi.Auth.Services.AuthService
use rust_microservices_archi.Auth.KafkaService.{publish_user_event}
use rust_microservices_archi.Auth.Services.OAuthService.{register_client}
use rust_microservices_archi.Auth.Services.OAuthService.ClientRegistration.{
  IsEnrolled, registered_client-IsEnrolled,
}
use rust_microservices_archi.Http.{HttpResponse}
use rust_microservices_archi.Json.{obj, field, num, str, end}
use rust_microservices_archi.Prelude.Hex.{hex_lower}
use rust_microservices_archi.Auth.Models.{OAuthClient, AuthorizeParams, LoginRequest, RevokeRequest}
use rust_microservices_archi.Auth.Calls.{Env, exec, machine}
use rust_microservices_archi.Auth.Services.OAuthService.Authorize.{authorize}
use rust_microservices_archi.Auth.Services.OAuthService.Exchange.{revoke}
use rust_microservices_archi.Auth.Repositories.AuthUserRepository
use rust_microservices_archi.Auth.Repositories.OAuthClientRepository
use rust_microservices_archi.Auth.Repositories.AuthorizationCodeRepository
use rust_microservices_archi.Auth.Repositories.RefreshTokenRepository
use rust_microservices_archi.Auth.Services.OAuthService.{
  find_client_cached, load_client, validate_scopes,
}
use rust_microservices_archi.Auth.Services.OAuthService.Authorization.{
  IsAuthorized, issued_code-IsAuthorized,
}
use rust_microservices_archi.Auth.Services.OAuthService.Revocation.{
  IsRevoked, answered_revocation-IsRevoked,
}
use rust_microservices_archi.Auth.Services.OAuthService.Scopes.{
  IsAmong, validate_scopes_iff, validate_scopes_names,
}
use rust_microservices_archi.Auth.Services.OAuthService.ClientCache.{
  IsOwnText, find_client_cached-misses,
}
use rust_microservices_archi.Auth.Errors.{invalid_request}
use rust_microservices_archi.Auth.Calls.{Action, redis_get}
use rust_microservices_archi.Auth.Cache.{oauth_client_cache_key}
use rust_microservices_archi.Effects.{call}
use rust_microservices_archi.Tests.Codec.{parse-print_json}
use rust_microservices_archi.Tests.Auth.{plain, start, quiet}

abbrev params : AuthorizeParams
params = record {
  response_type = "code";
  client_id = "app";
  redirect_uri = "https://app/cb";
  scope = "read";
  state = "state";
  code_challenge = "S256:verifier";
  code_challenge_method = "S256";
}

abbrev login : LoginRequest
login = record { email = "alice@example.org"; password = "password" }

issued_code-IsAuthorized_example :
    IsAuthorized plain params login
      (trace (machine quiet) 0 (authorize plain params login) start [])
      (record { code = "hex"; state = "state" })
unfolding authorize exec OAuthClientRepository.find_by_client_id AuthUserRepository.find_by_email
    AuthorizationCodeRepository.create validate_scopes split_whitespace
issued_code-IsAuthorized_example = issued_code-IsAuthorized plain quiet 0 start params login refl

abbrev revocation : RevokeRequest
revocation = record { token = "refresh"; client_id = "app"; client_secret = "secret" }

answered_revocation-IsRevoked_example :
    IsRevoked plain revocation (trace (machine quiet) 0 (revoke plain revocation) start []) tt
unfolding revoke exec OAuthClientRepository.find_by_client_id RefreshTokenRepository.delete_by_token
answered_revocation-IsRevoked_example =
    answered_revocation-IsRevoked plain quiet 0 start revocation refl

validate_scopes_iff_example :
    (validate_scopes "write read" "read write" ≡ ok tt)
    ↔ All (λ w. IsAmong w (split_whitespace "read write")) (split_whitespace "write read")
validate_scopes_iff_example = validate_scopes_iff "write read" "read write"

validate_scopes_names_example :
    (w : String) × IsAmong w (split_whitespace "read admin")
    × ¬ (IsAmong w (split_whitespace "read write"))
    × (invalid_request "Scope 'admin' not allowed"
        ≡ invalid_request ("Scope '" <> w <> "' not allowed"))
unfolding validate_scopes split_whitespace
validate_scopes_names_example = validate_scopes_names "read admin" "read write" refl

find_client_cached-misses_example :
    (k : Option String → Action OAuthClient) × (find_client_cached plain "app"
      ≡ call (redis_get (oauth_client_cache_key "app")) k)
    × ((text : Option String) → IsOwnText plain text → k text ≡ load_client plain "app")
find_client_cached-misses_example = find_client_cached-misses plain parse-print_json "app"

abbrev newcomer : RegisterRequest
newcomer = record { email = "bob@example.org"; password = "correct horse" }

abbrev welcome : HttpResponse
welcome = record {
  status = 201;
  body = obj (field "id" (num 2) (field "email" (str "bob@example.org") end));
}

register_endpoint-IsRegistered_example :
    IsRegistered plain newcomer (trace (machine quiet) 0 (register plain newcomer) start []) welcome
unfolding register AuthService.register exec AuthUserRepository.create publish_user_event
register_endpoint-IsRegistered_example =
    register_endpoint-IsRegistered plain quiet 0 start newcomer {resp = welcome} refl

abbrev enrolment : ClientRegisterRequest
enrolment = record { client_name = "Other"; redirect_uri = "https://other/cb"; scopes = "read" }

abbrev credentials : ClientRegisterResponse
credentials = record {
  client_id = "uuid";
  client_secret = "00ff";
  client_name = "Other";
  redirect_uri = "https://other/cb";
  scopes = "read";
}

-- Two random bytes stand for thirty-two.
abbrev short : Env
short = record quiet { bytes = λ n count. 0 ∷ 255 ∷ [] }

registered_client-IsEnrolled_example :
    IsEnrolled plain enrolment
      (trace (machine short) 0 (register_client plain enrolment) start [])
      credentials
unfolding register_client exec OAuthClientRepository.create hex_lower
registered_client-IsEnrolled_example =
    registered_client-IsEnrolled plain short 0 start enrolment {resp = credentials} refl

stored-IsWellFormed : IsWellFormed stored
stored-IsWellFormed = record {
  users = record { below = (omega arith, tt); distinct = refl };
  clients = record { below = (omega arith, tt); distinct = refl };
  codes = record { below = (omega arith, tt); distinct = refl };
  tokens = record { below = (omega arith, tt); distinct = refl };
}

run-IsWellFormed_example :
    IsWellFormed (run (machine quiet) 0 (register_client plain enrolment) start).2.write
run-IsWellFormed_example =
    run-IsWellFormed quiet (λ n w h. h) (register_client plain enrolment) 0 start
      stored-IsWellFormed
