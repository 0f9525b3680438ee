-- ===== src/Tests/Auth.antt =====
-- auth-service at a small database: one user, one client, one code, one refresh token.
pub mod Grants
pub mod Accounts
pub mod Lifetime
use rust_microservices_archi.Prelude.{
  ℕ, ◌+◌, ◌*◌, ◌≡◌, refl, ◌↔◌, String, ◌<>◌, ◌==◌, true, false, Option, none, some, [], ◌∷◌, ok,
  err, All,
}
use rust_microservices_archi.Prelude.Int.{ℤ, pos, negsuc}
use rust_microservices_archi.Prelude.Text.{split_whitespace}
use rust_microservices_archi.Database.{fine}
use rust_microservices_archi.Effects.{trace}
use rust_microservices_archi.Auth.Models.{
  RegisterRequest, ClientRegisterRequest, ClientRegisterResponse,
}
use rust_microservices_archi.Auth.Controllers.{register}
use rust_microservices_archi.Auth.Controllers.Registration.{
  IsRegistered, register_endpoint-IsRegistered,
}
use rust_microservices_archi.Auth.Services.AuthService
use rust_microservices_archi.Auth.KafkaService.{publish_user_event}
use rust_microservices_archi.Auth.Services.OAuthService.{register_client}
use rust_microservices_archi.Auth.Services.OAuthService.ClientRegistration.{
  IsEnrolled, registered_client-IsEnrolled,
}
use rust_microservices_archi.Http.{HttpResponse}
use rust_microservices_archi.Json.{obj, field, num, str, end}
use rust_microservices_archi.Prelude.Hex.{hex_lower}
use rust_microservices_archi.Prelude.{Result, Bool, true, false}
use rust_microservices_archi.Effects.{run}
use rust_microservices_archi.Auth.Errors.{ServiceError}
use rust_microservices_archi.Auth.Models.{
  AuthUser, OAuthClient, AuthorizationCode, RefreshToken, TokenRequest, TokenResponse,
  AuthorizeParams, LoginRequest, RevokeRequest, AppConfig,
}
use rust_microservices_archi.Auth.Tables.{AuthDb}
use rust_microservices_archi.Auth.External.{External}
use rust_microservices_archi.Auth.Calls.{World, Env, exec, machine}
use rust_microservices_archi.Auth.Services.OAuthService.Authorize.{authorize}
use rust_microservices_archi.Auth.Services.OAuthService.Exchange.{
  exchange_authorization_code, exchange_client_credentials, exchange_refresh_token, token, revoke,
}
use rust_microservices_archi.Auth.Services.OAuthService.Redemption.{
  IsRedeemed, exchanged_code-IsRedeemed,
}
use rust_microservices_archi.Auth.Repositories.AuthUserRepository
use rust_microservices_archi.Auth.Repositories.OAuthClientRepository
use rust_microservices_archi.Auth.Repositories.AuthorizationCodeRepository
use rust_microservices_archi.Auth.Repositories.RefreshTokenRepository
use rust_microservices_archi.Auth.Services.TokenService.{access_claims}
use rust_microservices_archi.Auth.Services.OAuthService.{
  find_client_cached, load_client, validate_scopes,
}
use rust_microservices_archi.Auth.Services.OAuthService.Rotation.{
  IsRotated, exchanged_token-IsRotated,
}
use rust_microservices_archi.Auth.Services.OAuthService.Authorization.{
  IsAuthorized, issued_code-IsAuthorized,
}
use rust_microservices_archi.Auth.Services.OAuthService.Credentials.{
  IsGranted, client_token-IsGranted,
}
use rust_microservices_archi.Auth.Services.OAuthService.Refusals.{
  IsHarmless, refused_token-IsHarmless,
}
use rust_microservices_archi.Auth.Services.OAuthService.Revocation.{
  IsRevoked, answered_revocation-IsRevoked,
}
use rust_microservices_archi.Auth.Services.OAuthService.Scopes.{
  IsAmong, validate_scopes_iff, validate_scopes_names,
}
use rust_microservices_archi.Auth.Services.OAuthService.ClientCache.{
  IsOwnText, find_client_cached-misses,
}
use rust_microservices_archi.Auth.Errors.{invalid_request}
use rust_microservices_archi.Auth.Calls.{Action, redis_get}
use rust_microservices_archi.Auth.Cache.{oauth_client_cache_key}
use rust_microservices_archi.Effects.{call}
use rust_microservices_archi.Auth.Services.OAuthService.SingleUse.{
  IsSingleServer, redeemed_at_most_once,
}
use rust_microservices_archi.Tests.Codec.{print_json, parse_json, parse-print_json, show_id}

abbrev pub days_after : ℕ → ℤ → ℕ
days_after t (pos n) = t + n * 86400
days_after t (negsuc n) = t

abbrev pub plain : External
plain = record {
  hash_password = λ password salt. ok password;
  parse_hash = λ text. ok tt;
  verify_password = λ password hash. password == hash;
  challenge_of = λ verifier. "S256:" <> verifier;
  hex_encode = λ bytes. "hex";
  jwt_encode = λ claims secret. ok (claims.sub <> " for " <> claims.client_id);
  jwt_decode = λ text secret now. err "InvalidToken";
  print_json = print_json;
  parse_json = parse_json;
  print_time = λ t. "";
  parse_time = λ s. none;
  add_minutes = λ t n. t + n * 60;
  add_days = λ t d. some (days_after t d);
  timestamp = λ t. t;
  show_id = show_id;
}

abbrev pub settings : AppConfig
settings = record {
  jwt_secret = "jwt";
  access_token_ttl_secs = pos 900;
  refresh_token_ttl_days = pos 30;
}

abbrev pub alice : AuthUser
alice = record { id = 1; email = "alice@example.org"; password_hash = "password"; created_at = 0 }

abbrev pub app : OAuthClient
app = record {
  id = 1;
  client_id = "app";
  client_secret_hash = "secret";
  client_name = "App";
  redirect_uri = "https://app/cb";
  scopes = "read write";
  created_at = 0;
}

abbrev pub fresh_code : AuthorizationCode
fresh_code = record {
  id = 1;
  code = "code";
  client_id = "app";
  user_id = 1;
  redirect_uri = "https://app/cb";
  scopes = "read";
  code_challenge = "S256:verifier";
  code_challenge_method = "S256";
  expires_at = 600;
  used = false;
  created_at = 0;
}

abbrev pub fresh_token : RefreshToken
fresh_token = record {
  id = 1;
  token = "refresh";
  client_id = "app";
  user_id = 1;
  scopes = "read";
  expires_at = 600;
  created_at = 0;
}

abbrev pub stored : AuthDb
stored = record {
  auth_users = record { rows = alice ∷ []; next_id = 2 };
  oauth_clients = record { rows = app ∷ []; next_id = 2 };
  authorization_codes = record { rows = fresh_code ∷ []; next_id = 2 };
  refresh_tokens = record { rows = fresh_token ∷ []; next_id = 2 };
}

abbrev pub start : World
start = record { write = stored; read = stored; redis = []; events = [] }

-- At time 10, with no failure and nobody else.
abbrev pub quiet : Env
quiet = record {
  clock = λ n. 10;
  uuid = λ n. "uuid";
  salt = λ n. "salt";
  bytes = λ n count. [];
  redis_up = λ n. true;
  kafka_error = λ n. none;
  fault = λ n. fine;
  refused = λ text. text;
  before = λ n w. w;
}

abbrev pub request_for : String → TokenRequest
request_for grant_type = record {
  grant_type = grant_type;
  code = some "code";
  redirect_uri = some "https://app/cb";
  client_id = "app";
  client_secret = "secret";
  code_verifier = some "verifier";
  refresh_token = some "refresh";
  scope = some "read";
}

abbrev pub user_tokens : TokenResponse
user_tokens = record {
  access_token = "+ for app";
  refresh_token = some "uuid";
  token_type = "Bearer";
  expires_in = pos 900;
  scope = "read";
}
