-- ===== src/Auth/Services/OAuthService/Authorize.antt =====
-- `OAuthService::authorize` of auth-service/src/services/oauth_service.rs
use rust_microservices_archi.Prelude.{not, ◌==◌}
use rust_microservices_archi.Effects.{◌>>=◌, ◌>>◌, perform, pure, lift, map_err, fail_if}
use rust_microservices_archi.Auth.Models.{AuthorizeParams, LoginRequest, AuthorizeResponse}
use rust_microservices_archi.Auth.Errors.{invalid_request, from_sqlx}
use rust_microservices_archi.Auth.External.{External}
use rust_microservices_archi.Auth.Calls.{Action, utc_now, random_bytes, insert_code}
use rust_microservices_archi.Auth.Services.AuthService.{verify_credentials}
use rust_microservices_archi.Auth.Services.OAuthService.{find_client_cached, validate_scopes}

unfoldable pub authorize : External → AuthorizeParams → LoginRequest → Action AuthorizeResponse
unfolding find_client_cached verify_credentials
authorize ext params login = do
  fail_if (not (params.response_type == "code")) (invalid_request "response_type must be 'code'")
  fail_if (not (params.code_challenge_method == "S256"))
      (invalid_request "code_challenge_method must be 'S256'")
  client ← find_client_cached ext params.client_id
  fail_if (not (client.redirect_uri == params.redirect_uri))
      (invalid_request "redirect_uri mismatch")
  lift (validate_scopes params.scope client.scopes)
  user ← verify_credentials ext login.email login.password
  code_bytes ← perform (random_bytes 32)
  let code_str = ext.hex_encode code_bytes
  now ← perform utc_now
  created ← perform (
      insert_code (record {
        code = code_str;
        client_id = params.client_id;
        user_id = user.id;
        redirect_uri = params.redirect_uri;
        scopes = params.scope;
        code_challenge = params.code_challenge;
        code_challenge_method = params.code_challenge_method;
        expires_at = ext.add_minutes now 10;
      }))
  map_err created from_sqlx
  pure (record { code = code_str; state = params.state })
