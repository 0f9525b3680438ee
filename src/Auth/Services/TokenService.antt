-- ===== src/Auth/Services/TokenService.antt =====
-- auth-service/src/services/token_service.rs
pub mod Expiry
use rust_microservices_archi.Prelude.{ℕ, String, Option, Result}
use rust_microservices_archi.Prelude.Int.{ℤ, as_usize, wrapping_add}
use rust_microservices_archi.Jwt.{Claims}
use rust_microservices_archi.Effects.{◌>>=◌, perform, pure}
use rust_microservices_archi.Auth.External.{External}
use rust_microservices_archi.Auth.Calls.{Action, utc_now, new_uuid}

module _ (ext : External) where
  -- The claims that `create_access_token` signs at a time.
  unfoldable pub access_claims : ℕ → String → Option String → String → String → ℤ → Claims
  unfolding as_usize wrapping_add
  access_claims now user_id email client_id scopes ttl_secs = record {
    sub = user_id;
    email = email;
    client_id = client_id;
    scopes = scopes;
    exp = wrapping_add (ext.timestamp now) (as_usize ttl_secs);
    iat = ext.timestamp now;
  }

  unfoldable pub create_access_token :
      String → Option String → String → String → String → ℤ → Action (Result String String)
  create_access_token user_id email client_id scopes secret ttl_secs = do
    now ← perform utc_now
    pure (ext.jwt_encode (access_claims now user_id email client_id scopes ttl_secs) secret)

  unfoldable pub validate_token : String → String → Action (Result String Claims)
  validate_token token secret = do now ← perform utc_now; pure (ext.jwt_decode token secret now)

unfoldable pub generate_refresh_token : Action String
generate_refresh_token = perform new_uuid
