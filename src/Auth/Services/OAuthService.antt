-- ===== src/Auth/Services/OAuthService.antt =====
-- auth-service/src/services/oauth_service.rs
pub mod Authorize
pub mod Exchange
pub mod Authentication
pub mod Scopes
pub mod Issuance
pub mod Redemption
pub mod Rotation
pub mod Credentials
pub mod Authorization
pub mod Refusals
pub mod Revocation
pub mod ClientCache
pub mod SingleUse
pub mod Readiness
pub mod Completion
pub mod ClientRegistration
use rust_microservices_archi.Prelude.{
  ℕ, zero, suc, ◌%◌, String, ◌<>◌, Bool, Option, none, some, List, [], ◌∷◌, Result, ok, err, any,
  ltb, not, get_or, ◌==◌, if◌then◌else◌,
}
use rust_microservices_archi.Prelude.Text.{split_whitespace}
use rust_microservices_archi.Prelude.Hex.{hex_lower}
use rust_microservices_archi.Effects.{
  ◌>>=◌, ◌>>◌, perform, pure, raise, lift, map_err, ok_or, fail_if,
}
use rust_microservices_archi.Auth.Models.{
  OAuthClient, ClientRegisterRequest, ClientRegisterResponse, AuthorizeParams, LoginRequest,
  AuthorizeResponse, TokenRequest, TokenResponse, RevokeRequest, AppConfig,
}
use rust_microservices_archi.Auth.Errors.{
  ServiceError, internal_error, invalid_client, invalid_grant, invalid_request, from_sqlx,
}
use rust_microservices_archi.Auth.External.{External}
use rust_microservices_archi.Auth.Calls.{
  Action, utc_now, new_uuid, new_salt, random_bytes, insert_client, select_client, insert_code,
  select_code, update_code_used, select_user_by_id, insert_token, select_token, delete_token,
}
use rust_microservices_archi.Auth.Cache.{
  oauth_client_cache_key, client_to_json, client_from_json, get_cached, set_cached,
}
use rust_microservices_archi.Auth.Services.TokenService.{
  create_access_token, generate_refresh_token,
}
use rust_microservices_archi.Auth.Services.AuthService.{verify_credentials}

abbrev pub contains : List String → String → Bool
contains words w = any (λ v. v == w) words

-- The loop of `validate_scopes`: the first word that is not allowed is reported.
abbrev pub check_scopes : List String → List String → Result ServiceError Unit
check_scopes allowed [] = ok tt
check_scopes allowed (scope ∷ rest) =
    let later = check_scopes allowed rest in
    if not (contains allowed scope)
    then err (invalid_request ("Scope '" <> scope <> "' not allowed"))
    else later

unfoldable pub validate_scopes : String → String → Result ServiceError Unit
validate_scopes requested allowed =
    check_scopes (split_whitespace allowed) (split_whitespace requested)

module _ (ext : External) where
  unfoldable pub verify_client_secret : String → String → Action Unit
  verify_client_secret raw_secret stored_hash = do
    map_err (ext.parse_hash stored_hash) (λ e. internal_error ("Hash parse error: " <> e))
    fail_if (not (ext.verify_password raw_secret stored_hash))
        (invalid_client "Client authentication failed")

  -- The part of `find_client_cached` after a cache miss.
  abbrev pub load_client : String → Action OAuthClient
  load_client client_id = do
    found ← perform (select_client client_id)
    client ← map_err found (λ _. invalid_client "Client not found")
    set_cached ext (client_to_json ext) (oauth_client_cache_key client_id) client
    pure client

  abbrev or_load : String → Option OAuthClient → Action OAuthClient
  or_load client_id none = load_client client_id
  or_load client_id (some client) = pure client

  unfoldable pub find_client_cached : String → Action OAuthClient
  unfolding get_cached set_cached
  find_client_cached client_id = do
    cached ← get_cached ext (client_from_json ext) (oauth_client_cache_key client_id)
    or_load client_id cached

  unfoldable pub register_client : ClientRegisterRequest → Action ClientRegisterResponse
  unfolding set_cached
  register_client req = do
    cid ← perform new_uuid
    secret_bytes ← perform (random_bytes 32)
    let raw_secret = hex_lower secret_bytes
    salt ← perform new_salt
    secret_hash ←
        map_err (ext.hash_password raw_secret salt) (λ e. internal_error ("Hash error: " <> e))
    created ← perform (
        insert_client (record {
          client_id = cid;
          client_secret_hash = secret_hash;
          client_name = req.client_name;
          redirect_uri = req.redirect_uri;
          scopes = req.scopes;
        }))
    client ← map_err created from_sqlx
    set_cached ext (client_to_json ext) (oauth_client_cache_key client.client_id) client
    pure (record {
      client_id = client.client_id;
      client_secret = raw_secret;
      client_name = client.client_name;
      redirect_uri = client.redirect_uri;
      scopes = client.scopes;
    })
