-- ===== src/Auth/Services/OAuthService/Exchange.antt =====
-- The token endpoint and the revocation of auth-service/src/services/oauth_service.rs
use rust_microservices_archi.Prelude.{
  String, ◌<>◌, some, none, not, ltb, get_or, ◌==◌, if◌then◌else◌,
}
use rust_microservices_archi.Effects.{
  ◌>>=◌, ◌>>◌, perform, pure, raise, lift, map_err, ok_or, fail_if,
}
use rust_microservices_archi.Auth.Models.{
  TokenRequest, TokenResponse, RevokeRequest, AppConfig, RefreshToken,
}
use rust_microservices_archi.Auth.Errors.{
  internal_error, invalid_grant, invalid_request, panicked, from_sqlx,
}
use rust_microservices_archi.Auth.External.{External}
use rust_microservices_archi.Auth.Calls.{
  Action, utc_now, select_code, update_code_used, select_user_by_id, insert_token, select_token,
  delete_token,
}
use rust_microservices_archi.Auth.Services.TokenService.{
  create_access_token, generate_refresh_token,
}
use rust_microservices_archi.Auth.Services.OAuthService.{
  find_client_cached, verify_client_secret, validate_scopes,
}

abbrev pub jwt_error : String → String
jwt_error e = "JWT error: " <> e

module _ (ext : External) (config : AppConfig) where
  unfoldable pub exchange_authorization_code : TokenRequest → Action TokenResponse
  unfolding find_client_cached verify_client_secret create_access_token generate_refresh_token
  exchange_authorization_code req = do
    code_val ← ok_or req.code (invalid_request "Missing 'code'")
    redirect ← ok_or req.redirect_uri (invalid_request "Missing 'redirect_uri'")
    verifier ← ok_or req.code_verifier (invalid_request "Missing 'code_verifier'")
    client ← find_client_cached ext req.client_id
    verify_client_secret ext req.client_secret client.client_secret_hash
    found ← perform (select_code code_val)
    auth_code ← map_err found (λ _. invalid_grant "Invalid authorization code")
    fail_if auth_code.used (invalid_grant "Authorization code already used")
    now ← perform utc_now
    fail_if (ltb auth_code.expires_at now) (invalid_grant "Authorization code expired")
    fail_if (not (auth_code.client_id == req.client_id)) (invalid_grant "client_id mismatch")
    fail_if (not (auth_code.redirect_uri == redirect)) (invalid_grant "redirect_uri mismatch")
    fail_if (not (ext.challenge_of verifier == auth_code.code_challenge))
        (invalid_grant "PKCE verification failed")
    marked ← perform (update_code_used code_val)
    map_err marked from_sqlx
    owner ← perform (select_user_by_id auth_code.user_id)
    user ← map_err owner from_sqlx
    signed ←
        create_access_token ext (ext.show_id user.id) (some user.email) req.client_id
          auth_code.scopes config.jwt_secret config.access_token_ttl_secs
    access_token ← map_err signed (λ e. internal_error (jwt_error e))
    refresh_token_str ← generate_refresh_token
    later ← perform utc_now
    expires_at ← ok_or (ext.add_days later config.refresh_token_ttl_days) panicked
    stored ← perform (
        insert_token (record {
          token = refresh_token_str;
          client_id = req.client_id;
          user_id = user.id;
          scopes = auth_code.scopes;
          expires_at = expires_at;
        }))
    map_err stored from_sqlx
    pure (record {
      access_token = access_token;
      refresh_token = some refresh_token_str;
      token_type = "Bearer";
      expires_in = config.access_token_ttl_secs;
      scope = auth_code.scopes;
    })

  unfoldable pub exchange_client_credentials : TokenRequest → Action TokenResponse
  unfolding find_client_cached verify_client_secret create_access_token
  exchange_client_credentials req = do
    let requested_scope = get_or "read" req.scope
    client ← find_client_cached ext req.client_id
    verify_client_secret ext req.client_secret client.client_secret_hash
    lift (validate_scopes requested_scope client.scopes)
    signed ←
        create_access_token ext req.client_id none req.client_id requested_scope config.jwt_secret
          config.access_token_ttl_secs
    access_token ← map_err signed (λ e. internal_error (jwt_error e))
    pure (record {
      access_token = access_token;
      refresh_token = none;
      token_type = "Bearer";
      expires_in = config.access_token_ttl_secs;
      scope = requested_scope;
    })

  -- The part of `exchange_refresh_token` for a token that has not expired.
  unfoldable pub rotate : TokenRequest → String → RefreshToken → Action TokenResponse
  unfolding create_access_token generate_refresh_token
  rotate req refresh_val stored = do
    fail_if (not (stored.client_id == req.client_id)) (invalid_grant "client_id mismatch")
    deleted ← perform (delete_token refresh_val)
    map_err deleted from_sqlx
    owner ← perform (select_user_by_id stored.user_id)
    user ← map_err owner from_sqlx
    signed ←
        create_access_token ext (ext.show_id user.id) (some user.email) req.client_id stored.scopes
          config.jwt_secret config.access_token_ttl_secs
    access_token ← map_err signed (λ e. internal_error (jwt_error e))
    new_refresh ← generate_refresh_token
    later ← perform utc_now
    expires_at ← ok_or (ext.add_days later config.refresh_token_ttl_days) panicked
    created ← perform (
        insert_token (record {
          token = new_refresh;
          client_id = req.client_id;
          user_id = user.id;
          scopes = stored.scopes;
          expires_at = expires_at;
        }))
    map_err created from_sqlx
    pure (record {
      access_token = access_token;
      refresh_token = some new_refresh;
      token_type = "Bearer";
      expires_in = config.access_token_ttl_secs;
      scope = stored.scopes;
    })

  -- An expired token is deleted, and the answer to that is dropped.
  abbrev pub discard_expired : String → Action TokenResponse
  discard_expired refresh_val = do
    perform (delete_token refresh_val)
    raise (invalid_grant "Refresh token expired")

  unfoldable pub exchange_refresh_token : TokenRequest → Action TokenResponse
  unfolding find_client_cached verify_client_secret rotate
  exchange_refresh_token req = do
    refresh_val ← ok_or req.refresh_token (invalid_request "Missing 'refresh_token'")
    client ← find_client_cached ext req.client_id
    verify_client_secret ext req.client_secret client.client_secret_hash
    found ← perform (select_token refresh_val)
    stored ← map_err found (λ _. invalid_grant "Invalid refresh token")
    now ← perform utc_now
    if ltb stored.expires_at now then discard_expired refresh_val else rotate req refresh_val stored

  unfoldable pub token : TokenRequest → Action TokenResponse
  unfolding exchange_authorization_code exchange_client_credentials exchange_refresh_token
  token req =
      if req.grant_type == "authorization_code"
      then exchange_authorization_code req
      else if req.grant_type == "client_credentials"
      then exchange_client_credentials req
      else if req.grant_type == "refresh_token"
      then exchange_refresh_token req
      else raise (invalid_request ("Unsupported grant_type: " <> req.grant_type))

-- The answer to the deletion is dropped.
unfoldable pub revoke : External → RevokeRequest → Action Unit
unfolding find_client_cached verify_client_secret
revoke ext req = do
  client ← find_client_cached ext req.client_id
  verify_client_secret ext req.client_secret client.client_secret_hash
  perform (delete_token req.token)
  pure tt
