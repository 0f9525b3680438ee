-- ===== src/Auth/Services/OAuthService/Issuance.antt =====
-- The tokens that both user-bound exchanges issue: the signed access token and the stored refresh
-- token.
use rust_microservices_archi.Prelude.{◌≡◌, String, some, ok}
use rust_microservices_archi.Effects.Guards.{Occurs}
use rust_microservices_archi.Auth.Models.{
  AuthUser, TokenRequest, TokenResponse, NewRefreshToken, RefreshToken, AppConfig, Time,
}
use rust_microservices_archi.Auth.External.{External}
use rust_microservices_archi.Auth.Calls.{insert_token, utc_now}
use rust_microservices_archi.Prelude.Int.{as_usize, wrapping_add}
use rust_microservices_archi.Auth.Services.OAuthService.Authentication.{Trace}

module _ (ext : External) (config : AppConfig) where
  -- The access token signs the claims for this user, client and scopes, and the refresh token for
  -- the same, with the configured lifetime, was stored under the text that the response carries.
  pub record IsIssued (req : TokenRequest) (user : AuthUser) (scopes : String) (tr : Trace)
      (resp : TokenResponse) : Type 0 where
    pub signed_at : Time
    pub signed :
        ext.jwt_encode
          (record {
            sub = ext.show_id user.id;
            email = some user.email;
            client_id = req.client_id;
            scopes = scopes;
            exp = wrapping_add (ext.timestamp signed_at) (as_usize config.access_token_ttl_secs);
            iat = ext.timestamp signed_at;
          })
          config.jwt_secret
        ≡ ok resp.access_token
    pub refresh : NewRefreshToken
    pub same_client : refresh.client_id ≡ req.client_id
    pub same_user : refresh.user_id ≡ user.id
    pub same_scopes : refresh.scopes ≡ scopes
    pub stored_at : Time
    pub stored_at_read : Occurs utc_now stored_at tr
    pub lasts : ext.add_days stored_at config.refresh_token_ttl_days ≡ some refresh.expires_at
    pub given : resp.refresh_token ≡ some refresh.token
    pub row : RefreshToken
    pub stored : Occurs (insert_token refresh) (ok row) tr
    pub scope : resp.scope ≡ scopes
