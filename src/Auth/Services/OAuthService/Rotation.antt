-- ===== src/Auth/Services/OAuthService/Rotation.antt =====
-- What the token endpoint has checked when it rotates a refresh token, whatever the databases,
-- Redis, the clock and other requests do meanwhile.
use rust_microservices_archi.Prelude.{
  not_less, same_text, ◌≡◌, refl, ap, ◌≤◌, ℕ, String, not, some, [], ok, ltb, ◌==◌,
}
use rust_microservices_archi.Effects.{event, run, trace, Ensures}
use rust_microservices_archi.Effects.Walk.{◌>>=◌, reply}
use rust_microservices_archi.Effects.Guards.{
  Occurs, OnOk, after_map_err, after_ok_or, after_fail_if, unless, Occurs-at, succeeded,
}
use rust_microservices_archi.Auth.Models.{
  OAuthClient, AuthUser, TokenRequest, TokenResponse, NewRefreshToken, RefreshToken, AppConfig,
  Time,
}
use rust_microservices_archi.Auth.External.{External}
use rust_microservices_archi.Auth.Calls.{
  select_token, delete_token, World, Env, machine, utc_now, insert_token, select_user_by_id,
}
use rust_microservices_archi.Auth.Services.OAuthService.Authentication.{
  Trace, IsAuthenticated, IsAuthenticated-later, after_authentication,
}
use rust_microservices_archi.Auth.Services.OAuthService.Issuance.{IsIssued}
use rust_microservices_archi.Auth.Services.TokenService.{access_claims}
use rust_microservices_archi.Auth.Services.OAuthService.Exchange.{
  exchange_refresh_token, discard_expired,
}

module _ (ext : External) (config : AppConfig) where
  -- The evidence behind a token response for a refresh token.
  pub record IsRotated (req : TokenRequest) (tr : Trace) (resp : TokenResponse) : Type 0 where
    pub token : String
    pub token_given : req.refresh_token ≡ some token
    pub client : OAuthClient
    pub client_authentic : IsAuthenticated ext req.client_id req.client_secret tr client
    pub row : RefreshToken
    pub row_read : Occurs (select_token token) (ok row) tr
    pub now : Time
    pub now_read : Occurs utc_now now tr
    pub alive : now ≤ row.expires_at
    pub same_client : row.client_id ≡ req.client_id
    pub affected : ℕ
    pub deleted : Occurs (delete_token token) (ok affected) tr
    pub user : AuthUser
    pub user_read : Occurs (select_user_by_id row.user_id) (ok user) tr
    pub issued : IsIssued ext config req user row.scopes tr resp

  pub exchange_refresh_token-IsRotated :
      (req : TokenRequest)
      → Ensures (OnOk (IsRotated req)) [] (exchange_refresh_token ext config req)
  unfolding exchange_refresh_token access_claims
  exchange_refresh_token-IsRotated req = do
    let P = IsRotated req
    (token, token_given) ← after_ok_or P [] req.refresh_token _ _
    (tr, client, authentic) ← after_authentication ext P [] req.client_id req.client_secret _
    found ← reply
    (row, found_row) ← after_map_err P _ found _ _
    now ← reply
    alive ← unless P _ (ltb row.expires_at now) (discard_expired ext config token) _ (λ _ _. tt)
    same_client ← after_fail_if P _ (not (row.client_id == req.client_id)) _ _
    deleted ← reply
    (affected, was_deleted) ← after_map_err P _ deleted _ _
    owner ← reply
    (user, owner_found) ← after_map_err P _ owner _ _
    signed_at ← reply
    (access_token, signed) ← after_map_err P _ (ext.jwt_encode _ config.jwt_secret) _ _
    uuid ← reply
    stored_at ← reply
    (expires_at, lasts) ← after_ok_or P _ (ext.add_days stored_at config.refresh_token_ttl_days) _ _
    stored ← reply
    let refresh : NewRefreshToken = record {
      token = uuid;
      client_id = req.client_id;
      user_id = user.id;
      scopes = row.scopes;
      expires_at = expires_at;
    }
    (stored_row, was_stored) ← after_map_err P _ stored _ _
    record {
      token = token;
      token_given = token_given;
      client = client;
      client_authentic = IsAuthenticated-later ext 8 _ authentic;
      row = row;
      row_read = Occurs-at 7 _ (ap (λ r. some (event (select_token token) r)) found_row);
      now = now;
      now_read = Occurs-at 6 _ refl;
      alive = not_less _ _ alive;
      same_client = same_text _ _ same_client;
      affected = affected;
      deleted = Occurs-at 5 _ (ap (λ r. some (event (delete_token token) r)) was_deleted);
      user = user;
      user_read =
          Occurs-at 4 _ (ap (λ r. some (event (select_user_by_id row.user_id) r)) owner_found);
      issued = record {
        signed_at = signed_at;
        signed = signed;
        refresh = refresh;
        same_client = refl;
        same_user = refl;
        same_scopes = refl;
        stored_at = stored_at;
        stored_at_read = Occurs-at 1 _ refl;
        lasts = lasts;
        given = refl;
        row = stored_row;
        stored = Occurs-at 0 _ (ap (λ r. some (event (insert_token refresh) r)) was_stored);
        scope = refl;
      };
    }

-- When the token endpoint exchanges a refresh token, then, whatever else happened in the databases
-- and in Redis meanwhile: the client was known and its secret verified; the token's row was read
-- unexpired and issued to this client; the token was deleted; its user was read; the access
-- token is the signature of the claims for this user, client and the row's scopes; and a new
-- refresh token for the same was stored and returned.
pub exchanged_token-IsRotated :
    (ext : External) (config : AppConfig) (env : Env) (n : ℕ) (w : World) (req : TokenRequest)
    {resp : TokenResponse}
    → (run (machine env) n (exchange_refresh_token ext config req) w).0 ≡ ok resp
    → IsRotated ext config req
        (trace (machine env) n (exchange_refresh_token ext config req) w [])
        resp
exchanged_token-IsRotated ext config env n w req {resp} e =
    succeeded (machine env) (IsRotated ext config req) (exchange_refresh_token ext config req) n w
      (exchange_refresh_token-IsRotated ext config req) e
