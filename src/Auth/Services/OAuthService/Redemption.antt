-- ===== src/Auth/Services/OAuthService/Redemption.antt =====
-- What the token endpoint has checked when it answers an authorization code with tokens, whatever
-- the databases, Redis, the clock and other requests do meanwhile.
use rust_microservices_archi.Prelude.{
  not_less, same_text, ◌≡◌, refl, sym, ap, ◌∙◌, ◌≤◌, ℕ, String, false, not, some, [], ok, ltb, ◌==◌,
}
use rust_microservices_archi.Effects.{event, run, trace, Ensures}
use rust_microservices_archi.Effects.Walk.{◌>>=◌, reply}
use rust_microservices_archi.Effects.Guards.{
  Occurs, OnOk, after_map_err, after_ok_or, after_fail_if, Occurs-at, succeeded,
}
use rust_microservices_archi.Auth.Models.{
  OAuthClient, AuthorizationCode, AuthUser, TokenRequest, TokenResponse, NewRefreshToken, AppConfig,
  Time,
}
use rust_microservices_archi.Auth.External.{External}
use rust_microservices_archi.Auth.Calls.{
  World, Env, machine, select_code, utc_now, update_code_used, insert_token, select_user_by_id,
}
use rust_microservices_archi.Auth.Services.OAuthService.Authentication.{
  Trace, IsAuthenticated, IsAuthenticated-later, after_authentication,
}
use rust_microservices_archi.Auth.Services.OAuthService.Issuance.{IsIssued}
use rust_microservices_archi.Auth.Services.TokenService.{access_claims}
use rust_microservices_archi.Auth.Services.OAuthService.Exchange.{exchange_authorization_code}

module _ (ext : External) (config : AppConfig) where
  -- The evidence behind a token response for an authorization code.
  pub record IsRedeemed (req : TokenRequest) (tr : Trace) (resp : TokenResponse) : Type 0 where
    pub code : String
    pub verifier : String
    pub code_given : req.code ≡ some code
    pub verifier_given : req.code_verifier ≡ some verifier
    pub client : OAuthClient
    pub client_authentic : IsAuthenticated ext req.client_id req.client_secret tr client
    pub row : AuthorizationCode
    pub row_read : Occurs (select_code code) (ok row) tr
    pub unused : row.used ≡ false
    pub now : Time
    pub now_read : Occurs utc_now now tr
    pub alive : now ≤ row.expires_at
    pub same_client : row.client_id ≡ req.client_id
    pub same_redirect : req.redirect_uri ≡ some row.redirect_uri
    pub pkce : ext.challenge_of verifier ≡ row.code_challenge
    pub affected : ℕ
    pub marked : Occurs (update_code_used code) (ok affected) tr
    pub user : AuthUser
    pub user_read : Occurs (select_user_by_id row.user_id) (ok user) tr
    pub issued : IsIssued ext config req user row.scopes tr resp

  pub exchange_authorization_code-IsRedeemed :
      (req : TokenRequest)
      → Ensures (OnOk (IsRedeemed req)) [] (exchange_authorization_code ext config req)
  unfolding exchange_authorization_code access_claims
  exchange_authorization_code-IsRedeemed req = do
    let P = IsRedeemed req
    (code, code_given) ← after_ok_or P [] req.code _ _
    (redirect, redirect_given) ← after_ok_or P [] req.redirect_uri _ _
    (verifier, verifier_given) ← after_ok_or P [] req.code_verifier _ _
    (tr, client, authentic) ← after_authentication ext P [] req.client_id req.client_secret _
    found ← reply
    (row, found_row) ← after_map_err P _ found _ _
    unused ← after_fail_if P _ row.used _ _
    now ← reply
    alive ← after_fail_if P _ (ltb row.expires_at now) _ _
    same_client ← after_fail_if P _ (not (row.client_id == req.client_id)) _ _
    same_redirect ← after_fail_if P _ (not (row.redirect_uri == redirect)) _ _
    pkce ← after_fail_if P _ (not (ext.challenge_of verifier == row.code_challenge)) _ _
    marked ← reply
    (affected, was_marked) ← after_map_err P _ marked _ _
    owner ← reply
    (user, owner_found) ← after_map_err P _ owner _ _
    signed_at ← reply
    (access_token, signed) ← after_map_err P _ (ext.jwt_encode _ config.jwt_secret) _ _
    uuid ← reply
    stored_at ← reply
    (expires_at, lasts) ← after_ok_or P _ (ext.add_days stored_at config.refresh_token_ttl_days) _ _
    stored ← reply
    let refresh : NewRefreshToken = record {
      token = uuid;
      client_id = req.client_id;
      user_id = user.id;
      scopes = row.scopes;
      expires_at = expires_at;
    }
    (stored_row, was_stored) ← after_map_err P _ stored _ _
    record {
      code = code;
      verifier = verifier;
      code_given = code_given;
      verifier_given = verifier_given;
      client = client;
      client_authentic = IsAuthenticated-later ext 8 _ authentic;
      row = row;
      row_read = Occurs-at 7 _ (ap (λ r. some (event (select_code code) r)) found_row);
      unused = unused;
      now = now;
      now_read = Occurs-at 6 _ refl;
      alive = not_less _ _ alive;
      same_client = same_text _ _ same_client;
      same_redirect = redirect_given ∙ ap some (sym (same_text _ _ same_redirect));
      pkce = same_text _ _ pkce;
      affected = affected;
      marked = Occurs-at 5 _ (ap (λ r. some (event (update_code_used code) r)) was_marked);
      user = user;
      user_read =
          Occurs-at 4 _ (ap (λ r. some (event (select_user_by_id row.user_id) r)) owner_found);
      issued = record {
        signed_at = signed_at;
        signed = signed;
        refresh = refresh;
        same_client = refl;
        same_user = refl;
        same_scopes = refl;
        stored_at = stored_at;
        stored_at_read = Occurs-at 1 _ refl;
        lasts = lasts;
        given = refl;
        row = stored_row;
        stored = Occurs-at 0 _ (ap (λ r. some (event (insert_token refresh) r)) was_stored);
        scope = refl;
      };
    }

-- When the token endpoint exchanges an authorization code, then, whatever else happened in the
-- databases and in Redis meanwhile: the client was known and its secret verified; the code's row
-- was read unused, unexpired, issued to this client and redirect URI, with the challenge of the
-- verifier given; the code was marked as used; its user was read; the access token is the signature of
-- the claims for this user, client and the row's scopes; and a refresh token for the same was stored
-- and returned.
pub exchanged_code-IsRedeemed :
    (ext : External) (config : AppConfig) (env : Env) (n : ℕ) (w : World) (req : TokenRequest)
    {resp : TokenResponse}
    → (run (machine env) n (exchange_authorization_code ext config req) w).0 ≡ ok resp
    → IsRedeemed ext config req
        (trace (machine env) n (exchange_authorization_code ext config req) w [])
        resp
exchanged_code-IsRedeemed ext config env n w req {resp} e =
    succeeded (machine env) (IsRedeemed ext config req) (exchange_authorization_code ext config req)
      n w (exchange_authorization_code-IsRedeemed ext config req) e
