-- ===== src/Auth/Services/OAuthService/Authorization.antt =====
-- What has been checked when an authorization code is issued, whatever the databases, Redis, the
-- clock and other requests do meanwhile.
use rust_microservices_archi.Prelude.{
  String, All, true, same_text, ◌≡◌, refl, ap, ℕ, String, not, some, [], ok, ◌==◌,
}
use rust_microservices_archi.Effects.{event, run, trace, Ensures}
use rust_microservices_archi.Prelude.Text.{split_whitespace}
use rust_microservices_archi.Auth.Services.OAuthService.{validate_scopes}
use rust_microservices_archi.Auth.Services.OAuthService.Scopes.{IsAmong, validate_scopes_iff}
use rust_microservices_archi.Auth.Services.AuthService.Login.{after_credentials}
use rust_microservices_archi.Effects.Walk.{◌>>=◌, reply}
use rust_microservices_archi.Effects.Guards.{
  Occurs, OnOk, after_map_err, after_fail_if, after_lift, Occurs-at, succeeded,
}
use rust_microservices_archi.Auth.Models.{
  AuthorizationCode, NewAuthorizationCode, AuthorizeParams, AuthorizeResponse, LoginRequest,
  OAuthClient, AuthorizationCode, AuthUser, Time,
}
use rust_microservices_archi.Auth.External.{External}
use rust_microservices_archi.Auth.Calls.{
  select_user_by_email, insert_code, World, Env, machine, utc_now,
}
use rust_microservices_archi.Auth.Services.OAuthService.Authentication.{
  IsKnown-later, IsKnown, after_client, Trace,
}
use rust_microservices_archi.Auth.Services.OAuthService.Authorize.{authorize}

module _ (ext : External) where
  -- The code that binds a client, a user, a redirect URI, a scope and a challenge.
  abbrev pub bound_code : AuthorizeParams → AuthUser → Time → String → NewAuthorizationCode
  bound_code params user now code = record {
    code = code;
    client_id = params.client_id;
    user_id = user.id;
    redirect_uri = params.redirect_uri;
    scopes = params.scope;
    code_challenge = params.code_challenge;
    code_challenge_method = params.code_challenge_method;
    expires_at = ext.add_minutes now 10;
  }

  -- The evidence behind an authorization response.
  pub record IsAuthorized (params : AuthorizeParams) (login : LoginRequest) (tr : Trace)
      (resp : AuthorizeResponse) : Type 0 where
    pub response_type : params.response_type ≡ "code"
    pub method : params.code_challenge_method ≡ "S256"
    pub client : OAuthClient
    pub client_known : IsKnown ext params.client_id tr client
    pub same_redirect : client.redirect_uri ≡ params.redirect_uri
    pub allowed :
        All (λ w. IsAmong w (split_whitespace client.scopes)) (split_whitespace params.scope)
    pub user : AuthUser
    pub user_read : Occurs (select_user_by_email login.email) (ok user) tr
    pub password : ext.verify_password login.password user.password_hash ≡ true
    pub now : Time
    pub now_read : Occurs utc_now now tr
    pub row : AuthorizationCode
    pub stored : Occurs (insert_code (bound_code params user now resp.code)) (ok row) tr
    pub state : resp.state ≡ params.state

  pub authorize-IsAuthorized :
      (params : AuthorizeParams) (login : LoginRequest)
      → Ensures (OnOk (IsAuthorized params login)) [] (authorize ext params login)
  unfolding authorize
  authorize-IsAuthorized params login = do
    let P = IsAuthorized params login
    response_type ← after_fail_if P [] (not (params.response_type == "code")) _ _
    method ← after_fail_if P [] (not (params.code_challenge_method == "S256")) _ _
    (tr, client, known) ← after_client ext P [] params.client_id _
    same_redirect ← after_fail_if P _ (not (client.redirect_uri == params.redirect_uri)) _ _
    (u, valid) ← after_lift P _ (validate_scopes params.scope client.scopes) _
    (user, password) ← after_credentials ext P _ login.email login.password _
    code_bytes ← reply
    now ← reply
    stored ← reply
    (row, was_stored) ← after_map_err P _ stored _ _
    let bound = bound_code params user now (ext.hex_encode code_bytes)
    let s256 = same_text _ _ method
    record {
      response_type = same_text _ _ response_type;
      method = s256;
      client = client;
      client_known = IsKnown-later ext 4 _ known;
      same_redirect = same_text _ _ same_redirect;
      allowed = (validate_scopes_iff params.scope client.scopes).0 valid;
      user = user;
      user_read = Occurs-at 3 _ refl;
      password = password;
      now = now;
      now_read = Occurs-at 1 _ refl;
      row = row;
      stored = Occurs-at 0 _ (ap (λ r. some (event (insert_code bound) r)) was_stored);
      state = refl;
    }

-- When an authorization code is issued, then, whatever else happened in the databases and in Redis
-- meanwhile: the response type was "code" and the challenge method "S256"; the client was known and
-- the redirect URI is its registered one; each word of the scope is among the client's scopes; the
-- user was read by the e-mail of the login and the password verified; and the code of the response
-- was stored for this client, user, redirect URI, scope and challenge, to expire ten minutes after
-- the time that was read. The state comes back as it was sent.
pub issued_code-IsAuthorized :
    (ext : External) (env : Env) (n : ℕ) (w : World) (params : AuthorizeParams)
    (login : LoginRequest) {resp : AuthorizeResponse}
    → (run (machine env) n (authorize ext params login) w).0 ≡ ok resp
    → IsAuthorized ext params login (trace (machine env) n (authorize ext params login) w []) resp
issued_code-IsAuthorized ext env n w params login {resp} e =
    succeeded (machine env) (IsAuthorized ext params login) (authorize ext params login) n w
      (authorize-IsAuthorized ext params login) e
