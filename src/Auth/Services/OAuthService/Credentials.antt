-- ===== src/Auth/Services/OAuthService/Credentials.antt =====
-- What has been checked when a client obtains a token for itself, whatever the databases, Redis, the
-- clock and other requests do meanwhile.
use rust_microservices_archi.Prelude.{none, get_or, All, ◌≡◌, refl, ℕ, [], ok}
use rust_microservices_archi.Prelude.Int.{as_usize, wrapping_add}
use rust_microservices_archi.Effects.{run, trace, Ensures}
use rust_microservices_archi.Prelude.Text.{split_whitespace}
use rust_microservices_archi.Auth.Services.TokenService.{access_claims}
use rust_microservices_archi.Auth.Services.OAuthService.{validate_scopes}
use rust_microservices_archi.Auth.Services.OAuthService.Scopes.{IsAmong, validate_scopes_iff}
use rust_microservices_archi.Effects.Walk.{◌>>=◌, reply}
use rust_microservices_archi.Effects.Guards.{OnOk, after_map_err, after_lift, succeeded}
use rust_microservices_archi.Auth.Models.{OAuthClient, TokenRequest, TokenResponse, AppConfig, Time}
use rust_microservices_archi.Auth.External.{External}
use rust_microservices_archi.Auth.Calls.{World, Env, machine}
use rust_microservices_archi.Auth.Services.OAuthService.Authentication.{
  Trace, IsAuthenticated, IsAuthenticated-later, after_authentication,
}
use rust_microservices_archi.Auth.Services.OAuthService.Exchange.{exchange_client_credentials}

module _ (ext : External) (config : AppConfig) where
  -- The evidence behind a token response for client credentials.
  pub record IsGranted (req : TokenRequest) (tr : Trace) (resp : TokenResponse) : Type 0 where
    pub client : OAuthClient
    pub client_authentic : IsAuthenticated ext req.client_id req.client_secret tr client
    pub allowed :
        All (λ w. IsAmong w (split_whitespace client.scopes)) (split_whitespace resp.scope)
    pub scope : resp.scope ≡ get_or "read" req.scope
    pub signed_at : Time
    pub signed :
        ext.jwt_encode
          (record {
            sub = req.client_id;
            email = none;
            client_id = req.client_id;
            scopes = resp.scope;
            exp = wrapping_add (ext.timestamp signed_at) (as_usize config.access_token_ttl_secs);
            iat = ext.timestamp signed_at;
          })
          config.jwt_secret
        ≡ ok resp.access_token
    pub no_refresh : resp.refresh_token ≡ none

  pub exchange_client_credentials-IsGranted :
      (req : TokenRequest)
      → Ensures (OnOk (IsGranted req)) [] (exchange_client_credentials ext config req)
  unfolding exchange_client_credentials access_claims
  exchange_client_credentials-IsGranted req = do
    let P = IsGranted req
    let requested = get_or "read" req.scope
    (tr, client, authentic) ← after_authentication ext P [] req.client_id req.client_secret _
    (u, valid) ← after_lift P _ (validate_scopes requested client.scopes) _
    signed_at ← reply
    (access_token, signed) ← after_map_err P _ (ext.jwt_encode _ config.jwt_secret) _ _
    record {
      client = client;
      client_authentic = IsAuthenticated-later ext 1 _ authentic;
      allowed = (validate_scopes_iff requested client.scopes).0 valid;
      scope = refl;
      signed_at = signed_at;
      signed = signed;
      no_refresh = refl;
    }

-- When a client obtains a token for itself, then, whatever else happened in the databases and in
-- Redis meanwhile: the client was known and its secret verified; each word of the granted scope
-- ("read" if the request has none) is among the client's scopes; the access token is the signature
-- of claims whose subject and scopes are the client and the granted scope; and there is no refresh token.
pub client_token-IsGranted :
    (ext : External) (config : AppConfig) (env : Env) (n : ℕ) (w : World) (req : TokenRequest)
    {resp : TokenResponse}
    → (run (machine env) n (exchange_client_credentials ext config req) w).0 ≡ ok resp
    → IsGranted ext config req
        (trace (machine env) n (exchange_client_credentials ext config req) w [])
        resp
client_token-IsGranted ext config env n w req {resp} e =
    succeeded (machine env) (IsGranted ext config req) (exchange_client_credentials ext config req)
      n w (exchange_client_credentials-IsGranted ext config req) e
