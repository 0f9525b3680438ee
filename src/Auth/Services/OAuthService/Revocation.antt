-- ===== src/Auth/Services/OAuthService/Revocation.antt =====
-- What the revocation endpoint has done when it answers with success.
use rust_microservices_archi.Prelude.{◌≡◌, ℕ, [], Result, ok}
use rust_microservices_archi.Database.{SqlxError}
use rust_microservices_archi.Effects.{run, trace, Ensures}
use rust_microservices_archi.Effects.Walk.{◌>>=◌, reply}
use rust_microservices_archi.Effects.Guards.{OnOk, Occurs, here, succeeded}
use rust_microservices_archi.Auth.Models.{OAuthClient, RevokeRequest}
use rust_microservices_archi.Auth.External.{External}
use rust_microservices_archi.Auth.Calls.{World, Env, machine, delete_token}
use rust_microservices_archi.Auth.Services.OAuthService.Authentication.{
  Trace, IsAuthenticated, IsAuthenticated-later, after_authentication,
}
use rust_microservices_archi.Auth.Services.OAuthService.Exchange.{revoke}

module _ (ext : External) where
  -- The evidence behind a successful revocation.
  pub record IsRevoked (req : RevokeRequest) (tr : Trace) (u : Unit {0}) : Type 0 where
    pub client : OAuthClient
    pub client_authentic : IsAuthenticated ext req.client_id req.client_secret tr client
    pub answer : Result SqlxError ℕ
    pub deleted : Occurs (delete_token req.token) answer tr

  revoke-IsRevoked : (req : RevokeRequest) → Ensures (OnOk (IsRevoked req)) [] (revoke ext req)
  unfolding revoke
  revoke-IsRevoked req = do
    let P = IsRevoked req
    (tr, client, authentic) ← after_authentication ext P [] req.client_id req.client_secret _
    answer ← reply
    record {
      client = client;
      client_authentic = IsAuthenticated-later ext 1 _ authentic;
      answer = answer;
      deleted = here;
    }

-- When a revocation succeeds, then, whatever else happened in the databases and in Redis meanwhile,
-- the client was known and its secret verified, and the deletion of the given token was sent (its
-- answer may be an error).
pub answered_revocation-IsRevoked :
    (ext : External) (env : Env) (n : ℕ) (w : World) (req : RevokeRequest)
    → (run (machine env) n (revoke ext req) w).0 ≡ ok tt
    → IsRevoked ext req (trace (machine env) n (revoke ext req) w []) tt
answered_revocation-IsRevoked ext env n w req e =
    succeeded (machine env) (IsRevoked ext req) (revoke ext req) n w (revoke-IsRevoked ext req) e
