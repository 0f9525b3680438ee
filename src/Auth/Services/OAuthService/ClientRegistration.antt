-- ===== src/Auth/Services/OAuthService/ClientRegistration.antt =====
-- What the registration of a client has done when it succeeds.
use rust_microservices_archi.Prelude.{◌≡◌, refl, ap, ℕ, String, some, List, [], ok}
use rust_microservices_archi.Prelude.Hex.{hex_lower}
use rust_microservices_archi.Effects.{event, run, trace, Ensures}
use rust_microservices_archi.Effects.Walk.{◌>>=◌, reply}
use rust_microservices_archi.Effects.Guards.{Occurs, Occurs-at, OnOk, after_map_err, succeeded}
use rust_microservices_archi.Auth.Models.{
  ClientRegisterRequest, ClientRegisterResponse, OAuthClient, NewOAuthClient,
}
use rust_microservices_archi.Auth.External.{External}
use rust_microservices_archi.Auth.Calls.{World, Env, machine, insert_client, random_bytes}
use rust_microservices_archi.Auth.Services.OAuthService.{register_client}
use rust_microservices_archi.Auth.Services.OAuthService.Authentication.{Trace}

module _ (ext : External) where
  -- The evidence behind a client's identifier and secret.
  pub record IsEnrolled (req : ClientRegisterRequest) (tr : Trace) (resp : ClientRegisterResponse)
      : Type 0 where
    pub bytes : List ℕ
    pub drawn : Occurs (random_bytes 32) bytes tr
    pub secret : resp.client_secret ≡ hex_lower bytes
    pub salt : String
    pub new : NewOAuthClient
    pub hashed : ext.hash_password resp.client_secret salt ≡ ok new.client_secret_hash
    pub same_name : new.client_name ≡ req.client_name
    pub same_redirect : new.redirect_uri ≡ req.redirect_uri
    pub same_scopes : new.scopes ≡ req.scopes
    pub row : OAuthClient
    pub stored : Occurs (insert_client new) (ok row) tr
    pub client_id : resp.client_id ≡ row.client_id

  register_client-IsEnrolled :
      (req : ClientRegisterRequest) → Ensures (OnOk (IsEnrolled req)) [] (register_client ext req)
  unfolding register_client
  register_client-IsEnrolled req = do
    let P = IsEnrolled req
    cid ← reply
    bytes ← reply
    salt ← reply
    (hash, hashed) ← after_map_err P _ (ext.hash_password (hex_lower bytes) salt) _ _
    inserted ← reply
    (row, was_inserted) ← after_map_err P _ inserted _ _
    cached ← reply
    let new : NewOAuthClient = record {
      client_id = cid;
      client_secret_hash = hash;
      client_name = req.client_name;
      redirect_uri = req.redirect_uri;
      scopes = req.scopes;
    }
    record {
      bytes = bytes;
      drawn = Occurs-at 3 _ refl;
      secret = refl;
      salt = salt;
      new = new;
      hashed = hashed;
      same_name = refl;
      same_redirect = refl;
      same_scopes = refl;
      row = row;
      stored = Occurs-at 1 _ (ap (λ r. some (event (insert_client new) r)) was_inserted);
      client_id = refl;
    }

-- When the registration of a client succeeds, then, whatever else happened meanwhile: the secret of
-- the response is the hexadecimal form of the bytes drawn by a request for 32, a client with its hash, and the name,
-- redirect URI and scopes of the request, was stored, and the response carries the identifier of that
-- row.
pub registered_client-IsEnrolled :
    (ext : External) (env : Env) (n : ℕ) (w : World) (req : ClientRegisterRequest)
    {resp : ClientRegisterResponse}
    → (run (machine env) n (register_client ext req) w).0 ≡ ok resp
    → IsEnrolled ext req (trace (machine env) n (register_client ext req) w []) resp
registered_client-IsEnrolled ext env n w req {resp} e =
    succeeded (machine env) (IsEnrolled ext req) (register_client ext req) n w
      (register_client-IsEnrolled ext req) e
