-- ===== src/Auth/Services/OAuthService/Refusals.antt =====
-- The databases after a refused request to the token endpoint.
use rust_microservices_archi.Prelude.{
  ℕ, subst, ◌≡◌, refl, ◌⊎◌, inl, inr, String, Bool, true, false, not, Option, none, some, [], ◌∷◌,
  Result, ok, err, ltb, ◌==◌, All, get_or,
}
use rust_microservices_archi.Effects.{
  ◌>>=◌ as ◌then◌, map_err, fail_if, Event, event, run, trace, Ensures,
}
use rust_microservices_archi.Effects.Walk.{◌>>=◌, reply}
use rust_microservices_archi.Effects.Branches.{or_map_err, or_ok_or, or_lift, or_fail_if, either}
use rust_microservices_archi.Effects.Laws.{Ensures-bind, run-Ensures}
use rust_microservices_archi.Database.{SqlxError, row_not_found, database, other}
use rust_microservices_archi.Auth.Models.{OAuthClient, TokenRequest, TokenResponse, AppConfig}
use rust_microservices_archi.Auth.Errors.{
  ServiceError, unauthorized, invalid_client, invalid_grant, invalid_request, from_sqlx,
}
use rust_microservices_archi.Auth.External.{External}
use rust_microservices_archi.Auth.Calls.{
  Op, Reply, Action, World, Env, machine, insert_user, insert_client, insert_code, update_code_used,
  insert_token, delete_token, delete_tokens_of_user,
}
use rust_microservices_archi.Auth.Cache.{set_cached}
use rust_microservices_archi.Auth.Services.OAuthService.{
  or_load, find_client_cached, verify_client_secret, validate_scopes,
}
use rust_microservices_archi.Auth.Services.OAuthService.Authentication.{Trace}
use rust_microservices_archi.Auth.Services.OAuthService.Exchange.{
  exchange_authorization_code, exchange_client_credentials, exchange_refresh_token, token,
  discard_expired,
}

-- The statements that change a database.
abbrev pub is_write : Op → Bool
is_write (insert_user new) = true
is_write (insert_client new) = true
is_write (insert_code new) = true
is_write (update_code_used code) = true
is_write (insert_token new) = true
is_write (delete_token t) = true
is_write (delete_tokens_of_user id) = true
is_write _ = false

-- The errors that refuse a request, as opposed to a failing database or token library.
abbrev pub is_refusal : ServiceError → Bool
is_refusal (unauthorized msg) = true
is_refusal (invalid_client msg) = true
is_refusal (invalid_grant msg) = true
is_refusal (invalid_request msg) = true
is_refusal _ = false

abbrev op_of : Event Op Reply → Op
op_of (event o r) = o

-- Every call only reads.
abbrev pub ReadsOnly : Trace → Type 0
ReadsOnly = All (λ e. is_write (op_of e) ≡ false)

-- A call reads, or deletes the refresh token that was presented.
abbrev pub IsHarmless : TokenRequest → Event Op Reply → Type 0
IsHarmless req e =
    (is_write (op_of e) ≡ false)
    ⊎ ((t : String) × (req.refresh_token ≡ some t) × (op_of e ≡ delete_token t))

abbrev Spared : TokenRequest → Trace → Result ServiceError TokenResponse → Type 0
Spared req tr (ok resp) = Unit
Spared req tr (err e) = is_refusal e ≡ true → All (IsHarmless req) tr

module _ (ext : External) where
  loaded-ReadsOnly :
      (client_id : String) (o : Option OAuthClient) (tr : Trace)
      → ReadsOnly tr
      → Ensures (λ t r. ReadsOnly t) tr (or_load ext client_id o)
  unfolding set_cached
  loaded-ReadsOnly client_id (some c) tr h = h
  loaded-ReadsOnly client_id none tr h = elim [ ok c ↦ λ _. (refl, (refl, h)) | err d ↦ (refl, h) ]

  find_client_cached-ReadsOnly :
      (client_id : String) (tr : Trace)
      → ReadsOnly tr
      → Ensures (λ t r. ReadsOnly t) tr (find_client_cached ext client_id)
  unfolding find_client_cached
  find_client_cached-ReadsOnly client_id tr h = λ text. loaded-ReadsOnly client_id _ _ (refl, h)

  module _ {B : Type 0} (P : Trace → Result ServiceError B → Type 0) where
    either_check :
        (tr : Trace) (r : Result String Unit) (b : Bool) (f : String → ServiceError)
        (e : ServiceError) (k : Unit {0} → Action B)
        → ((d : ServiceError) → P tr (err d))
        → Ensures P tr (k tt)
        → Ensures P tr (◌then◌ (◌then◌ (map_err r f) (λ _. fail_if b e)) k)
    either_check tr (err d) b f e k bad good = bad (f d)
    either_check tr (ok u) true f e k bad good = bad e
    either_check tr (ok u) false f e k bad good = good

    or_authentication :
        (tr : Trace) (client_id secret : String) (k : OAuthClient → Action B)
        → ReadsOnly tr
        → ((t : Trace) (e : ServiceError) → ReadsOnly t → P t (err e))
        → ((p : (t : Trace) × (c : OAuthClient) × ReadsOnly t) → Ensures P p.0 (k p.1))
        → Ensures P tr (
            ◌then◌
              (find_client_cached ext client_id)
              λ c. ◌then◌ (verify_client_secret ext secret c.client_secret_hash) λ _. k c)
    unfolding verify_client_secret
    or_authentication tr client_id secret k h bad good =
        Ensures-bind P (λ t r. ReadsOnly t) (find_client_cached ext client_id) _ tr
          (find_client_cached-ReadsOnly client_id tr h)
          (λ t c ro.
            either_check t (ext.parse_hash c.client_secret_hash) _ _ _ (λ _. k c) (λ e. bad t e ro)
              (good (t, c, ro)))
          bad

-- A failing database is no refusal.
not_refused : {X : Type 0} (d : SqlxError) → is_refusal (from_sqlx d) ≡ true → X
unfolding from_sqlx
not_refused row_not_found h = cc
not_refused (database u t) h = cc
not_refused (other t) h = cc

reads-IsHarmless : (req : TokenRequest) (tr : Trace) → ReadsOnly tr → All (IsHarmless req) tr
reads-IsHarmless req [] h = tt
reads-IsHarmless req (e ∷ tr) (r, h) = (inl r, reads-IsHarmless req tr h)

module _ (ext : External) (config : AppConfig) (req : TokenRequest) where
  abbrev P : Trace → Result ServiceError TokenResponse → Type 0
  P = Spared req

  code-Spared : Ensures P [] (exchange_authorization_code ext config req)
  unfolding exchange_authorization_code
  code-Spared = do
    (code, code_given) ← or_ok_or P [] req.code _ _ (λ _. tt)
    (redirect, redirect_given) ← or_ok_or P [] req.redirect_uri _ _ (λ _. tt)
    (verifier, verifier_given) ← or_ok_or P [] req.code_verifier _ _ (λ _. tt)
    (tr, client, ro) ←
        or_authentication ext P [] req.client_id req.client_secret _ tt
          (λ t e ro _. reads-IsHarmless req t ro)
    found ← reply
    let reads = reads-IsHarmless req tr ro
    row ← or_map_err P _ found _ _ (λ _ _. (inl refl, reads))
    unused ← or_fail_if P _ row.used _ _ (λ _. (inl refl, reads))
    now ← reply
    alive ← or_fail_if P _ (ltb row.expires_at now) _ _ (λ _. (inl refl, (inl refl, reads)))
    same_client ←
        or_fail_if P _ (not (row.client_id == req.client_id)) _ _
          (λ _. (inl refl, (inl refl, reads)))
    same_redirect ←
        or_fail_if P _ (not (row.redirect_uri == redirect)) _ _ (λ _. (inl refl, (inl refl, reads)))
    pkce ←
        or_fail_if P _ (not (ext.challenge_of verifier == row.code_challenge)) _ _
          (λ _. (inl refl, (inl refl, reads)))
    marked ← reply
    affected ← or_map_err P _ marked _ _ not_refused
    owner ← reply
    user ← or_map_err P _ owner _ _ not_refused
    signed_at ← reply
    access_token ← or_map_err P _ (ext.jwt_encode _ config.jwt_secret) _ _ (λ _ refused. cc)
    uuid ← reply
    stored_at ← reply
    expires_at ←
        or_ok_or P _ (ext.add_days stored_at config.refresh_token_ttl_days) _ _ (λ refused. cc)
    stored ← reply
    stored_row ← or_map_err P _ stored _ _ not_refused
    tt

  credentials-Spared : Ensures P [] (exchange_client_credentials ext config req)
  unfolding exchange_client_credentials
  credentials-Spared = do
    (tr, client, ro) ←
        or_authentication ext P [] req.client_id req.client_secret _ tt
          (λ t e ro _. reads-IsHarmless req t ro)
    valid ←
        or_lift P _ (validate_scopes (get_or "read" req.scope) client.scopes) _
          (λ e _. reads-IsHarmless req tr ro)
    signed_at ← reply
    access_token ← or_map_err P _ (ext.jwt_encode _ config.jwt_secret) _ _ (λ _ refused. cc)
    tt

  refresh-Spared : Ensures P [] (exchange_refresh_token ext config req)
  unfolding exchange_refresh_token
  refresh-Spared = do
    (token, given) ← or_ok_or P [] req.refresh_token _ _ (λ _. tt)
    (tr, client, ro) ←
        or_authentication ext P [] req.client_id req.client_secret _ tt
          (λ t e ro _. reads-IsHarmless req t ro)
    found ← reply
    let reads = reads-IsHarmless req tr ro
    row ← or_map_err P _ found _ _ (λ _ _. (inl refl, reads))
    now ← reply
    alive ←
        either P _ (ltb row.expires_at now) (discard_expired ext config token) _
          (λ deleted _. (inr (token, given, refl), (inl refl, (inl refl, reads))))
    same_client ←
        or_fail_if P _ (not (row.client_id == req.client_id)) _ _
          (λ _. (inl refl, (inl refl, reads)))
    deleted ← reply
    affected ← or_map_err P _ deleted _ _ not_refused
    owner ← reply
    user ← or_map_err P _ owner _ _ not_refused
    signed_at ← reply
    access_token ← or_map_err P _ (ext.jwt_encode _ config.jwt_secret) _ _ (λ _ refused. cc)
    uuid ← reply
    stored_at ← reply
    expires_at ←
        or_ok_or P _ (ext.add_days stored_at config.refresh_token_ttl_days) _ _ (λ refused. cc)
    stored ← reply
    stored_row ← or_map_err P _ stored _ _ not_refused
    tt

  token-Spared : Ensures P [] (token ext config req)
  unfolding token
  token-Spared = do
    not_code ← either P [] (req.grant_type == "authorization_code") _ _ code-Spared
    not_client ← either P [] (req.grant_type == "client_credentials") _ _ credentials-Spared
    unknown ← either P [] (req.grant_type == "refresh_token") _ _ refresh-Spared
    λ _. tt

-- When the token endpoint refuses a request (an invalid client, grant or request), then, whatever
-- the environment replied, no statement that it sent changes a database, except the deletion of the
-- very refresh token that was presented.
pub refused_token-IsHarmless :
    (ext : External) (config : AppConfig) (env : Env) (n : ℕ) (w : World) (req : TokenRequest)
    {e : ServiceError}
    → (run (machine env) n (token ext config req) w).0 ≡ err e
    → is_refusal e ≡ true
    → All (IsHarmless req) (trace (machine env) n (token ext config req) w [])
refused_token-IsHarmless ext config env n w req {e} h refused =
    let p = token ext config req in
    let spared = run-Ensures (machine env) (Spared req) p n w [] (token-Spared ext config req) in
    subst (Spared req (trace (machine env) n p w [])) h spared refused
