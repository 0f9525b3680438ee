-- ===== src/Auth/Services/OAuthService/Completion.antt =====
-- That the token endpoint does exchange a valid authorization code.
use rust_microservices_archi.Prelude.{
  ◌≡◌, refl, sym, subst, ℕ, String, Bool, true, false, not, Option, none, some, Result, ok, ltb,
  ◌==◌, eq_iff, eq_refl,
}
use rust_microservices_archi.Effects
use rust_microservices_archi.Effects.{map_err, fail_if, run}
use rust_microservices_archi.Effects.Walk.{◌>>=◌}
use rust_microservices_archi.Effects.Success.{
  Succeeds, past_map_err, past_ok_or, past_fail_if, past_call,
}
use rust_microservices_archi.Auth.Models.{OAuthClient, TokenRequest, TokenResponse, AppConfig, Time}
use rust_microservices_archi.Auth.Errors.{ServiceError}
use rust_microservices_archi.Auth.External.{External}
use rust_microservices_archi.Auth.Calls.{
  Action, World, Env, machine, exec, redis_get, redis_set_ex, select_client, select_code, utc_now,
  new_uuid, update_code_used, insert_token, select_user_by_id,
}
use rust_microservices_archi.Auth.Cache.{oauth_client_cache_key}
use rust_microservices_archi.Auth.Repositories.AuthorizationCodeRepository
use rust_microservices_archi.Auth.Services.TokenService.{
  access_claims, create_access_token, generate_refresh_token,
}
use rust_microservices_archi.Auth.Services.OAuthService.{verify_client_secret, load_client, or_load}
use rust_microservices_archi.Auth.Services.OAuthService.Readiness.{
  Grant, IsReady, IsUndisturbed, AreReady, AreServing, write_reply, client-reply, code-reply,
  user-reply, cached-AreReady, marked-IsServing, stored-reply,
}
use rust_microservices_archi.Auth.Services.OAuthService.Authentication.{decode}
use rust_microservices_archi.Auth.Services.OAuthService.Exchange.{exchange_authorization_code}

-- The request and the rows fit together, at any time of the clock.
pub record IsValid (ext : External) (config : AppConfig) (env : Env) (req : TokenRequest)
    (g : Grant) : Type 0 where
  pub verifier : String
  pub code_given : req.code ≡ some g.code.code
  pub redirect_given : req.redirect_uri ≡ some g.code.redirect_uri
  pub verifier_given : req.code_verifier ≡ some verifier
  pub same_client : g.client.client_id ≡ req.client_id
  pub code_client : g.code.client_id ≡ req.client_id
  pub hash_parses : ext.parse_hash g.client.client_secret_hash ≡ ok tt
  pub secret : ext.verify_password req.client_secret g.client.client_secret_hash ≡ true
  pub unused : g.code.used ≡ false
  pub alive : (n : ℕ) → ltb g.code.expires_at (env.clock n) ≡ false
  pub pkce : ext.challenge_of verifier ≡ g.code.code_challenge
  pub signs :
      (n : ℕ)
      → (token : String) × (ext.jwt_encode
            (access_claims ext
              (env.clock n)
              (ext.show_id g.user.id)
              (some g.user.email)
              req.client_id
              g.code.scopes
              config.access_token_ttl_secs)
            config.jwt_secret
          ≡ ok token)
  pub lasts :
      (n : ℕ)
      → (later : Time) × (ext.add_days (env.clock n) config.refresh_token_ttl_days ≡ some later)

refuted : (b : Bool) → b ≡ true → not b ≡ false
refuted b h = rw h refl

module _ (ext : External) (config : AppConfig) (env : Env) (req : TokenRequest) (g : Grant)
    (calm : IsUndisturbed env g) (v : IsValid ext config env req g) where
  after_miss :
      (n : ℕ) (s : World) (o : Option OAuthClient) (k : OAuthClient → Action TokenResponse)
      → o ≡ none
      → (Unit {0} → Succeeds (machine env) n s (Effects.◌>>=◌ (load_client ext req.client_id) k))
      → Succeeds (machine env) n s (Effects.◌>>=◌ (or_load ext req.client_id o) k)
  after_miss n s o k e h =
      subst (λ x. Succeeds (machine env) n s (Effects.◌>>=◌ (or_load ext req.client_id x) k))
        (sym e) (h tt)

  past_check :
      (n : ℕ) (s : World) (r : Result String Unit) (b : Bool) (f : String → ServiceError)
      (e : ServiceError) (k : Unit {0} → Action TokenResponse)
      → r ≡ ok tt
      → b ≡ true
      → (Unit {0} → Succeeds (machine env) n s (k tt))
      → Succeeds
          (machine env)
          n
          s
          (Effects.◌>>=◌ (Effects.◌>>=◌ (map_err r f) (λ _. fail_if (not b) e)) k)
  past_check n s r b f e k parsed verified h =
      subst
        (λ x.
          Succeeds (machine env) n s
            (Effects.◌>>=◌ (Effects.◌>>=◌ (map_err x f) (λ _. fail_if (not b) e)) k))
        (sym parsed)
        (subst (λ x. Succeeds (machine env) n s (Effects.◌>>=◌ (fail_if (not x) e) k))
          (sym verified) (h tt))

  exchange-Succeeds :
      (n : ℕ) (w : World)
      → IsReady env g w.write × IsReady env g w.read
      → decode ext
          (exec env n (redis_get (oauth_client_cache_key req.client_id)) (env.before n w)).0
        ≡ none
      → Succeeds (machine env) n w (exchange_authorization_code ext config req)
  unfolding exchange_authorization_code exec verify_client_secret create_access_token
      generate_refresh_token AuthorizationCodeRepository.mark_used
  exchange-Succeeds n w h miss = do
    let m = machine env
    let ready = AreReady env g calm
    let serving = AreServing env g calm
    _ ← past_ok_or m n w req.code _ _ v.code_given
    _ ← past_ok_or m n w req.redirect_uri _ _ v.redirect_given
    _ ← past_ok_or m n w req.code_verifier _ _ v.verifier_given
    (n, (w, h)) ←
        past_call m n w ready (redis_get (oauth_client_cache_key req.client_id)) _ _ refl
          (calm.ready n w h)
    _ ← after_miss n w _ _ miss
    (n, (w, h)) ←
        past_call m n w ready (select_client req.client_id) _ (ok g.client)
          (client-reply env g calm n req.client_id _ (calm.ready n w h).1 v.same_client)
          (calm.ready n w h)
    (n, (w, h)) ←
        past_call m n w ready (redis_set_ex _ _ _) _ tt refl
          (cached-AreReady env g calm (env.redis_up n) _ _ (calm.ready n w h))
    _ ← past_check n w (ext.parse_hash g.client.client_secret_hash) _ _ _ _ v.hash_parses v.secret
    (n, (w, h)) ←
        past_call m n w ready (select_code g.code.code) _ (ok g.code)
          (code-reply env g calm n _ (calm.ready n w h).1) (calm.ready n w h)
    _ ← past_fail_if m n w g.code.used _ _ v.unused
    (n, (w, h)) ← past_call m n w ready utc_now _ (env.clock n) refl (calm.ready n w h)
    _ ← past_fail_if m n w (ltb g.code.expires_at _) _ _ (v.alive _)
    _ ←
        past_fail_if m n w (not (g.code.client_id == req.client_id)) _ _
          (refuted _ ((eq_iff _ _).1 v.code_client))
    _ ←
        past_fail_if m n w (not (g.code.redirect_uri == g.code.redirect_uri)) _ _
          (refuted _ (eq_refl _))
    _ ←
        past_fail_if m n w (not (ext.challenge_of v.verifier == g.code.code_challenge)) _ _
          (refuted _ ((eq_iff _ _).1 v.pkce))
    (n, (w, h)) ←
        past_call m n w serving (update_code_used g.code.code) _ _
          (write_reply env g calm n (AuthorizationCodeRepository.mark_used g.code.code) _)
          (
            marked-IsServing env g calm (env.fault n) g.code.code _ (calm.ready n w h).0.serving,
            (calm.ready n w h).1.serving,
          )
    (n, (w, h)) ←
        past_call m n w serving (select_user_by_id g.code.user_id) _ (ok g.user)
          (user-reply env g calm n _ (calm.serving n w h).1) (calm.serving n w h)
    (n, (w, h)) ← past_call m n w serving utc_now _ (env.clock n) refl (calm.serving n w h)
    _ ← past_map_err m n w (ext.jwt_encode _ config.jwt_secret) _ _ (v.signs _).1
    (k, (w, h)) ← past_call m n w serving new_uuid _ (env.uuid n) refl (calm.serving n w h)
    (l, (w, h)) ← past_call m k w serving utc_now _ (env.clock k) refl (calm.serving k w h)
    let later = v.lasts k
    _ ← past_ok_or m l w (ext.add_days _ config.refresh_token_ttl_days) _ _ later.1
    let (row, stored) = stored-reply env g calm l n _ _ (calm.serving l w h).0 refl refl
    (n, (w, h)) ← past_call m l w (λ _. Unit {0}) (insert_token _) _ (ok row) stored tt
    record { result = _; returned = refl }

-- With working servers, and other requests that leave these rows alone, a valid authorization code is
-- exchanged: both servers have the client, the code and its user, and none of the refresh tokens to be
-- drawn; Redis gives no text that is read as the client; the request carries the code, its redirect URI
-- and the verifier of its challenge; the client is the one of the request and of the code, its hash
-- parses and the secret verifies; the code is unused and does not expire; the claims can be signed; and
-- the lifetime of a refresh token, added to the time, does not leave chrono's range. Then the run
-- returns tokens.
pub valid_code-IsExchanged :
    (ext : External) (config : AppConfig) (env : Env) (req : TokenRequest) (g : Grant)
    (calm : IsUndisturbed env g)
    → IsValid ext config env req g
    → (n : ℕ) (w : World) → AreReady env g calm w
    → decode ext (exec env n (redis_get (oauth_client_cache_key req.client_id)) (env.before n w)).0
      ≡ none
    → (resp : TokenResponse) × ((run
          (machine env)
          n
          (exchange_authorization_code ext config req)
          w).0
        ≡ ok resp)
valid_code-IsExchanged ext config env req g calm v n w h miss =
    let s = exchange-Succeeds ext config env req g calm v n w h miss in (s.result, s.returned)
