-- ===== src/Auth/Services/OAuthService/Authentication.antt =====
-- The client of a request and the check of its secret, as the steps that open every branch of the
-- token endpoint and the revocation.
use rust_microservices_archi.Prelude.{
  ℕ, zero, suc, drop, [], ◌≡◌, refl, ◌⊎◌, inl, inr, String, Bool, true, false, not, Option, none,
  some, List, ◌∷◌, Result, ok, err,
}
use rust_microservices_archi.Effects.{◌>>=◌, map_err, fail_if, Event, event, Ensures}
use rust_microservices_archi.Effects.Guards.{Occurs, here, there, OnOk, after_part}
use rust_microservices_archi.Auth.Models.{OAuthClient}
use rust_microservices_archi.Auth.Errors.{ServiceError}
use rust_microservices_archi.Json
use rust_microservices_archi.Auth.External.{External}
use rust_microservices_archi.Auth.Calls.{Op, Reply, redis_get, select_client, Action}
use rust_microservices_archi.Auth.Cache.{oauth_client_cache_key, client_from_json, set_cached}
use rust_microservices_archi.Auth.Services.OAuthService.{
  or_load, find_client_cached, verify_client_secret,
}

abbrev pub Trace : Type 0
Trace = List (Event Op Reply)

module _ (ext : External) where
  abbrev pub decode : Option String → Option OAuthClient
  decode text = Json.◌>>=◌ (Json.◌>>=◌ text ext.parse_json) (client_from_json ext)

  -- The client is a row that the database returned, or a cached text that parses to it.
  abbrev pub IsKnown : String → Trace → OAuthClient → Type 0
  IsKnown client_id tr c =
      Occurs (select_client client_id) (ok c) tr
      ⊎ ((text : Option String) × Occurs (redis_get (oauth_client_cache_key client_id)) text tr
          × (decode text ≡ some c))

  loaded-IsKnown :
      (client_id : String) (tr : Trace) (text : Option String) (o : Option OAuthClient)
      → decode text ≡ o
      → Ensures
          (OnOk (IsKnown client_id))
          (event (redis_get (oauth_client_cache_key client_id)) text ∷ tr)
          (or_load ext client_id o)
  unfolding set_cached
  loaded-IsKnown client_id tr text (some c) e = inr (text, here, e)
  loaded-IsKnown client_id tr text none e = elim [ ok c ↦ λ _. inl (there here) | err d ↦ tt ]

  pub find_client_cached-IsKnown :
      (client_id : String) (tr : Trace)
      → Ensures (OnOk (IsKnown client_id)) tr (find_client_cached ext client_id)
  unfolding find_client_cached
  find_client_cached-IsKnown client_id tr = λ text. loaded-IsKnown client_id tr text _ refl

  -- The client of the request is known and the secret of the request verifies against its hash.
  pub record IsAuthenticated (client_id secret : String) (tr : Trace) (c : OAuthClient)
      : Type 0 where
    pub known : IsKnown client_id tr c
    pub verified : ext.verify_password secret c.client_secret_hash ≡ true

  pub IsKnown-later :
      {client_id : String} {c : OAuthClient} (n : ℕ) (tr : Trace)
      → IsKnown client_id (drop n tr) c
      → IsKnown client_id tr c
  IsKnown-later zero tr a = a
  IsKnown-later (suc n) [] a = a
  IsKnown-later (suc n) (e ∷ tr) a = elim (IsKnown-later n tr a) [
    | inl row ↦ inl (there row)
    | inr (text, read, parsed) ↦ inr (text, there read, parsed)
  ]

  -- It stays so as more calls are made.
  pub IsAuthenticated-later :
      {client_id secret : String} {c : OAuthClient} (n : ℕ) (tr : Trace)
      → IsAuthenticated client_id secret (drop n tr) c
      → IsAuthenticated client_id secret tr c
  IsAuthenticated-later zero tr a = a
  IsAuthenticated-later (suc n) [] a = a
  IsAuthenticated-later (suc n) (e ∷ tr) a =
      let b = IsAuthenticated-later n tr a in
      record {
        known = elim b.known [
          | inl row ↦ inl (there row)
          | inr (text, read, parsed) ↦ inr (text, there read, parsed)
        ];
        verified = b.verified;
      }

  module _ {B : Type 0} (P : Trace → B → Type 0) where
    after_check :
        (tr : Trace) (r : Result String Unit) (b : Bool) (f : String → ServiceError)
        (e : ServiceError) (k : Unit {0} → Action B)
        → (b ≡ true → Ensures (OnOk P) tr (k tt))
        → Ensures (OnOk P) tr ((map_err r f >>= λ _. fail_if (not b) e) >>= k)
    after_check tr (err d) b f e k h = tt
    after_check tr (ok u) true f e k h = h refl
    after_check tr (ok u) false f e k h = tt

    after_verify_client_secret :
        (tr : Trace) (secret hash : String) (k : Unit {0} → Action B)
        → (ext.verify_password secret hash ≡ true → Ensures (OnOk P) tr (k tt))
        → Ensures (OnOk P) tr (verify_client_secret ext secret hash >>= k)
    unfolding verify_client_secret
    after_verify_client_secret tr secret hash k h =
        after_check tr (ext.parse_hash hash) (ext.verify_password secret hash) _ _ k h

    -- A handler that looks its client up goes on with a known one.
    pub after_client :
        (tr : Trace) (client_id : String) (k : OAuthClient → Action B)
        → ((p : (t : Trace) × (c : OAuthClient) × IsKnown client_id t c)
            → Ensures (OnOk P) p.0 (k p.1))
        → Ensures (OnOk P) tr (find_client_cached ext client_id >>= k)
    after_client tr client_id k h =
        after_part P tr (IsKnown client_id) (find_client_cached ext client_id) k
          (find_client_cached-IsKnown client_id tr) (λ t c known. h (t, c, known))

    -- A handler that begins by authenticating its client goes on with an authenticated one.
    pub after_authentication :
        (tr : Trace) (client_id secret : String) (k : OAuthClient → Action B)
        → ((p : (t : Trace) × (c : OAuthClient) × IsAuthenticated client_id secret t c)
            → Ensures (OnOk P) p.0 (k p.1))
        → Ensures (OnOk P) tr (
            find_client_cached ext client_id >>= λ c.
            verify_client_secret ext secret c.client_secret_hash >>= λ _. k c)
    after_authentication tr client_id secret k h =
        after_part P tr (IsKnown client_id) (find_client_cached ext client_id) _
          (find_client_cached-IsKnown client_id tr)
          (λ t c known.
            after_verify_client_secret t secret c.client_secret_hash (λ _. k c)
              (λ verified. h (t, c, record { known = known; verified = verified })))
