-- ===== src/Auth/Services/OAuthService/ClientCache.antt =====
-- The cache of OAuth clients: `find_client_cached` of auth-service/src/services/oauth_service.rs
-- with the JSON of auth-service/src/models/oauth_client.rs.
use rust_microservices_archi.Prelude.{◌≡◌, refl, ◌⊎◌, inl, inr, String, Option, none, some, arith}
use rust_microservices_archi.Json
use rust_microservices_archi.Json.{Json}
use rust_microservices_archi.Effects.{call}
use rust_microservices_archi.Auth.Models.{OAuthClient}
use rust_microservices_archi.Auth.External.{External}
use rust_microservices_archi.Auth.Calls.{Action, redis_get}
use rust_microservices_archi.Auth.Cache.{client_to_json, client_from_json, oauth_client_cache_key}
use rust_microservices_archi.Auth.Services.OAuthService.{find_client_cached, load_client}

module _ (ext : External) where
  unreadable : (c : OAuthClient) → client_from_json ext (client_to_json ext c) ≡ none
  unfolding client_from_json client_to_json
  unreadable c = ground arith

  -- A reply for a client's key while all that was ever written under it is what the service writes.
  abbrev pub IsOwnText : Option String → Type 0
  IsOwnText text =
      (text ≡ none) ⊎ ((c : OAuthClient) × (text ≡ some (ext.print_json (client_to_json ext c))))

  undecodable :
      ((j : Json) → ext.parse_json (ext.print_json j) ≡ some j)
      → (text : Option String) → IsOwnText text
      → Json.◌>>=◌ (Json.◌>>=◌ text ext.parse_json) (client_from_json ext) ≡ none
  undecodable parse-print text (inl missing) = rw missing refl
  undecodable parse-print text (inr (c, written)) = rw (written, parse-print, unreadable) refl

  -- Where reading JSON undoes printing it, looking a client up asks Redis, and, whether or not Redis
  -- holds what the service has written under the client's key, goes on to the database.
  pub find_client_cached-misses :
      ((j : Json) → ext.parse_json (ext.print_json j) ≡ some j)
      → (client_id : String)
      → (k : Option String → Action OAuthClient) × (find_client_cached ext client_id
          ≡ call (redis_get (oauth_client_cache_key client_id)) k)
        × ((text : Option String) → IsOwnText text → k text ≡ load_client ext client_id)
  unfolding find_client_cached
  find_client_cached-misses parse-print client_id =
      (_, refl, λ text own. rw (undecodable parse-print text own) refl)
