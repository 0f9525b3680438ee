-- ===== src/Auth/Cache.antt =====
-- auth-service/src/cache.rs, and the JSON of an `OAuthClient` by the attributes of
-- auth-service/src/models/oauth_client.rs. A failing Redis is a miss, or a write that is dropped.
use rust_microservices_archi.Prelude.{ℕ, String, ◌<>◌, Option, some}
use rust_microservices_archi.Json.{Json, num, str, obj, end, field, ◌>>=◌, text_field, num_field}
use rust_microservices_archi.Effects
use rust_microservices_archi.Effects.{perform, pure}
use rust_microservices_archi.Auth.Models.{OAuthClient}
use rust_microservices_archi.Auth.External.{External}
use rust_microservices_archi.Auth.Calls.{Action, redis_get, redis_set_ex, redis_del}

abbrev pub cache_ttl : ℕ
cache_ttl = 600

unfoldable pub oauth_client_cache_key : String → String
oauth_client_cache_key client_id = "oauth_client:" <> client_id

module _ (ext : External) where
  -- `Serialize`: `client_secret_hash` is marked `skip_serializing`.
  unfoldable pub client_to_json : OAuthClient → Json
  client_to_json c = obj (
      field "id" (num c.id) (
        field "client_id" (str c.client_id) (
          field "client_name" (str c.client_name) (
            field "redirect_uri" (str c.redirect_uri) (
              field "scopes" (str c.scopes)
                (field "created_at" (str (ext.print_time c.created_at)) end))))))

  -- `Deserialize`: every field is required.
  unfoldable pub client_from_json : Json → Option OAuthClient
  client_from_json j = do
    id ← num_field "id" j
    client_id ← text_field "client_id" j
    client_secret_hash ← text_field "client_secret_hash" j
    client_name ← text_field "client_name" j
    redirect_uri ← text_field "redirect_uri" j
    scopes ← text_field "scopes" j
    created_at ← text_field "created_at" j >>= ext.parse_time
    some (record {
      id = id;
      client_id = client_id;
      client_secret_hash = client_secret_hash;
      client_name = client_name;
      redirect_uri = redirect_uri;
      scopes = scopes;
      created_at = created_at;
    })

  -- `get_cached`: a value of type `A` from the text under a key, if there is one that parses.
  unfoldable pub get_cached : {A : Type 0} → (Json → Option A) → String → Action (Option A)
  get_cached from_json key =
      Effects.◌>>=◌ (perform (redis_get key)) λ text. pure (text >>= ext.parse_json >>= from_json)

  unfoldable pub set_cached : {A : Type 0} → (A → Json) → String → A → Action Unit
  set_cached to_json key value =
      perform (redis_set_ex key (ext.print_json (to_json value)) cache_ttl)

unfoldable pub invalidate : String → Action Unit
invalidate key = perform (redis_del key)
