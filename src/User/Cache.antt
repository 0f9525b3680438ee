-- ===== src/User/Cache.antt =====
-- shared/src/cache.rs as user-service uses it, user-service/src/cache.rs, and the JSON of users.
-- A failing Redis is a miss, or a write that is dropped.
use rust_microservices_archi.Prelude.{ℕ, String, ◌<>◌, Option, some, List, [], ◌∷◌}
use rust_microservices_archi.Json.{
  Json, Items, nil, cons, num, str, arr, obj, end, field, ◌>>=◌, text_field, num_field, as_array,
}
use rust_microservices_archi.Effects
use rust_microservices_archi.Effects.{perform, pure}
use rust_microservices_archi.User.Models.{User}
use rust_microservices_archi.User.Calls.{Action, redis_get, redis_set_ex, redis_del}

abbrev pub default_cache_ttl : ℕ
default_cache_ttl = 300

unfoldable pub user_to_json : User → Json
user_to_json u =
    obj (field "id" (num u.id) (field "name" (str u.name) (field "email" (str u.email) end)))

unfoldable pub user_from_json : Json → Option User
user_from_json j = do
  id ← num_field "id" j
  name ← text_field "name" j
  email ← text_field "email" j
  some (record { id = id; name = name; email = email })

unfoldable pub users_to_items : List User → Items
unfolding user_to_json
users_to_items [] = nil
users_to_items (u ∷ us) = cons (user_to_json u) (users_to_items us)

unfoldable pub users_from_items : Items → Option (List User)
unfolding user_from_json
users_from_items nil = some []
users_from_items (cons j js) =
    let rest = users_from_items js in do u ← user_from_json j; us ← rest; some (u ∷ us)

-- A list of users as a JSON array.
unfoldable pub users_to_json : List User → Json
unfolding users_to_items
users_to_json us = arr (users_to_items us)

unfoldable pub users_from_json : Json → Option (List User)
unfolding users_from_items
users_from_json j = as_array j >>= users_from_items

-- The library that serde_json and the standard formatting are to the service.
pub record External : Type 0 where
  pub print_json : Json → String
  pub parse_json : String → Option Json
  -- the decimal form of an `i32`
  pub show_id : ℕ → String

module _ (ext : External) where
  unfoldable pub user_cache_key : ℕ → String
  user_cache_key id = "user:" <> ext.show_id id

  unfoldable pub get_cached : {A : Type 0} → (Json → Option A) → String → Action (Option A)
  get_cached from_json key =
      Effects.◌>>=◌ (perform (redis_get key)) λ text. pure (text >>= ext.parse_json >>= from_json)

  unfoldable pub set_cached_with_ttl : {A : Type 0} → (A → Json) → String → A → ℕ → Action Unit
  set_cached_with_ttl to_json key value ttl =
      perform (redis_set_ex key (ext.print_json (to_json value)) ttl)

  unfoldable pub set_cached : {A : Type 0} → (A → Json) → String → A → Action Unit
  unfolding set_cached_with_ttl
  set_cached to_json key value = set_cached_with_ttl to_json key value default_cache_ttl

unfoldable pub users_list_cache_key : String
users_list_cache_key = "users:list"

unfoldable pub invalidate : String → Action Unit
invalidate key = perform (redis_del key)
