-- ===== src/User/UserService.antt =====
-- user-service/src/services/user_service.rs
use rust_microservices_archi.Prelude.{ℕ, Option, none, some, List, nat_eq}
use rust_microservices_archi.Effects.{◌>>=◌, ◌>>◌, perform, pure, map_err, fail_if}
use rust_microservices_archi.Shared.Errors.{not_found, from_sqlx}
use rust_microservices_archi.User.Models.{User, NewUser, UpdateUser}
use rust_microservices_archi.User.Calls.{
  Action, insert_user, select_user, select_users, update_user as update_row,
  delete_user as delete_row,
}
use rust_microservices_archi.User.Cache.{
  External, user_to_json, user_from_json, users_to_json, users_from_json, user_cache_key,
  users_list_cache_key, get_cached, set_cached, invalidate,
}

module _ (ext : External) where
  -- The user is cached under its key, and the cached list is dropped.
  unfoldable pub refresh_cache : ℕ → User → Action Unit
  unfolding set_cached invalidate
  refresh_cache id user = do
    set_cached ext user_to_json (user_cache_key ext id) user
    invalidate users_list_cache_key

  unfoldable pub create_user : NewUser → Action User
  unfolding refresh_cache
  create_user user = do
    inserted ← perform (insert_user user)
    created ← map_err inserted from_sqlx
    refresh_cache created.id created
    pure created

  abbrev pub or_load_user : ℕ → Option User → Action User
  or_load_user user_id_val (some user) = pure user
  or_load_user user_id_val none = do
    found ← perform (select_user user_id_val)
    user ← map_err found from_sqlx
    set_cached ext user_to_json (user_cache_key ext user_id_val) user
    pure user

  unfoldable pub get_user_by_id : ℕ → Action User
  unfolding get_cached set_cached
  get_user_by_id user_id_val = do
    cached ← get_cached ext user_from_json (user_cache_key ext user_id_val)
    or_load_user user_id_val cached

  abbrev pub or_load_users : Option (List User) → Action (List User)
  or_load_users (some users) = pure users
  or_load_users none = do
    found ← perform select_users
    users ← map_err found from_sqlx
    set_cached ext users_to_json users_list_cache_key users
    pure users

  unfoldable pub list_users : Action (List User)
  unfolding get_cached set_cached
  list_users = do cached ← get_cached ext users_from_json users_list_cache_key; or_load_users cached

  unfoldable pub update_user : ℕ → UpdateUser → Action User
  unfolding refresh_cache
  update_user user_id_val update = do
    changed ← perform (update_row user_id_val update)
    updated ← map_err changed from_sqlx
    refresh_cache user_id_val updated
    pure updated

  unfoldable pub delete_user : ℕ → Action Unit
  unfolding invalidate
  delete_user user_id_val = do
    deleted ← perform (delete_row user_id_val)
    count ← map_err deleted from_sqlx
    fail_if (nat_eq count 0) not_found
    invalidate (user_cache_key ext user_id_val)
    invalidate users_list_cache_key
    pure tt
