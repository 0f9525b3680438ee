-- ===== src/Auth/Repositories/RefreshTokenRepository.antt =====
-- auth-service/src/repositories/refresh_token_repository.rs
use rust_microservices_archi.Prelude.{
  ℕ, String, true, false, Option, none, some, Result, any, nat_eq, ◌==◌, if◌then◌else◌,
}
use rust_microservices_archi.Database.{SqlxError, database, select_one, insert_row, delete_rows}
use rust_microservices_archi.Auth.Models.{RefreshToken, NewRefreshToken, Time}
use rust_microservices_archi.Auth.Tables.{AuthDb}

-- `token` is UNIQUE and `user_id` REFERENCES auth_users(id).
abbrev pub refusal : (String → String) → NewRefreshToken → AuthDb → Option SqlxError
refusal refused new_token db =
    if any (λ t. t.token == new_token.token) db.refresh_tokens.rows
    then some (database true (refused "token"))
    else if any (λ u. nat_eq u.id new_token.user_id) db.auth_users.rows
    then none
    else some (database false (refused "user_id"))

-- The row that the statement stores under an id.
abbrev pub inserted : Time → NewRefreshToken → ℕ → RefreshToken
inserted now new_token id = record {
  id = id;
  token = new_token.token;
  client_id = new_token.client_id;
  user_id = new_token.user_id;
  scopes = new_token.scopes;
  expires_at = new_token.expires_at;
  created_at = now;
}

-- INSERT INTO refresh_tokens …
unfoldable pub create :
    (String → String) → Time → NewRefreshToken → AuthDb → Result SqlxError RefreshToken × AuthDb
unfolding insert_row
create refused now new_token db =
    let (r, t) =
      insert_row (refusal refused new_token db) (inserted now new_token) db.refresh_tokens in
    (r, record db { refresh_tokens = t })

-- SELECT … FROM refresh_tokens WHERE token = $1
unfoldable pub find_by_token : String → AuthDb → Result SqlxError RefreshToken
unfolding select_one
find_by_token token_val db = select_one (λ t. t.token == token_val) db.refresh_tokens

-- DELETE FROM refresh_tokens WHERE token = $1
unfoldable pub delete_by_token : String → AuthDb → Result SqlxError ℕ × AuthDb
unfolding delete_rows
delete_by_token token_val db =
    let (r, t) = delete_rows (λ t. t.token == token_val) db.refresh_tokens in
    (r, record db { refresh_tokens = t })

-- DELETE FROM refresh_tokens WHERE user_id = $1
unfoldable pub delete_by_user_id : ℕ → AuthDb → Result SqlxError ℕ × AuthDb
unfolding delete_rows
delete_by_user_id uid db =
    let (r, t) = delete_rows (λ t. nat_eq t.user_id uid) db.refresh_tokens in
    (r, record db { refresh_tokens = t })
