-- ===== src/Auth/Repositories/AuthorizationCodeRepository.antt =====
-- auth-service/src/repositories/authorization_code_repository.rs
use rust_microservices_archi.Prelude.{
  ℕ, String, true, false, Option, none, some, Result, ok, any, keep, length, nat_eq, ◌==◌,
  if◌then◌else◌,
}
use rust_microservices_archi.Database.{SqlxError, database, select_one, insert_row, update_rows}
use rust_microservices_archi.Auth.Models.{AuthorizationCode, NewAuthorizationCode, Time}
use rust_microservices_archi.Auth.Tables.{AuthDb}

-- `code` is UNIQUE and `user_id` REFERENCES auth_users(id).
abbrev pub refusal : (String → String) → NewAuthorizationCode → AuthDb → Option SqlxError
refusal refused new_code db =
    if any (λ c. c.code == new_code.code) db.authorization_codes.rows
    then some (database true (refused "code"))
    else if any (λ u. nat_eq u.id new_code.user_id) db.auth_users.rows
    then none
    else some (database false (refused "user_id"))

-- The row that the statement stores under an id.
abbrev pub inserted : Time → NewAuthorizationCode → ℕ → AuthorizationCode
inserted now new_code id = record {
  id = id;
  code = new_code.code;
  client_id = new_code.client_id;
  user_id = new_code.user_id;
  redirect_uri = new_code.redirect_uri;
  scopes = new_code.scopes;
  code_challenge = new_code.code_challenge;
  code_challenge_method = new_code.code_challenge_method;
  expires_at = new_code.expires_at;
  used = false;
  created_at = now;
}

-- INSERT INTO authorization_codes …; `used` DEFAULTs to FALSE.
unfoldable pub create :
    (String → String)
    → Time
    → NewAuthorizationCode
    → AuthDb
    → Result SqlxError AuthorizationCode × AuthDb
unfolding insert_row
create refused now new_code db =
    let (r, t) =
      insert_row (refusal refused new_code db) (inserted now new_code) db.authorization_codes in
    (r, record db { authorization_codes = t })

-- SELECT … FROM authorization_codes WHERE code = $1
unfoldable pub find_by_code : String → AuthDb → Result SqlxError AuthorizationCode
unfolding select_one
find_by_code code_val db = select_one (λ c. c.code == code_val) db.authorization_codes

-- UPDATE authorization_codes SET used = true WHERE code = $1, whatever `used` was.
unfoldable pub mark_used : String → AuthDb → Result SqlxError ℕ × AuthDb
mark_used code_val db =
    let t = db.authorization_codes in
    let has_code = λ (c : AuthorizationCode). c.code == code_val in
    (
      ok (length (keep has_code t.rows)),
      record db {
        authorization_codes = record t {
          rows = update_rows has_code (λ c. record c { used = true }) t.rows;
        };
      },
    )
