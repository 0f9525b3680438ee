-- ===== src/Auth/Repositories/AuthUserRepository.antt =====
-- auth-service/src/repositories/auth_user_repository.rs
use rust_microservices_archi.Prelude.{
  ℕ, String, true, none, some, Result, any, nat_eq, ◌==◌, if◌then◌else◌,
}
use rust_microservices_archi.Database.{SqlxError, database, select_one, insert_row}
use rust_microservices_archi.Auth.Models.{AuthUser, NewAuthUser, Time}
use rust_microservices_archi.Auth.Tables.{AuthDb}

-- The row that the statement stores under an id.
abbrev pub inserted : Time → NewAuthUser → ℕ → AuthUser
inserted now new_user id = record {
  id = id;
  email = new_user.email;
  password_hash = new_user.password_hash;
  created_at = now;
}

-- INSERT INTO auth_users (email, password_hash) …; `email` is UNIQUE.
unfoldable pub create :
    (String → String) → Time → NewAuthUser → AuthDb → Result SqlxError AuthUser × AuthDb
unfolding insert_row
create refused now new_user db =
    let taken = any (λ u. u.email == new_user.email) db.auth_users.rows in
    let (r, t) =
      insert_row (if taken then some (database true (refused "email")) else none)
        (inserted now new_user) db.auth_users in
    (r, record db { auth_users = t })

-- SELECT … FROM auth_users WHERE email = $1
unfoldable pub find_by_email : String → AuthDb → Result SqlxError AuthUser
unfolding select_one
find_by_email user_email db = select_one (λ u. u.email == user_email) db.auth_users

-- SELECT … FROM auth_users WHERE id = $1
unfoldable pub find_by_id : ℕ → AuthDb → Result SqlxError AuthUser
unfolding select_one
find_by_id user_id db = select_one (λ u. nat_eq u.id user_id) db.auth_users
