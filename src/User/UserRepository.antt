-- ===== src/User/UserRepository.antt =====
-- user-service/src/repositories/user_repository.rs
use rust_microservices_archi.Prelude.{ℕ, none, some, List, Result, ok, err, find, get_or, nat_eq}
use rust_microservices_archi.Database.{
  SqlxError, row_not_found, select_one, insert_row, update_rows, delete_rows,
}
use rust_microservices_archi.User.Models.{User, NewUser, UpdateUser, UserDb}

-- SELECT id, name, email FROM users WHERE id = $1
unfoldable pub find_by_id : ℕ → UserDb → Result SqlxError User
unfolding select_one
find_by_id user_id_val db = select_one (λ u. nat_eq u.id user_id_val) db

-- SELECT id, name, email FROM users
unfoldable pub find_all : UserDb → Result SqlxError (List User)
find_all db = ok db.rows

-- INSERT INTO users (name, email) VALUES ($1, $2) RETURNING id, name, email
unfoldable pub create : NewUser → UserDb → Result SqlxError User × UserDb
unfolding insert_row
create new_user db =
    insert_row none (λ id. record { id = id; name = new_user.name; email = new_user.email }) db

-- The assignments COALESCE($1, name) and COALESCE($2, email).
abbrev pub coalesce : UpdateUser → User → User
coalesce changeset u = record u {
  name = get_or u.name changeset.name;
  email = get_or u.email changeset.email;
}

-- UPDATE users SET … WHERE id = $3 RETURNING id, name, email
unfoldable pub update : ℕ → UpdateUser → UserDb → Result SqlxError User × UserDb
update user_id_val changeset db =
    let rows = update_rows (λ (u : User). nat_eq u.id user_id_val) (coalesce changeset) db.rows in
    (
      elim (find (λ (u : User). nat_eq u.id user_id_val) rows) [
        | none ↦ err row_not_found
        | some u ↦ ok u
      ],
      record db { rows = rows },
    )

-- DELETE FROM users WHERE id = $1
unfoldable pub delete : ℕ → UserDb → Result SqlxError ℕ × UserDb
unfolding delete_rows
delete user_id_val db = delete_rows (λ u. nat_eq u.id user_id_val) db
