-- ===== src/User/Models.antt =====
-- user-service/src/models/user.rs and user-service/migrations/users.
use rust_microservices_archi.Prelude.{ℕ, String, Option}
use rust_microservices_archi.Database.{Table}

pub record User : Type 0 where
  pub id : ℕ
  pub name : String
  pub email : String

pub record NewUser : Type 0 where
  pub name : String
  pub email : String

pub record UpdateUser : Type 0 where
  pub name : Option String
  pub email : Option String

-- The one table of the database: no column but the key is unique.
abbrev pub UserDb : Type 0
UserDb = Table User
