-- ===== src/Auth/Services/AuthService.antt =====
-- auth-service/src/services/auth_service.rs
pub mod Login
use Prim.Native.String.{len}
use rust_microservices_archi.Prelude.{String, ◌<>◌, true, ltb, not}
use rust_microservices_archi.Database.{SqlxError, database}
use rust_microservices_archi.Effects.{◌>>=◌, ◌>>◌, perform, pure, map_err, fail_if}
use rust_microservices_archi.Auth.Models.{RegisterRequest, RegisterResponse, AuthUser}
use rust_microservices_archi.Auth.Errors.{
  ServiceError, internal_error, unauthorized, conflict, invalid_request, from_sqlx,
}
use rust_microservices_archi.Auth.External.{External}
use rust_microservices_archi.Auth.Calls.{Action, new_salt, insert_user, select_user_by_email}

-- The closure of `register`: a unique violation is a conflict.
unfoldable pub create_error : SqlxError → ServiceError
unfolding from_sqlx
create_error (database true text) = conflict "Email already registered"
create_error e = from_sqlx e

module _ (ext : External) where
  unfoldable pub register : RegisterRequest → Action RegisterResponse
  unfolding create_error
  register req = do
    fail_if (ltb (len req.password) 8) (invalid_request "Password must be at least 8 characters")
    salt ← perform new_salt
    hash ← map_err (ext.hash_password req.password salt) (λ e. internal_error ("Hash error: " <> e))
    created ← perform (insert_user (record { email = req.email; password_hash = hash }))
    user ← map_err created create_error
    pure (record { id = user.id; email = user.email })

  unfoldable pub verify_credentials : String → String → Action AuthUser
  verify_credentials user_email password = do
    found ← perform (select_user_by_email user_email)
    user ← map_err found (λ _. unauthorized "Invalid credentials")
    map_err (ext.parse_hash user.password_hash) (λ e. internal_error ("Hash parse error: " <> e))
    fail_if (not (ext.verify_password password user.password_hash))
        (unauthorized "Invalid credentials")
    pure user
