-- ===== src/Auth/Controllers/Conflict.antt =====
-- Registering an e-mail address that is taken.
use Prim.Native.String.{len}
use rust_microservices_archi.Prelude.{
  ◌≡◌, refl, ℕ, suc, String, true, false, ok, err, any, ltb, ◌==◌,
}
use rust_microservices_archi.Database.{fine, statement, insert_row}
use rust_microservices_archi.Effects.{run}
use rust_microservices_archi.Auth.Models.{RegisterRequest}
use rust_microservices_archi.Auth.Errors.{conflict}
use rust_microservices_archi.Auth.External.{External}
use rust_microservices_archi.Auth.Calls.{World, Env, exec, machine}
use rust_microservices_archi.Auth.Repositories.AuthUserRepository
use rust_microservices_archi.Auth.Services.AuthService
use rust_microservices_archi.Auth.Services.AuthService.{create_error}
use rust_microservices_archi.Auth.Controllers.{register}

-- The endpoint refuses to register an e-mail address that a user has on the master when the row is to be
-- inserted: with a long enough password that can be hashed, and a working master, the answer is the
-- conflict, the users are those there were, and no event is sent.
pub taken_email-Conflict :
    (ext : External) (env : Env) (n : ℕ) (w : World) (req : RegisterRequest) (hash : String)
    → ltb (len req.password) 8 ≡ false
    → ext.hash_password req.password (env.salt n) ≡ ok hash
    → env.fault (suc n) ≡ fine
    → any (λ u. u.email == req.email) (env.before (suc n) (env.before n w)).write.auth_users.rows
      ≡ true
    → (let (result, _, left) = run (machine env) n (register ext req) w in
        (result ≡ err (conflict "Email already registered"))
        × (left.write.auth_users.rows ≡ (env.before (suc n) (env.before n w)).write.auth_users.rows)
        × (left.events ≡ (env.before (suc n) (env.before n w)).events))
unfolding register AuthService.register create_error exec AuthUserRepository.create insert_row
    statement
taken_email-Conflict ext env n w req hash long hashed works taken =
    rw long (rw (hashed, run) (rw (works, run) (rw (taken, run) (refl, refl, refl))))
