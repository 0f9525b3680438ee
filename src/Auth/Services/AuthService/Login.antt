-- ===== src/Auth/Services/AuthService/Login.antt =====
-- `AuthService::verify_credentials` as a step of the handlers that verify a login.
use rust_microservices_archi.Prelude.{
  ◌≡◌, refl, String, Bool, true, false, not, List, ◌∷◌, Result, ok, err,
}
use rust_microservices_archi.Effects.{◌>>=◌, ◌>>◌, map_err, fail_if, pure, Event, event, Ensures}
use rust_microservices_archi.Effects.Guards.{OnOk}
use rust_microservices_archi.Auth.Models.{AuthUser}
use rust_microservices_archi.Auth.Errors.{ServiceError}
use rust_microservices_archi.Auth.External.{External}
use rust_microservices_archi.Auth.Calls.{Op, Reply, Action, select_user_by_email}
use rust_microservices_archi.Auth.Services.AuthService.{verify_credentials}

module _ (ext : External) {B : Type 0} (P : List (Event Op Reply) → B → Type 0) where
  after_check :
      (tr : List (Event Op Reply)) (user : AuthUser) (r : Result String Unit) (b : Bool)
      (f : String → ServiceError) (e : ServiceError) (k : AuthUser → Action B)
      → (b ≡ true → Ensures (OnOk P) tr (k user))
      → Ensures (OnOk P) tr ((map_err r f >> (fail_if (not b) e >> pure user)) >>= k)
  after_check tr user (err d) b f e k h = tt
  after_check tr user (ok u) true f e k h = h refl
  after_check tr user (ok u) false f e k h = tt

  pub after_credentials :
      (tr : List (Event Op Reply)) (email password : String) (k : AuthUser → Action B)
      → ((p : (user : AuthUser) × (ext.verify_password password user.password_hash ≡ true))
          → Ensures (OnOk P) (event (select_user_by_email email) (ok p.0) ∷ tr) (k p.0))
      → Ensures (OnOk P) tr (verify_credentials ext email password >>= k)
  unfolding verify_credentials
  after_credentials tr email password k h = elim [
    | ok user ↦
        after_check _ user (ext.parse_hash user.password_hash)
          (ext.verify_password password user.password_hash) _ _ k (λ verified. h (user, verified))
    | err d ↦ tt
  ]
