-- ===== src/User/UserController/Guarded.antt =====
-- The guards of the handlers of user-service/src/controllers/v1/user_controller.rs.
use rust_microservices_archi.Prelude.{
  ℕ, ◌≡◌, refl, ◌⊎◌, inl, inr, String, ◌<>◌, Bool, true, false, none, Result, ok, err, any, ◌==◌,
  if◌then◌else◌,
}
use rust_microservices_archi.Http.{HttpResponse}
use rust_microservices_archi.Jwt.{Claims}
use rust_microservices_archi.Effects.{ret, lift, ◌>>=◌}
use rust_microservices_archi.Shared.Errors.{ServiceError, forbidden, error_response}
use rust_microservices_archi.Shared.JwtAuth.{
  HttpRequest, AuthenticatedUser, extract_user, require_scope,
}
use rust_microservices_archi.Shared.JwtAuth.Extraction.{refused_request_status}
use rust_microservices_archi.User.Models.{NewUser, UpdateUser}
use rust_microservices_archi.User.Calls.{Action}
use rust_microservices_archi.User.Cache.{External}
use rust_microservices_archi.User.UserController.{
  authorized, list_users, get_user, create_user, update_user, delete_user, answer,
}

-- The routes under /users, with the inputs of their handlers.
pub data Route : Type 0 where
  list : Route
  get : ℕ → Route
  create : NewUser → Route
  update : ℕ → UpdateUser → Route
  delete : ℕ → Route

abbrev pub scope_of : Route → String
scope_of list = "read"
scope_of (get id) = "read"
scope_of (create json) = "write"
scope_of (update id json) = "write"
scope_of (delete id) = "write"

-- The user of the request has the scope.
abbrev pub IsAllowed : (String → String → Result String Claims) → HttpRequest → String → Type 0
IsAllowed decode req scope =
    (auth : AuthenticatedUser) × (extract_user decode req ≡ ok auth)
    × (any (λ s. s == scope) auth.scopes ≡ true)

module _ (decode : String → String → Result String Claims) (ext : External)
    (req : HttpRequest) where
  abbrev pub handler : Route → Action HttpResponse
  handler list = list_users decode ext req
  handler (get id) = get_user decode ext req id
  handler (create json) = create_user decode ext req json
  handler (update id json) = update_user decode ext req id json
  handler (delete id) = delete_user decode ext req id

  -- Nothing but a response, of a request that is unauthenticated, lacks a scope, or finds the
  -- service without its secret.
  abbrev pub IsRejection : Action HttpResponse → Type 0
  IsRejection h =
      (resp : HttpResponse) × (answer h ≡ ret resp)
      × ((resp.status ≡ 401)
          ⊎ (resp.status ≡ 403)
          ⊎ ((resp.status ≡ 500) × (req.jwt_secret ≡ none)))

  abbrev Verdict : String → Action HttpResponse → Type 0
  Verdict scope h = IsAllowed decode req scope ⊎ IsRejection h

  scoped :
      (scope : String) (h : Action HttpResponse) (auth : AuthenticatedUser)
      → extract_user decode req ≡ ok auth
      → (b : Bool) → any (λ s. s == scope) auth.scopes ≡ b
      → Verdict scope (
          lift (if b then ok tt else err (forbidden ("Insufficient scope. Required: " <> scope)))
          >>= λ _. h)
  unfolding error_response
  scoped scope h auth found true has = inl (auth, found, has)
  scoped scope h auth found false lacks = inr (_, refl, inr (inl refl))

  extracted :
      (scope : String) (h : Action HttpResponse) (r : Result ServiceError AuthenticatedUser)
      → extract_user decode req ≡ r
      → Verdict scope (lift r >>= λ auth. lift (require_scope auth scope) >>= λ _. h)
  unfolding require_scope
  extracted scope h (ok auth) e = scoped scope h auth e _ refl
  extracted scope h (err bad) e = elim (refused_request_status decode req bad e) [
    | inl status ↦ inr (_, refl, inl status)
    | inr (status, unset) ↦ inr (_, refl, inr (inr (status, unset)))
  ]

  authorized-Verdict :
      (scope : String) (h : Action HttpResponse) → Verdict scope (authorized decode ext req scope h)
  unfolding authorized
  authorized-Verdict scope h = extracted scope h _ refl

  -- A handler of the user API runs only for a request whose bearer token decodes to a user with
  -- the route's scope, "read" for the two reading routes and "write" for the three others. Any other
  -- request makes no call at all and is answered 401, 403, or, where the service has no secret, 500.
  pub handler-guarded :
      (route : Route) → IsAllowed decode req (scope_of route) ⊎ IsRejection (handler route)
  unfolding list_users get_user create_user update_user delete_user
  handler-guarded list = authorized-Verdict "read" _
  handler-guarded (get id) = authorized-Verdict "read" _
  handler-guarded (create json) = authorized-Verdict "write" _
  handler-guarded (update id json) = authorized-Verdict "write" _
  handler-guarded (delete id) = authorized-Verdict "write" _
