-- ===== src/Shared/JwtAuth.antt =====
-- shared/src/middleware: the extractor of the authenticated user and the scope check.
pub mod Extraction
use rust_microservices_archi.Prelude.{
  String, ◌<>◌, Option, none, some, List, Result, ok, err, any, ◌==◌, if◌then◌else◌,
}
use rust_microservices_archi.Prelude.Text.{split_whitespace, strip_prefix}
use rust_microservices_archi.Jwt.{Claims}
use rust_microservices_archi.Shared.Errors.{ServiceError, internal_error, unauthorized, forbidden}

pub record AuthenticatedUser : Type 0 where
  pub user_id : String
  pub email : Option String
  pub client_id : String
  pub scopes : List String

-- What the extractor reads of a request: the application's secret, and the `Authorization` header,
-- whose value is a text or is not (`to_str`).
pub record HttpRequest : Type 0 where
  pub jwt_secret : Option String
  pub authorization : Option (Option String)

infixl 5 ◌>>=◌
abbrev ◌>>=◌ :
    {A B : Type 0} → Result ServiceError A → (A → Result ServiceError B) → Result ServiceError B
ok a >>= f = f a
err e >>= f = err e

abbrev ok_or : {A : Type 0} → Option A → ServiceError → Result ServiceError A
ok_or none e = err e
ok_or (some a) e = ok a

abbrev map_err : {A : Type 0} → Result String A → (String → ServiceError) → Result ServiceError A
map_err (ok a) f = ok a
map_err (err d) f = err (f d)

abbrev flatten_text : Option (Option String) → Option String
flatten_text none = none
flatten_text (some v) = v

abbrev pub user_of : Claims → AuthenticatedUser
user_of claims = record {
  user_id = claims.sub;
  email = claims.email;
  client_id = claims.client_id;
  scopes = split_whitespace claims.scopes;
}

-- The part of `from_request` after the token was decoded.
abbrev pub after_decode : Result String Claims → Result ServiceError AuthenticatedUser
after_decode decoded = do
  claims ← map_err decoded (λ e. unauthorized ("Invalid token: " <> e))
  ok (user_of claims)

-- `decode token secret` is jsonwebtoken's, at the time of the request.
module _ (decode : String → String → Result String Claims) where
  -- The part of `from_request` after the header's prefix was stripped.
  abbrev pub after_prefix : String → Option String → Result ServiceError AuthenticatedUser
  after_prefix jwt_secret stripped = do
    token ← ok_or stripped (unauthorized "Invalid Authorization format. Use: Bearer <token>")
    after_decode (decode token jwt_secret)

  unfoldable pub extract_user : HttpRequest → Result ServiceError AuthenticatedUser
  extract_user req = do
    jwt_secret ← ok_or req.jwt_secret (internal_error "JWT secret not configured")
    auth_header ←
        ok_or (flatten_text req.authorization) (unauthorized "Missing Authorization header")
    after_prefix jwt_secret (strip_prefix "Bearer " auth_header)

-- middleware/scopes.rs
unfoldable pub require_scope : AuthenticatedUser → String → Result ServiceError Unit
require_scope auth required =
    if any (λ s. s == required) auth.scopes
    then ok tt
    else err (forbidden ("Insufficient scope. Required: " <> required))
