-- ===== src/Shared/JwtAuth/Extraction.antt =====
-- The extractor of shared/src/middleware/jwt_auth.rs: which requests it accepts, and how it refuses
-- the others.
use rust_microservices_archi.Prelude.{
  ℕ, ◌≡◌, refl, sym, ap, subst, ◌↔◌, ◌⊎◌, inl, inr, String, ◌<>◌, Option, none, some, Result, ok,
  err, Option-cases, arith,
}
use rust_microservices_archi.Prelude.Text.{split_whitespace, strip_prefix}
use rust_microservices_archi.Prelude.Prefix.{strip_prefix-append, strip_prefix-some}
use rust_microservices_archi.Jwt.{Claims}
use rust_microservices_archi.Shared.Errors.{ServiceError, error_response}
use rust_microservices_archi.Shared.JwtAuth.{
  AuthenticatedUser, HttpRequest, after_decode, after_prefix, extract_user,
}

module _ (decode : String → String → Result String Claims) where
  -- The request carries a bearer token that decodes, under the configured secret, to the claims
  -- of this user.
  pub record IsBearer (req : HttpRequest) (user : AuthenticatedUser) : Type 0 where
    pub secret : String
    pub secret_set : req.jwt_secret ≡ some secret
    pub token : String
    pub header : req.authorization ≡ some (some ("Bearer " <> token))
    pub claims : Claims
    pub decoded : decode token secret ≡ ok claims
    pub user_is : user ≡ record {
      user_id = claims.sub;
      email = claims.email;
      client_id = claims.client_id;
      scopes = split_whitespace claims.scopes;
    }

  from_token :
      (secret token : String) (r : Result String Claims) (user : AuthenticatedUser)
      → decode token secret ≡ r
      → after_decode r ≡ ok user
      → IsBearer
          (record { jwt_secret = some secret; authorization = some (some ("Bearer " <> token)) })
          user
  from_token secret token (err e) user d h = cc
  from_token secret token (ok claims) user d h = record {
    secret = secret;
    secret_set = refl;
    token = token;
    header = refl;
    claims = claims;
    decoded = d;
    user_is = ground arith;
  }

  from_value :
      (secret v : String) (user : AuthenticatedUser)
      → extract_user decode (record { jwt_secret = some secret; authorization = some (some v) })
        ≡ ok user
      → IsBearer (record { jwt_secret = some secret; authorization = some (some v) }) user
  unfolding extract_user
  from_value secret v user h = elim (Option-cases (strip_prefix "Bearer " v)) [
    | inl other ↦ ground arith
    | inr (token, rest) ↦
        subst
          (λ (t : String).
            IsBearer (record { jwt_secret = some secret; authorization = some (some t) }) user)
          (sym (strip_prefix-some "Bearer " v token rest))
          (from_token secret token _ user refl (ground arith))
  ]

  from_header :
      (secret : Option String) (auth : Option (Option String)) (user : AuthenticatedUser)
      → extract_user decode (record { jwt_secret = secret; authorization = auth }) ≡ ok user
      → IsBearer (record { jwt_secret = secret; authorization = auth }) user
  unfolding extract_user
  from_header none auth user h = cc
  from_header (some s) none user h = cc
  from_header (some s) (some none) user h = cc
  from_header (some s) (some (some v)) user h = from_value s v user h

  to_user :
      (req : HttpRequest) (user : AuthenticatedUser)
      → IsBearer req user
      → extract_user decode req ≡ ok user
  unfolding extract_user
  to_user req user b =
      rw (b.secret_set, b.header, strip_prefix-append, b.decoded) (ap ok (sym b.user_is))

  -- The extractor accepts a request, as a user, just when the secret is configured, the
  -- Authorization header is "Bearer " followed by a token, and the token decodes under the secret to
  -- claims whose subject, e-mail, client and scope words are the user's.
  pub extract_user_iff :
      (req : HttpRequest) (user : AuthenticatedUser)
      → (extract_user decode req ≡ ok user) ↔ IsBearer req user
  extract_user_iff req user = (from_header req.jwt_secret req.authorization user, to_user req user)

  -- The status that the refusal of a request is answered with.
  abbrev status_of : Result ServiceError AuthenticatedUser → ℕ
  unfolding error_response
  status_of (ok user) = 200
  status_of (err e) = (error_response e).status

  refused_decode :
      (r : Result String Claims) (e : ServiceError)
      → after_decode r ≡ err e
      → (error_response e).status ≡ 401
  unfolding error_response
  refused_decode (ok claims) e h = cc
  refused_decode (err d) e h = sym (ap status_of h)

  refused_value :
      (secret v : String) (e : ServiceError)
      → extract_user decode (record { jwt_secret = some secret; authorization = some (some v) })
        ≡ err e
      → (error_response e).status ≡ 401
  unfolding extract_user error_response
  refused_value secret v e h = elim (Option-cases (strip_prefix "Bearer " v)) [
    | inl other ↦
        sym (
          ap status_of
            (subst (λ (o : Option String). after_prefix decode secret o ≡ err e) other h))
    | inr (token, rest) ↦
        refused_decode (decode token secret) e
          (subst (λ (o : Option String). after_prefix decode secret o ≡ err e) rest h)
  ]

  refused_header :
      (secret : Option String) (auth : Option (Option String)) (e : ServiceError)
      → extract_user decode (record { jwt_secret = secret; authorization = auth }) ≡ err e
      → ((error_response e).status ≡ 401) ⊎ (((error_response e).status ≡ 500) × (secret ≡ none))
  unfolding extract_user error_response
  refused_header none auth e h = inr (sym (ap status_of h), refl)
  refused_header (some s) none e h = inl (sym (ap status_of h))
  refused_header (some s) (some none) e h = inl (sym (ap status_of h))
  refused_header (some s) (some (some v)) e h = inl (refused_value s v e h)

  -- The extractor answers a request that it refuses with 401, or with 500 where the secret is not
  -- configured.
  pub refused_request_status :
      (req : HttpRequest) (e : ServiceError)
      → extract_user decode req ≡ err e
      → ((error_response e).status ≡ 401)
        ⊎ (((error_response e).status ≡ 500) × (req.jwt_secret ≡ none))
  refused_request_status req e h = refused_header req.jwt_secret req.authorization e h
