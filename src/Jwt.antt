-- ===== src/Jwt.antt =====
-- The claims of an access token: auth-service/src/models/token_claims.rs and the same structure in
-- shared/src/middleware/jwt_auth.rs.
use rust_microservices_archi.Prelude.{ℕ, String, Option}

pub record Claims : Type 0 where
  pub sub : String
  pub email : Option String
  pub client_id : String
  pub scopes : String
  pub exp : ℕ
  pub iat : ℕ
