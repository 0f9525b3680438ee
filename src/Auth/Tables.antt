-- ===== src/Auth/Tables.antt =====
-- auth_db: the four tables of auth-service/migrations.
use rust_microservices_archi.Database.{Table}
use rust_microservices_archi.Auth.Models.{AuthUser, OAuthClient, AuthorizationCode, RefreshToken}

pub record AuthDb : Type 0 where
  pub auth_users : Table AuthUser
  pub oauth_clients : Table OAuthClient
  pub authorization_codes : Table AuthorizationCode
  pub refresh_tokens : Table RefreshToken
