-- ===== src/Auth/Repositories.antt =====
-- auth-service/src/repositories: one SQL statement each, over the tables of the migrations.
-- `refused c` is the text of the refusal of a row by the constraint on column `c`.
pub mod AuthUserRepository
pub mod OAuthClientRepository
pub mod AuthorizationCodeRepository
pub mod RefreshTokenRepository
