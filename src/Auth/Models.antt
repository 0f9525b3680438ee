-- ===== src/Auth/Models.antt =====
-- auth-service/src/models: the rows of the tables, the requests and the responses.
-- A time is a number on the clock that the database and the service share.
use rust_microservices_archi.Prelude.{ℕ, String, Option, Bool}
use rust_microservices_archi.Prelude.Int.{ℤ}

abbrev pub Time : Type 0
Time = ℕ

pub record AuthUser : Type 0 where
  pub id : ℕ
  pub email : String
  pub password_hash : String
  pub created_at : Time

pub record NewAuthUser : Type 0 where
  pub email : String
  pub password_hash : String

pub record OAuthClient : Type 0 where
  pub id : ℕ
  pub client_id : String
  pub client_secret_hash : String
  pub client_name : String
  pub redirect_uri : String
  pub scopes : String
  pub created_at : Time

pub record NewOAuthClient : Type 0 where
  pub client_id : String
  pub client_secret_hash : String
  pub client_name : String
  pub redirect_uri : String
  pub scopes : String

pub record AuthorizationCode : Type 0 where
  pub id : ℕ
  pub code : String
  pub client_id : String
  pub user_id : ℕ
  pub redirect_uri : String
  pub scopes : String
  pub code_challenge : String
  pub code_challenge_method : String
  pub expires_at : Time
  pub used : Bool
  pub created_at : Time

pub record NewAuthorizationCode : Type 0 where
  pub code : String
  pub client_id : String
  pub user_id : ℕ
  pub redirect_uri : String
  pub scopes : String
  pub code_challenge : String
  pub code_challenge_method : String
  pub expires_at : Time

pub record RefreshToken : Type 0 where
  pub id : ℕ
  pub token : String
  pub client_id : String
  pub user_id : ℕ
  pub scopes : String
  pub expires_at : Time
  pub created_at : Time

pub record NewRefreshToken : Type 0 where
  pub token : String
  pub client_id : String
  pub user_id : ℕ
  pub scopes : String
  pub expires_at : Time

-- models/dto.rs
pub record RegisterRequest : Type 0 where
  pub email : String
  pub password : String

pub record RegisterResponse : Type 0 where
  pub id : ℕ
  pub email : String

pub record LoginRequest : Type 0 where
  pub email : String
  pub password : String

pub record ClientRegisterRequest : Type 0 where
  pub client_name : String
  pub redirect_uri : String
  pub scopes : String

pub record ClientRegisterResponse : Type 0 where
  pub client_id : String
  pub client_secret : String
  pub client_name : String
  pub redirect_uri : String
  pub scopes : String

pub record AuthorizeParams : Type 0 where
  pub response_type : String
  pub client_id : String
  pub redirect_uri : String
  pub scope : String
  pub state : String
  pub code_challenge : String
  pub code_challenge_method : String

pub record AuthorizeResponse : Type 0 where
  pub code : String
  pub state : String

pub record TokenRequest : Type 0 where
  pub grant_type : String
  pub code : Option String
  pub redirect_uri : Option String
  pub client_id : String
  pub client_secret : String
  pub code_verifier : Option String
  pub refresh_token : Option String
  pub scope : Option String

pub record TokenResponse : Type 0 where
  pub access_token : String
  pub refresh_token : Option String
  pub token_type : String
  pub expires_in : ℤ
  pub scope : String

pub record RevokeRequest : Type 0 where
  pub token : String
  pub client_id : String
  pub client_secret : String

-- config.rs
pub record AppConfig : Type 0 where
  pub jwt_secret : String
  pub access_token_ttl_secs : ℤ
  pub refresh_token_ttl_days : ℤ
