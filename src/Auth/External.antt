-- ===== src/Auth/External.antt =====
-- The crates that auth-service calls, as one record of operations without laws: argon2, sha2 with
-- base64, hex, jsonwebtoken, serde_json and chrono. What a theorem relies on of them is among its
-- hypotheses.
use rust_microservices_archi.Prelude.{ℕ, String, Bool, List, Option, Result}
use rust_microservices_archi.Prelude.Int.{ℤ}
use rust_microservices_archi.Json.{Json}
use rust_microservices_archi.Jwt.{Claims}
use rust_microservices_archi.Auth.Models.{Time}

pub record External : Type 0 where
  -- `hash_password(password, salt)`: the text of an error, or the hash as text.
  pub hash_password : String → String → Result String String
  -- `PasswordHash::new(text)`: the text of an error, or success.
  pub parse_hash : String → Result String Unit
  -- `verify_password(password, hash).is_ok()`, the parsed hash given by its text.
  pub verify_password : String → String → Bool
  -- `URL_SAFE_NO_PAD.encode(Sha256(verifier))`.
  pub challenge_of : String → String
  -- `hex::encode`.
  pub hex_encode : List ℕ → String
  -- `encode(claims, secret)`: the text of an error, or the token.
  pub jwt_encode : Claims → String → Result String String
  -- `decode(token, secret)` under `Validation::default()` at a time.
  pub jwt_decode : String → String → Time → Result String Claims
  -- `serde_json::to_string` and `from_str` on JSON values.
  pub print_json : Json → String
  pub parse_json : String → Option Json
  -- serde's text form of a `NaiveDateTime`.
  pub print_time : Time → String
  pub parse_time : String → Option Time
  -- chrono: `now + Duration::minutes(10)`, `now + Duration::days(d)` where `none` is its panic on a
  -- number of days or a date out of range, `timestamp() as usize`.
  pub add_minutes : Time → ℕ → Time
  pub add_days : Time → ℤ → Option Time
  pub timestamp : Time → ℕ
  -- `i32::to_string`.
  pub show_id : ℕ → String
