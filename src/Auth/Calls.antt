-- ===== src/Auth/Calls.antt =====
-- The effects of auth-service, and the machine that answers them: two database servers (the master
-- behind `pools.write`, a replica behind `pools.read`), Redis, Kafka, the clock and the random
-- generators. Where both pools reach one server, the interference copies it before each call.
pub mod Spent
pub mod WellFormed
use rust_microservices_archi.Prelude.{
  ℕ, String, Bool, Option, none, some, List, ◌∷◌, Result, ok, err, keep, find, not, ◌==◌,
  if◌then◌else◌,
}
use rust_microservices_archi.Database.{SqlxError, Fault, statement}
use rust_microservices_archi.Effects.{Prog, Machine}
use rust_microservices_archi.Auth.Models.{
  Time, AuthUser, NewAuthUser, OAuthClient, NewOAuthClient, AuthorizationCode, NewAuthorizationCode,
  RefreshToken, NewRefreshToken,
}
use rust_microservices_archi.Auth.Errors.{ServiceError}
use rust_microservices_archi.Auth.Tables.{AuthDb}
use rust_microservices_archi.Auth.Repositories.AuthUserRepository
use rust_microservices_archi.Auth.Repositories.OAuthClientRepository
use rust_microservices_archi.Auth.Repositories.AuthorizationCodeRepository
use rust_microservices_archi.Auth.Repositories.RefreshTokenRepository

pub data Op : Type 0 where
  utc_now new_uuid new_salt : Op
  random_bytes : (count : ℕ) → Op
  redis_get : (key : String) → Op
  redis_set_ex : (key text : String) → (ttl : ℕ) → Op
  redis_del : (key : String) → Op
  kafka_send : (topic key payload : String) → Op
  insert_user : NewAuthUser → Op
  select_user_by_email : String → Op
  select_user_by_id : ℕ → Op
  insert_client : NewOAuthClient → Op
  select_client : String → Op
  insert_code : NewAuthorizationCode → Op
  select_code : String → Op
  update_code_used : String → Op
  insert_token : NewRefreshToken → Op
  select_token : String → Op
  delete_token : String → Op
  delete_tokens_of_user : ℕ → Op

abbrev pub Reply : Op → Type 0
Reply utc_now = Time
Reply new_uuid = String
Reply new_salt = String
Reply (random_bytes count) = List ℕ
Reply (redis_get key) = Option String
Reply (redis_set_ex key text ttl) = Unit
Reply (redis_del key) = Unit
Reply (kafka_send topic key payload) = Result String Unit
Reply (insert_user new) = Result SqlxError AuthUser
Reply (select_user_by_email email) = Result SqlxError AuthUser
Reply (select_user_by_id id) = Result SqlxError AuthUser
Reply (insert_client new) = Result SqlxError OAuthClient
Reply (select_client cid) = Result SqlxError OAuthClient
Reply (insert_code new) = Result SqlxError AuthorizationCode
Reply (select_code code) = Result SqlxError AuthorizationCode
Reply (update_code_used code) = Result SqlxError ℕ
Reply (insert_token new) = Result SqlxError RefreshToken
Reply (select_token token) = Result SqlxError RefreshToken
Reply (delete_token token) = Result SqlxError ℕ
Reply (delete_tokens_of_user id) = Result SqlxError ℕ

-- A handler of auth-service.
abbrev pub Action : Type 0 → Type 0
Action A = Prog Op Reply (Result ServiceError A)

pub record CacheEntry : Type 0 where
  pub key : String
  pub text : String
  pub ttl : ℕ

pub record World : Type 0 where
  pub write : AuthDb
  pub read : AuthDb
  pub redis : List CacheEntry
  pub events : List (String × String × String)

-- What the environment answers to call number n.
pub record Env : Type 0 where
  pub clock : ℕ → Time
  pub uuid : ℕ → String
  pub salt : ℕ → String
  pub bytes : ℕ → ℕ → List ℕ
  pub redis_up : ℕ → Bool
  pub kafka_error : ℕ → Option String
  pub fault : ℕ → Fault
  -- the text with which a constraint refuses a row
  pub refused : String → String
  -- what others do to the world before the call
  pub before : ℕ → World → World

-- A statement sent through `pools.write` or `pools.read`.
abbrev write_with :
    {A : Type 0}
    → Fault
    → (AuthDb → Result SqlxError A × AuthDb)
    → World
    → Result SqlxError A × World
write_with fault f w = let (r, db) = statement fault f w.write in (r, record w { write = db })

abbrev read_with :
    {A : Type 0} → Fault → (AuthDb → Result SqlxError A) → World → Result SqlxError A × World
read_with fault f w = ((statement fault (λ db. (f db, db)) w.read).0, w)

abbrev lookup_text : String → List CacheEntry → Option String
lookup_text key cache = elim (find (λ e. e.key == key) cache) [ none ↦ none | some e ↦ some e.text ]

abbrev without : String → List CacheEntry → List CacheEntry
without key = keep (λ e. not (e.key == key))

module _ (env : Env) where
  unfoldable pub exec : ℕ → (o : Op) → World → Reply o × World
  unfolding statement
  exec n utc_now w = (env.clock n, w)
  exec n new_uuid w = (env.uuid n, w)
  exec n new_salt w = (env.salt n, w)
  exec n (random_bytes count) w = (env.bytes n count, w)
  exec n (redis_get key) w = (if env.redis_up n then lookup_text key w.redis else none, w)
  exec n (redis_set_ex key text ttl) w =
      let entry : CacheEntry = record { key = key; text = text; ttl = ttl } in
      (tt, if env.redis_up n then record w { redis = entry ∷ without key w.redis } else w)
  exec n (redis_del key) w =
      (tt, if env.redis_up n then record w { redis = without key w.redis } else w)
  exec n (kafka_send topic key payload) w = elim (env.kafka_error n) [
    | none ↦ (ok tt, record w { events = (topic, key, payload) ∷ w.events })
    | some e ↦ (err e, w)
  ]
  exec n (insert_user new) w =
      write_with (env.fault n) (AuthUserRepository.create env.refused (env.clock n) new) w
  exec n (select_user_by_email email) w =
      read_with (env.fault n) (AuthUserRepository.find_by_email email) w
  exec n (select_user_by_id id) w = read_with (env.fault n) (AuthUserRepository.find_by_id id) w
  exec n (insert_client new) w =
      write_with (env.fault n) (OAuthClientRepository.create env.refused (env.clock n) new) w
  exec n (select_client cid) w =
      read_with (env.fault n) (OAuthClientRepository.find_by_client_id cid) w
  exec n (insert_code new) w =
      write_with (env.fault n) (AuthorizationCodeRepository.create env.refused (env.clock n) new) w
  exec n (select_code code) w =
      read_with (env.fault n) (AuthorizationCodeRepository.find_by_code code) w
  exec n (update_code_used code) w =
      write_with (env.fault n) (AuthorizationCodeRepository.mark_used code) w
  exec n (insert_token new) w =
      write_with (env.fault n) (RefreshTokenRepository.create env.refused (env.clock n) new) w
  exec n (select_token token) w =
      read_with (env.fault n) (RefreshTokenRepository.find_by_token token) w
  exec n (delete_token token) w =
      write_with (env.fault n) (RefreshTokenRepository.delete_by_token token) w
  exec n (delete_tokens_of_user id) w =
      write_with (env.fault n) (RefreshTokenRepository.delete_by_user_id id) w

  abbrev pub machine : Machine Op Reply World
  machine = record { exec = exec; before = env.before }
