-- ===== src/Auth/Calls/WellFormed.antt =====
-- The tables of auth_db under every call of auth-service.
use rust_microservices_archi.Prelude.{
  ℕ, ◌≡◌, refl, inl, inr, String, Bool, true, false, Option, none, some, Result, any, Option-cases,
  Bool-cases, if◌then◌else◌, nat_eq, ◌==◌,
}
use rust_microservices_archi.Effects.{run}
use rust_microservices_archi.Effects.Laws.{run-keeps}
use rust_microservices_archi.Database.{
  SqlxError, database, Fault, fine, refused, reply_lost, statement,
}
use rust_microservices_archi.Database.ByKey.{
  IsKeyed, insert_row-IsKeyed, delete_rows-IsKeyed, update_rows-IsKeyed,
}
use rust_microservices_archi.Auth.Models.{
  Time, AuthUser, OAuthClient, AuthorizationCode, RefreshToken, NewAuthUser, NewOAuthClient,
  NewAuthorizationCode, NewRefreshToken,
}
use rust_microservices_archi.Auth.Tables.{AuthDb}
use rust_microservices_archi.Auth.Repositories.AuthUserRepository
use rust_microservices_archi.Auth.Repositories.OAuthClientRepository
use rust_microservices_archi.Auth.Repositories.AuthorizationCodeRepository
use rust_microservices_archi.Auth.Repositories.RefreshTokenRepository
use rust_microservices_archi.Auth.Calls.{
  Op, Action, World, Env, exec, machine, write_with, insert_user, insert_client, insert_code,
  update_code_used, insert_token, delete_token, delete_tokens_of_user, redis_set_ex, redis_del,
  kafka_send,
}

-- In each table the ids are below the counter and the UNIQUE column has no value twice.
pub record IsWellFormed (db : AuthDb) : Type 0 where
  pub users : IsKeyed (λ (u : AuthUser). u.email) (λ u. u.id) db.auth_users
  pub clients : IsKeyed (λ (c : OAuthClient). c.client_id) (λ c. c.id) db.oauth_clients
  pub codes : IsKeyed (λ (c : AuthorizationCode). c.code) (λ c. c.id) db.authorization_codes
  pub tokens : IsKeyed (λ (t : RefreshToken). t.token) (λ t. t.id) db.refresh_tokens

-- A refusal that begins with a test for the key lets only fresh keys through.
fresh_or_refused :
    (taken : Bool) (e : SqlxError) (o : Option SqlxError)
    → (if taken then some e else o) ≡ none
    → taken ≡ false
fresh_or_refused true e o h = cc
fresh_or_refused false e o h = refl

create_user-IsWellFormed :
    (text : String → String) (now : Time) (new : NewAuthUser) (db : AuthDb)
    → IsWellFormed db
    → IsWellFormed (AuthUserRepository.create text now new db).1
unfolding AuthUserRepository.create
create_user-IsWellFormed text now new db h = record {
  users =
      insert_row-IsKeyed _ _ _ (AuthUserRepository.inserted now new) db.auth_users refl
        (fresh_or_refused _ (database true (text "email")) none) h.users;
  clients = h.clients;
  codes = h.codes;
  tokens = h.tokens;
}

create_client-IsWellFormed :
    (text : String → String) (now : Time) (new : NewOAuthClient) (db : AuthDb)
    → IsWellFormed db
    → IsWellFormed (OAuthClientRepository.create text now new db).1
unfolding OAuthClientRepository.create
create_client-IsWellFormed text now new db h = record {
  users = h.users;
  clients =
      insert_row-IsKeyed _ _ _ (OAuthClientRepository.inserted now new) db.oauth_clients refl
        (fresh_or_refused _ (database true (text "client_id")) none) h.clients;
  codes = h.codes;
  tokens = h.tokens;
}

create_code-IsWellFormed :
    (text : String → String) (now : Time) (new : NewAuthorizationCode) (db : AuthDb)
    → IsWellFormed db
    → IsWellFormed (AuthorizationCodeRepository.create text now new db).1
unfolding AuthorizationCodeRepository.create
create_code-IsWellFormed text now new db h = record {
  users = h.users;
  clients = h.clients;
  codes =
      insert_row-IsKeyed _ _ _ (AuthorizationCodeRepository.inserted now new) db.authorization_codes
        refl
        (fresh_or_refused _ (database true (text "code")) (
          if any (λ (u : AuthUser). nat_eq u.id new.user_id) db.auth_users.rows
          then none
          else some (database false (text "user_id"))))
        h.codes;
  tokens = h.tokens;
}

create_token-IsWellFormed :
    (text : String → String) (now : Time) (new : NewRefreshToken) (db : AuthDb)
    → IsWellFormed db
    → IsWellFormed (RefreshTokenRepository.create text now new db).1
unfolding RefreshTokenRepository.create
create_token-IsWellFormed text now new db h = record {
  users = h.users;
  clients = h.clients;
  codes = h.codes;
  tokens =
      insert_row-IsKeyed _ _ _ (RefreshTokenRepository.inserted now new) db.refresh_tokens refl
        (fresh_or_refused _ (database true (text "token")) (
          if any (λ (u : AuthUser). nat_eq u.id new.user_id) db.auth_users.rows
          then none
          else some (database false (text "user_id"))))
        h.tokens;
}

mark_used-IsWellFormed :
    (code : String) (db : AuthDb)
    → IsWellFormed db
    → IsWellFormed (AuthorizationCodeRepository.mark_used code db).1
unfolding AuthorizationCodeRepository.mark_used
mark_used-IsWellFormed code db h = record {
  users = h.users;
  clients = h.clients;
  codes =
      update_rows-IsKeyed _ _ (λ c. c.code == code) (λ c. record c { used = true })
        db.authorization_codes (λ a. refl) (λ a. refl) h.codes;
  tokens = h.tokens;
}

delete_by_token-IsWellFormed :
    (token : String) (db : AuthDb)
    → IsWellFormed db
    → IsWellFormed (RefreshTokenRepository.delete_by_token token db).1
unfolding RefreshTokenRepository.delete_by_token
delete_by_token-IsWellFormed token db h = record {
  users = h.users;
  clients = h.clients;
  codes = h.codes;
  tokens = delete_rows-IsKeyed _ _ _ db.refresh_tokens h.tokens;
}

delete_by_user_id-IsWellFormed :
    (uid : ℕ) (db : AuthDb)
    → IsWellFormed db
    → IsWellFormed (RefreshTokenRepository.delete_by_user_id uid db).1
unfolding RefreshTokenRepository.delete_by_user_id
delete_by_user_id-IsWellFormed uid db h = record {
  users = h.users;
  clients = h.clients;
  codes = h.codes;
  tokens = delete_rows-IsKeyed _ _ _ db.refresh_tokens h.tokens;
}

write_keeps :
    {A : Type 0} (fault : Fault) (f : AuthDb → Result SqlxError A × AuthDb) (w : World)
    → ((db : AuthDb) → IsWellFormed db → IsWellFormed (f db).1)
    → IsWellFormed w.write
    → IsWellFormed (write_with fault f w).1.write
unfolding statement
write_keeps fine f w keeps h = keeps w.write h
write_keeps (refused e) f w keeps h = h
write_keeps (reply_lost e) f w keeps h = keeps w.write h

exec-IsWellFormed :
    (env : Env) (n : ℕ) (o : Op) (w : World)
    → IsWellFormed w.write
    → IsWellFormed (exec env n o w).1.write
unfolding exec
exec-IsWellFormed env n (insert_user new) w h =
    write_keeps (env.fault n) _ w (create_user-IsWellFormed env.refused (env.clock n) new) h
exec-IsWellFormed env n (insert_client new) w h =
    write_keeps (env.fault n) _ w (create_client-IsWellFormed env.refused (env.clock n) new) h
exec-IsWellFormed env n (insert_code new) w h =
    write_keeps (env.fault n) _ w (create_code-IsWellFormed env.refused (env.clock n) new) h
exec-IsWellFormed env n (insert_token new) w h =
    write_keeps (env.fault n) _ w (create_token-IsWellFormed env.refused (env.clock n) new) h
exec-IsWellFormed env n (update_code_used code) w h =
    write_keeps (env.fault n) _ w (mark_used-IsWellFormed code) h
exec-IsWellFormed env n (delete_token token) w h =
    write_keeps (env.fault n) _ w (delete_by_token-IsWellFormed token) h
exec-IsWellFormed env n (delete_tokens_of_user uid) w h =
    write_keeps (env.fault n) _ w (delete_by_user_id-IsWellFormed uid) h
exec-IsWellFormed env n (redis_set_ex key text ttl) w h = elim (Bool-cases (env.redis_up n)) [
  | inl up ↦ rw up h
  | inr down ↦ rw down h
]
exec-IsWellFormed env n (redis_del key) w h = elim (Bool-cases (env.redis_up n)) [
  | inl up ↦ rw up h
  | inr down ↦ rw down h
]
exec-IsWellFormed env n (kafka_send topic key payload) w h =
    elim (Option-cases (env.kafka_error n)) [
      | inl sent ↦ rw (exec, sent) h
      | inr (e, failed) ↦ rw (exec, failed) h
    ]
exec-IsWellFormed env n _ w h = h

-- Whatever handler runs, with whatever faults, the master stays well-formed (in each table the ids
-- are below the counter, and no e-mail, client identifier, code or token occurs twice), provided the
-- other requests that run meanwhile keep it so.
pub run-IsWellFormed :
    {A : Type 0} (env : Env)
    → ((n : ℕ) (w : World) → IsWellFormed w.write → IsWellFormed (env.before n w).write)
    → (handler : Action A) (n : ℕ) (w : World) → IsWellFormed w.write
    → IsWellFormed (run (machine env) n handler w).2.write
run-IsWellFormed env others handler n w h =
    run-keeps (machine env) (λ s. IsWellFormed s.write) others (exec-IsWellFormed env) handler n w h
