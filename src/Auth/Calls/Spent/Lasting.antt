-- ===== src/Auth/Calls/Spent/Lasting.antt =====
-- The calls of auth-service on issued and used authorization codes.
use rust_microservices_archi.Prelude.{
  ℕ, ◌≡◌, refl, inl, inr, ap, ◌∙◌, String, true, Option, none, some, Result, ok, find, ◌==◌,
  Option-cases, Bool-cases, arith,
}
use rust_microservices_archi.Database.{SqlxError, Fault, fine, refused, reply_lost, statement}
use rust_microservices_archi.Auth.Models.{AuthorizationCode, NewAuthorizationCode, Time}
use rust_microservices_archi.Auth.Tables.{AuthDb}
use rust_microservices_archi.Auth.Repositories.AuthUserRepository
use rust_microservices_archi.Auth.Repositories.OAuthClientRepository
use rust_microservices_archi.Auth.Repositories.AuthorizationCodeRepository
use rust_microservices_archi.Auth.Repositories.AuthorizationCodeRepository.{refusal}
use rust_microservices_archi.Auth.Repositories.RefreshTokenRepository
use rust_microservices_archi.Auth.Calls.{
  Op, World, Env, exec, write_with, read_with, insert_user, insert_client, insert_code,
  update_code_used, insert_token, delete_token, delete_tokens_of_user, select_code, redis_set_ex,
  redis_del, kafka_send,
}
use rust_microservices_archi.Auth.Calls.Spent.{
  has_code, all_used, HasCode, IsSpent, has_code-append, has_code-mark, all_used-mark,
  all_used-marked, found-used, create-IsSpent,
}

-- A property of the codes that holds however codes are created and marked.
pub record IsLasting (P : AuthDb → Type 0) : Type 0 where
  pub same : (db db' : AuthDb) → db'.authorization_codes ≡ db.authorization_codes → P db → P db'
  pub created :
      (text : String → String) (now : Time) (new : NewAuthorizationCode) (db : AuthDb)
      → P db
      → P (AuthorizationCodeRepository.create text now new db).1
  pub marked : (d : String) (db : AuthDb) → P db → P (AuthorizationCodeRepository.mark_used d db).1

module _ (P : AuthDb → Type 0) (lasting : IsLasting P) where
  write_keeps :
      {A : Type 0} (fault : Fault) (f : AuthDb → Result SqlxError A × AuthDb) (w : World)
      → ((db : AuthDb) → P db → P (f db).1)
      → P w.write
      → P (write_with fault f w).1.write
  unfolding statement
  write_keeps fine f w keeps h = keeps w.write h
  write_keeps (refused e) f w keeps h = h
  write_keeps (reply_lost e) f w keeps h = keeps w.write h

  -- A statement on another table.
  other_keeps :
      {A : Type 0} (fault : Fault) (f : AuthDb → Result SqlxError A × AuthDb) (w : World)
      → ((db : AuthDb) → (f db).1.authorization_codes ≡ db.authorization_codes)
      → P w.write
      → P (write_with fault f w).1.write
  other_keeps fault f w others h =
      write_keeps fault f w (λ db. lasting.same db (f db).1 (others db)) h

  -- No call takes it from the master.
  pub exec_keeps : (env : Env) (n : ℕ) (o : Op) (w : World) → P w.write → P (exec env n o w).1.write
  unfolding exec AuthUserRepository.create OAuthClientRepository.create
      RefreshTokenRepository.create RefreshTokenRepository.delete_by_token
      RefreshTokenRepository.delete_by_user_id
  exec_keeps env n (insert_user new) w h = other_keeps (env.fault n) _ w (λ db. refl) h
  exec_keeps env n (insert_client new) w h = other_keeps (env.fault n) _ w (λ db. refl) h
  exec_keeps env n (insert_token new) w h = other_keeps (env.fault n) _ w (λ db. refl) h
  exec_keeps env n (delete_token t) w h = other_keeps (env.fault n) _ w (λ db. refl) h
  exec_keeps env n (delete_tokens_of_user id) w h = other_keeps (env.fault n) _ w (λ db. refl) h
  exec_keeps env n (insert_code new) w h =
      write_keeps (env.fault n) _ w (lasting.created env.refused (env.clock n) new) h
  exec_keeps env n (update_code_used d) w h = write_keeps (env.fault n) _ w (lasting.marked d) h
  exec_keeps env n (redis_set_ex key text ttl) w h = elim (Bool-cases (env.redis_up n)) [
    | inl up ↦ rw up h
    | inr down ↦ rw down h
  ]
  exec_keeps env n (redis_del key) w h = elim (Bool-cases (env.redis_up n)) [
    | inl up ↦ rw up h
    | inr down ↦ rw down h
  ]
  exec_keeps env n (kafka_send topic key payload) w h = elim (Option-cases (env.kafka_error n)) [
    | inl sent ↦ rw (exec, sent) h
    | inr (e, failed) ↦ rw (exec, failed) h
  ]
  exec_keeps env n _ w h = h

create-HasCode :
    (c : String) (text : String → String) (now : Time) (new : NewAuthorizationCode) (db : AuthDb)
    (o : Option SqlxError)
    → refusal text new db ≡ o
    → HasCode c db
    → HasCode c (AuthorizationCodeRepository.create text now new db).1
unfolding AuthorizationCodeRepository.create
create-HasCode c text now new db (some e) rejected h = rw rejected h
create-HasCode c text now new db none accepted h =
    rw accepted (has_code-append c db.authorization_codes.rows _ h)

HasCode-IsLasting : (c : String) → IsLasting (HasCode c)
unfolding AuthorizationCodeRepository.mark_used
HasCode-IsLasting c = record {
  same = λ db db' e h. ap (λ t. has_code c t.rows) e ∙ h;
  created = λ text now new db. create-HasCode c text now new db _ refl;
  marked = λ d db. has_code-mark c d db.authorization_codes.rows;
}

IsSpent-IsLasting : (c : String) → IsLasting (IsSpent c)
unfolding AuthorizationCodeRepository.mark_used
IsSpent-IsLasting c = record {
  same = λ db db' e h. (ap (λ t. has_code c t.rows) e ∙ h.0, ap (λ t. all_used c t.rows) e ∙ h.1);
  created = λ text now new db. create-IsSpent c text now new db _ refl;
  marked = λ d db h. (
    has_code-mark c d db.authorization_codes.rows h.0,
    all_used-mark c d db.authorization_codes.rows h.1,
  );
}

-- An issued code, and a spent one, stay so on the master.
pub exec-HasCode :
    (c : String) (env : Env) (n : ℕ) (o : Op) (w : World)
    → HasCode c w.write
    → HasCode c (exec env n o w).1.write
exec-HasCode c = exec_keeps (HasCode c) (HasCode-IsLasting c)

pub exec-IsSpent :
    (c : String) (env : Env) (n : ℕ) (o : Op) (w : World)
    → IsSpent c w.write
    → IsSpent c (exec env n o w).1.write
exec-IsSpent c = exec_keeps (IsSpent c) (IsSpent-IsLasting c)

-- A marking that succeeds spends an issued code.
marked_under :
    (c : String) (fault : Fault) (w : World) (affected : ℕ)
    → HasCode c w.write
    → ok affected ≡ (write_with fault (AuthorizationCodeRepository.mark_used c) w).0
    → IsSpent c (write_with fault (AuthorizationCodeRepository.mark_used c) w).1.write
unfolding statement AuthorizationCodeRepository.mark_used
marked_under c fine w affected h e = (
  has_code-mark c c w.write.authorization_codes.rows h,
  all_used-marked c w.write.authorization_codes.rows,
)
marked_under c (refused d) w affected h e = cc
marked_under c (reply_lost d) w affected h e = cc

pub exec_marked-IsSpent :
    (c : String) (env : Env) (n : ℕ) (w : World) (affected : ℕ)
    → HasCode c w.write
    → ok affected ≡ (exec env n (update_code_used c) w).0
    → IsSpent c (exec env n (update_code_used c) w).1.write
unfolding exec
exec_marked-IsSpent c env n w affected h e = marked_under c (env.fault n) w affected h e

-- A row that a spent code selects is used.
selected_under :
    (c : String) (fault : Fault) (w : World) (row : AuthorizationCode)
    (o : Option AuthorizationCode)
    → IsSpent c w.read
    → find (λ r. r.code == c) w.read.authorization_codes.rows ≡ o
    → ok row ≡ (read_with fault (AuthorizationCodeRepository.find_by_code c) w).0
    → row.used ≡ true
unfolding statement AuthorizationCodeRepository.find_by_code
selected_under c fine w row none h missing e = ground (arith, e, missing)
selected_under c fine w row (some r) h found e =
    let is_row : row ≡ r = ground (arith, e, found) in
    ap (λ (x : AuthorizationCode). x.used) is_row
    ∙ found-used c w.read.authorization_codes.rows r h.1 found
selected_under c (refused d) w row o h found e = cc
selected_under c (reply_lost d) w row o h found e = cc

pub exec_selected-used :
    (c : String) (env : Env) (n : ℕ) (w : World) (row : AuthorizationCode)
    → IsSpent c w.read
    → ok row ≡ (exec env n (select_code c) w).0
    → row.used ≡ true
unfolding exec
exec_selected-used c env n w row h e = selected_under c (env.fault n) w row _ h refl e
