-- ===== src/Auth/Calls/Spent.antt =====
-- Issued and used authorization codes in the table of auth-service.
pub mod Lasting
use mathlib.Core.Option.{some-injective}
use rust_microservices_archi.Prelude.{
  ℕ, ◌≡◌, refl, ◌⊎◌, inl, inr, ap, ◌∙◌, sym, subst, String, Bool, true, false, not, ◌||◌, Option,
  none, some, List, [], ◌∷◌, ◌++◌, Result, ok, err, any, all, find, ◌==◌, eq_iff, Option-cases,
  Bool-cases, if◌then◌else◌, arith,
}
use rust_microservices_archi.Database.{
  SqlxError, Fault, fine, refused, reply_lost, statement, insert_row, select_one, update_rows,
}
use rust_microservices_archi.Auth.Models.{AuthorizationCode, NewAuthorizationCode, Time}
use rust_microservices_archi.Auth.Tables.{AuthDb}
use rust_microservices_archi.Auth.Repositories.AuthUserRepository
use rust_microservices_archi.Auth.Repositories.OAuthClientRepository
use rust_microservices_archi.Auth.Repositories.AuthorizationCodeRepository
use rust_microservices_archi.Auth.Repositories.AuthorizationCodeRepository.{refusal}
use rust_microservices_archi.Auth.Repositories.RefreshTokenRepository
use rust_microservices_archi.Auth.Calls.{
  Op, World, Env, exec, write_with, read_with, insert_user, insert_client, insert_code,
  update_code_used, insert_token, delete_token, delete_tokens_of_user, select_code, redis_set_ex,
  redis_del, kafka_send,
}

-- The rows have one with this code, and all of those are used.
abbrev has_code : String → List AuthorizationCode → Bool
has_code c rows = any (λ r. r.code == c) rows

abbrev all_used : String → List AuthorizationCode → Bool
all_used c rows = all (λ r. not (r.code == c) || r.used) rows

abbrev pub HasCode : String → AuthDb → Type 0
HasCode c db = has_code c db.authorization_codes.rows ≡ true

abbrev pub IsSpent : String → AuthDb → Type 0
IsSpent c db = HasCode c db × (all_used c db.authorization_codes.rows ≡ true)

has_code-append :
    (c : String) (rows : List AuthorizationCode) (r : AuthorizationCode)
    → has_code c rows ≡ true
    → has_code c (rows ++ r ∷ []) ≡ true
has_code-append c [] r h = cc
has_code-append c (x ∷ rows) r h = ground (arith, has_code-append c rows r)

all_used-append :
    (c : String) (rows : List AuthorizationCode) (r : AuthorizationCode)
    → all_used c rows ≡ true
    → (r.code == c) ≡ false
    → all_used c (rows ++ r ∷ []) ≡ true
all_used-append c [] r h other = ground arith
all_used-append c (x ∷ rows) r h other = ground (arith, all_used-append c rows r)

has_code-mark :
    (c d : String) (rows : List AuthorizationCode)
    → has_code c rows ≡ true
    → has_code c (update_rows (λ r. r.code == d) (λ r. record r { used = true }) rows) ≡ true
has_code-mark c d [] h = cc
has_code-mark c d (x ∷ rows) h = ground (arith, has_code-mark c d rows)

all_used-mark :
    (c d : String) (rows : List AuthorizationCode)
    → all_used c rows ≡ true
    → all_used c (update_rows (λ r. r.code == d) (λ r. record r { used = true }) rows) ≡ true
all_used-mark c d [] h = refl
all_used-mark c d (x ∷ rows) h = ground (arith, all_used-mark c d rows)

all_used-marked :
    (c : String) (rows : List AuthorizationCode)
    → all_used c (update_rows (λ r. r.code == c) (λ r. record r { used = true }) rows) ≡ true
all_used-marked c [] = refl
all_used-marked c (x ∷ rows) = ground (arith, all_used-marked c rows)

-- A row that is found by a spent code is used.
found-used :
    (c : String) (rows : List AuthorizationCode) (r : AuthorizationCode)
    → all_used c rows ≡ true
    → find (λ x. x.code == c) rows ≡ some r
    → r.used ≡ true
found-used c [] r h found = cc
found-used c (x ∷ rows) r h found = elim (Bool-cases (x.code == c)) [
  | inl same ↦
      let is_r : x ≡ r = some-injective _ _ (ground arith) in
      let used : x.used ≡ true = ground arith in
      sym (ap (λ (y : AuthorizationCode). y.used) is_r) ∙ used
  | inr other ↦ found-used c rows r (ground arith) (ground arith)
]

found-has_code :
    (c : String) (rows : List AuthorizationCode) (r : AuthorizationCode)
    → find (λ x. x.code == c) rows ≡ some r
    → has_code c rows ≡ true
found-has_code c [] r found = cc
found-has_code c (x ∷ rows) r found = ground (arith, found-has_code c rows r)

other_code :
    (c : String) (text : String → String) (new : NewAuthorizationCode) (db : AuthDb)
    → refusal text new db ≡ none
    → has_code c db.authorization_codes.rows ≡ true
    → (new.code == c) ≡ false
other_code c text new db accepted h = elim (Bool-cases (new.code == c)) [
  | inl same ↦
      let taken : has_code new.code db.authorization_codes.rows ≡ true =
        subst (λ k. has_code k db.authorization_codes.rows ≡ true)
          (sym ((eq_iff new.code c).0 same)) h in
      ground (arith, taken)
  | inr other ↦ other
]

create-IsSpent :
    (c : String) (text : String → String) (now : Time) (new : NewAuthorizationCode) (db : AuthDb)
    (o : Option SqlxError)
    → refusal text new db ≡ o
    → IsSpent c db
    → IsSpent c (AuthorizationCodeRepository.create text now new db).1
unfolding AuthorizationCodeRepository.create
create-IsSpent c text now new db (some e) rejected h = rw rejected h
create-IsSpent c text now new db none accepted h = rw accepted (
  has_code-append c db.authorization_codes.rows _ h.0,
  all_used-append c db.authorization_codes.rows _ h.1 (other_code c text new db accepted h.0),
)
