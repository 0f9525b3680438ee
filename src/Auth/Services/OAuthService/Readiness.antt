-- ===== src/Auth/Services/OAuthService/Readiness.antt =====
-- When the servers can serve the exchange of an authorization code, and what they then reply.
use mathlib.Core.Option.{some-injective}
use rust_microservices_archi.Prelude.{
  ◌≡◌, refl, sym, ap, subst, ◌∙◌, ℕ, String, Bool, true, false, ◌||◌, Option, none, some, List, [],
  ◌∷◌, Result, ok, err, inl, inr, Bool-cases, nat_eq, any, find, ◌==◌, if◌then◌else◌, arith,
}
use rust_microservices_archi.Database.{
  SqlxError, row_not_found, Table, select_one, insert_row, fine, Fault, refused, reply_lost,
  statement,
}
use rust_microservices_archi.Auth.Models.{
  OAuthClient, AuthorizationCode, AuthUser, RefreshToken, NewRefreshToken,
}
use rust_microservices_archi.Auth.Tables.{AuthDb}
use rust_microservices_archi.Auth.Calls.{World, Env, CacheEntry}
use rust_microservices_archi.Auth.Repositories.AuthUserRepository
use rust_microservices_archi.Auth.Repositories.OAuthClientRepository
use rust_microservices_archi.Auth.Repositories.AuthorizationCodeRepository
use rust_microservices_archi.Auth.Repositories.RefreshTokenRepository

-- The rows that a request is about.
pub record Grant : Type 0 where
  pub client : OAuthClient
  pub code : AuthorizationCode
  pub user : AuthUser

module _ (env : Env) (g : Grant) where
  -- A server has the user of the code, and no refresh token that is about to be drawn.
  pub record IsServing (db : AuthDb) : Type 0 where
    pub has_user : find (λ u. nat_eq u.id g.code.user_id) db.auth_users.rows ≡ some g.user
    pub is_new : (n : ℕ) → any (λ t. t.token == env.uuid n) db.refresh_tokens.rows ≡ false

  -- It also has the client and the code, as yet unused.
  pub record IsReady (db : AuthDb) : Type 0 where
    pub serving : IsServing db
    pub has_client :
        find (λ c. c.client_id == g.client.client_id) db.oauth_clients.rows ≡ some g.client
    pub has_code : find (λ c. c.code == g.code.code) db.authorization_codes.rows ≡ some g.code

  -- Both servers work, and the other requests leave these rows alone.
  pub record IsUndisturbed : Type 0 where
    pub no_fault : (n : ℕ) → env.fault n ≡ fine
    pub ready :
        (n : ℕ) (w : World)
        → IsReady w.write × IsReady w.read
        → IsReady (env.before n w).write × IsReady (env.before n w).read
    pub serving :
        (n : ℕ) (w : World)
        → IsServing w.write × IsServing w.read
        → IsServing (env.before n w).write × IsServing (env.before n w).read

found-any :
    {A : Type 0} (p : A → Bool) (rows : List A) (row : A)
    → find p rows ≡ some row
    → (p row ≡ true) × (any p rows ≡ true)
found-any p [] row e = cc
found-any p (x ∷ rows) row e = elim (Bool-cases (p x)) [
  | inl passes ↦
      let same =
        some-injective _ _ (ap (λ b. if b then some x else find p rows) (sym passes) ∙ e) in
      (subst (λ y. p y ≡ true) same passes, ap (λ b. b || any p rows) passes)
  | inr fails ↦
      let (q, there) =
        found-any p rows row (ap (λ b. if b then some x else find p rows) (sym fails) ∙ e) in
      (q, ap (λ b. b || any p rows) fails ∙ there)
]

same_number : (a b : ℕ) → nat_eq a b ≡ true → a ≡ b
same_number a b h = ground arith

selected :
    {A : Type 0} (p : A → Bool) (t : Table A) (row : A)
    → find p t.rows ≡ some row
    → select_one p t ≡ ok row
unfolding select_one
selected p t row e = ap (λ o. elim o [ none ↦ err row_not_found | some r ↦ ok r ]) e

inserted_row :
    {A : Type 0} (o : Option SqlxError) (row : ℕ → A) (t : Table A)
    → o ≡ none
    → (insert_row o row t).0 ≡ ok (row t.next_id)
unfolding insert_row
inserted_row o row t e = ap (λ x. (insert_row x row t).0) e

not_refused :
    (taken owned : Bool) (e d : SqlxError)
    → taken ≡ false
    → owned ≡ true
    → (if taken then some e else if owned then none else some d) ≡ none
not_refused taken owned e d h k = rw h (rw k refl)

module _ (env : Env) (g : Grant) (calm : IsUndisturbed env g) where
  abbrev pub AreReady : World → Type 0
  AreReady w = IsReady env g w.write × IsReady env g w.read

  abbrev pub AreServing : World → Type 0
  AreServing w = IsServing env g w.write × IsServing env g w.read

  read_reply :
      {A : Type 0} (n : ℕ) (f : AuthDb → Result SqlxError A) (db : AuthDb)
      → (statement (env.fault n) (λ d. (f d, d)) db).0 ≡ f db
  unfolding statement
  read_reply n f db = ap (λ x. (statement x (λ d. (f d, d)) db).0) (calm.no_fault n)

  pub write_reply :
      {A : Type 0} (n : ℕ) (f : AuthDb → Result SqlxError A × AuthDb) (db : AuthDb)
      → (statement (env.fault n) f db).0 ≡ (f db).0
  unfolding statement
  write_reply n f db = ap (λ x. (statement x f db).0) (calm.no_fault n)

  pub client-reply :
      (n : ℕ) (cid : String) (db : AuthDb)
      → IsReady env g db
      → g.client.client_id ≡ cid
      → (statement (env.fault n) (λ d. (OAuthClientRepository.find_by_client_id cid d, d)) db).0
        ≡ ok g.client
  unfolding OAuthClientRepository.find_by_client_id
  client-reply n cid db h same =
      read_reply n (OAuthClientRepository.find_by_client_id cid) db
      ∙ selected (λ c. c.client_id == cid) db.oauth_clients g.client
          (subst (λ x. find (λ c. c.client_id == x) db.oauth_clients.rows ≡ some g.client) same
            h.has_client)

  pub code-reply :
      (n : ℕ) (db : AuthDb)
      → IsReady env g db
      → (statement
          (env.fault n)
          (λ d. (AuthorizationCodeRepository.find_by_code g.code.code d, d))
          db).0
        ≡ ok g.code
  unfolding AuthorizationCodeRepository.find_by_code
  code-reply n db h =
      read_reply n (AuthorizationCodeRepository.find_by_code g.code.code) db
      ∙ selected (λ c. c.code == g.code.code) db.authorization_codes g.code h.has_code

  pub user-reply :
      (n : ℕ) (db : AuthDb)
      → IsServing env g db
      → (statement (env.fault n) (λ d. (AuthUserRepository.find_by_id g.code.user_id d, d)) db).0
        ≡ ok g.user
  unfolding AuthUserRepository.find_by_id
  user-reply n db h =
      read_reply n (AuthUserRepository.find_by_id g.code.user_id) db
      ∙ selected (λ u. nat_eq u.id g.code.user_id) db.auth_users g.user h.has_user

  -- Caching the client leaves the servers alone.
  pub cached-AreReady :
      (up : Bool) (w : World) (redis : List CacheEntry)
      → AreReady w
      → AreReady (if up then record w { redis = redis } else w)
  cached-AreReady true w redis h = h
  cached-AreReady false w redis h = h

  -- Marking the code leaves the users and the tokens alone.
  pub marked-IsServing :
      (f : Fault) (c : String) (db : AuthDb)
      → IsServing env g db
      → IsServing env g (statement f (AuthorizationCodeRepository.mark_used c) db).1
  unfolding statement AuthorizationCodeRepository.mark_used
  marked-IsServing fine c db h = record { has_user = h.has_user; is_new = h.is_new }
  marked-IsServing (refused e) c db h = h
  marked-IsServing (reply_lost e) c db h = record { has_user = h.has_user; is_new = h.is_new }

  pub stored-reply :
      (n k : ℕ) (new : NewRefreshToken) (db : AuthDb)
      → IsServing env g db
      → new.user_id ≡ g.user.id
      → new.token ≡ env.uuid k
      → (row : RefreshToken) × ((statement
            (env.fault n)
            (RefreshTokenRepository.create env.refused (env.clock n) new)
            db).0
          ≡ ok row)
  unfolding RefreshTokenRepository.create
  stored-reply n k new db h same_user drawn =
      let (passes, there) =
        found-any (λ u. nat_eq u.id g.code.user_id) db.auth_users.rows g.user h.has_user in
      (
        _,
        write_reply n (RefreshTokenRepository.create env.refused (env.clock n) new) db
            ∙ inserted_row (RefreshTokenRepository.refusal env.refused new db) _ db.refresh_tokens (
                not_refused (any (λ t. t.token == new.token) db.refresh_tokens.rows)
                  (any (λ u. nat_eq u.id new.user_id) db.auth_users.rows) _ _
                  (subst (λ x. any (λ t. t.token == x) db.refresh_tokens.rows ≡ false) (sym drawn)
                    (h.is_new k))
                  (subst (λ x. any (λ u. nat_eq u.id x) db.auth_users.rows ≡ true)
                    (sym (same_user ∙ same_number _ _ passes)) there)),
      )
