-- ===== src/User/Transparency.antt =====
-- The user service against the repository alone: requests, answers, and the calm environment in which
-- they are compared.
pub mod Reads
pub mod Writes
pub mod Sequences
use rust_microservices_archi.Prelude.{
  ℕ, suc, ◌+◌, ◌≡◌, refl, sym, ap, subst, ◌∙◌, ◌⊎◌, inl, inr, String, Bool, true, false, not,
  Option, none, some, List, [], ◌∷◌, ◌++◌, Result, ok, err, find, keep, Bool-cases, Option-cases,
  eq_refl, ◌==◌, eq_iff, nat_eq, length, if◌then◌else◌, arith,
}
use rust_microservices_archi.Json
use rust_microservices_archi.Effects.{run, ◌>>=◌, ◌>>◌, map_err, pure, fail_if}
use rust_microservices_archi.Database.{
  SqlxError, Table, row_not_found, Fault, fine, statement, select_one, insert_row, update_rows,
  delete_rows,
}
use rust_microservices_archi.Database.ById.{
  by, AllBelow, AllBelow-weaken, find-fresh, find-insert, find-delete, find-update, AllBelow-insert,
  AllBelow-delete, AllBelow-update, update-missing, delete-missing, find-update-none,
}
use rust_microservices_archi.Shared.Errors.{ServiceError, not_found, from_sqlx}
use rust_microservices_archi.User.Models.{User, NewUser, UpdateUser, UserDb}
use rust_microservices_archi.User.UserRepository
use rust_microservices_archi.User.Calls.{
  World, Env, Action, CacheEntry, Op, Reply, exec, machine, redis_set_ex, lookup_text, without,
}
use rust_microservices_archi.User.Cache.{
  External, user_to_json, user_from_json, users_to_json, users_from_json, user_cache_key,
  users_list_cache_key, default_cache_ttl, get_cached, set_cached, invalidate,
}
use rust_microservices_archi.User.UserService.{
  refresh_cache, or_load_users, or_load_user, create_user, get_user_by_id, list_users, update_user,
  delete_user,
}
use rust_microservices_archi.User.Coherence.{
  IsFaithful, IsCoherent, cached_user, cached_users, row_of,
}
use rust_microservices_archi.User.Coherence.Changes.{
  IsKept, IsCoherent-put_list, IsCoherent-put_user, IsCoherent-changed, IsCoherent-deleted,
}

-- One server behind both pools, no failures, and nobody else.
abbrev pub calm : Env
calm = record {
  redis_up = λ n. true;
  fault = λ n. fine;
  commit = λ n. ok tt;
  before = λ n w. record w { read = w.write };
}

pub data Request : Type 0 where
  get : ℕ → Request
  list : Request
  create : NewUser → Request
  update : ℕ → UpdateUser → Request
  delete : ℕ → Request

pub data Answer : Type 0 where
  one : Result ServiceError User → Answer
  many : Result ServiceError (List User) → Answer
  done : Result ServiceError Unit → Answer

abbrev pub described : {A : Type 0} → Result SqlxError A → Result ServiceError A
described (ok a) = ok a
described (err e) = err (from_sqlx e)

abbrev pub counted : Result SqlxError ℕ → Result ServiceError Unit
counted (ok n) = if nat_eq n 0 then err not_found else ok tt
counted (err e) = err (from_sqlx e)

-- What a selection by key answers.
abbrev pub selected : Option User → Result SqlxError User
selected none = err row_not_found
selected (some u) = ok u

-- The answer and the table after it, from the repository alone.
abbrev pub direct : Request → UserDb → Answer × UserDb
direct (get i) db = (one (described (UserRepository.find_by_id i db)), db)
direct list db = (many (described (UserRepository.find_all db)), db)
direct (create new) db = let (r, db') = UserRepository.create new db in (one (described r), db')
direct (update i c) db = let (r, db') = UserRepository.update i c db in (one (described r), db')
direct (delete i) db = let (r, db') = UserRepository.delete i db in (done (counted r), db')

abbrev pub synced : World → World
synced w = record w { read = w.write }

abbrev pub as_many : Result ServiceError (List User) × ℕ × World → Answer × World
as_many r = (many r.0, r.2)

abbrev pub as_one : Result ServiceError User × ℕ × World → Answer × World
as_one r = (one r.0, r.2)

abbrev pub as_done : Result ServiceError Unit × ℕ × World → Answer × World
as_done r = (done r.0, r.2)

module _ (ext : External) where
  -- The answer of the service and the world after it.
  abbrev pub serve : Request → World → Answer × World
  serve (get i) w = let (r, _, w') = run (machine calm) 0 (get_user_by_id ext i) w in (one r, w')
  serve list w = let (r, _, w') = run (machine calm) 0 (list_users ext) w in (many r, w')
  serve (create new) w =
      let (r, _, w') = run (machine calm) 0 (create_user ext new) w in (one r, w')
  serve (update i c) w =
      let (r, _, w') = run (machine calm) 0 (update_user ext i c) w in (one r, w')
  serve (delete i) w = let (r, _, w') = run (machine calm) 0 (delete_user ext i) w in (done r, w')

  -- An answer with the world after it, against the answer and the table of the repository.
  pub record Agrees (r : Answer × World) (d : Answer × UserDb) : Type 0 where
    pub answer : r.0 ≡ d.0
    pub table : r.1.write ≡ d.1
    pub coherent : IsCoherent ext r.1.write r.1.redis
