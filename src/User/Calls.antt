-- ===== src/User/Calls.antt =====
-- The effects of user-service, and the machine that answers them: the master behind `pools.write`,
-- a replica behind `pools.read`, Redis, and the Kafka consumer's commits.
use rust_microservices_archi.Prelude.{
  ℕ, String, Bool, Option, none, some, List, ◌∷◌, Result, keep, find, not, ◌==◌, if◌then◌else◌,
}
use rust_microservices_archi.Database.{SqlxError, Fault, statement}
use rust_microservices_archi.Effects.{Prog, Machine}
use rust_microservices_archi.Shared.Errors.{ServiceError}
use rust_microservices_archi.User.Models.{User, NewUser, UpdateUser, UserDb}
use rust_microservices_archi.User.UserRepository

pub data Op : Type 0 where
  redis_get : (key : String) → Op
  redis_set_ex : (key text : String) → (ttl : ℕ) → Op
  redis_del : (key : String) → Op
  insert_user : NewUser → Op
  select_user : ℕ → Op
  select_users : Op
  update_user : ℕ → UpdateUser → Op
  delete_user : ℕ → Op
  commit_message : Op
  commit_state : Op

abbrev pub Reply : Op → Type 0
Reply (redis_get key) = Option String
Reply (redis_set_ex key text ttl) = Unit
Reply (redis_del key) = Unit
Reply (insert_user new) = Result SqlxError User
Reply (select_user id) = Result SqlxError User
Reply select_users = Result SqlxError (List User)
Reply (update_user id changeset) = Result SqlxError User
Reply (delete_user id) = Result SqlxError ℕ
Reply commit_message = Result String Unit
Reply commit_state = Result String Unit

-- A handler of user-service.
abbrev pub Action : Type 0 → Type 0
Action A = Prog Op Reply (Result ServiceError A)

pub record CacheEntry : Type 0 where
  pub key : String
  pub text : String
  pub ttl : ℕ

pub record World : Type 0 where
  pub write : UserDb
  pub read : UserDb
  pub redis : List CacheEntry

-- What the environment answers to call number n.
pub record Env : Type 0 where
  pub redis_up : ℕ → Bool
  pub fault : ℕ → Fault
  pub commit : ℕ → Result String Unit
  -- what others do to the world before the call
  pub before : ℕ → World → World

abbrev write_with :
    {A : Type 0}
    → Fault
    → (UserDb → Result SqlxError A × UserDb)
    → World
    → Result SqlxError A × World
write_with fault f w = let (r, db) = statement fault f w.write in (r, record w { write = db })

abbrev read_with :
    {A : Type 0} → Fault → (UserDb → Result SqlxError A) → World → Result SqlxError A × World
read_with fault f w = ((statement fault (λ db. (f db, db)) w.read).0, w)

abbrev pub lookup_text : String → List CacheEntry → Option String
lookup_text key cache = elim (find (λ e. e.key == key) cache) [ none ↦ none | some e ↦ some e.text ]

abbrev pub without : String → List CacheEntry → List CacheEntry
without key = keep (λ e. not (e.key == key))

module _ (env : Env) where
  unfoldable pub exec : ℕ → (o : Op) → World → Reply o × World
  unfolding statement
  exec n (redis_get key) w = (if env.redis_up n then lookup_text key w.redis else none, w)
  exec n (redis_set_ex key text ttl) w =
      let entry : CacheEntry = record { key = key; text = text; ttl = ttl } in
      (tt, if env.redis_up n then record w { redis = entry ∷ without key w.redis } else w)
  exec n (redis_del key) w =
      (tt, if env.redis_up n then record w { redis = without key w.redis } else w)
  exec n (insert_user new) w = write_with (env.fault n) (UserRepository.create new) w
  exec n (select_user id) w = read_with (env.fault n) (UserRepository.find_by_id id) w
  exec n select_users w = read_with (env.fault n) UserRepository.find_all w
  exec n (update_user id changeset) w =
      write_with (env.fault n) (UserRepository.update id changeset) w
  exec n (delete_user id) w = write_with (env.fault n) (UserRepository.delete id) w
  exec n commit_message w = (env.commit n, w)
  exec n commit_state w = (env.commit n, w)

  abbrev pub machine : Machine Op Reply World
  machine = record { exec = exec; before = env.before }
