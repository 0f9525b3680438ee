-- ===== src/User/Coherence.antt =====
-- The cache of user-service against the database: what the keys and texts in Redis mean.
pub mod Changes
use text.Mathlib.TextLemmas.{append_cancel_left}
use text.Mathlib.Text.{starts_with}
use text.Mathlib.TextPositions.{starts_with-append}
use rust_microservices_archi.Prelude.{
  ℕ, suc, ◌≡◌, refl, sym, ap, subst, ◌≢◌, ◌⊎◌, inl, inr, String, ◌<>◌, Bool, true, false, not,
  Option, none, some, List, [], ◌∷◌, find, keep, Bool-cases, Option-cases, eq_refl, ◌==◌, eq_iff,
  nat_eq, if◌then◌else◌, arith,
}
use rust_microservices_archi.Json
use rust_microservices_archi.Json.{Json, Items}
use rust_microservices_archi.Database.ById.{by, AllBelow}
use rust_microservices_archi.User.Models.{User, UserDb}
use rust_microservices_archi.User.Calls.{World, CacheEntry, lookup_text, without}
use rust_microservices_archi.User.Cache.{
  External, user_to_json, user_from_json, users_to_items, users_from_items, users_to_json,
  users_from_json, user_cache_key, users_list_cache_key,
}

-- What a lookup sees after a key is written or deleted.
pub lookup-without :
    (k j : String) (cache : List CacheEntry)
    → lookup_text j (without k cache) ≡ (if k == j then none else lookup_text j cache)
lookup-without k j [] = ground arith
lookup-without k j (e ∷ cache) =
    ground (arith, lookup-without k j cache, eq_iff e.key k, eq_iff e.key j, eq_iff k j)

-- A cached text that was written from a user, or a list, reads back as that one.
pub user_json_roundtrip : (u v : User) → user_from_json (user_to_json u) ≡ some v → v ≡ u
unfolding user_from_json user_to_json
user_json_roundtrip u v h = ground arith

users_items_roundtrip :
    (us vs : List User) → users_from_items (users_to_items us) ≡ some vs → vs ≡ us
unfolding users_from_items users_to_items
users_items_roundtrip [] vs h = ground arith
users_items_roundtrip (u ∷ us) vs h = elim (Option-cases (users_from_items (users_to_items us))) [
  | inl bad ↦ ground arith
  | inr (ws, good) ↦ ground (arith, users_items_roundtrip us ws good)
]

pub users_json_roundtrip :
    (us vs : List User) → users_from_json (users_to_json us) ≡ some vs → vs ≡ us
unfolding users_from_json users_to_json
users_json_roundtrip us vs h = users_items_roundtrip us vs h

not_list_key : (s : String) → ¬ ("user:" <> s ≡ "users:list")
not_list_key s p = cc (subst (λ v. starts_with v "user:" ≡ true) p (starts_with-append "user:" s))

-- What the coherence of the cache needs of the library: reading undoes printing, and the decimal
-- forms of numbers differ.
pub record IsFaithful (ext : External) : Type 0 where
  pub parse-print : (j : Json) → ext.parse_json (ext.print_json j) ≡ some j
  pub show_injective : (i j : ℕ) → ext.show_id i ≡ ext.show_id j → i ≡ j

module _ (ext : External) (faithful : IsFaithful ext) where
  pub key_injective : (i j : ℕ) → (user_cache_key ext i == user_cache_key ext j) ≡ nat_eq i j
  unfolding user_cache_key
  key_injective i j = elim (Bool-cases (nat_eq i j)) [
    | inl same ↦ ground (arith, eq_iff (user_cache_key ext i) (user_cache_key ext j))
    | inr differ ↦ ground (
      arith,
      eq_iff (user_cache_key ext i) (user_cache_key ext j),
      λ (p : user_cache_key ext i ≡ user_cache_key ext j).
          faithful.show_injective i j (append_cancel_left "user:" _ _ p),
    )
  ]

user_key_ne_list : (ext : External) (i : ℕ) → (user_cache_key ext i == users_list_cache_key) ≡ false
unfolding user_cache_key users_list_cache_key
user_key_ne_list ext i = ground (
  arith,
  eq_iff (user_cache_key ext i) users_list_cache_key,
  λ (p : user_cache_key ext i ≡ users_list_cache_key). not_list_key (ext.show_id i) p,
)

list_key_ne_user : (ext : External) (i : ℕ) → (users_list_cache_key == user_cache_key ext i) ≡ false
list_key_ne_user ext i = ground (
  arith,
  user_key_ne_list ext i,
  eq_iff (user_cache_key ext i) users_list_cache_key,
  eq_iff users_list_cache_key (user_cache_key ext i),
)

-- A text written under a key, in the place of an older one.
abbrev pub put_text : String → String → ℕ → List CacheEntry → List CacheEntry
put_text key text ttl cache = record { key = key; text = text; ttl = ttl } ∷ without key cache

pub lookup-put :
    (k text : String) (ttl : ℕ) (j : String) (cache : List CacheEntry)
    → lookup_text j (put_text k text ttl cache)
      ≡ (if k == j then some text else lookup_text j cache)
lookup-put k text ttl j cache = ground (arith, lookup-without k j cache)

module _ (ext : External) where
  abbrev pub read_user : Option String → Option User
  read_user text = Json.◌>>=◌ (Json.◌>>=◌ text ext.parse_json) user_from_json

  abbrev pub read_users : Option String → Option (List User)
  read_users text = Json.◌>>=◌ (Json.◌>>=◌ text ext.parse_json) users_from_json

  -- What Redis holds for a user and for the list.
  abbrev pub cached_user : ℕ → List CacheEntry → Option User
  cached_user i cache = read_user (lookup_text (user_cache_key ext i) cache)

  abbrev pub cached_users : List CacheEntry → Option (List User)
  cached_users cache = read_users (lookup_text users_list_cache_key cache)

  -- The row of an id.
  abbrev pub row_of : ℕ → UserDb → Option User
  row_of i db = find (by (λ (u : User). u.id) i) db.rows

  -- Every user in the cache is the row of that id, a cached list is the table, and the ids in use
  -- are below the next one.
  pub record IsCoherent (db : UserDb) (cache : List CacheEntry) : Type 0 where
    pub below : AllBelow (λ (u : User). u.id) db.next_id db.rows
    pub user_hit : (i : ℕ) (u : User) → cached_user i cache ≡ some u → row_of i db ≡ some u
    pub list_hit : (us : List User) → cached_users cache ≡ some us → us ≡ db.rows

  module _ (faithful : IsFaithful ext) where
    pub cached_user-put :
        (i j : ℕ) (text : String) (ttl : ℕ) (cache : List CacheEntry)
        → cached_user j (put_text (user_cache_key ext i) text ttl cache)
          ≡ (if nat_eq i j then read_user (some text) else cached_user j cache)
    cached_user-put i j text ttl cache =
        rw (lookup-put, key_injective ext faithful i j)
          (elim (Bool-cases (nat_eq i j)) [ inl same ↦ rw same refl | inr differ ↦ rw differ refl ])

    pub cached_user-without :
        (i j : ℕ) (cache : List CacheEntry)
        → cached_user j (without (user_cache_key ext i) cache)
          ≡ (if nat_eq i j then none else cached_user j cache)
    cached_user-without i j cache =
        rw (lookup-without, key_injective ext faithful i j)
          (elim (Bool-cases (nat_eq i j)) [ inl same ↦ rw same refl | inr differ ↦ rw differ refl ])

  pub cached_user-put_list :
      (j : ℕ) (text : String) (ttl : ℕ) (cache : List CacheEntry)
      → cached_user j (put_text users_list_cache_key text ttl cache) ≡ cached_user j cache
  cached_user-put_list j text ttl cache = rw (lookup-put, list_key_ne_user ext j) refl

  pub cached_user-without_list :
      (j : ℕ) (cache : List CacheEntry)
      → cached_user j (without users_list_cache_key cache) ≡ cached_user j cache
  cached_user-without_list j cache = rw (lookup-without, list_key_ne_user ext j) refl

  pub cached_users-put :
      (i : ℕ) (text : String) (ttl : ℕ) (cache : List CacheEntry)
      → cached_users (put_text (user_cache_key ext i) text ttl cache) ≡ cached_users cache
  cached_users-put i text ttl cache = rw (lookup-put, user_key_ne_list ext i) refl

  pub cached_users-put_list :
      (text : String) (ttl : ℕ) (cache : List CacheEntry)
      → cached_users (put_text users_list_cache_key text ttl cache) ≡ read_users (some text)
  cached_users-put_list text ttl cache = rw (lookup-put, eq_refl users_list_cache_key) refl

  pub cached_users-without_list :
      (cache : List CacheEntry) → cached_users (without users_list_cache_key cache) ≡ none
  cached_users-without_list cache = rw (lookup-without, eq_refl users_list_cache_key) refl
