-- ===== src/User/Coherence/Changes.antt =====
-- What keeps the cache coherent: filling it from the database, and what the service does to it
-- after a change to the database.
use rust_microservices_archi.Prelude.{
  ℕ, ◌≡◌, sym, ap, subst, ◌⊎◌, inl, inr, ◌∙◌, String, Bool, false, some, List, nat_eq, Bool-cases,
  if◌then◌else◌, arith,
}
use rust_microservices_archi.Json
use rust_microservices_archi.Database.ById.{AllBelow}
use rust_microservices_archi.User.Models.{User, UserDb}
use rust_microservices_archi.User.Calls.{CacheEntry, without}
use rust_microservices_archi.User.Cache.{
  External, user_to_json, user_from_json, users_to_json, users_from_json, user_cache_key,
  users_list_cache_key,
}
use rust_microservices_archi.User.Coherence.{
  IsFaithful, IsCoherent, put_text, read_user, read_users, cached_user, row_of, user_json_roundtrip,
  users_json_roundtrip, cached_user-put, cached_user-without, cached_user-put_list,
  cached_user-without_list, cached_users-put, cached_users-put_list, cached_users-without_list,
}

module _ (ext : External) (faithful : IsFaithful ext) where
  abbrev pub user_text : User → String
  user_text u = ext.print_json (user_to_json u)

  abbrev pub users_text : List User → String
  users_text us = ext.print_json (users_to_json us)

  read_user_text : (u v : User) → read_user ext (some (user_text u)) ≡ some v → v ≡ u
  read_user_text u v h =
      user_json_roundtrip u v
        (sym (ap (λ o. Json.◌>>=◌ o user_from_json) (faithful.parse-print (user_to_json u))) ∙ h)

  read_users_text : (us vs : List User) → read_users ext (some (users_text us)) ≡ some vs → vs ≡ us
  read_users_text us vs h =
      users_json_roundtrip us vs
        (sym (ap (λ o. Json.◌>>=◌ o users_from_json) (faithful.parse-print (users_to_json us))) ∙ h)

  abbrev Chosen : ℕ → User → ℕ → List CacheEntry → User → Bool → Type 0
  Chosen i u j cache v b =
      (if b then read_user ext (some (user_text u)) else cached_user ext j cache) ≡ some v

  -- A list read from the database may be cached.
  pub IsCoherent-put_list :
      (ttl : ℕ) (db : UserDb) (cache : List CacheEntry)
      → IsCoherent ext db cache
      → IsCoherent ext db (put_text users_list_cache_key (users_text db.rows) ttl cache)
  IsCoherent-put_list ttl db cache h = record {
    below = h.below;
    user_hit = λ i u hit. h.user_hit i u (sym (cached_user-put_list ext i _ ttl cache) ∙ hit);
    list_hit =
        λ us hit. read_users_text db.rows us (sym (cached_users-put_list ext _ ttl cache) ∙ hit);
  }

  -- What a hit on a user says once the user of an id has been written.
  hit_after_put :
      (i : ℕ) (u : User) (ttl : ℕ) (cache : List CacheEntry) (j : ℕ) (v : User)
      → cached_user ext j (put_text (user_cache_key ext i) (user_text u) ttl cache) ≡ some v
      → ((i ≡ j) × (v ≡ u)) ⊎ ((nat_eq i j ≡ false) × (cached_user ext j cache ≡ some v))
  hit_after_put i u ttl cache j v hit =
      let view = sym (cached_user-put ext faithful i j (user_text u) ttl cache) ∙ hit in
      elim (Bool-cases (nat_eq i j)) [
        | inl same ↦ inl (ground arith, read_user_text u v (subst (Chosen i u j cache v) same view))
        | inr differ ↦ inr (differ, subst (Chosen i u j cache v) differ view)
      ]

  -- A user read from the database may be cached.
  pub IsCoherent-put_user :
      (i : ℕ) (u : User) (ttl : ℕ) (db : UserDb) (cache : List CacheEntry)
      → row_of ext i db ≡ some u
      → IsCoherent ext db cache
      → IsCoherent ext db (put_text (user_cache_key ext i) (user_text u) ttl cache)
  IsCoherent-put_user i u ttl db cache is_row h = record {
    below = h.below;
    user_hit = λ j v hit. elim (hit_after_put i u ttl cache j v hit) [
      | inl (same, is_u) ↦ ground (arith, is_row)
      | inr (differ, old) ↦ h.user_hit j v old
    ];
    list_hit = λ us hit. h.list_hit us (sym (cached_users-put ext i _ ttl cache) ∙ hit);
  }

  -- The rows of other ids are still there.
  abbrev pub IsKept : ℕ → UserDb → UserDb → Type 0
  IsKept i db db' =
      (j : ℕ) (v : User) → nat_eq i j ≡ false → row_of ext j db ≡ some v → row_of ext j db' ≡ some v

  -- After a change of one row, caching that row and dropping the list is enough.
  pub IsCoherent-changed :
      (i : ℕ) (u : User) (ttl : ℕ) (db db' : UserDb) (cache : List CacheEntry)
      → AllBelow (λ (u : User). u.id) db'.next_id db'.rows
      → row_of ext i db' ≡ some u
      → IsKept i db db'
      → IsCoherent ext db cache
      → IsCoherent ext db'
          (without users_list_cache_key (put_text (user_cache_key ext i) (user_text u) ttl cache))
  IsCoherent-changed i u ttl db db' cache below is_row kept h = record {
    below = below;
    user_hit = λ j v hit.
        let put = put_text (user_cache_key ext i) (user_text u) ttl cache in
        elim (hit_after_put i u ttl cache j v (sym (cached_user-without_list ext j put) ∙ hit)) [
          | inl (same, is_u) ↦ ground (arith, is_row)
          | inr (differ, old) ↦ kept j v differ (h.user_hit j v old)
        ];
    list_hit = λ us hit. cc (cached_users-without_list ext _, hit);
  }

  -- After a row was deleted, dropping it and the list is enough.
  pub IsCoherent-deleted :
      (i : ℕ) (db db' : UserDb) (cache : List CacheEntry)
      → AllBelow (λ (u : User). u.id) db'.next_id db'.rows
      → IsKept i db db'
      → IsCoherent ext db cache
      → IsCoherent ext db' (without users_list_cache_key (without (user_cache_key ext i) cache))
  IsCoherent-deleted i db db' cache below kept h = record {
    below = below;
    user_hit = λ j v hit.
        let view =
          sym (cached_user-without ext faithful i j cache)
          ∙ sym (cached_user-without_list ext j _)
          ∙ hit in
        elim (Bool-cases (nat_eq i j)) [
          | inl same ↦ ground (arith, view)
          | inr differ ↦ kept j v differ (h.user_hit j v (ground (arith, view)))
        ];
    list_hit = λ us hit. cc (cached_users-without_list ext _, hit);
  }
