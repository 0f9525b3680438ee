-- ===== src/User/Transparency/Writes.antt =====
-- The changing requests against the repository.
use rust_microservices_archi.Prelude.{
  ℕ, ◌+◌, ◌≡◌, refl, sym, subst, ◌∙◌, Bool, true, false, not, Option, none, some, List, Result, ok,
  err, keep, nat_eq, length, if◌then◌else◌, arith,
}
use rust_microservices_archi.Effects.{run, ◌>>=◌, ◌>>◌, map_err, pure, fail_if}
use rust_microservices_archi.Database.{SqlxError, update_rows}
use rust_microservices_archi.Database.ById.{
  by, AllBelow-weaken, find-insert, find-delete, find-update, AllBelow-insert, AllBelow-delete,
  AllBelow-update, update-missing, delete-missing, find-update-none,
}
use rust_microservices_archi.Shared.Errors.{not_found, from_sqlx}
use rust_microservices_archi.User.Models.{User, NewUser, UpdateUser, UserDb}
use rust_microservices_archi.User.UserRepository
use rust_microservices_archi.User.Calls.{World, Action, exec, machine}
use rust_microservices_archi.User.Cache.{
  External, user_cache_key, users_list_cache_key, default_cache_ttl, invalidate,
}
use rust_microservices_archi.User.UserService.{refresh_cache, create_user, update_user, delete_user}
use rust_microservices_archi.User.Coherence.{IsFaithful, IsCoherent, row_of}
use rust_microservices_archi.User.Coherence.Changes.{IsCoherent-changed, IsCoherent-deleted}
use rust_microservices_archi.User.Transparency.{
  calm, create, update, delete, one, done, described, selected, direct, serve, Agrees, synced,
  as_one, as_done,
}

module _ (ext : External) (faithful : IsFaithful ext) where
  pub create-Agrees :
      (new : NewUser) (w : World)
      → IsCoherent ext w.write w.redis
      → Agrees ext (serve ext (create new) w) (direct (create new) w.write)
  unfolding create_user exec UserRepository.create
  create-Agrees new w h =
      let u : User = record { id = w.write.next_id; name = new.name; email = new.email } in
      record {
        answer = refl;
        table = refl;
        coherent =
            IsCoherent-changed ext faithful w.write.next_id u default_cache_ttl w.write _ w.redis
              (AllBelow-insert (λ (v : User). v.id) (w.write.next_id + 1) u w.write.rows
                (AllBelow-weaken (λ (v : User). v.id) w.write.next_id (w.write.next_id + 1)
                  w.write.rows (omega arith) h.below)
                (omega arith))
              (find-insert (λ (v : User). v.id) w.write.next_id u w.write.rows h.below
                ∙ ground arith)
              (λ j v differ old.
                find-insert (λ (v : User). v.id) j u w.write.rows h.below ∙ ground arith)
              h;
      }

  abbrev changed : UserDb → ℕ → UpdateUser → UserDb
  changed db i c = record db {
    rows = update_rows (by (λ (u : User). u.id) i) (UserRepository.coalesce c) db.rows;
  }

  abbrev refresh_found : ℕ → Result SqlxError User → Action User
  refresh_found i found = do user ← map_err found from_sqlx; refresh_cache ext i user; pure user

  updated :
      (i : ℕ) (c : UpdateUser) (w : World) (o : Option User)
      → IsCoherent ext w.write w.redis
      → row_of ext i (changed w.write i c) ≡ o
      → Agrees ext
          (as_one (
            run
              (machine calm)
              1
              (refresh_found i (selected o))
              (record (synced w) { write = changed w.write i c })))
          (one (described (selected o)), changed w.write i c)
  unfolding exec refresh_cache from_sqlx
  updated i c w none h missing = record {
    answer = refl;
    table = refl;
    coherent =
        subst (λ (rows : List User). IsCoherent ext (record w.write { rows = rows }) w.redis)
          (sym (
            update-missing (λ (u : User). u.id) (UserRepository.coalesce c) i w.write.rows
              (find-update-none (λ (u : User). u.id) (UserRepository.coalesce c) i w.write.rows
                (λ v. refl) missing)))
          h;
  }
  updated i c w (some u) h is_row = record {
    answer = refl;
    table = refl;
    coherent =
        IsCoherent-changed ext faithful i u default_cache_ttl w.write (changed w.write i c) w.redis
          (AllBelow-update (λ (v : User). v.id) w.write.next_id _ _ w.write.rows (λ v. refl)
            h.below)
          is_row
          (λ j v differ old.
            find-update (λ (v : User). v.id) (UserRepository.coalesce c) i j w.write.rows
              (λ v. refl)
            ∙ ground arith)
          h;
  }

  pub update-Agrees :
      (i : ℕ) (c : UpdateUser) (w : World)
      → IsCoherent ext w.write w.redis
      → Agrees ext (serve ext (update i c) w) (direct (update i c) w.write)
  unfolding update_user exec UserRepository.update
  update-Agrees i c w h = updated i c w _ h refl

  abbrev left : UserDb → ℕ → UserDb
  left db i = record db { rows = keep (λ u. not (by (λ (u : User). u.id) i u)) db.rows }

  abbrev drop_counted : ℕ → Bool → Action Unit
  drop_counted i none_there = do
    fail_if none_there not_found
    invalidate (user_cache_key ext i)
    invalidate users_list_cache_key
    pure tt

  deleted :
      (i : ℕ) (w : World) (b : Bool)
      → IsCoherent ext w.write w.redis
      → nat_eq (length (keep (by (λ (u : User). u.id) i) w.write.rows)) 0 ≡ b
      → Agrees ext
          (as_done (
            run (machine calm) 1 (drop_counted i b) (record (synced w) { write = left w.write i })))
          (done (if b then err not_found else ok tt), left w.write i)
  unfolding exec invalidate
  deleted i w true h zero = record {
    answer = refl;
    table = refl;
    coherent =
        subst (λ (rows : List User). IsCoherent ext (record w.write { rows = rows }) w.redis)
          (sym (delete-missing (λ (u : User). u.id) i w.write.rows (ground arith))) h;
  }
  deleted i w false h some_there = record {
    answer = refl;
    table = refl;
    coherent =
        IsCoherent-deleted ext faithful i w.write (left w.write i) w.redis
          (AllBelow-delete (λ (v : User). v.id) w.write.next_id _ w.write.rows h.below)
          (λ j v differ old. find-delete (λ (v : User). v.id) i j w.write.rows ∙ ground arith) h;
  }

  pub delete-Agrees :
      (i : ℕ) (w : World)
      → IsCoherent ext w.write w.redis
      → Agrees ext (serve ext (delete i) w) (direct (delete i) w.write)
  unfolding delete_user exec UserRepository.delete
  delete-Agrees i w h = deleted i w _ h refl
