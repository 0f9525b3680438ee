-- ===== src/User/Transparency/Reads.antt =====
-- The reading requests against the repository.
use rust_microservices_archi.Prelude.{ℕ, ◌≡◌, refl, sym, ap, Option, none, some, List, Result, ok}
use rust_microservices_archi.Effects.{run, ◌>>=◌, ◌>>◌, map_err, pure}
use rust_microservices_archi.Database.{SqlxError}
use rust_microservices_archi.Shared.Errors.{from_sqlx}
use rust_microservices_archi.User.Models.{User}
use rust_microservices_archi.User.UserRepository
use rust_microservices_archi.User.Calls.{World, Action, exec, machine}
use rust_microservices_archi.User.Cache.{
  External, user_to_json, user_cache_key, default_cache_ttl, set_cached,
}
use rust_microservices_archi.User.UserService.{
  or_load_users, or_load_user, get_user_by_id, list_users,
}
use rust_microservices_archi.User.Coherence.{
  IsFaithful, IsCoherent, cached_user, cached_users, row_of,
}
use rust_microservices_archi.User.Coherence.Changes.{IsCoherent-put_list, IsCoherent-put_user}
use rust_microservices_archi.User.Transparency.{
  calm, get, list, one, many, described, selected, direct, serve, Agrees, synced, as_many, as_one,
}

module _ (ext : External) (faithful : IsFaithful ext) where
  loaded_list :
      (w : World) (o : Option (List User))
      → IsCoherent ext w.write w.redis
      → cached_users ext w.redis ≡ o
      → Agrees ext
          (as_many (run (machine calm) 1 (or_load_users ext o) (synced w)))
          (direct list w.write)
  unfolding exec set_cached UserRepository.find_all
  loaded_list w (some us) h hit = record {
    answer = ap (λ (v : List User). many (ok v)) (h.list_hit us hit);
    table = refl;
    coherent = h;
  }
  loaded_list w none h miss = record {
    answer = refl;
    table = refl;
    coherent = IsCoherent-put_list ext faithful default_cache_ttl w.write w.redis h;
  }

  pub list-Agrees :
      (w : World)
      → IsCoherent ext w.write w.redis
      → Agrees ext (serve ext list w) (direct list w.write)
  unfolding list_users exec
  list-Agrees w h = loaded_list w _ h refl

  abbrev keep_found : ℕ → Result SqlxError User → Action User
  keep_found i found = do
    user ← map_err found from_sqlx
    set_cached ext user_to_json (user_cache_key ext i) user
    pure user

  missed_user :
      (w : World) (i : ℕ) (o : Option User)
      → IsCoherent ext w.write w.redis
      → row_of ext i w.write ≡ o
      → Agrees ext
          (as_one (run (machine calm) 2 (keep_found i (selected o)) (synced w)))
          (one (described (selected o)), w.write)
  unfolding exec set_cached from_sqlx
  missed_user w i none h none_there = record { answer = refl; table = refl; coherent = h }
  missed_user w i (some u) h is_row = record {
    answer = refl;
    table = refl;
    coherent = IsCoherent-put_user ext faithful i u default_cache_ttl w.write w.redis is_row h;
  }

  loaded_user :
      (w : World) (i : ℕ) (o : Option User)
      → IsCoherent ext w.write w.redis
      → cached_user ext i w.redis ≡ o
      → Agrees ext
          (as_one (run (machine calm) 1 (or_load_user ext i o) (synced w)))
          (direct (get i) w.write)
  unfolding exec set_cached UserRepository.find_by_id
  loaded_user w i (some u) h hit = record {
    answer = ap (λ (o : Option User). one (described (selected o))) (sym (h.user_hit i u hit));
    table = refl;
    coherent = h;
  }
  loaded_user w i none h miss = missed_user w i _ h refl

  pub get-Agrees :
      (i : ℕ) (w : World)
      → IsCoherent ext w.write w.redis
      → Agrees ext (serve ext (get i) w) (direct (get i) w.write)
  unfolding get_user_by_id exec
  get-Agrees i w h = loaded_user w i _ h refl
