-- ===== src/User/Transparency/Sequences.antt =====
-- Sequences of requests against the repository.
use rust_microservices_archi.Prelude.{◌≡◌, refl, List, [], ◌∷◌}
use rust_microservices_archi.Database.ById.{AllBelow}
use rust_microservices_archi.User.Models.{User, UserDb}
use rust_microservices_archi.User.Calls.{World}
use rust_microservices_archi.User.Cache.{External}
use rust_microservices_archi.User.Coherence.{IsFaithful, IsCoherent}
use rust_microservices_archi.User.Transparency.Reads.{get-Agrees, list-Agrees}
use rust_microservices_archi.User.Transparency.Writes.{create-Agrees, update-Agrees, delete-Agrees}
use rust_microservices_archi.User.Transparency.{
  Answer, Request, get, list, create, update, delete, direct, serve, Agrees,
}

-- The answers to requests that follow one another, from the repository alone.
abbrev pub direct_all : List Request → UserDb → List Answer
direct_all [] db = []
direct_all (r ∷ rs) db = let (a, db') = direct r db in a ∷ direct_all rs db'

module _ (ext : External) where
  -- The answers of the service.
  abbrev pub serve_all : List Request → World → List Answer
  serve_all [] w = []
  serve_all (r ∷ rs) w = let (a, w') = serve ext r w in a ∷ serve_all rs w'

  IsCoherent-empty :
      (db : UserDb) → AllBelow (λ (u : User). u.id) db.next_id db.rows → IsCoherent ext db []
  IsCoherent-empty db below = record {
    below = below;
    user_hit = λ i u hit. cc hit;
    list_hit = λ us hit. cc hit;
  }

  module _ (faithful : IsFaithful ext) where
    serve-Agrees :
        (r : Request) (w : World)
        → IsCoherent ext w.write w.redis
        → Agrees ext (serve ext r w) (direct r w.write)
    serve-Agrees (get i) w h = get-Agrees ext faithful i w h
    serve-Agrees list w h = list-Agrees ext faithful w h
    serve-Agrees (create new) w h = create-Agrees ext faithful new w h
    serve-Agrees (update i c) w h = update-Agrees ext faithful i c w h
    serve-Agrees (delete i) w h = delete-Agrees ext faithful i w h

    coherent_run :
        (rs : List Request) (w : World)
        → IsCoherent ext w.write w.redis
        → serve_all rs w ≡ direct_all rs w.write
    coherent_run [] w h = refl
    coherent_run (r ∷ rs) w h =
        let w' = (serve ext r w).1 in
        let step = serve-Agrees r w h in
        let rest = coherent_run rs w' step.coherent in cc (step.answer, step.table, rest)

-- Where reading JSON undoes printing it and the decimal forms of ids differ, the service answers
-- every sequence of requests (get, list, create, update, delete), from an empty Redis on, exactly as
-- the repository alone answers them on the table, whose ids are below its counter: with working
-- servers, a replica that has caught up before each call, and no other client, no answer is ever
-- stale.
pub cache-transparent :
    (ext : External)
    → IsFaithful ext
    → (rs : List Request) (db replica : UserDb) → AllBelow (λ (u : User). u.id) db.next_id db.rows
    → serve_all ext rs (record { write = db; read = replica; redis = [] }) ≡ direct_all rs db
cache-transparent ext faithful rs db replica below =
    coherent_run ext faithful rs (record { write = db; read = replica; redis = [] })
      (IsCoherent-empty ext db below)
