-- ===== src/User/Consumer/Offsets.antt =====
-- The offsets that the consumer's loop commits.
use rust_microservices_archi.Prelude.{
  ℕ, suc, ◌+◌, ◌≡◌, refl, Bool, true, false, Option, none, some, List, [], ◌∷◌, String, Result, ok,
  err, ◌==◌, if◌then◌else◌, arith,
}
use rust_microservices_archi.Json
use rust_microservices_archi.Effects.{Event, event, ◌>>=◌, Ensures, run, trace, perform, pure}
use rust_microservices_archi.Effects.Laws.{Ensures-bind, Ensures-weaken, run-Ensures}
use rust_microservices_archi.Events.{UserEvent, event_from_json}
use rust_microservices_archi.Shared.Errors.{ServiceError}
use rust_microservices_archi.User.Calls.{
  Op, Reply, World, Env, machine, commit_message, commit_state, insert_user,
}
use rust_microservices_archi.User.Cache.{External}
use rust_microservices_archi.User.UserService.{refresh_cache}
use rust_microservices_archi.User.Consumer.{
  Turn, message, receive_error, shutdown, profile, after_insert, handle_event, handle_message,
  handle_payload, consume, start_consumer, Stage, waiting, stopped,
}

abbrev Trace : Type 0
Trace = List (Event Op Reply)

-- How often Kafka was asked to commit the offset of a message, and the consumer's state.
abbrev pub commits : Trace → ℕ
commits [] = 0
commits (event commit_message r ∷ tr) = suc (commits tr)
commits (event o r ∷ tr) = commits tr

abbrev pub state_commits : Trace → ℕ
state_commits [] = 0
state_commits (event commit_state r ∷ tr) = suc (state_commits tr)
state_commits (event o r ∷ tr) = state_commits tr

-- The messages before the first shutdown signal, whether there is one, and where that leaves the loop.
abbrev pub received : List Turn → ℕ
received [] = 0
received (message payload ∷ turns) = suc (received turns)
received (receive_error ∷ turns) = received turns
received (shutdown ∷ turns) = 0

abbrev pub stops : List Turn → Bool
stops [] = false
stops (message payload ∷ turns) = stops turns
stops (receive_error ∷ turns) = stops turns
stops (shutdown ∷ turns) = true

abbrev pub stage_after : Bool → Stage
stage_after true = stopped
stage_after false = waiting

abbrev pub number : Bool → ℕ
number true = 1
number false = 0

-- From a trace on, so many more commits, and no error.
abbrev More : {A : Type 0} → A → ℕ → ℕ → Trace → Trace → Result ServiceError A → Type 0
More a m s tr tr' r =
    (r ≡ ok a) × (commits tr' ≡ commits tr + m) × (state_commits tr' ≡ state_commits tr + s)

module _ (ext : External) where
  insert_if :
      (b : Bool) (e : UserEvent) (tr : Trace)
      → Ensures
          (More tt 0 0 tr)
          tr
          (if b then (perform (insert_user (profile e)) >>= after_insert ext) else pure tt)
  unfolding refresh_cache
  insert_if true e tr = elim [
    | ok user ↦ λ _ _. (refl, omega arith, omega arith)
    | err d ↦ (refl, omega arith, omega arith)
  ]
  insert_if false e tr = (refl, omega arith, omega arith)

  handle_event-More :
      (e : Option UserEvent) (tr : Trace) → Ensures (More tt 0 0 tr) tr (handle_event ext e)
  unfolding refresh_cache
  handle_event-More none tr = (refl, omega arith, omega arith)
  handle_event-More (some e) tr = insert_if (e.event_type == "user.registered") e tr

  handle_payload-More :
      (payload : Option (Option String)) (tr : Trace)
      → Ensures (More tt 0 0 tr) tr (handle_payload ext payload)
  unfolding handle_message
  handle_payload-More none tr = (refl, omega arith, omega arith)
  handle_payload-More (some none) tr = (refl, omega arith, omega arith)
  handle_payload-More (some (some text)) tr =
      handle_event-More (Json.◌>>=◌ (ext.parse_json text) event_from_json) tr

  abbrev Consumed : List Turn → Trace → Trace → Result ServiceError Stage → Type 0
  Consumed turns = More (stage_after (stops turns)) (received turns) (number (stops turns))

  consume-More :
      (turns : List Turn) (tr : Trace) → Ensures (Consumed turns tr) tr (consume ext turns)
  unfolding consume
  consume-More [] tr = (refl, omega arith, omega arith)
  consume-More (message payload ∷ turns) tr =
      Ensures-bind (Consumed (message payload ∷ turns) tr) (More tt 0 0 tr)
        (handle_payload ext payload) _ tr (handle_payload-More payload tr)
        (λ t u handled r.
          let since = event commit_message r ∷ t in
          Ensures-weaken (Consumed turns since) (Consumed (message payload ∷ turns) tr)
            (consume ext turns) since
            (λ t' result rest.
              (rest.0, ground (arith, rest.1, handled.1), ground (arith, rest.2, handled.2)))
            (consume-More turns since))
        (λ t e handled. cc handled.0)
  consume-More (receive_error ∷ turns) tr = consume-More turns tr
  consume-More (shutdown ∷ turns) tr = λ r. (refl, omega arith, omega arith)

-- Once subscribed, whatever the databases, Redis and Kafka reply, the loop has asked Kafka to commit
-- exactly one offset for each message received before the first shutdown signal, the messages that it
-- could not handle included. If that signal came, it has asked exactly once to commit the consumer's
-- state, and it has returned; otherwise it has not asked for that, and waits for its next turn.
pub start_consumer-commits :
    (ext : External) (env : Env) (n : ℕ) (w : World) (turns : List Turn)
    → (let p = start_consumer ext true turns in
        ((run (machine env) n p w).0 ≡ ok (stage_after (stops turns)))
        × (commits (trace (machine env) n p w []) ≡ received turns)
        × (state_commits (trace (machine env) n p w []) ≡ number (stops turns)))
unfolding start_consumer
start_consumer-commits ext env n w turns =
    let more =
      run-Ensures (machine env) (Consumed ext turns []) (consume ext turns) n w []
        (consume-More ext turns []) in
    (more.0, ground (arith, more.1), ground (arith, more.2))
