-- ===== src/User/Consumer.antt =====
-- user-service/src/kafka.rs: the consumer of registrations. Each turn of the loop receives what
-- `tokio::select!` chose: a message with its payload (absent, not UTF-8, or a text), a receive error,
-- or the shutdown signal.
pub mod Registration
pub mod Offsets
use rust_microservices_archi.Prelude.{
  String, Bool, Option, none, some, List, [], ◌∷◌, Result, ok, err, ◌==◌, if◌then◌else◌,
}
use rust_microservices_archi.Prelude.Text.{split_first}
use rust_microservices_archi.Json
use rust_microservices_archi.Effects.{◌>>=◌, ◌>>◌, perform, pure}
use rust_microservices_archi.Events.{UserEvent, event_from_json}
use rust_microservices_archi.User.Models.{User, NewUser}
use rust_microservices_archi.User.Calls.{Action, insert_user, commit_message, commit_state}
use rust_microservices_archi.User.Cache.{External}
use rust_microservices_archi.User.UserService.{refresh_cache}
use rust_microservices_archi.Database.{SqlxError}

pub data Turn : Type 0 where
  message : (payload : Option (Option String)) → Turn
  receive_error : Turn
  shutdown : Turn

-- Where the consumer is: it panicked on subscribing, it waits for its next turn, or it returned.
pub data Stage : Type 0 where
  panicked : Stage
  waiting : Stage
  stopped : Stage

-- The part of the e-mail before the first `@`.
unfoldable pub profile : UserEvent → NewUser
unfolding split_first
profile event = record { name = split_first b'@' event.email; email = event.email }

module _ (ext : External) where
  -- A row that was not inserted is reported and forgotten.
  abbrev pub after_insert : Result SqlxError User → Action Unit
  after_insert (ok user) = refresh_cache ext user.id user
  after_insert (err e) = pure tt

  abbrev pub handle_event : Option UserEvent → Action Unit
  handle_event none = pure tt
  handle_event (some event) =
      if event.event_type == "user.registered"
      then (do created ← perform (insert_user (profile event)); after_insert created)
      else pure tt

  unfoldable pub handle_message : String → Action Unit
  unfolding profile refresh_cache
  handle_message payload = handle_event (Json.◌>>=◌ (ext.parse_json payload) event_from_json)

  abbrev pub handle_payload : Option (Option String) → Action Unit
  handle_payload (some (some payload)) = handle_message payload
  handle_payload _ = pure tt

  -- The loop, for the turns that it has had; the offset of a message is committed whatever became of
  -- it, and a failure of that is reported and forgotten. Without a shutdown signal it never ends.
  unfoldable pub consume : List Turn → Action Stage
  unfolding handle_message
  consume [] = pure waiting
  consume (message payload ∷ turns) = do
    handle_payload payload
    perform commit_message
    consume turns
  consume (receive_error ∷ turns) = consume turns
  consume (shutdown ∷ turns) = do perform commit_state; pure stopped

  -- `subscribed` is whether `subscribe` succeeds, which `expect` insists on.
  unfoldable pub start_consumer : (subscribed : Bool) → List Turn → Action Stage
  unfolding consume
  start_consumer subscribed turns = if subscribed then consume turns else pure panicked
