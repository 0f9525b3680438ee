-- ===== src/Auth/KafkaService.antt =====
-- auth-service/src/services/kafka_service.rs
use rust_microservices_archi.Prelude.{String, ◌<>◌, Result, ok, err}
use rust_microservices_archi.Effects.{◌>>=◌, perform, pure}
use rust_microservices_archi.Events.{UserEvent, event_to_json}
use rust_microservices_archi.Auth.External.{External}
use rust_microservices_archi.Auth.Calls.{Action, kafka_send}

abbrev describe_send : Result String Unit → Result String Unit
describe_send (ok u) = ok u
describe_send (err e) = err ("Kafka send error: " <> e)

-- The key is the user's id; serialising a `UserEvent` does not fail.
unfoldable pub publish_user_event : External → String → UserEvent → Action (Result String Unit)
unfolding event_to_json
publish_user_event ext topic event = do
  sent ←
      perform (kafka_send topic (ext.show_id event.user_id) (ext.print_json (event_to_json event)))
  pure (describe_send sent)
