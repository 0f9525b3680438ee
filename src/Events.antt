-- ===== src/Events.antt =====
-- The event that auth-service publishes and user-service consumes: `UserEvent` of
-- auth-service/src/services/kafka_service.rs and of user-service/src/kafka.rs, with its JSON.
pub mod Roundtrip
use rust_microservices_archi.Prelude.{ℕ, String, Option, some}
use rust_microservices_archi.Json.{Json, num, str, obj, end, field, ◌>>=◌, text_field, num_field}

pub record UserEvent : Type 0 where
  pub event_type : String
  pub user_id : ℕ
  pub email : String

-- `Serialize` of the producer.
unfoldable pub event_to_json : UserEvent → Json
event_to_json e = obj (
    field "event_type" (str e.event_type)
      (field "user_id" (num e.user_id) (field "email" (str e.email) end)))

-- `Deserialize` of the consumer.
unfoldable pub event_from_json : Json → Option UserEvent
event_from_json j = do
  event_type ← text_field "event_type" j
  user_id ← num_field "user_id" j
  email ← text_field "email" j
  some (record { event_type = event_type; user_id = user_id; email = email })
