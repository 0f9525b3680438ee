-- ===== src/Events/Roundtrip.antt =====
-- The JSON of events between its producer and its consumer.
use rust_microservices_archi.Prelude.{◌<◌, ◌^◌, ◌≡◌, some, arith}
use rust_microservices_archi.Events.{UserEvent, event_to_json, event_from_json}

-- An event of auth-service whose user id fits an `i32` is read by user-service as it was written.
pub event-roundtrip :
    (e : UserEvent) → e.user_id < 2 ^ 31 → event_from_json (event_to_json e) ≡ some e
unfolding event_from_json event_to_json
event-roundtrip e h = ground arith
