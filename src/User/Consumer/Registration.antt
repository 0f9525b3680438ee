-- ===== src/User/Consumer/Registration.antt =====
-- The registrations of auth-service in the consumer of user-service/src/kafka.rs.
use rust_microservices_archi.Prelude.{
  ◌<◌, ◌^◌, ◌+◌, ◌≡◌, refl, String, some, [], ◌∷◌, ◌++◌, ◌==◌, true, arith, eq_iff,
}
use rust_microservices_archi.Prelude.Split.{IsLocalPart, split_first-IsLocalPart}
use rust_microservices_archi.Json
use rust_microservices_archi.Json.{Json}
use rust_microservices_archi.Effects.{run}
use rust_microservices_archi.Events.{UserEvent, event_to_json, event_from_json}
use rust_microservices_archi.Events.Roundtrip.{event-roundtrip}
use rust_microservices_archi.User.Calls.{World, exec, machine}
use rust_microservices_archi.User.Models.{UserDb}
use rust_microservices_archi.User.UserRepository
use rust_microservices_archi.User.Cache.{External}
use rust_microservices_archi.User.Consumer.{profile, handle_message, handle_event}
use rust_microservices_archi.User.UserService.{refresh_cache}
use rust_microservices_archi.User.Transparency.{calm}

module _ (ext : External) where
  -- The events of auth-service reach the consumer as they were sent.
  decoded :
      ((j : Json) → ext.parse_json (ext.print_json j) ≡ some j)
      → (e : UserEvent) → e.user_id < 2 ^ 31
      → Json.◌>>=◌ (ext.parse_json (ext.print_json (event_to_json e))) event_from_json ≡ some e
  decoded parse-print e small = rw parse-print (event-roundtrip e small)

  registered :
      (e : UserEvent) (w : World)
      → (e.event_type == "user.registered") ≡ true
      → (run (machine calm) 0 (handle_event ext (some e)) w).2.write
        ≡ (UserRepository.create (profile e) w.write).1
  unfolding exec UserRepository.create profile refresh_cache
  registered e w h = rw h refl

-- The users with a new row for an event, under the next id.
abbrev pub with_user : (name email : String) → UserDb → UserDb
with_user name email db = record {
  rows = db.rows ++ record { id = db.next_id; name = name; email = email } ∷ [];
  next_id = db.next_id + 1;
}

-- With working servers, the consumer answers the text of a registration, as auth-service publishes it
-- with a user id that fits an `i32`, by adding one row to the table and changing no other: its id is the
-- next one, its e-mail the event's, and its name the part of that e-mail before the first "@", or all of
-- it if it has none. This needs that reading JSON undoes printing it.
pub handle_message-registration :
    (ext : External)
    → ((j : Json) → ext.parse_json (ext.print_json j) ≡ some j)
    → (e : UserEvent) (w : World) → e.event_type ≡ "user.registered"
    → e.user_id < 2 ^ 31
    → (name : String) × IsLocalPart e.email name
      × ((run (machine calm) 0 (handle_message ext (ext.print_json (event_to_json e))) w).2.write
          ≡ with_user name e.email w.write)
unfolding handle_message UserRepository.create profile
handle_message-registration ext parse-print e w is_registration small = (
  (profile e).name,
  split_first-IsLocalPart e.email,
  rw (decoded ext parse-print e small)
      (registered ext e w (ground (arith, eq_iff e.event_type "user.registered"))),
)
