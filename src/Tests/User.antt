-- ===== src/Tests/User.antt =====
-- The theorems on the shared crate and user-service at small inputs.
use rust_microservices_archi.Prelude.{
  ◌≡◌, refl, ◌↔◌, ◌⊎◌, String, true, false, none, some, List, [], ◌∷◌, Result, ok, arith,
}
use rust_microservices_archi.Prelude.Split.{IsLocalPart}
use rust_microservices_archi.Jwt.{Claims}
use rust_microservices_archi.Effects.{run}
use rust_microservices_archi.Events.{UserEvent, event_to_json, event_from_json}
use rust_microservices_archi.Events.Roundtrip.{event-roundtrip}
use rust_microservices_archi.Shared.Errors.{unauthorized, error_response}
use rust_microservices_archi.Shared.Health.{health_check}
use rust_microservices_archi.Shared.Health.Verdict.{health_check_iff}
use rust_microservices_archi.Shared.JwtAuth.{HttpRequest, AuthenticatedUser, extract_user}
use rust_microservices_archi.Shared.JwtAuth.Extraction.{
  IsBearer, extract_user_iff, refused_request_status,
}
use rust_microservices_archi.User.Models.{User, UserDb}
use rust_microservices_archi.User.Calls.{World, machine}
use rust_microservices_archi.User.Cache.{External}
use rust_microservices_archi.User.Consumer.{profile, handle_message}
use rust_microservices_archi.User.Consumer.Registration.{with_user, handle_message-registration}
use rust_microservices_archi.User.UserController.Guarded.{
  Route, IsAllowed, IsRejection, handler, handler-guarded,
}
use rust_microservices_archi.Effects.{trace}
use rust_microservices_archi.User.Consumer.{
  Turn, message, receive_error, shutdown, stopped, start_consumer,
}
use rust_microservices_archi.User.Consumer.Offsets.{commits, state_commits, start_consumer-commits}
use rust_microservices_archi.User.Coherence.{IsFaithful}
use rust_microservices_archi.User.Transparency.{Request, get, list, create, update, delete, calm}
use rust_microservices_archi.User.Transparency.Sequences.{serve_all, direct_all, cache-transparent}
use rust_microservices_archi.Tests.Codec.{
  print_json, parse_json, parse-print_json, show_id, show_id-injective,
}

abbrev plain : External
plain = record { print_json = print_json; parse_json = parse_json; show_id = show_id }

plain-IsFaithful : IsFaithful plain
plain-IsFaithful = record { parse-print = parse-print_json; show_injective = show_id-injective }

abbrev alice : User
alice = record { id = 1; name = "alice"; email = "alice@example.org" }

abbrev users : UserDb
users = record { rows = alice ∷ []; next_id = 2 }

abbrev start : World
start = record { write = users; read = users; redis = [] }

abbrev requests : List Request
requests =
    get 1
    ∷ list
    ∷ create (record { name = "bob"; email = "bob@example.org" })
    ∷ list
    ∷ update 1 (record { name = some "Alice"; email = none })
    ∷ get 1
    ∷ delete 2
    ∷ get 2
    ∷ delete 2
    ∷ list
    ∷ []

cache-transparent_example : serve_all plain requests start ≡ direct_all requests users
cache-transparent_example =
    cache-transparent plain plain-IsFaithful requests users users (omega arith, tt)

-- A token is the claims' subject.
abbrev decode : String → String → Result String Claims
decode token secret =
    ok (record {
      sub = token;
      email = none;
      client_id = "app";
      scopes = "read";
      exp = 1000;
      iat = 10;
    })

abbrev reader : HttpRequest
reader = record { jwt_secret = some "jwt"; authorization = some (some "Bearer 1") }

abbrev anonymous : HttpRequest
anonymous = record { jwt_secret = some "jwt"; authorization = none }

abbrev reading_user : AuthenticatedUser
reading_user = record { user_id = "1"; email = none; client_id = "app"; scopes = "read" ∷ [] }

handler-guarded_example :
    IsAllowed decode reader "write"
    ⊎ IsRejection decode plain reader (handler decode plain reader (Route.delete 1))
handler-guarded_example = handler-guarded decode plain reader (Route.delete 1)

extract_user_iff_example :
    (extract_user decode reader ≡ ok reading_user) ↔ IsBearer decode reader reading_user
extract_user_iff_example = extract_user_iff decode reader reading_user

refused_request_status_example :
    ((error_response (unauthorized "Missing Authorization header")).status ≡ 401)
    ⊎ (((error_response (unauthorized "Missing Authorization header")).status ≡ 500)
        × (anonymous.jwt_secret ≡ none))
unfolding extract_user
refused_request_status_example =
    refused_request_status decode anonymous (unauthorized "Missing Authorization header") refl

abbrev registration : UserEvent
registration = record { event_type = "user.registered"; user_id = 7; email = "bob@example.org" }

handle_message-registration_example :
    (name : String) × IsLocalPart "bob@example.org" name
    × ((run
          (machine calm)
          0
          (handle_message plain (print_json (event_to_json registration)))
          start).2.write
        ≡ with_user name "bob@example.org" users)
handle_message-registration_example =
    handle_message-registration plain parse-print_json registration start refl (omega arith)

-- An unreadable message, the registration, an error, the shutdown signal, and a message too late.
abbrev turns : List Turn
turns =
    message (some none)
    ∷ message (some (some (print_json (event_to_json registration))))
    ∷ receive_error
    ∷ shutdown
    ∷ message none
    ∷ []

start_consumer-commits_example :
    (let p = start_consumer plain true turns in
      ((run (machine calm) 0 p start).0 ≡ ok stopped)
      × (commits (trace (machine calm) 0 p start []) ≡ 2)
      × (state_commits (trace (machine calm) 0 p start []) ≡ 1))
start_consumer-commits_example = start_consumer-commits plain calm 0 start turns

event-roundtrip_example : event_from_json (event_to_json registration) ≡ some registration
event-roundtrip_example = event-roundtrip registration (omega arith)

health_check_iff_example :
    (((health_check true false true "user-service").status ≡ 200)
      ↔ ((true ≡ true) × (false ≡ true) × (true ≡ true)))
    × (((health_check true false true "user-service").status ≡ 200)
        ⊎ ((health_check true false true "user-service").status ≡ 503))
health_check_iff_example = health_check_iff true false true "user-service"

-- The profile of a registration is named by the e-mail before its first "@".
profile_name : (profile registration).name ≡ "bob"
unfolding profile
profile_name = refl
