-- ===== src/Auth/Controllers/Registration.antt =====
-- What the registration endpoint has done when it answers with success.
use Prim.Native.String.{len}
use rust_microservices_archi.Prelude.{
  not_less, ◌≡◌, ◌≤◌, refl, ap, ℕ, String, some, [], ◌∷◌, ok, Result, ltb,
}
use rust_microservices_archi.Http.{HttpResponse}
use rust_microservices_archi.Effects.{Event, event, run, trace, Ensures}
use rust_microservices_archi.Effects.Walk.{◌>>=◌, reply}
use rust_microservices_archi.Effects.Guards.{
  Occurs, here, there, Occurs-at, OnOk, after_map_err, after_fail_if, after_part, succeeded,
}
use rust_microservices_archi.Events.{UserEvent, event_to_json}
use rust_microservices_archi.Auth.Models.{RegisterRequest, RegisterResponse, AuthUser, NewAuthUser}
use rust_microservices_archi.Auth.External.{External}
use rust_microservices_archi.Auth.Calls.{Op, Reply, World, Env, machine, insert_user, kafka_send}
use rust_microservices_archi.Auth.Services.AuthService
use rust_microservices_archi.Auth.KafkaService.{publish_user_event}
use rust_microservices_archi.Auth.Services.OAuthService.Authentication.{Trace}
use rust_microservices_archi.Auth.Controllers.{register}

module _ (ext : External) where
  -- The evidence behind the account that the service has created.
  pub record IsStored (req : RegisterRequest) (tr : Trace) (account : RegisterResponse)
      : Type 0 where
    pub long_enough : 8 ≤ len req.password
    pub salt : String
    pub new : NewAuthUser
    pub same_email : new.email ≡ req.email
    pub hashed : ext.hash_password req.password salt ≡ ok new.password_hash
    pub user : AuthUser
    pub stored : Occurs (insert_user new) (ok user) tr
    pub same_id : account.id ≡ user.id
    pub same_user : account.email ≡ user.email

  register-IsStored :
      (req : RegisterRequest) → Ensures (OnOk (IsStored req)) [] (AuthService.register ext req)
  unfolding AuthService.register
  register-IsStored req = do
    let P = IsStored req
    long_enough ← after_fail_if P [] (ltb (len req.password) 8) _ _
    salt ← reply
    (hash, hashed) ← after_map_err P _ (ext.hash_password req.password salt) _ _
    inserted ← reply
    (user, was_inserted) ← after_map_err P _ inserted _ _
    let new : NewAuthUser = record { email = req.email; password_hash = hash }
    record {
      long_enough = not_less _ _ long_enough;
      salt = salt;
      new = new;
      same_email = refl;
      hashed = hashed;
      user = user;
      stored = Occurs-at 0 _ (ap (λ r. some (event (insert_user new) r)) was_inserted);
      same_id = refl;
      same_user = refl;
    }

  -- It stays so as another call is made.
  IsStored-later :
      (req : RegisterRequest) (tr : Trace) (account : RegisterResponse) (e : Event Op Reply)
      → IsStored req tr account
      → IsStored req (e ∷ tr) account
  IsStored-later req tr account e s = record {
    long_enough = s.long_enough;
    salt = s.salt;
    new = s.new;
    same_email = s.same_email;
    hashed = s.hashed;
    user = s.user;
    stored = there s.stored;
    same_id = s.same_id;
    same_user = s.same_user;
  }

  abbrev pub registration_of : RegisterResponse → UserEvent
  registration_of account = record {
    event_type = "user.registered";
    user_id = account.id;
    email = account.email;
  }

  -- The evidence behind a response to a registration.
  pub record IsRegistered (req : RegisterRequest) (tr : Trace) (resp : HttpResponse) : Type 0 where
    pub account : RegisterResponse
    pub is_stored : IsStored req tr account
    pub sent : Result String Unit
    pub published :
        Occurs
          (kafka_send "user.events"
            (ext.show_id account.id)
            (ext.print_json (event_to_json (registration_of account))))
          sent
          tr
    pub status : resp.status ≡ 201

  register-IsRegistered :
      (req : RegisterRequest) → Ensures (OnOk (IsRegistered req)) [] (register ext req)
  unfolding register publish_user_event
  register-IsRegistered req =
      after_part (IsRegistered req) [] (IsStored req) (AuthService.register ext req) _
        (register-IsStored req)
        (λ tr account is_stored sent. record {
          account = account;
          is_stored = IsStored-later req tr account _ is_stored;
          sent = sent;
          published = here;
          status = refl;
        })

-- When the registration endpoint answers with success, then, whatever else happened meanwhile: the
-- password has at least eight bytes; a user with the given e-mail and the password's hash under
-- some salt was stored; a registration event with that user's id and e-mail was sent, under the id
-- as its key, with a reply that may be an error; and the status is 201.
pub register_endpoint-IsRegistered :
    (ext : External) (env : Env) (n : ℕ) (w : World) (req : RegisterRequest) {resp : HttpResponse}
    → (run (machine env) n (register ext req) w).0 ≡ ok resp
    → IsRegistered ext req (trace (machine env) n (register ext req) w []) resp
register_endpoint-IsRegistered ext env n w req {resp} e =
    succeeded (machine env) (IsRegistered ext req) (register ext req) n w
      (register-IsRegistered ext req) e
