-- ===== src/Tests/Auth/Lifetime.antt =====
-- The theorems on the exchange of a valid code, the expiry of access tokens and a taken e-mail address.
use rust_microservices_archi.Prelude.{◌≡◌, refl, some, [], ◌∷◌, ok, err, arith}
use rust_microservices_archi.Prelude.Int.{negsuc}
use rust_microservices_archi.Effects.{run}
use rust_microservices_archi.Auth.Models.{TokenResponse, RegisterRequest}
use rust_microservices_archi.Auth.Errors.{conflict}
use rust_microservices_archi.Auth.Controllers.{register}
use rust_microservices_archi.Auth.Controllers.Conflict.{taken_email-Conflict}
use rust_microservices_archi.Auth.Calls.{exec, machine}
use rust_microservices_archi.Auth.Services.TokenService.{access_claims}
use rust_microservices_archi.Auth.Services.TokenService.Expiry.{access_claims-exp}
use rust_microservices_archi.Auth.Services.OAuthService.Readiness.{
  Grant, IsServing, IsReady, IsUndisturbed,
}
use rust_microservices_archi.Auth.Services.OAuthService.Completion.{IsValid, valid_code-IsExchanged}
use rust_microservices_archi.Auth.Services.OAuthService.Exchange.{exchange_authorization_code}
use rust_microservices_archi.Tests.Auth.{
  plain, settings, quiet, alice, app, fresh_code, stored, start, request_for,
}

abbrev grant : Grant
grant = record { client = app; code = fresh_code; user = alice }

stored-IsServing : IsServing quiet grant stored
stored-IsServing = record { has_user = refl; is_new = λ n. refl }

stored-IsReady : IsReady quiet grant stored
stored-IsReady = record { serving = stored-IsServing; has_client = refl; has_code = refl }

quiet-IsUndisturbed : IsUndisturbed quiet grant
quiet-IsUndisturbed = record { no_fault = λ n. refl; ready = λ n w h. h; serving = λ n w h. h }

request-IsValid : IsValid plain settings quiet (request_for "authorization_code") grant
request-IsValid = record {
  verifier = "verifier";
  code_given = refl;
  redirect_given = refl;
  verifier_given = refl;
  same_client = refl;
  code_client = refl;
  hash_parses = refl;
  secret = refl;
  unused = refl;
  alive = λ n. refl;
  pkce = refl;
  signs = λ n. (_, refl);
  lasts = λ n. (_, refl);
}

valid_code-IsExchanged_example :
    (resp : TokenResponse) × ((run
        (machine quiet)
        0
        (exchange_authorization_code plain settings (request_for "authorization_code"))
        start).0
      ≡ ok resp)
unfolding exec
valid_code-IsExchanged_example =
    valid_code-IsExchanged plain settings quiet (request_for "authorization_code") grant
      quiet-IsUndisturbed request-IsValid 0 start (stored-IsReady, stored-IsReady) refl

-- A token that has expired when it is signed.
access_claims-exp_example :
    (access_claims plain 1000 "1" (some "alice@example.org") "app" "read" (negsuc 99)).exp ≡ 900
access_claims-exp_example =
    (access_claims-exp plain 1000 "1" (some "alice@example.org") "app" "read" (negsuc 99)).1 900
      refl (omega arith) (omega arith)

abbrev second_alice : RegisterRequest
second_alice = record { email = "alice@example.org"; password = "longpassword" }

taken_email-Conflict_example :
    (let (result, _, left) = run (machine quiet) 0 (register plain second_alice) start in
      (result ≡ err (conflict "Email already registered"))
      × (left.write.auth_users.rows ≡ alice ∷ [])
      × (left.events ≡ []))
taken_email-Conflict_example =
    taken_email-Conflict plain quiet 0 start second_alice "longpassword" refl refl refl refl
