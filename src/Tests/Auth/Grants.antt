-- ===== src/Tests/Auth/Grants.antt =====
-- The theorems on the grants of the token endpoint at a small database.
use rust_microservices_archi.Prelude.{◌≡◌, refl, true, false, none, [], ok, err, All}
use rust_microservices_archi.Prelude.Int.{pos}
use rust_microservices_archi.Prelude.Text.{split_whitespace}
use rust_microservices_archi.Effects.{trace}
use rust_microservices_archi.Prelude.{Result, Bool, true, false}
use rust_microservices_archi.Effects.{run}
use rust_microservices_archi.Auth.Errors.{ServiceError}
use rust_microservices_archi.Auth.Models.{TokenRequest, TokenResponse}
use rust_microservices_archi.Auth.Calls.{Env, exec, machine}
use rust_microservices_archi.Auth.Services.OAuthService.Exchange.{
  exchange_authorization_code, exchange_client_credentials, exchange_refresh_token, token,
}
use rust_microservices_archi.Auth.Services.OAuthService.Redemption.{
  IsRedeemed, exchanged_code-IsRedeemed,
}
use rust_microservices_archi.Auth.Repositories.AuthUserRepository
use rust_microservices_archi.Auth.Repositories.OAuthClientRepository
use rust_microservices_archi.Auth.Repositories.AuthorizationCodeRepository
use rust_microservices_archi.Auth.Repositories.RefreshTokenRepository
use rust_microservices_archi.Auth.Services.TokenService.{access_claims}
use rust_microservices_archi.Auth.Services.OAuthService.{validate_scopes}
use rust_microservices_archi.Auth.Services.OAuthService.Rotation.{
  IsRotated, exchanged_token-IsRotated,
}
use rust_microservices_archi.Auth.Services.OAuthService.Credentials.{
  IsGranted, client_token-IsGranted,
}
use rust_microservices_archi.Auth.Services.OAuthService.Refusals.{
  IsHarmless, refused_token-IsHarmless,
}
use rust_microservices_archi.Auth.Services.OAuthService.SingleUse.{
  IsSingleServer, redeemed_at_most_once,
}
use rust_microservices_archi.Tests.Codec.{show_id}
use rust_microservices_archi.Tests.Auth.{plain, settings, start, quiet, request_for, user_tokens}

exchanged_code-IsRedeemed_example :
    IsRedeemed plain settings
      (request_for "authorization_code")
      (trace
        (machine quiet)
        0
        (exchange_authorization_code plain settings (request_for "authorization_code"))
        start
        [])
      user_tokens
unfolding exchange_authorization_code exec OAuthClientRepository.find_by_client_id
    AuthorizationCodeRepository.find_by_code AuthorizationCodeRepository.mark_used
    AuthUserRepository.find_by_id RefreshTokenRepository.create access_claims
exchanged_code-IsRedeemed_example =
    exchanged_code-IsRedeemed plain settings quiet 0 start (request_for "authorization_code") refl

exchanged_token-IsRotated_example :
    IsRotated plain settings
      (request_for "refresh_token")
      (trace
        (machine quiet)
        0
        (exchange_refresh_token plain settings (request_for "refresh_token"))
        start
        [])
      user_tokens
unfolding exchange_refresh_token exec OAuthClientRepository.find_by_client_id
    RefreshTokenRepository.find_by_token RefreshTokenRepository.delete_by_token
    AuthUserRepository.find_by_id RefreshTokenRepository.create access_claims
exchanged_token-IsRotated_example =
    exchanged_token-IsRotated plain settings quiet 0 start (request_for "refresh_token") refl

abbrev client_tokens : TokenResponse
client_tokens = record {
  access_token = "app for app";
  refresh_token = none;
  token_type = "Bearer";
  expires_in = pos 900;
  scope = "read";
}

client_token-IsGranted_example :
    IsGranted plain settings
      (request_for "client_credentials")
      (trace
        (machine quiet)
        0
        (exchange_client_credentials plain settings (request_for "client_credentials"))
        start
        [])
      client_tokens
unfolding exchange_client_credentials exec OAuthClientRepository.find_by_client_id access_claims
    validate_scopes split_whitespace
client_token-IsGranted_example =
    client_token-IsGranted plain settings quiet 0 start (request_for "client_credentials") refl

-- At time 700 the refresh token has expired: the refusal deletes it.
abbrev late : Env
late = record quiet { clock = λ n. 700 }

refused_token-IsHarmless_example :
    All
      (IsHarmless (request_for "refresh_token"))
      (trace (machine late) 0 (token plain settings (request_for "refresh_token")) start [])
unfolding token exec OAuthClientRepository.find_by_client_id RefreshTokenRepository.find_by_token
    RefreshTokenRepository.delete_by_token
refused_token-IsHarmless_example =
    refused_token-IsHarmless plain settings late 0 start (request_for "refresh_token") refl refl

-- One server behind both pools.
abbrev one_server : Env
one_server = record quiet { before = λ n w. record w { read = w.write } }

one_server-IsSingleServer : IsSingleServer one_server "code"
one_server-IsSingleServer = record { synced = λ n w. refl; issued = λ n w h. h; spent = λ n w h. h }

abbrev code_request : TokenRequest
code_request = request_for "authorization_code"

redeemed_at_most_once_example : ¬ (
    (run
      (machine one_server)
      20
      (exchange_authorization_code plain settings code_request)
      (run
        (machine one_server)
        0
        (exchange_authorization_code plain settings code_request)
        start).2).0
    ≡ ok user_tokens)
unfolding exchange_authorization_code exec OAuthClientRepository.find_by_client_id
    AuthorizationCodeRepository.find_by_code AuthorizationCodeRepository.mark_used
    AuthUserRepository.find_by_id RefreshTokenRepository.create access_claims
redeemed_at_most_once_example =
    redeemed_at_most_once plain settings one_server "code" one_server-IsSingleServer 0 start
      code_request code_request {resp = user_tokens} refl refl refl refl 20 user_tokens

-- Where the replica lags behind (and Redis is down), the same code is redeemed twice.
abbrev lagging : Env
lagging = record quiet { uuid = show_id; redis_up = λ n. false }

abbrev is_ok : Result ServiceError TokenResponse → Bool
is_ok (ok resp) = true
is_ok (err e) = false

redeemed_twice :
    is_ok
      (run
        (machine lagging)
        20
        (exchange_authorization_code plain settings code_request)
        (run
          (machine lagging)
          0
          (exchange_authorization_code plain settings code_request)
          start).2).0
    ≡ true
unfolding exchange_authorization_code exec OAuthClientRepository.find_by_client_id
    AuthorizationCodeRepository.find_by_code AuthorizationCodeRepository.mark_used
    AuthUserRepository.find_by_id RefreshTokenRepository.create access_claims
redeemed_twice = refl
