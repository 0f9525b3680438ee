-- ===== src/Auth/Errors.antt =====
-- auth-service/src/errors.rs: the service's errors and the HTTP responses that they become.
use rust_microservices_archi.Prelude.{ℕ, String, ◌<>◌}
use rust_microservices_archi.Json.{str, obj, end, field}
use rust_microservices_archi.Database.{SqlxError, row_not_found, database, other}
use rust_microservices_archi.Http.{HttpResponse}

pub data ServiceError : Type 0 where
  not_found : ServiceError
  internal_error : String → ServiceError
  unauthorized : String → ServiceError
  conflict : String → ServiceError
  invalid_client : String → ServiceError
  invalid_grant : String → ServiceError
  invalid_request : String → ServiceError

-- A panic ends a handler at once, as an error does, and the connection is dropped without an answer.
-- It stands for that here.
abbrev pub panicked : ServiceError
panicked = internal_error "panic"

-- `Display`.
unfoldable pub fmt : ServiceError → String
fmt not_found = "Resource not found"
fmt (internal_error msg) = "Internal error: " <> msg
fmt (unauthorized msg) = "Unauthorized: " <> msg
fmt (conflict msg) = "Conflict: " <> msg
fmt (invalid_client msg) = "Invalid client: " <> msg
fmt (invalid_grant msg) = "Invalid grant: " <> msg
fmt (invalid_request msg) = "Invalid request: " <> msg

abbrev described : ℕ → String → String → HttpResponse
described code error msg = record {
  status = code;
  body = obj (field "error" (str error) (field "error_description" (str msg) end));
}

unfoldable pub error_response : ServiceError → HttpResponse
error_response not_found = record { status = 404; body = obj (field "error" (str "not_found") end) }
error_response (internal_error msg) = described 500 "server_error" msg
error_response (unauthorized msg) = described 401 "access_denied" msg
error_response (conflict msg) = described 409 "conflict" msg
error_response (invalid_client msg) = described 401 "invalid_client" msg
error_response (invalid_grant msg) = described 400 "invalid_grant" msg
error_response (invalid_request msg) = described 400 "invalid_request" msg

-- `From<sqlx::Error>`.
unfoldable pub from_sqlx : SqlxError → ServiceError
from_sqlx row_not_found = not_found
from_sqlx (database unique_violation text) = internal_error text
from_sqlx (other text) = internal_error text
