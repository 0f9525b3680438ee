-- ===== src/Http.antt =====
-- The part of actix-web's responses that the handlers choose: a status and a JSON body; `null` for
-- the empty body of `finish()`.
use rust_microservices_archi.Prelude.{ℕ}
use rust_microservices_archi.Json.{Json}

pub record HttpResponse : Type 0 where
  pub status : ℕ
  pub body : Json
