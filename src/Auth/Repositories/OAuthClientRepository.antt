-- ===== src/Auth/Repositories/OAuthClientRepository.antt =====
-- auth-service/src/repositories/oauth_client_repository.rs
use rust_microservices_archi.Prelude.{ℕ, String, true, none, some, Result, any, ◌==◌, if◌then◌else◌}
use rust_microservices_archi.Database.{SqlxError, database, select_one, insert_row}
use rust_microservices_archi.Auth.Models.{OAuthClient, NewOAuthClient, Time}
use rust_microservices_archi.Auth.Tables.{AuthDb}

-- The row that the statement stores under an id.
abbrev pub inserted : Time → NewOAuthClient → ℕ → OAuthClient
inserted now new_client id = record {
  id = id;
  client_id = new_client.client_id;
  client_secret_hash = new_client.client_secret_hash;
  client_name = new_client.client_name;
  redirect_uri = new_client.redirect_uri;
  scopes = new_client.scopes;
  created_at = now;
}

-- INSERT INTO oauth_clients (client_id, …) …; `client_id` is UNIQUE.
unfoldable pub create :
    (String → String) → Time → NewOAuthClient → AuthDb → Result SqlxError OAuthClient × AuthDb
unfolding insert_row
create refused now new_client db =
    let taken = any (λ c. c.client_id == new_client.client_id) db.oauth_clients.rows in
    let (r, t) =
      insert_row (if taken then some (database true (refused "client_id")) else none)
        (inserted now new_client) db.oauth_clients in
    (r, record db { oauth_clients = t })

-- SELECT … FROM oauth_clients WHERE client_id = $1
unfoldable pub find_by_client_id : String → AuthDb → Result SqlxError OAuthClient
unfolding select_one
find_by_client_id cid db = select_one (λ c. c.client_id == cid) db.oauth_clients
