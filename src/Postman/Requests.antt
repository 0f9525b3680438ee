-- ===== src/Postman/Requests.antt =====
-- The requests of postman/generator/src/main.rs.
use rust_microservices_archi.Prelude.{
  String, ◌<>◌, Option, none, some, List, [], ◌∷◌, map, get_or, ◌==◌, if◌then◌else◌,
}
use rust_microservices_archi.Prelude.Chain.{◌>>=◌}
use rust_microservices_archi.Postman.Value.{
  Value, Members, string, array, object, end, member, insert, as_object, json_object, json_array,
  External,
}
use rust_microservices_archi.Postman.Text.{replace, split, trim_start_matches, join}
use rust_microservices_archi.Postman.Overlay.{HashMap, find_key, AuthConfig, RequestConfig}
use rust_microservices_archi.Postman.Operations.{OperationInfo}

unfoldable pub build_auth : AuthConfig → Value
unfolding insert
build_auth auth = json_object (
    ("type", string auth.auth_type)
    ∷ (
      "bearer",
      array (
          json_array
            (json_object (("key", string "token") ∷ ("value", string auth.token) ∷ []) ∷ [])),
    )
    ∷ [])

abbrev pub key_value : String → String → Value
key_value k v = json_object (("key", string k) ∷ ("value", string v) ∷ [])

module _ (ext : External) where
  abbrev pub text_of : Value → String
  text_of (string s) = s
  text_of other = ext.to_string other

  abbrev pub urlencoded : Members → List Value
  urlencoded end = []
  urlencoded (member k v ms) = key_value k (text_of v) ∷ urlencoded ms

  abbrev pub urlencoded_of : Option Members → List Value
  urlencoded_of none = []
  urlencoded_of (some ms) = urlencoded ms

  unfoldable pub build_body : String → Value → Value
  unfolding insert
  build_body content_type body =
      if content_type == "application/x-www-form-urlencoded"
      then json_object (
          ("mode", string "urlencoded")
          ∷ ("urlencoded", array (json_array (urlencoded_of (as_object body))))
          ∷ [])
      else json_object (("mode", string "raw") ∷ ("raw", string (ext.to_string_pretty body)) ∷ [])

  -- `obj.insert` where the overlay has something.
  abbrev pub insert_some : {A : Type 0} → String → (A → Value) → Option A → Members → Members
  insert_some k f none req = req
  insert_some k f (some a) req = insert k (f a) req

  abbrev pub header_of : String → Value
  header_of ct = array (json_array (key_value "Content-Type" ct ∷ []))

  unfoldable pub build_custom_request : RequestConfig → Value
  unfolding insert build_body build_auth
  build_custom_request rc =
      let req : Members =
        insert "url" (string (get_or "" rc.url))
          (insert "method" (string (get_or "GET" rc.method)) end) in
      let with_header = insert_some "header" header_of rc.content_type req in
      let with_body =
        insert_some "body" (build_body (get_or "application/json" rc.content_type)) rc.body
          with_header in
      object (insert_some "auth" build_auth rc.auth with_body)

-- `path.replace("{param}", value)` for each parameter, in the order of the map.
unfoldable pub substitute : HashMap String → String → String
unfolding replace
substitute [] path = path
substitute ((param, value) ∷ params) path =
    substitute params (replace ("{" <> param <> "}") value path)

abbrev pub params_of : Option (HashMap String) → HashMap String
params_of none = []
params_of (some params) = params

unfoldable pub query_string : HashMap String → String
unfolding join
query_string query = join "&" (map (λ e. e.0 <> "=" <> e.1) query)

unfoldable pub url_of : (base path : String) → Option (HashMap String) → Value
unfolding insert query_string split trim_start_matches
url_of base path none = string (base <> path)
url_of base path (some query) = json_object (
    ("raw", string (base <> path <> "?" <> query_string query))
    ∷ ("host", array (json_array (string base ∷ [])))
    ∷ ("path", array (json_array (map string (split b'/' (trim_start_matches b'/' path)))))
    ∷ ("query", array (json_array (map (λ e. key_value e.0 e.1) query)))
    ∷ [])

module _ (ext : External) where
  abbrev pub insert_body : String → Option Value → Members → Members
  insert_body ct none req = req
  insert_body ct (some body) req =
      insert "body" (build_body ext ct body) (insert "header" (header_of ext ct) req)

  -- The request of an operation that was found.
  unfoldable pub operation_request : RequestConfig → OperationInfo → Value
  unfolding insert build_body build_auth substitute url_of
  operation_request rc op =
      let base = "{{" <> get_or "gateway_url" rc.url_base <> "}}" in
      let url = url_of base (substitute (params_of rc.path_params) op.path) rc.query_override in
      let req : Members = insert "url" url (insert "method" (string op.method) end) in
      let with_body = insert_body (get_or "application/json" op.content_type) rc.body req in
      object (insert_some ext "auth" build_auth rc.auth with_body)

  unfoldable pub build_openapi_request :
      RequestConfig → HashMap (HashMap OperationInfo) → Option Value
  unfolding operation_request
  build_openapi_request rc operations = do
    service ← rc.service
    op_id ← rc.operation
    ops ← find_key service operations
    op ← find_key op_id ops
    some (operation_request rc op)
