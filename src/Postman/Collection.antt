-- ===== src/Postman/Collection.antt =====
-- The items, folders and collection of postman/generator/src/main.rs. `none` is a panic, which the
-- script of a request with an empty list of accepted statuses causes.
pub mod Skipped
use rust_microservices_archi.Prelude.{
  ℕ, ◌+◌, String, Bool, true, false, Option, none, some, List, [], ◌∷◌, ◌++◌, map, length, get_or,
  if◌then◌else◌,
}
use rust_microservices_archi.Prelude.Chain.{◌>>=◌}
use rust_microservices_archi.Postman.Value.{
  Value, Members, string, array, object, end, insert, json_object, json_array, External,
}
use rust_microservices_archi.Postman.Overlay.{
  HashMap, find_key, RequestConfig, FolderConfig, Overlay, VariableValue,
}
use rust_microservices_archi.Postman.Operations.{OperationInfo}
use rust_microservices_archi.Postman.Script.{build_test_script}
use rust_microservices_archi.Postman.Requests.{
  build_auth, build_custom_request, build_openapi_request, insert_some,
}

abbrev pub event_of : (listen : String) → List String → Value
event_of listen lines = json_object (
    ("listen", string listen)
    ∷ ("script", json_object (("exec", array (json_array (map string lines))) ∷ []))
    ∷ [])

-- The script that the overlay has under the name, if it has one.
abbrev pub prerequest_events : Option (List String) → List Value
prerequest_events none = []
prerequest_events (some lines) = event_of "prerequest" lines ∷ []

abbrev pub test_events : List String → List Value
test_events [] = []
test_events (line ∷ lines) = event_of "test" (line ∷ lines) ∷ []

abbrev pub with_events : List Value → Members → Members
with_events [] item = item
with_events (e ∷ es) item = insert "event" (array (json_array (e ∷ es))) item

module _ (ext : External) where
  unfoldable pub build_request : RequestConfig → HashMap (HashMap OperationInfo) → Option Value
  unfolding build_custom_request build_openapi_request
  build_request rc operations =
      if get_or false rc.custom
      then some (build_custom_request ext rc)
      else build_openapi_request ext rc operations

  -- The item of a request, from its scripts.
  unfoldable pub item_of : RequestConfig → Overlay → List String → Value → Value
  unfolding insert
  item_of rc overlay test_lines request =
      let item : Members = insert "request" request (insert "name" (string rc.name) end) in
      let script = rc.prerequest >>= λ name. find_key name overlay.scripts in
      object (with_events (prerequest_events script ++ test_events test_lines) item)

  -- `build_item`: a panic, or an item, or none.
  abbrev pub item_when : RequestConfig → Overlay → Option Value → Option (Option Value)
  item_when rc overlay none = some none
  item_when rc overlay (some request) =
      build_test_script rc >>= λ lines. some (some (item_of rc overlay lines request))

  unfoldable pub build_item :
      RequestConfig → HashMap (HashMap OperationInfo) → Overlay → Option (Option Value)
  unfolding build_request item_of build_test_script
  build_item rc operations overlay = item_when rc overlay (build_request rc operations)

  abbrev pub push_item : Option Value → List Value → List Value
  push_item none items = items
  push_item (some item) items = item ∷ items

  -- `filter_map` over the requests.
  unfoldable pub build_items :
      List RequestConfig → HashMap (HashMap OperationInfo) → Overlay → Option (List Value)
  unfolding build_item
  build_items [] operations overlay = some []
  build_items (rc ∷ rcs) operations overlay =
      let rest = build_items rcs operations overlay in
      do item ← build_item rc operations overlay; items ← rest; some (push_item item items)

  unfoldable pub folder_of : FolderConfig → List Value → Value
  unfolding insert build_auth
  folder_of folder items =
      let f : Members =
        insert "item" (array (json_array items)) (insert "name" (string folder.name) end) in
      let described = insert_some ext "description" string folder.description f in
      object (insert_some ext "auth" build_auth folder.auth described)

  unfoldable pub build_folder :
      FolderConfig → HashMap (HashMap OperationInfo) → Overlay → Option Value
  unfolding build_items folder_of
  build_folder folder operations overlay =
      build_items folder.requests operations overlay >>= λ items. some (folder_of folder items)

  unfoldable pub build_folders :
      List FolderConfig → HashMap (HashMap OperationInfo) → Overlay → Option (List Value)
  unfolding build_folder
  build_folders [] operations overlay = some []
  build_folders (fc ∷ fcs) operations overlay =
      let rest = build_folders fcs operations overlay in
      do f ← build_folder fc operations overlay; fs ← rest; some (f ∷ fs)

  abbrev pub variable_of : String × VariableValue → Value
  variable_of (k, v) =
      json_object (("key", string k) ∷ ("value", string v.value) ∷ ("type", string "string") ∷ [])

  unfoldable pub generate_collection : Overlay → HashMap (HashMap OperationInfo) → Option Value
  unfolding insert build_folders
  generate_collection overlay operations = do
    folders ← build_folders overlay.folders operations overlay
    some (
        json_object (
          (
            "info",
            json_object (
                ("name", string overlay.info.name)
                ∷ ("description", string overlay.info.description)
                ∷ (
                  "schema",
                  string "https://schema.getpostman.com/json/collection/v2.1.0/collection.json",
                )
                ∷ []),
          )
          ∷ ("variable", array (json_array (map variable_of overlay.variables)))
          ∷ ("item", array (json_array folders))
          ∷ []))

-- The total that `main` prints.
unfoldable pub total_requests : List FolderConfig → ℕ
total_requests [] = 0
total_requests (f ∷ fs) = length f.requests + total_requests fs
