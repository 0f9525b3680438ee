-- ===== src/Tests/Postman.antt =====
-- The generator of the Postman collection: concrete texts of values, and its theorems.
use mathlib.Core.Bool.{false≢true}
use mathlib.Core.Option.{some-injective}
use rust_microservices_archi.Prelude.{
  ◌≡◌, ◌≢◌, All, ◌||◌, refl, ap, subst, ℕ, ◌+◌, String, Bool, true, false, Option, none, some, List,
  [], ◌∷◌, length, keep, ◌==◌, if◌then◌else◌,
}
use rust_microservices_archi.Postman.Value.{Value, null, string, object, end, member, External}
use rust_microservices_archi.Postman.Overlay.{
  HashMap, find_key, RequestConfig, ServiceConfig, Overlay,
}
use rust_microservices_archi.Postman.Operations.{OperationInfo, operations_of}
use rust_microservices_archi.Postman.Operations.Entries.{Declares}
use rust_microservices_archi.Postman.Operations.Declared.{operations_of-Declares}
use rust_microservices_archi.Postman.Script.{parse_optional_field, build_test_script}
use rust_microservices_archi.Postman.Script.Braces.{scan_lines}
use rust_microservices_archi.Postman.Script.Balanced.{build_test_script-IsBalanced}
use rust_microservices_archi.Postman.Script.Optional.{parse_optional_field-lem}
use rust_microservices_archi.Postman.Collection.{build_item, push_item, build_items}
use rust_microservices_archi.Postman.Collection.Skipped.{
  is_skipped, build_items-length, build_items-panics,
}
use rust_microservices_archi.Postman.Specs.{
  Fetched, failed, success, Files, cached_path, load_specs, main,
}
use rust_microservices_archi.Postman.Specs.Frame.{main-keeps}
use rust_microservices_archi.Postman.Specs.Offline.{contains_key, load_specs-offline}

abbrev request : String → Option String → Option (List ℕ) → RequestConfig
request name operation accept = record {
  name = name;
  operation = operation;
  service = some "user";
  url_base = none;
  path_params = some (("id", "{{user_id}}") ∷ []);
  query_override = none;
  custom = none;
  method = none;
  url = none;
  content_type = none;
  body = none;
  auth = none;
  prerequest = none;
  save = some (("user_id", "id?") ∷ []);
  expect_status = none;
  accept_status = accept;
}

abbrev create : RequestConfig
create = request "Create" (some "createUser") (some (201 ∷ 409 ∷ []))

abbrev unknown : RequestConfig
unknown = request "Unknown" (some "noSuchOperation") (some [])

abbrev careless : RequestConfig
careless = request "Careless" (some "createUser") (some [])

-- A specification with one operation, and a path entry that is none.
abbrev spec : Value
spec = object (
    member "paths"
      (object (
        member "/users"
          (object (
            member "parameters" null
              (member "post" (object (member "operationId" (string "createUser") end)) end)))
          end))
      end)

abbrev created : OperationInfo
created = record { method = "POST"; path = "/users"; content_type = none }

-- Texts for the one specification that is printed here.
abbrev pretty : Value → String
pretty (object ms) = "spec"
pretty _ = "null"

abbrev read_text : String → Option Value
read_text s = if s == "spec" then some spec else if s == "null" then some null else none

abbrev texts : External
texts = record { to_string = pretty; to_string_pretty = pretty; from_str = read_text }

abbrev operations : HashMap (HashMap OperationInfo)
operations = ("user", ("createUser", created) ∷ []) ∷ []

abbrev overlay : Overlay
overlay = record {
  info = record { name = "Services"; description = "" };
  services = [];
  variables = [];
  scripts = [];
  folders = [];
}

abbrev script : List String
script =
    "if (pm.response.code === 201) {" ∷ "    var json = pm.response.json();" ∷ "    if (json.id) {"
    ∷ "        pm.collectionVariables.set('user_id', json.id);" ∷ "    }"
    ∷ "    pm.test('Create - success', function () {" ∷ "        pm.response.to.have.status(201);"
    ∷ "    });" ∷ "} else if (pm.response.code === 409) {"
    ∷ "    pm.test('Create - already exists (OK)', function () {"
    ∷ "        pm.response.to.have.status(409);" ∷ "    });" ∷ "}" ∷ []

create-script : build_test_script create ≡ some script
unfolding build_test_script
create-script = refl

build_test_script-IsBalanced_example : scan_lines 0 script ≡ some 0
build_test_script-IsBalanced_example =
    build_test_script-IsBalanced create script refl ((refl, refl), tt) create-script

kept : find_key "createUser" (operations_of spec) ≡ some created
unfolding operations_of
kept = refl

operations_of-Declares_example : Declares spec "createUser" created
operations_of-Declares_example = (operations_of-Declares spec "createUser").0 created kept

parse_optional_field-lem_example : parse_optional_field "id?" ≡ ("id", true)
parse_optional_field-lem_example = (parse_optional_field-lem "id?" "id").0.1 refl

-- The items of a folder whose second request names no operation of the specification.
abbrev items : List Value
items = elim (build_item texts create operations overlay) [
  | none ↦ []
  | some item ↦ push_item texts item []
]

built : build_items texts (create ∷ unknown ∷ []) operations overlay ≡ some items
unfolding build_items
built = refl

build_items-length_example :
    length items + length (keep (is_skipped operations) (create ∷ unknown ∷ [])) ≡ 2
build_items-length_example =
    build_items-length texts operations overlay (create ∷ unknown ∷ []) items built

build_items-panics_example : build_items texts (unknown ∷ careless ∷ []) operations overlay ≡ none
build_items-panics_example =
    (build_items-panics texts operations overlay (unknown ∷ careless ∷ [])).1 refl

-- One service answers, the other is read from its file. Every path leads to the file of its own text.
abbrev services : HashMap ServiceConfig
services =
    ("auth", record { openapi_url = "http://auth/openapi.json" })
    ∷ ("user", record { openapi_url = "http://user/openapi.json" })
    ∷ []

abbrev services_again : HashMap ServiceConfig
services_again =
    ("user", record { openapi_url = "http://user/openapi.json" })
    ∷ ("auth", record { openapi_url = "http://auth/openapi.json" })
    ∷ []

abbrev network : String → Fetched
network url = if url == "http://user/openapi.json" then success (some spec) else failed

abbrev anywhere : String → Bool
anywhere path = true

abbrev nowhere : String → Bool
nowhere path = false

abbrev itself : String → String
itself path = path

abbrev before : Files
before = ("cache/auth-service.json", "null") ∷ ("overlay.json", "overlay") ∷ []

abbrev after : Files
after = ("cache/user-service.json", "spec") ∷ before

abbrev loaded : HashMap Value
loaded = ("user", spec) ∷ ("auth", null) ∷ []

online :
    load_specs texts itself network anywhere false "cache" services before ≡ some (loaded, after)
unfolding load_specs
online = refl

abbrev body : Fetched → Value
body (success (some v)) = v
body _ = null

swap : (a b : Bool) → (a || (b || false)) ≡ (b || (a || false))
swap true true = refl
swap true false = refl
swap false true = refl
swap false false = refl

same_names : (name : String) → contains_key name services_again ≡ contains_key name services
same_names name = swap ("user" == name) ("auth" == name)

own_files : ◌≢◌ {A = String} "cache/user-service.json" "cache/auth-service.json"
own_files e = false≢true (ap (λ k. k == "cache/auth-service.json") e)

load_specs-offline_example :
    (specs' : HashMap Value) × (load_specs texts itself
        (λ url. failed)
        nowhere
        true
        "cache"
        services_again
        after
      ≡ some (specs', after))
    × ((name : String) → find_key name specs' ≡ find_key name loaded)
unfolding cached_path
load_specs-offline_example =
    load_specs-offline texts itself "cache" anywhere nowhere network (λ url. failed) services
      services_again loaded before after
      (λ s e. cc, (λ s e. subst (λ v. read_text (pretty v) ≡ some v) (ap body e) refl, tt))
      (refl, (refl, tt)) ((own_files, tt), (tt, tt)) same_names online

-- A run in the directory p, with these services and no folders.
abbrev whole : Overlay
whole = record overlay { services = services }

abbrev project : Files
project = ("p/openapi/auth-service.json", "null") ∷ ("p/overlay.json", "overlay") ∷ []

abbrev generated : Files
generated =
    ("p/Rust_Microservices.postman_collection.json", "spec")
    ∷ ("p/openapi/user-service.json", "spec")
    ∷ project

defaults :
    main texts itself network anywhere
      (λ text. some whole)
      "p"
      (record { offline = false; overlay = none; output = none })
      project
    ≡ some (generated, 0)
unfolding main
defaults = refl

main-keeps_example : find_key "p/overlay.json" generated ≡ find_key "p/overlay.json" project
unfolding cached_path
main-keeps_example =
    main-keeps texts itself network anywhere (λ text. some whole) "p" "p/overlay.json"
      (record { offline = false; overlay = none; output = none }) project generated 0 defaults
      (λ e. false≢true (ap (λ k. k == "p/overlay.json") e))
      (λ text o read decoded.
        subst
          (λ (v : Overlay). All (λ e. cached_path "p/openapi" e.0 ≢ "p/overlay.json") v.services)
          (some-injective _ _ decoded)
          (
            λ e. false≢true (ap (λ k. k == "p/overlay.json") e),
            (λ e. false≢true (ap (λ k. k == "p/overlay.json") e), tt),
          ))
