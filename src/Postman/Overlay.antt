-- ===== src/Postman/Overlay.antt =====
-- The overlay of postman/generator/src/main.rs. A `HashMap` is the list of its entries in the order
-- in which it is iterated, with distinct keys.
pub mod Lookup
use rust_microservices_archi.Prelude.{
  ℕ, String, Bool, not, Option, none, some, List, [], ◌∷◌, keep, ◌==◌, if◌then◌else◌,
}
use rust_microservices_archi.Postman.Value.{Value}

abbrev pub HashMap : Type 0 → Type 0
HashMap A = List (String × A)

-- `map.get(key)`.
abbrev pub find_key : {A : Type 0} → String → HashMap A → Option A
find_key k [] = none
find_key k ((j, a) ∷ rest) = if j == k then some a else find_key k rest

abbrev pub without_key : {A : Type 0} → String → HashMap A → HashMap A
without_key k = keep (λ e. not (e.0 == k))

-- `map.insert(key, value)`.
abbrev pub put : {A : Type 0} → String → A → HashMap A → HashMap A
put k a map = (k, a) ∷ without_key k map

pub record Cli : Type 0 where
  pub offline : Bool
  pub overlay : Option String
  pub output : Option String

pub record OverlayInfo : Type 0 where
  pub name : String
  pub description : String

pub record ServiceConfig : Type 0 where
  pub openapi_url : String

pub record VariableValue : Type 0 where
  pub value : String

pub record AuthConfig : Type 0 where
  pub auth_type : String
  pub token : String

pub record RequestConfig : Type 0 where
  pub name : String
  pub operation : Option String
  pub service : Option String
  pub url_base : Option String
  pub path_params : Option (HashMap String)
  pub query_override : Option (HashMap String)
  pub custom : Option Bool
  pub method : Option String
  pub url : Option String
  pub content_type : Option String
  pub body : Option Value
  pub auth : Option AuthConfig
  pub prerequest : Option String
  pub save : Option (HashMap String)
  pub expect_status : Option ℕ
  pub accept_status : Option (List ℕ)

pub record FolderConfig : Type 0 where
  pub name : String
  pub description : Option String
  pub auth : Option AuthConfig
  pub requests : List RequestConfig

pub record Overlay : Type 0 where
  pub info : OverlayInfo
  pub services : HashMap ServiceConfig
  pub variables : HashMap VariableValue
  pub scripts : HashMap (List String)
  pub folders : List FolderConfig
