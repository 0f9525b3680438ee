-- ===== src/Postman/Operations.antt =====
-- `parse_specs` of postman/generator/src/main.rs: the operations of each specification by their ids.
pub mod Entries
pub mod Declared
use rust_microservices_archi.Prelude.{
  String, Bool, Option, none, some, List, [], ◌∷◌, ◌==◌, if◌then◌else◌,
}
use rust_microservices_archi.Prelude.Chain.{◌>>=◌}
use rust_microservices_archi.Postman.Value.{
  Value, Members, end, member, get, lookup, as_object, as_str,
}
use rust_microservices_archi.Postman.Overlay.{HashMap, put}

pub record OperationInfo : Type 0 where
  pub method : String
  pub path : String
  pub content_type : Option String

-- The names of methods that are operations, in upper case.
unfoldable pub to_method : String → Option String
to_method m =
    if m == "get"
    then some "GET"
    else if m == "post"
    then some "POST"
    else if m == "put"
    then some "PUT"
    else if m == "delete"
    then some "DELETE"
    else if m == "patch"
    then some "PATCH"
    else none

abbrev contains_key : String → Members → Bool
contains_key k ms = elim (lookup k ms) [ none ↦ Bool.false | some v ↦ Bool.true ]

abbrev pub preferred_type : Members → Option String
preferred_type c =
    if contains_key "application/json" c
    then some "application/json"
    else if contains_key "application/x-www-form-urlencoded" c
    then some "application/x-www-form-urlencoded"
    else none

unfoldable pub content_type_of : Value → Option String
content_type_of details =
    get "requestBody" details >>= get "content" >>= as_object >>= preferred_type

-- The operation that an entry of a path describes: its id and what is kept of it.
unfoldable pub operation_of : (path method : String) → Value → Option (String × OperationInfo)
unfolding to_method content_type_of
operation_of path method details = do
  upper ← to_method method
  op_id ← get "operationId" details >>= as_str
  some (op_id, record { method = upper; path = path; content_type = content_type_of details })

abbrev pub put_operation :
    Option (String × OperationInfo) → HashMap OperationInfo → HashMap OperationInfo
put_operation none ops = ops
put_operation (some (op_id, info)) ops = put op_id info ops

-- The loops over the methods of a path and over the paths of a specification.
unfoldable pub add_methods :
    (path : String) → Members → HashMap OperationInfo → HashMap OperationInfo
unfolding operation_of
add_methods path end ops = ops
add_methods path (member method details rest) ops =
    add_methods path rest (put_operation (operation_of path method details) ops)

abbrev pub add_path : String → Option Members → HashMap OperationInfo → HashMap OperationInfo
add_path path none ops = ops
add_path path (some methods) ops = add_methods path methods ops

unfoldable pub add_paths : Members → HashMap OperationInfo → HashMap OperationInfo
unfolding add_methods
add_paths end ops = ops
add_paths (member path methods rest) ops = add_paths rest (add_path path (as_object methods) ops)

abbrev pub paths_operations : Option Members → HashMap OperationInfo
paths_operations none = []
paths_operations (some paths) = add_paths paths []

unfoldable pub operations_of : Value → HashMap OperationInfo
unfolding add_paths
operations_of spec = paths_operations (get "paths" spec >>= as_object)

unfoldable pub parse_into :
    HashMap Value → HashMap (HashMap OperationInfo) → HashMap (HashMap OperationInfo)
unfolding operations_of
parse_into [] all_ops = all_ops
parse_into ((service, spec) ∷ rest) all_ops =
    parse_into rest (put service (operations_of spec) all_ops)

unfoldable pub parse_specs : HashMap Value → HashMap (HashMap OperationInfo)
unfolding parse_into
parse_specs specs = parse_into specs []
