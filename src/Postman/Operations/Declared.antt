-- ===== src/Postman/Operations/Declared.antt =====
-- What a specification of postman/generator/src/main.rs declares, and what `parse_specs` keeps of it.
use mathlib.Core.Option.{some-injective}
use rust_microservices_archi.Prelude.{
  ◌≡◌, sym, ◌∙◌, ap, subst, refl, inl, inr, String, Option, none, some, [], ◌==◌, eq_refl,
  Bool-cases, if◌then◌else◌,
}
use rust_microservices_archi.Prelude.Chain.{◌>>=◌}
use rust_microservices_archi.Postman.Value.{Value, Members, end, member, get, as_object}
use rust_microservices_archi.Postman.Overlay.{HashMap, find_key, put}
use rust_microservices_archi.Postman.Overlay.Lookup.{find_key-put, find_key-put_cases}
use rust_microservices_archi.Postman.Operations.{
  OperationInfo, operation_of, put_operation, add_methods, add_path, add_paths, paths_operations,
  operations_of,
}
use rust_microservices_archi.Postman.Operations.Entries.{
  Has, here, there, Describes, InMethods, InPaths, Declares, operation_of-Describes,
}

-- The maps of which each entry is among some operations, and those that have an id.
abbrev AreAmong : (String → OperationInfo → Type 0) → HashMap OperationInfo → Type 0
AreAmong Q ops =
    (op_id : String) (info : OperationInfo) → find_key op_id ops ≡ some info → Q op_id info

abbrev IsFound : String → HashMap OperationInfo → Type 0
IsFound op_id ops = (info : OperationInfo) × (find_key op_id ops ≡ some info)

module _ (Q : String → OperationInfo → Type 0) where
  put_operation-AreAmong :
      (o : Option (String × OperationInfo)) (ops : HashMap OperationInfo)
      → AreAmong Q ops
      → ((op_id : String) (info : OperationInfo) → o ≡ some (op_id, info) → Q op_id info)
      → AreAmong Q (put_operation o ops)
  put_operation-AreAmong none ops h k op_id info e = h op_id info e
  put_operation-AreAmong (some (new, i)) ops h k op_id info e =
      elim (find_key-put_cases new op_id i info ops e) [
        | inl (same, equal) ↦
            k op_id info (ap (λ x. some (x, i)) same ∙ ap (λ x. some (op_id, x)) equal)
        | inr before ↦ h op_id info before
      ]

  add_methods-AreAmong :
      (path : String) (ms : Members) (ops : HashMap OperationInfo)
      → AreAmong Q ops
      → ((op_id : String) (info : OperationInfo) → InMethods path ms op_id info → Q op_id info)
      → AreAmong Q (add_methods path ms ops)
  unfolding add_methods
  add_methods-AreAmong path end ops h k = h
  add_methods-AreAmong path (member m d ms) ops h k =
      add_methods-AreAmong path ms (put_operation (operation_of path m d) ops)
        (put_operation-AreAmong (operation_of path m d) ops h
          (λ o i e. k o i (m, d, here, (operation_of-Describes path m d o i).0 e)))
        (λ o i (m', d', there', that). k o i (m', d', there there', that))

  add_path-AreAmong :
      (path : String) (v : Value) (ms : Option Members) (ops : HashMap OperationInfo)
      → AreAmong Q ops
      → ((op_id : String) (info : OperationInfo) (l : Members)
          → ms ≡ some l
          → InMethods path l op_id info
          → Q op_id info)
      → AreAmong Q (add_path path ms ops)
  add_path-AreAmong path v none ops h k = h
  add_path-AreAmong path v (some ms) ops h k =
      add_methods-AreAmong path ms ops h (λ o i that. k o i ms refl that)

  add_paths-AreAmong :
      (paths : Members) (ops : HashMap OperationInfo)
      → AreAmong Q ops
      → ((op_id : String) (info : OperationInfo) → InPaths paths op_id info → Q op_id info)
      → AreAmong Q (add_paths paths ops)
  unfolding add_paths
  add_paths-AreAmong end ops h k = h
  add_paths-AreAmong (member path v paths) ops h k =
      add_paths-AreAmong paths (add_path path (as_object v) ops)
        (add_path-AreAmong path v (as_object v) ops h
          (λ o i ms e that. k o i (path, v, ms, here, e, that)))
        (λ o i (p, w, ms, at, e, that). k o i (p, w, ms, there at, e, that))

put-IsFound :
    (op_id k : String) (a : OperationInfo) (ops : HashMap OperationInfo)
    → IsFound op_id ops
    → IsFound op_id (put k a ops)
put-IsFound op_id k a ops (info, h) = elim (Bool-cases (k == op_id)) [
  | inl same ↦
      (a, find_key-put k op_id a ops ∙ ap (λ t. if t then some a else find_key op_id ops) same)
  | inr other ↦ (
    info,
    find_key-put k op_id a ops ∙ ap (λ t. if t then some a else find_key op_id ops) other ∙ h,
  )
]

put_operation-IsFound :
    (op_id : String) (o : Option (String × OperationInfo)) (ops : HashMap OperationInfo)
    → IsFound op_id ops
    → IsFound op_id (put_operation o ops)
put_operation-IsFound op_id none ops h = h
put_operation-IsFound op_id (some (k, a)) ops h = put-IsFound op_id k a ops h

add_methods-IsFound :
    (op_id path : String) (ms : Members) (ops : HashMap OperationInfo)
    → IsFound op_id ops
    → IsFound op_id (add_methods path ms ops)
unfolding add_methods
add_methods-IsFound op_id path end ops h = h
add_methods-IsFound op_id path (member m d ms) ops h =
    add_methods-IsFound op_id path ms _ (put_operation-IsFound op_id (operation_of path m d) ops h)

add_path-IsFound :
    (op_id path : String) (ms : Option Members) (ops : HashMap OperationInfo)
    → IsFound op_id ops
    → IsFound op_id (add_path path ms ops)
add_path-IsFound op_id path none ops h = h
add_path-IsFound op_id path (some ms) ops h = add_methods-IsFound op_id path ms ops h

add_paths-IsFound :
    (op_id : String) (paths : Members) (ops : HashMap OperationInfo)
    → IsFound op_id ops
    → IsFound op_id (add_paths paths ops)
unfolding add_paths
add_paths-IsFound op_id end ops h = h
add_paths-IsFound op_id (member path v paths) ops h =
    add_paths-IsFound op_id paths _ (add_path-IsFound op_id path (as_object v) ops h)

put_operation-IsFound_new :
    (op_id : String) (info : OperationInfo) (o : Option (String × OperationInfo))
    (ops : HashMap OperationInfo)
    → o ≡ some (op_id, info)
    → IsFound op_id (put_operation o ops)
put_operation-IsFound_new op_id info o ops e =
    subst (λ x. IsFound op_id (put_operation x ops)) (sym e)
      (
        info,
        find_key-put op_id op_id info ops
            ∙ ap (λ t. if t then some info else find_key op_id ops) (eq_refl op_id),
      )

add_methods-IsFound_new :
    (op_id path : String) (info : OperationInfo) (m : String) (d : Value) (ms : Members)
    (ops : HashMap OperationInfo)
    → Has ms m d
    → Describes path m d op_id info
    → IsFound op_id (add_methods path ms ops)
unfolding add_methods
add_methods-IsFound_new op_id path info m d end ops h e = elim h [ ]
add_methods-IsFound_new op_id path info m d (member _ _ ms) ops here e =
    add_methods-IsFound op_id path ms _ (
      put_operation-IsFound_new op_id info (operation_of path m d) ops
        ((operation_of-Describes path m d op_id info).1 e))
add_methods-IsFound_new op_id path info m d (member _ _ ms) ops (there h) e =
    add_methods-IsFound_new op_id path info m d ms _ h e

add_paths-IsFound_new :
    (op_id : String) (info : OperationInfo) (path : String) (v : Value) (ms paths : Members)
    (ops : HashMap OperationInfo)
    → Has paths path v
    → as_object v ≡ some ms
    → InMethods path ms op_id info
    → IsFound op_id (add_paths paths ops)
unfolding add_paths
add_paths-IsFound_new op_id info path v ms end ops h e that = elim h [ ]
add_paths-IsFound_new op_id info path v ms (member _ _ paths) ops here e (m, d, h, that) =
    add_paths-IsFound op_id paths _ (
      subst (λ o. IsFound op_id (add_path path o ops)) (sym e)
        (add_methods-IsFound_new op_id path info m d ms ops h that))
add_paths-IsFound_new op_id info path v ms (member _ _ paths) ops (there h) e that =
    add_paths-IsFound_new op_id info path v ms paths _ h e that

paths_operations-lem :
    (op_id : String) (paths : Option Members)
    → ((info : OperationInfo)
        → find_key op_id (paths_operations paths) ≡ some info
        → (l : Members) × (paths ≡ some l) × InPaths l op_id info)
      × ((info : OperationInfo)
          → ((l : Members) × (paths ≡ some l) × InPaths l op_id info)
          → IsFound op_id (paths_operations paths))
paths_operations-lem op_id none = (λ info e. cc, λ info (l, e, that). cc)
paths_operations-lem op_id (some paths) = (
  λ info e. (
    paths,
    refl,
    add_paths-AreAmong (InPaths paths) paths [] (λ o i f. cc) (λ o i that. that) op_id info e,
  ),
  λ info (l, e, (path, v, ms, at, o, that)).
      add_paths-IsFound_new op_id info path v ms paths []
        (subst (λ x. Has x path v) (sym (some-injective _ _ e)) at) o that,
)

-- What `parse_specs` keeps of a specification under an operation id is declared there: a path lists
-- one of the five methods with this id, and the kept path, upper-case method and content type are those
-- of that entry. And it keeps something under every id that is declared so.
pub operations_of-Declares :
    (spec : Value) (op_id : String)
    → ((info : OperationInfo)
        → find_key op_id (operations_of spec) ≡ some info
        → Declares spec op_id info)
      × ((info : OperationInfo)
          → Declares spec op_id info
          → (kept : OperationInfo) × (find_key op_id (operations_of spec) ≡ some kept))
unfolding operations_of
operations_of-Declares spec op_id = paths_operations-lem op_id (get "paths" spec >>= as_object)
