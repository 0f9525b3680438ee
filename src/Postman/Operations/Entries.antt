-- ===== src/Postman/Operations/Entries.antt =====
-- The operations that a specification declares for postman/generator/src/main.rs.
use mathlib.Core.Option.{some-injective}
use rust_microservices_archi.Prelude.{
  ◌≡◌, ◌↔◌, sym, ap, refl, subst, ◌∙◌, String, Option, none, some, inl, inr, Option-cases, Bool,
  Bool-cases, ◌==◌, eq_iff, if◌then◌else◌,
}
use rust_microservices_archi.Prelude.Chain.{◌>>=◌}
use rust_microservices_archi.Postman.Value.{Value, Members, member, get, lookup, as_object, as_str}
use rust_microservices_archi.Postman.Operations.{
  OperationInfo, to_method, content_type_of, preferred_type, operation_of,
}

-- An entry of an object.
pub data Has : Members → String → Value → Type 0 where
  here : {k : String} {v : Value} {ms : Members} → Has (member k v ms) k v
  there : {j k : String} {w v : Value} {ms : Members} → Has ms k v → Has (member j w ms) k v

-- The methods that are operations, and what they are called in the collection.
pub data IsMethod : String → String → Type 0 where
  is_get : IsMethod "get" "GET"
  is_post : IsMethod "post" "POST"
  is_put : IsMethod "put" "PUT"
  is_delete : IsMethod "delete" "DELETE"
  is_patch : IsMethod "patch" "PATCH"

-- The content of the request's body, by its types, and the type that is kept of it: JSON if it is
-- listed, or else a form if that is listed, or else none.
abbrev content : Value → Option Members
content details = get "requestBody" details >>= get "content" >>= as_object

pub data HasType (details : Value) : Option String → Type 0 where
  no_content : content details ≡ none → HasType details none
  json :
      {c : Members} {v : Value}
      → content details ≡ some c
      → lookup "application/json" c ≡ some v
      → HasType details (some "application/json")
  form :
      {c : Members} {v : Value}
      → content details ≡ some c
      → lookup "application/json" c ≡ none
      → lookup "application/x-www-form-urlencoded" c ≡ some v
      → HasType details (some "application/x-www-form-urlencoded")
  unknown :
      {c : Members}
      → content details ≡ some c
      → lookup "application/json" c ≡ none
      → lookup "application/x-www-form-urlencoded" c ≡ none
      → HasType details none

-- A path lists a method with this id and these data.
abbrev pub Describes : (path method : String) → Value → String → OperationInfo → Type 0
Describes path method details op_id info =
    IsMethod method info.method
    × ((get "operationId" details >>= as_str) ≡ some op_id)
    × (info.path ≡ path)
    × HasType details info.content_type

abbrev pub InMethods : (path : String) → Members → String → OperationInfo → Type 0
InMethods path ms op_id info =
    (m : String) × (d : Value) × Has ms m d × Describes path m d op_id info

abbrev pub InPaths : Members → String → OperationInfo → Type 0
InPaths paths op_id info =
    (path : String) × (v : Value) × (ms : Members) × Has paths path v
    × (as_object v ≡ some ms)
    × InMethods path ms op_id info

abbrev pub Declares : Value → String → OperationInfo → Type 0
Declares spec op_id info =
    (paths : Members) × ((get "paths" spec >>= as_object) ≡ some paths) × InPaths paths op_id info

module _ (path : String) (content_type : Option String) where
  -- `operation_of` from the two options that it reads.
  abbrev described : Option String → Option String → Option (String × OperationInfo)
  described method op_id = do
    upper ← method
    o ← op_id
    some (o, record { method = upper; path = path; content_type = content_type })

  described-some :
      (method op : Option String) (op_id : String) (info : OperationInfo)
      → described method op ≡ some (op_id, info)
      → (method ≡ some info.method)
        × (op ≡ some op_id)
        × (info.path ≡ path)
        × (info.content_type ≡ content_type)
  described-some none op op_id info e = cc
  described-some (some upper) none op_id info e = cc
  described-some (some upper) (some o) op_id info e =
      let p : (o, record { method = upper; path = path; content_type = content_type })
          ≡ (op_id, info) =
        some-injective _ _ e in
      (
        ap (λ x. some (x.1.method)) p,
        ap (λ x. some (x.0)) p,
        sym (ap (λ x. x.1.path) p),
        sym (ap (λ x. x.1.content_type) p),
      )

  some-described :
      (method op : Option String) (op_id : String) (info : OperationInfo)
      → method ≡ some info.method
      → op ≡ some op_id
      → info.path ≡ path
      → info.content_type ≡ content_type
      → described method op ≡ some (op_id, info)
  some-described method op op_id info m o p c = rw m (rw o (rw (← p) (rw (← c) refl)))

-- One test of a method.
tested-IsMethod :
    (m k u upper : String) (rest : Option String)
    → IsMethod k u
    → (if m == k then some u else rest) ≡ some upper
    → (rest ≡ some upper → IsMethod m upper)
    → IsMethod m upper
tested-IsMethod m k u upper rest known e others = elim (Bool-cases (m == k)) [
  | inl same ↦
      subst (λ x. IsMethod x upper) (sym ((eq_iff m k).0 same))
        (subst (IsMethod k)
          (some-injective _ _ (ap (λ b. if b then some u else rest) (sym same) ∙ e)) known)
  | inr differs ↦ others (ap (λ b. if b then some u else rest) (sym differs) ∙ e)
]

to_method-IsMethod : (m upper : String) → to_method m ≡ some upper → IsMethod m upper
unfolding to_method
to_method-IsMethod m upper e = tested-IsMethod m "get" "GET" upper _ is_get e λ e.
    tested-IsMethod m "post" "POST" upper _ is_post e λ e.
      tested-IsMethod m "put" "PUT" upper _ is_put e λ e.
        tested-IsMethod m "delete" "DELETE" upper _ is_delete e
          λ e. tested-IsMethod m "patch" "PATCH" upper _ is_patch e λ e. cc

IsMethod-to_method : (m upper : String) → IsMethod m upper → to_method m ≡ some upper
unfolding to_method
IsMethod-to_method _ _ is_get = refl
IsMethod-to_method _ _ is_post = refl
IsMethod-to_method _ _ is_put = refl
IsMethod-to_method _ _ is_delete = refl
IsMethod-to_method _ _ is_patch = refl

-- The type that is kept, from what the two types find.
abbrev pick : Option Value → Option Value → Option String
pick as_json as_form =
    if elim as_json [ none ↦ Bool.false | some v ↦ Bool.true ]
    then some "application/json"
    else if elim as_form [ none ↦ Bool.false | some v ↦ Bool.true ]
    then some "application/x-www-form-urlencoded"
    else none

picked :
    (details : Value) (c : Members) (as_json as_form : Option Value)
    → content details ≡ some c
    → lookup "application/json" c ≡ as_json
    → lookup "application/x-www-form-urlencoded" c ≡ as_form
    → pick as_json as_form ≡ content_type_of details
unfolding content_type_of
picked details c as_json as_form e e1 e2 = sym (
    ap (λ o. o >>= preferred_type) e
    ∙ ap (λ o. pick o (lookup "application/x-www-form-urlencoded" c)) e1
    ∙ ap (pick as_json) e2)

HasType-content_type_of :
    (details : Value) (t : Option String) → HasType details t → t ≡ content_type_of details
unfolding content_type_of
HasType-content_type_of details _ (no_content e) = sym (ap (λ o. o >>= preferred_type) e)
HasType-content_type_of details _ (json {c} {v} e e1) = picked details c (some v) _ e e1 refl
HasType-content_type_of details _ (form {c} {v} e e1 e2) = picked details c none (some v) e e1 e2
HasType-content_type_of details _ (unknown {c} e e1 e2) = picked details c none none e e1 e2

some_type : (details : Value) → (t : Option String) × HasType details t
some_type details = elim (Option-cases (content details)) [
  | inl e ↦ (none, no_content e)
  | inr (c, e) ↦ elim (Option-cases (lookup "application/json" c)) [
    | inl e1 ↦ elim (Option-cases (lookup "application/x-www-form-urlencoded" c)) [
      | inl e2 ↦ (none, unknown e e1 e2)
      | inr (v, e2) ↦ (some "application/x-www-form-urlencoded", form e e1 e2)
    ]
    | inr (v, e1) ↦ (some "application/json", json e e1)
  ]
]

content_type_of-HasType : (details : Value) → HasType details (content_type_of details)
content_type_of-HasType details =
    let (t, h) = some_type details in
    subst (HasType details) (HasType-content_type_of details t h) h

pub operation_of-Describes :
    (path method : String) (details : Value) (op_id : String) (info : OperationInfo)
    → operation_of path method details ≡ some (op_id, info)
      ↔ Describes path method details op_id info
unfolding operation_of
operation_of-Describes path method details op_id info = (
  λ e.
      let d =
        described-some path (content_type_of details) (to_method method)
          (get "operationId" details >>= as_str) op_id info e in
      (
        to_method-IsMethod method info.method d.0,
        d.1,
        d.2,
        subst (HasType details) (sym d.3) (content_type_of-HasType details),
      ),
  λ (m, o, p, t).
      some-described path (content_type_of details) (to_method method)
        (get "operationId" details >>= as_str) op_id info (IsMethod-to_method method info.method m)
        o p (HasType-content_type_of details info.content_type t),
)
