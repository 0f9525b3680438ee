-- ===== src/Postman/Collection/Skipped.antt =====
-- Which requests postman/generator/src/main.rs leaves out of the collection.
use mathlib.Core.Bool.{false≢true, true≢false}
use mathlib.Core.Option.{some-injective}
use rust_microservices_archi.Prelude.{
  ℕ, suc, ◌+◌, ◌≡◌, ◌↔◌, ◌⊎◌, ◌||◌, refl, sym, ap, ◌∙◌, inl, inr, String, Bool, true, false, not,
  ◌&&◌, Option, none, some, List, [], ◌∷◌, keep, any, length, get_or, if◌then◌else◌, arith,
}
use rust_microservices_archi.Prelude.Chain.{◌>>=◌, bind_inv}
use rust_microservices_archi.Postman.Value.{Value, External}
use rust_microservices_archi.Postman.Overlay.{HashMap, find_key, RequestConfig, Overlay}
use rust_microservices_archi.Postman.Operations.{OperationInfo}
use rust_microservices_archi.Postman.Script.{build_test_script}
use rust_microservices_archi.Postman.Script.Balanced.{build_test_script-panics}
use rust_microservices_archi.Postman.Requests.{
  build_custom_request, build_openapi_request, operation_request,
}
use rust_microservices_archi.Postman.Collection.{
  build_request, item_of, item_when, build_item, push_item, build_items,
}

abbrev is_some : {A : Type 0} → Option A → Bool
is_some none = false
is_some (some a) = true

-- A request names a service and an operation that its specification has.
abbrev names_operation : Option String → Option String → HashMap (HashMap OperationInfo) → Bool
names_operation none op_id operations = false
names_operation (some service) none operations = false
names_operation (some service) (some op_id) operations = elim (find_key service operations) [
  | none ↦ false
  | some ops ↦ is_some (find_key op_id ops)
]

-- A request that is not custom and names no operation of the specifications.
abbrev pub is_skipped : HashMap (HashMap OperationInfo) → RequestConfig → Bool
is_skipped operations rc =
    not (get_or false rc.custom) && not (names_operation rc.service rc.operation operations)

-- The chain of `?` of `build_openapi_request`, from its options on.
module _ (make : OperationInfo → Value) where
  named :
      (o : Option OperationInfo)
      → (◌>>=◌ {B = Value} o (λ op. some (make op)) ≡ none) ↔ (is_some o ≡ false)
  named none = (λ e. refl, λ e. refl)
  named (some op) = (λ e. cc, λ e. absurd (true≢false e))

  in_service :
      (o : Option (HashMap OperationInfo)) (op_id : String)
      → (◌>>=◌ {B = Value} o (λ ops. find_key op_id ops >>= λ op. some (make op)) ≡ none)
        ↔ (◌≡◌ {A = Bool} (elim o [ none ↦ false | some ops ↦ is_some (find_key op_id ops) ]) false)
  in_service none op_id = (λ e. refl, λ e. refl)
  in_service (some ops) op_id = named (find_key op_id ops)

  chain :
      (service op_id : Option String) (operations : HashMap (HashMap OperationInfo))
      → (◌>>=◌ {B = Value} service (λ s.
            op_id >>= λ o. find_key s operations >>= λ ops. find_key o ops >>= λ op. some (make op))
          ≡ none)
        ↔ (names_operation service op_id operations ≡ false)
  chain none op_id operations = (λ e. refl, λ e. refl)
  chain (some service) none operations = (λ e. refl, λ e. refl)
  chain (some service) (some op_id) operations = in_service (find_key service operations) op_id

skipped_when :
    (custom found : Bool) (r : Value) (o : Option Value)
    → (o ≡ none) ↔ (found ≡ false)
    → ((if custom then some r else o) ≡ none) ↔ ((not custom && not found) ≡ true)
skipped_when true found r o h = (λ e. cc, λ e. absurd (false≢true e))
skipped_when false true r o h = (λ e. absurd (true≢false (h.0 e)), λ e. absurd (false≢true e))
skipped_when false false r o h = (λ e. refl, λ e. h.1 refl)

abbrev accepts_none : Option (List ℕ) → Bool
accepts_none (some []) = true
accepts_none _ = false

accepts_none-lem : (o : Option (List ℕ)) → (accepts_none o ≡ true) ↔ (o ≡ some [])
accepts_none-lem none = (λ e. absurd (false≢true e), λ e. cc)
accepts_none-lem (some []) = (λ e. refl, λ e. refl)
accepts_none-lem (some (a ∷ rest)) = (λ e. absurd (false≢true e), λ e. cc)

bind_none :
    (o : Option (List String)) (make : List String → Value → Value) (r : Value)
    → (◌>>=◌ {B = Option Value} o (λ lines. some (some (make lines r))) ≡ none) ↔ (o ≡ none)
bind_none none make r = (λ e. refl, λ e. refl)
bind_none (some lines) make r = (λ e. cc, λ e. cc)

both_none :
    (o : Option (Option Value)) (o' : Option (List Value))
    (make : Option Value → List Value → List Value)
    → (◌>>=◌ {B = List Value} o (λ a. o' >>= λ b. some (make a b)) ≡ none)
      ↔ ((o ≡ none) ⊎ (o' ≡ none))
both_none none o' make = (λ e. inl refl, λ e. refl)
both_none (some a) none make = (λ e. inr refl, λ e. refl)
both_none (some a) (some b) make = (λ e. cc, λ e. elim e [ inl p ↦ cc | inr p ↦ cc ])

or_true : (a b : Bool) → ((a || b) ≡ true) ↔ ((a ≡ true) ⊎ (b ≡ true))
or_true true b = (λ e. inl refl, λ e. refl)
or_true false b = (λ e. inr e, λ e. elim e [ inl p ↦ absurd (false≢true p) | inr p ↦ p ])

module _ (ext : External) (operations : HashMap (HashMap OperationInfo)) where
  openapi-found :
      (rc : RequestConfig)
      → (build_openapi_request ext rc operations ≡ none)
        ↔ (names_operation rc.service rc.operation operations ≡ false)
  unfolding build_openapi_request
  openapi-found rc = chain (operation_request ext rc) rc.service rc.operation operations

  request-skipped :
      (rc : RequestConfig)
      → (build_request ext rc operations ≡ none) ↔ (is_skipped operations rc ≡ true)
  unfolding build_request
  request-skipped rc =
      skipped_when (get_or false rc.custom) (names_operation rc.service rc.operation operations)
        (build_custom_request ext rc) (build_openapi_request ext rc operations) (openapi-found rc)

  -- An item is missing just when there is no request.
  item-skipped :
      (rc : RequestConfig) (overlay : Overlay) (o item : Option Value)
      → item_when ext rc overlay o ≡ some item
      → (item ≡ none) ↔ (o ≡ none)
  item-skipped rc overlay none item e = (λ p. refl, λ p. sym (some-injective _ _ e))
  item-skipped rc overlay (some r) item e =
      let (lines, script, same) = bind_inv (build_test_script rc) _ _ e in (λ p. cc, λ p. cc)

  push-length :
      (skipped : Bool) (item : Option Value) (items : List Value) (n : ℕ) (rc : RequestConfig)
      (rcs : List RequestConfig)
      → (item ≡ none) ↔ (skipped ≡ true)
      → length items + length (keep (is_skipped operations) rcs) ≡ n
      → length (push_item ext item items)
          + length (
              if skipped
              then rc ∷ keep (is_skipped operations) rcs
              else keep (is_skipped operations) rcs)
        ≡ suc n
  push-length true none items n rc rcs i h = omega (arith, h)
  push-length true (some v) items n rc rcs i h = cc (i.1 refl)
  push-length false none items n rc rcs i h = absurd (false≢true (i.0 refl))
  push-length false (some v) items n rc rcs i h = omega (arith, h)

  -- When the items of a folder are built, there is one for each request, but for those that are not
  -- custom and name no operation of the specifications: each of these is left out.
  pub build_items-length :
      (overlay : Overlay) (rcs : List RequestConfig) (items : List Value)
      → build_items ext rcs operations overlay ≡ some items
      → length items + length (keep (is_skipped operations) rcs) ≡ length rcs
  unfolding build_items build_item
  build_items-length overlay [] items e = ap (λ l. length l + 0) (sym (some-injective _ _ e))
  build_items-length overlay (rc ∷ rcs) items e =
      let (item, here, rest) = bind_inv (build_item ext rc operations overlay) _ _ e in
      let (others, there, same) = bind_inv (build_items ext rcs operations overlay) _ _ rest in
      let skipped = item-skipped rc overlay (build_request ext rc operations) item here in
      let request = request-skipped rc in
      ap (λ l. length l + length (keep (is_skipped operations) (rc ∷ rcs)))
        (sym (some-injective _ _ same))
      ∙ push-length (is_skipped operations rc) item others (length rcs) rc rcs
          (λ p. request.0 (skipped.0 p), λ p. skipped.1 (request.1 p))
          (build_items-length overlay rcs others there)

  item-panics :
      (rc : RequestConfig) (overlay : Overlay) (o : Option Value) (skipped : Bool)
      → (o ≡ none) ↔ (skipped ≡ true)
      → (item_when ext rc overlay o ≡ none)
        ↔ ((not skipped && accepts_none rc.accept_status) ≡ true)
  item-panics rc overlay none true h = (λ e. cc, λ e. absurd (false≢true e))
  item-panics rc overlay none false h = absurd (false≢true (h.0 refl))
  item-panics rc overlay (some r) true h = cc (h.1 refl)
  item-panics rc overlay (some r) false h =
      let none_accepted = accepts_none-lem rc.accept_status in
      let script = build_test_script-panics rc in
      let chain_none = bind_none (build_test_script rc) (item_of ext rc overlay) r in
      (
        λ e. none_accepted.1 (script.0 (chain_none.0 e)),
        λ e. chain_none.1 (script.1 (none_accepted.0 e)),
      )

  -- Building the items panics exactly when some request that is not left out has an empty list of
  -- accepted statuses.
  pub build_items-panics :
      (overlay : Overlay) (rcs : List RequestConfig)
      → (build_items ext rcs operations overlay ≡ none)
        ↔ (any (λ rc. not (is_skipped operations rc) && accepts_none rc.accept_status) rcs ≡ true)
  unfolding build_items build_item
  build_items-panics overlay [] = (λ e. cc, λ e. absurd (false≢true e))
  build_items-panics overlay (rc ∷ rcs) =
      let one =
        item-panics rc overlay (build_request ext rc operations) (is_skipped operations rc)
          (request-skipped rc) in
      let others = build_items-panics overlay rcs in
      let both =
        both_none (build_item ext rc operations overlay) (build_items ext rcs operations overlay)
          (push_item ext) in
      let either =
        or_true (not (is_skipped operations rc) && accepts_none rc.accept_status)
          (any (λ r. not (is_skipped operations r) && accepts_none r.accept_status) rcs) in
      (
        λ e. either.1 (elim (both.0 e) [ inl p ↦ inl (one.0 p) | inr p ↦ inr (others.0 p) ]),
        λ e. both.1 (elim (either.0 e) [ inl p ↦ inl (one.1 p) | inr p ↦ inr (others.1 p) ]),
      )
