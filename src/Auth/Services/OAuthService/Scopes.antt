-- ===== src/Auth/Services/OAuthService/Scopes.antt =====
-- `validate_scopes` of auth-service/src/services/oauth_service.rs.
use rust_microservices_archi.Prelude.{
  ◌≡◌, refl, ◌↔◌, ◌⊎◌, inl, inr, String, ◌<>◌, true, false, List, [], ◌∷◌, ok, err, All, Bool-cases,
  eq_iff, arith,
}
use rust_microservices_archi.Prelude.Text.{split_whitespace}
use rust_microservices_archi.Auth.Errors.{ServiceError, invalid_request}
use rust_microservices_archi.Auth.Services.OAuthService.{contains, check_scopes, validate_scopes}

-- A word of the list.
abbrev pub IsAmong : String → List String → Type 0
IsAmong w [] = ⊥
IsAmong w (v ∷ vs) = (v ≡ w) ⊎ IsAmong w vs

contains-IsAmong : (vs : List String) (w : String) → contains vs w ≡ true → IsAmong w vs
contains-IsAmong [] w h = cc
contains-IsAmong (v ∷ vs) w h = ground (arith, eq_iff v w, contains-IsAmong vs w)

IsAmong-contains : (vs : List String) (w : String) → IsAmong w vs → contains vs w ≡ true
IsAmong-contains [] w h = elim h [ ]
IsAmong-contains (v ∷ vs) w h = ground (arith, eq_iff v w, IsAmong-contains vs w)

check_scopes_sound :
    (allowed ws : List String) → check_scopes allowed ws ≡ ok tt → All (λ w. IsAmong w allowed) ws
check_scopes_sound allowed [] h = tt
check_scopes_sound allowed (w ∷ ws) h =
    ground (arith, contains-IsAmong allowed w, check_scopes_sound allowed ws)

check_scopes_complete :
    (allowed ws : List String) → All (λ w. IsAmong w allowed) ws → check_scopes allowed ws ≡ ok tt
check_scopes_complete allowed [] h = refl
check_scopes_complete allowed (w ∷ ws) h =
    ground (arith, IsAmong-contains allowed w h.0, check_scopes_complete allowed ws h.1)

-- A request passes exactly when each of its words is among the allowed ones.
pub validate_scopes_iff :
    (requested allowed : String)
    → (validate_scopes requested allowed ≡ ok tt)
      ↔ All (λ w. IsAmong w (split_whitespace allowed)) (split_whitespace requested)
unfolding validate_scopes
validate_scopes_iff requested allowed = (
  check_scopes_sound (split_whitespace allowed) (split_whitespace requested),
  check_scopes_complete (split_whitespace allowed) (split_whitespace requested),
)

check_scopes_error :
    (allowed ws : List String) (e : ServiceError)
    → check_scopes allowed ws ≡ err e
    → (w : String) × IsAmong w ws
      × (contains allowed w ≡ false)
      × (e ≡ invalid_request ("Scope '" <> w <> "' not allowed"))
check_scopes_error allowed [] e h = cc
check_scopes_error allowed (w ∷ ws) e h = elim (Bool-cases (contains allowed w)) [
  | inl there ↦
      let (v, among, missing, same) = check_scopes_error allowed ws e (ground arith) in
      (v, inr among, missing, same)
  | inr missing ↦ (w, inl refl, missing, ground arith)
]

-- A refusal names a requested word that is not among the allowed ones.
pub validate_scopes_names :
    (requested allowed : String) {e : ServiceError}
    → validate_scopes requested allowed ≡ err e
    → (w : String) × IsAmong w (split_whitespace requested)
      × ¬ (IsAmong w (split_whitespace allowed))
      × (e ≡ invalid_request ("Scope '" <> w <> "' not allowed"))
unfolding validate_scopes
validate_scopes_names requested allowed {e} h =
    let (w, among, missing, same) =
      check_scopes_error (split_whitespace allowed) (split_whitespace requested) e h in
    (w, among, λ a. cc (IsAmong-contains (split_whitespace allowed) w a), same)
