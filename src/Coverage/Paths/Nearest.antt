-- ===== src/Coverage/Paths/Nearest.antt =====
-- Which directory the walk of tools/coverage/src/main.rs finds.
use mathlib.Core.Bool.{true≢false}
use rust_microservices_archi.Prelude.{
  ◌≡◌, refl, sym, subst, ◌∙◌, inl, inr, String, Bool, true, false, Option, none, some, List, [],
  ◌∷◌, Bool-cases, if◌then◌else◌,
}
use rust_microservices_archi.Coverage.Types.{OsStr, PathBuf}
use rust_microservices_archi.Coverage.Paths.{join, walk_up}

-- The names of a directory that lies above another, or of that one.
pub data IsAbove : List OsStr → List OsStr → Type 0 where
  self : {names : List OsStr} → IsAbove names names
  parent : {n : OsStr} {names above : List OsStr} → IsAbove above names → IsAbove above (n ∷ names)

module _ (exists : PathBuf → Bool) (prefix : String) where
  -- A directory with a docker-compose.yml, other than the top of the file system.
  abbrev pub IsRoot : List OsStr → Type 0
  IsRoot names =
      (n : OsStr) × (rest : List OsStr) × (names ≡ n ∷ rest)
      × (exists (join (record { prefix = prefix; names = names }) "docker-compose.yml") ≡ true)

  -- What the walk gives: the nearest such directory, or none if there is none.
  abbrev pub IsNearest : List OsStr → Option PathBuf → Type 0
  IsNearest names none = (above : List OsStr) → IsAbove above names → ¬ IsRoot above
  IsNearest names (some dir) =
      (dir.prefix ≡ prefix)
      × IsAbove dir.names names
      × IsRoot dir.names
      × ((above : List OsStr) → IsAbove above names → IsRoot above → IsAbove above dir.names)

  above_top : (above : List OsStr) → IsAbove above [] → ¬ IsRoot above
  above_top _ self (n, rest, e, h) = absurd cc

  parent-IsAbove :
      (n : OsStr) (names above : List OsStr)
      → exists (join (record { prefix = prefix; names = n ∷ names }) "docker-compose.yml") ≡ false
      → IsAbove above (n ∷ names)
      → IsRoot above
      → IsAbove above names
  parent-IsAbove n names _ gone self (m, rest, e, h) = absurd (true≢false (sym h ∙ gone))
  parent-IsAbove n names above gone (parent a) h = a

  step_up :
      (n : OsStr) (names : List OsStr) (o : Option PathBuf)
      → exists (join (record { prefix = prefix; names = n ∷ names }) "docker-compose.yml") ≡ false
      → IsNearest names o
      → IsNearest (n ∷ names) o
  step_up n names none gone h = λ above a r. h above (parent-IsAbove n names above gone a r) r
  step_up n names (some dir) gone (p, a, r, h) =
      (p, parent a, r, λ above a' r'. h above (parent-IsAbove n names above gone a' r') r')

  -- The walk finds the nearest directory, at or above where it starts and below the top of the file
  -- system, that has a docker-compose.yml; it finds none only if there is none.
  pub walk_up-IsNearest : (names : List OsStr) → IsNearest names (walk_up exists prefix names)
  unfolding walk_up
  walk_up-IsNearest [] = above_top
  walk_up-IsNearest (n ∷ names) =
      elim (Bool-cases
        (exists (join (record { prefix = prefix; names = n ∷ names }) "docker-compose.yml"))) [
          | inl has ↦
              subst
                (λ b. IsNearest (n ∷ names) (
                  if b
                  then some (record { prefix = prefix; names = n ∷ names })
                  else walk_up exists prefix names))
                (sym has) (refl, self, (n, names, refl, has), λ above a r. a)
          | inr gone ↦
              subst
                (λ b. IsNearest (n ∷ names) (
                  if b
                  then some (record { prefix = prefix; names = n ∷ names })
                  else walk_up exists prefix names))
                (sym gone)
                (step_up n names (walk_up exists prefix names) gone (walk_up-IsNearest names))
        ]
