-- ===== src/Postman/Text.antt =====
-- What the generator uses of Rust's `str`, by code point.
use Prim.Native.Char.{Char, code}
use rust_microservices_archi.Prelude.{
  ℕ, zero, suc, ◌-◌, String, ◌<>◌, Bool, true, false, ◌&&◌, Option, none, some, List, [], ◌∷◌,
  nat_eq, if◌then◌else◌,
}

abbrev pub size : String → ℕ
size String.[] = 0
size (String.◌∷◌ c s) = suc (size s)

-- `s.starts_with(p)`.
unfoldable pub is_prefix : String → String → Bool
is_prefix String.[] s = true
is_prefix (String.◌∷◌ p ps) String.[] = false
is_prefix (String.◌∷◌ p ps) (String.◌∷◌ c s) = nat_eq (code p) (code c) && is_prefix ps s

-- `s.replace(pattern, by)` for a pattern that is not empty: the occurrences are taken from the left
-- and do not overlap. `skip` characters belong to the occurrence before.
abbrev pub replace_from : (skip : ℕ) → (pattern by s : String) → String
unfolding is_prefix
replace_from skip pattern by String.[] = String.[]
replace_from (suc skip) pattern by (String.◌∷◌ c s) = replace_from skip pattern by s
replace_from zero pattern by (String.◌∷◌ c s) =
    let found = is_prefix pattern (String.◌∷◌ c s) in
    let rest = replace_from (if found then size pattern - 1 else 0) pattern by s in
    if found then by <> rest else String.◌∷◌ c rest

unfoldable pub replace : (pattern by s : String) → String
unfolding replace_from
replace pattern by s = replace_from 0 pattern by s

-- `s.split(d)`: its first part and the others.
abbrev split_parts : ℕ → String → String × List String
split_parts d String.[] = (String.[], [])
split_parts d (String.◌∷◌ c s) =
    let (w, rest) = split_parts d s in
    if nat_eq (code c) d then (String.[], w ∷ rest) else (String.◌∷◌ c w, rest)

unfoldable pub split : ℕ → String → List String
split d s = let (w, rest) = split_parts d s in w ∷ rest

-- `s.trim_start_matches(d)`.
unfoldable pub trim_start_matches : ℕ → String → String
trim_start_matches d String.[] = String.[]
trim_start_matches d (String.◌∷◌ c s) =
    let rest = trim_start_matches d s in if nat_eq (code c) d then rest else String.◌∷◌ c s

-- `parts.join(sep)`.
unfoldable pub join : String → List String → String
join sep [] = String.[]
join sep (s ∷ []) = s
join sep (s ∷ t ∷ rest) = s <> sep <> join sep (t ∷ rest)

abbrev pub push_front : Char → Option String → Option String
push_front c none = none
push_front c (some s) = some (String.◌∷◌ c s)

-- `s.strip_suffix(d)`.
unfoldable pub strip_suffix : ℕ → String → Option String
strip_suffix d String.[] = none
strip_suffix d (String.◌∷◌ c String.[]) = if nat_eq (code c) d then some String.[] else none
strip_suffix d (String.◌∷◌ c (String.◌∷◌ x s)) = push_front c (strip_suffix d (String.◌∷◌ x s))
