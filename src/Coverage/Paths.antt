-- ===== src/Coverage/Paths.antt =====
-- The paths of tools/coverage/src/main.rs, and its walk up to the root of the project.
pub mod Nearest
use rust_microservices_archi.Prelude.{
  String, ◌<>◌, Bool, Option, none, some, List, [], ◌∷◌, if◌then◌else◌,
}
use rust_microservices_archi.Coverage.Types.{OsStr, utf8, other, PathBuf}

-- `path.join(name)` for a name without separators.
abbrev pub join : PathBuf → String → PathBuf
join p name = record { prefix = p.prefix; names = utf8 name ∷ p.names }

-- The text that `display` prints.
abbrev shown_name : OsStr → String
shown_name (utf8 n) = n
shown_name (other bytes lossy) = lossy

abbrev pub shown : (prefix : String) → List OsStr → String
shown prefix [] = prefix
shown prefix (n ∷ []) = prefix <> shown_name n
shown prefix (n ∷ m ∷ names) = shown prefix (m ∷ names) <> "/" <> shown_name n

abbrev pub display : PathBuf → String
display p = shown p.prefix p.names

-- `to_str` of a name and of a path: its text, if it is one.
abbrev pub name_to_str : OsStr → Option String
name_to_str (utf8 n) = some n
name_to_str (other bytes lossy) = none

abbrev pub is_utf8 : List OsStr → Bool
is_utf8 [] = Bool.true
is_utf8 (utf8 n ∷ names) = is_utf8 names
is_utf8 (other bytes lossy ∷ names) = Bool.false

abbrev pub to_str : PathBuf → Option String
to_str p = if is_utf8 p.names then some (display p) else none

-- `path.file_name()`.
abbrev pub first_name : List OsStr → Option OsStr
first_name [] = none
first_name (n ∷ names) = some n

abbrev pub file_name : PathBuf → Option OsStr
file_name p = first_name p.names

module _ (exists : PathBuf → Bool) (prefix : String) where
  -- The loop `while dir.parent().is_some()` from a directory with these names: the first one with a
  -- docker-compose.yml, or none when no parent is left.
  unfoldable pub walk_up : List OsStr → Option PathBuf
  walk_up [] = none
  walk_up (n ∷ names) =
      let dir : PathBuf = record { prefix = prefix; names = n ∷ names } in
      let rest = walk_up names in if exists (join dir "docker-compose.yml") then some dir else rest

-- `cli.root`, or what is found from the directory of the manifest. `none` is the panic.
unfoldable pub project_root :
    (exists : PathBuf → Bool) → (manifest_dir : PathBuf) → Option PathBuf → Option PathBuf
unfolding walk_up
project_root exists manifest_dir none = walk_up exists manifest_dir.prefix manifest_dir.names
project_root exists manifest_dir (some root) = some root
