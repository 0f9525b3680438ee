-- ===== src/Postman/Specs.antt =====
-- `load_specs` and `main` of postman/generator/src/main.rs over the files and the network. `none` is a
-- panic: an unreadable or invalid text that the code insists on.
pub mod Cached
pub mod Offline
pub mod Frame
use Prim.Native.Char.{code}
use rust_microservices_archi.Prelude.{
  ℕ, String, ◌<>◌, Bool, true, false, not, nat_eq, Option, none, some, List, [], ◌∷◌, get_or,
  if◌then◌else◌,
}
use rust_microservices_archi.Prelude.Chain.{◌>>=◌}
use rust_microservices_archi.Postman.Value.{Value, External}
use rust_microservices_archi.Postman.Overlay.{HashMap, find_key, put, ServiceConfig, Overlay, Cli}
use rust_microservices_archi.Postman.Text.{is_prefix}
use rust_microservices_archi.Postman.Operations.{parse_specs}
use rust_microservices_archi.Postman.Collection.{generate_collection, total_requests}

-- What `reqwest` answers: nothing usable (an error, or a status that is no success), or a success with
-- its body, a JSON value or not.
pub data Fetched : Type 0 where
  failed : Fetched
  success : Option Value → Fetched

-- The texts of the files. A file is named by what its paths lead to.
abbrev pub Files : Type 0
Files = HashMap String

-- `path.join(name)`: an absolute name replaces the path.
abbrev ends_open : String → Bool
ends_open String.[] = false
ends_open (String.◌∷◌ c String.[]) = not (nat_eq (code c) 47)
ends_open (String.◌∷◌ c (String.◌∷◌ d s)) = ends_open (String.◌∷◌ d s)

unfoldable pub join_path : (path name : String) → String
unfolding is_prefix
join_path path name =
    if is_prefix "/" name
    then name
    else if ends_open path
    then path <> "/" <> name
    else path <> name

-- The file of a service under the cache directory, wherever its name leads.
unfoldable pub cached_path : (cache_dir name : String) → String
unfolding join_path
cached_path cache_dir name = join_path cache_dir (name <> "-service.json")

-- `locate path` is the file that a path leads to, through links and the names `.` and `..`.
module _ (ext : External) (locate : String → String) where
  abbrev pub read_to_string : (path : String) → Files → Option String
  read_to_string path files = find_key (locate path) files

  -- `writable path` is whether a write to the path succeeds, its directory created or not. A write that
  -- fails is taken to leave the file as it was.
  abbrev pub write : (writable : String → Bool) → (path text : String) → Files → Option Files
  write writable path text files =
      if writable path then some (put (locate path) text files) else none

  abbrev pub read_spec : (cache_dir name : String) → Files → Option Value
  read_spec cache_dir name files =
      read_to_string (cached_path cache_dir name) files >>= ext.from_str

  -- The specification of one service, and the files after it. A write that fails is ignored.
  abbrev pub fetched_spec :
      (writable : String → Bool)
      → (cache_dir name : String) → Fetched
      → Files
      → Option (Value × Files)
  fetched_spec writable cache_dir name (success none) files = none
  fetched_spec writable cache_dir name (success (some spec)) files = some (
    spec,
    get_or files (write writable (cached_path cache_dir name) (ext.to_string_pretty spec) files),
  )
  fetched_spec writable cache_dir name failed files =
      read_spec cache_dir name files >>= λ spec. some (spec, files)

  unfoldable pub load_spec :
      (fetch : String → Fetched)
      → (writable : String → Bool) → (offline : Bool) → (cache_dir name : String) → ServiceConfig
      → Files
      → Option (Value × Files)
  unfolding cached_path
  load_spec fetch writable offline cache_dir name config files =
      if offline
      then (read_spec cache_dir name files >>= λ spec. some (spec, files))
      else fetched_spec writable cache_dir name (fetch config.openapi_url) files

  -- The loop over the services, in the order in which this run goes through the map.
  unfoldable pub load_into :
      (fetch : String → Fetched)
      → (writable : String → Bool) → (offline : Bool) → (cache_dir : String) → HashMap ServiceConfig
      → HashMap Value
      → Files
      → Option (HashMap Value × Files)
  unfolding load_spec
  load_into fetch writable offline cache_dir [] specs files = some (specs, files)
  load_into fetch writable offline cache_dir ((name, config) ∷ services) specs files =
      load_spec fetch writable offline cache_dir name config files >>= λ r.
      load_into fetch writable offline cache_dir services (put name r.0 specs) r.1

  unfoldable pub load_specs :
      (fetch : String → Fetched)
      → (writable : String → Bool) → (offline : Bool) → (cache_dir : String) → HashMap ServiceConfig
      → Files
      → Option (HashMap Value × Files)
  unfolding load_into
  load_specs fetch writable offline cache_dir services files =
      load_into fetch writable offline cache_dir services [] files

  abbrev pub overlay_path : (postman_dir : String) → Cli → String
  overlay_path postman_dir cli = get_or (join_path postman_dir "overlay.json") cli.overlay

  abbrev pub output_path : (postman_dir : String) → Cli → String
  output_path postman_dir cli =
      get_or (join_path postman_dir "Rust_Microservices.postman_collection.json") cli.output

  abbrev pub cache_dir_of : (postman_dir : String) → String
  cache_dir_of postman_dir = join_path postman_dir "openapi"

  -- `main`, from the decoding of the overlay on: the files that are left and the number of requests
  -- that is printed. `decode` is serde's for `Overlay`, with its maps in the order of this run.
  unfoldable pub main :
      (fetch : String → Fetched)
      → (writable : String → Bool) → (decode : String → Option Overlay) → (postman_dir : String)
      → Cli
      → Files
      → Option (Files × ℕ)
  unfolding join_path load_specs parse_specs generate_collection total_requests
  main fetch writable decode postman_dir cli files = do
    overlay_text ← read_to_string (overlay_path postman_dir cli) files
    overlay ← decode overlay_text
    (specs, files') ←
        load_specs fetch writable cli.offline (cache_dir_of postman_dir) overlay.services files
    collection ← generate_collection ext overlay (parse_specs specs)
    left ← write writable (output_path postman_dir cli) (ext.to_string_pretty collection) files'
    some (left, total_requests overlay.folders)
