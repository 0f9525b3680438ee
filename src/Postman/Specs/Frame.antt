-- ===== src/Postman/Specs/Frame.antt =====
-- Which files a run of postman/generator/src/main.rs changes.
use mathlib.Core.Option.{some-injective}
use rust_microservices_archi.Prelude.{
  ℕ, ◌≡◌, ◌≢◌, refl, sym, ap, ◌∙◌, String, Bool, true, false, Option, none, some, [], ◌∷◌, All,
  get_or, if◌then◌else◌,
}
use rust_microservices_archi.Prelude.Chain.{◌>>=◌, bind_inv}
use rust_microservices_archi.Postman.Value.{Value, External}
use rust_microservices_archi.Postman.Overlay.{HashMap, find_key, put, ServiceConfig, Overlay, Cli}
use rust_microservices_archi.Postman.Overlay.Lookup.{find_key-put_other}
use rust_microservices_archi.Postman.Operations.{parse_specs}
use rust_microservices_archi.Postman.Collection.{generate_collection}
use rust_microservices_archi.Postman.Specs.{
  Fetched, failed, success, Files, cached_path, read_spec, fetched_spec, load_spec, load_into,
  load_specs, main, read_to_string, write, overlay_path, output_path, cache_dir_of,
}

module _ (ext : External) (locate : String → String) (fetch : String → Fetched)
    (writable : String → Bool) (cache_dir file : String) where
  -- The file of a service is another one.
  abbrev IsElsewhere : String × ServiceConfig → Type 0
  IsElsewhere e = locate (cached_path cache_dir e.0) ≢ file

  read-keeps :
      (o : Option Value) (files files' : Files) (spec : Value)
      → ◌>>=◌ {B = Value × Files} o (λ s. some (s, files)) ≡ some (spec, files')
      → find_key file files' ≡ find_key file files
  read-keeps none files files' spec e = cc
  read-keeps (some s) files files' spec e = ap (λ x. find_key file x.1) (sym (some-injective _ _ e))

  written-keeps :
      (b : Bool) (target text : String) (files : Files)
      → target ≢ file
      → find_key file (get_or files (if b then some (put target text files) else none))
        ≡ find_key file files
  written-keeps true target text files other = find_key-put_other target file text files other
  written-keeps false target text files other = refl

  fetched_spec-keeps :
      (name : String) (r : Fetched) (files files' : Files) (spec : Value)
      → locate (cached_path cache_dir name) ≢ file
      → fetched_spec ext locate writable cache_dir name r files ≡ some (spec, files')
      → find_key file files' ≡ find_key file files
  fetched_spec-keeps name failed files files' spec other e =
      read-keeps (read_spec ext locate cache_dir name files) files files' spec e
  fetched_spec-keeps name (success none) files files' spec other e = cc
  fetched_spec-keeps name (success (some s)) files files' spec other e =
      ap (λ x. find_key file x.1) (sym (some-injective _ _ e))
      ∙ written-keeps (writable (cached_path cache_dir name)) _ (ext.to_string_pretty s) files other

  load_spec-keeps :
      (offline : Bool) (name : String) (config : ServiceConfig) (files files' : Files)
      (spec : Value)
      → locate (cached_path cache_dir name) ≢ file
      → load_spec ext locate fetch writable offline cache_dir name config files
        ≡ some (spec, files')
      → find_key file files' ≡ find_key file files
  unfolding load_spec
  load_spec-keeps true name config files files' spec other e =
      read-keeps (read_spec ext locate cache_dir name files) files files' spec e
  load_spec-keeps false name config files files' spec other e =
      fetched_spec-keeps name (fetch config.openapi_url) files files' spec other e

  load_into-keeps :
      (offline : Bool) (services : HashMap ServiceConfig) (specs out : HashMap Value)
      (files files' : Files)
      → All IsElsewhere services
      → load_into ext locate fetch writable offline cache_dir services specs files
        ≡ some (out, files')
      → find_key file files' ≡ find_key file files
  unfolding load_into
  load_into-keeps offline [] specs out files files' h e =
      ap (λ x. find_key file x.1) (sym (some-injective _ _ e))
  load_into-keeps offline ((name, config) ∷ services) specs out files files' h e =
      let (r, one, rest) =
        bind_inv (load_spec ext locate fetch writable offline cache_dir name config files) _ _ e in
      load_into-keeps offline services (put name r.0 specs) out r.1 files' h.1 rest
      ∙ load_spec-keeps offline name config files r.1 r.0 h.0 one

write-keeps :
    (b : Bool) (target text file : String) (files files' : Files)
    → target ≢ file
    → ◌≡◌ {A = Option Files} (if b then some (put target text files) else none) (some files')
    → find_key file files' ≡ find_key file files
write-keeps true target text file files files' other e =
    ap (find_key file) (sym (some-injective _ _ e))
    ∙ find_key-put_other target file text files other
write-keeps false target text file files files' other e = cc

-- A run that does not panic leaves a file as it was, if it is neither the one to which the path of the
-- output leads, nor, for a service of the overlay that is read, the one to which the path of the
-- service's cached specification leads: this may lie outside the cache directory.
pub main-keeps :
    (ext : External) (locate : String → String) (fetch : String → Fetched)
    (writable : String → Bool) (decode : String → Option Overlay) (postman_dir file : String)
    (cli : Cli) (files files' : Files) (total : ℕ)
    → main ext locate fetch writable decode postman_dir cli files ≡ some (files', total)
    → locate (output_path ext locate postman_dir cli) ≢ file
    → ((text : String) (overlay : Overlay)
        → read_to_string ext locate (overlay_path ext locate postman_dir cli) files ≡ some text
        → decode text ≡ some overlay
        → All
            (λ e. locate (cached_path (cache_dir_of ext locate postman_dir) e.0) ≢ file)
            overlay.services)
    → find_key file files' ≡ find_key file files
unfolding main load_specs
main-keeps ext locate fetch writable decode postman_dir file cli files files' total e other h =
    let cache_dir = cache_dir_of ext locate postman_dir in
    let (text, read, e1) =
      bind_inv (read_to_string ext locate (overlay_path ext locate postman_dir cli) files) _ _ e in
    let (overlay, decoded, e2) = bind_inv (decode text) _ _ e1 in
    let (loaded, load, e3) =
      bind_inv (load_specs ext locate fetch writable cli.offline cache_dir overlay.services files) _
        _ e2 in
    let (collection, _, e4) =
      bind_inv (generate_collection ext overlay (parse_specs loaded.0)) _ _ e3 in
    let (left, written, e5) =
      bind_inv
        (write ext locate writable (output_path ext locate postman_dir cli)
          (ext.to_string_pretty collection) loaded.1)
        _ _ e4 in
    ap (λ x. find_key file x.0) (sym (some-injective _ _ e5))
    ∙ write-keeps (writable (output_path ext locate postman_dir cli)) _
        (ext.to_string_pretty collection) file loaded.1 left other written
    ∙ load_into-keeps ext locate fetch writable cache_dir file cli.offline overlay.services []
        loaded.0 files loaded.1 (h text overlay read decoded) load
