-- ===== src/Postman/Specs/Cached.antt =====
-- The files of the cached specifications of postman/generator/src/main.rs, while a run from the network
-- writes them.
use mathlib.Core.Bool.{false≢true}
use mathlib.Core.Option.{some-injective}
use rust_microservices_archi.Prelude.{
  ◌≡◌, ◌≢◌, refl, sym, ap, subst, ◌∙◌, String, Bool, true, false, Option, none, some, [], ◌∷◌, All,
  get_or, if◌then◌else◌,
}
use rust_microservices_archi.Prelude.Chain.{◌>>=◌, bind_inv}
use rust_microservices_archi.Postman.Value.{Value, External}
use rust_microservices_archi.Postman.Overlay.{HashMap, find_key, put, ServiceConfig}
use rust_microservices_archi.Postman.Overlay.Lookup.{find_key-put_other, find_key-put_same}
use rust_microservices_archi.Postman.Specs.{
  Fetched, failed, success, Files, cached_path, read_spec, fetched_spec, load_spec, load_into,
}

module _ (ext : External) (locate : String → String) (cache_dir : String) where
  -- Printing and reading a fetched specification gives it back.
  abbrev pub IsReadable : Fetched → Type 0
  IsReadable r =
      (spec : Value)
      → r ≡ success (some spec)
      → ext.from_str (ext.to_string_pretty spec) ≡ some spec

  abbrev pub file_of : String → String
  file_of name = locate (cached_path cache_dir name)

  -- No two services have their cached specifications in one file.
  abbrev pub HaveOwnFiles : HashMap ServiceConfig → Type 0
  HaveOwnFiles [] = Unit
  HaveOwnFiles ((name, config) ∷ rest) =
      All (λ e. file_of e.0 ≢ file_of name) rest × HaveOwnFiles rest

  -- The specification in the file of a service.
  abbrev pub cached : String → Files → Option Value
  cached name files = read_spec ext locate cache_dir name files

  abbrev pub IsCached : String → Files → Type 0
  IsCached name files = (spec : Value) × (cached name files ≡ some spec)

  read_inv :
      (o : Option Value) (files files' : Files) (spec : Value)
      → ◌>>=◌ {B = Value × Files} o (λ s. some (s, files)) ≡ some (spec, files')
      → (o ≡ some spec) × (files ≡ files')
  read_inv none files files' spec e = cc
  read_inv (some s) files files' spec e =
      let p = some-injective _ _ e in (ap (λ x. some (x.0)) p, ap (λ x. x.1) p)

  written :
      (b : Bool) (file text : String) (files : Files)
      → b ≡ true
      → get_or files (if b then some (put file text files) else none) ≡ put file text files
  written true file text files h = refl
  written false file text files h = absurd (false≢true h)

  module _ (writable : String → Bool) where
    abbrev pub IsWritable : String → Type 0
    IsWritable name = writable (cached_path cache_dir name) ≡ true

    -- After a specification was fetched or read, the file of its service holds it, and the other files
    -- are as before.
    pub fetched_spec-cached :
        (name : String) (r : Fetched) (files files' : Files) (spec : Value)
        → IsReadable r
        → IsWritable name
        → fetched_spec ext locate writable cache_dir name r files ≡ some (spec, files')
        → (cached name files' ≡ some spec)
          × ((file : String) → file_of name ≢ file → find_key file files' ≡ find_key file files)
    fetched_spec-cached name failed files files' spec h w e =
        let (found, same) = read_inv (cached name files) files files' spec e in
        (
          subst (λ fs. cached name fs ≡ some spec) same found,
          λ file other. ap (find_key file) (sym same),
        )
    fetched_spec-cached name (success none) files files' spec h w e = (cc, λ file other. cc)
    fetched_spec-cached name (success (some s)) files files' spec h w e =
        let text = ext.to_string_pretty s in
        let p = some-injective _ _ e in
        let left : put (file_of name) text files ≡ files' =
          sym (written (writable (cached_path cache_dir name)) (file_of name) text files w)
          ∙ ap (λ x. x.1) p in
        (
          subst (λ fs. cached name fs ≡ some spec) left
              (ap (λ o. o >>= ext.from_str) (find_key-put_same (file_of name) text files)
                ∙ h s refl
                ∙ ap (λ x. some (x.0)) p),
          λ file other.
              ap (find_key file) (sym left)
              ∙ find_key-put_other (file_of name) file text files other,
        )

    module _ (fetch : String → Fetched) where
      abbrev pub AreReadable : HashMap ServiceConfig → Type 0
      AreReadable = All (λ e. IsReadable (fetch e.1.openapi_url))

      abbrev pub AreWritable : HashMap ServiceConfig → Type 0
      AreWritable = All (λ e. IsWritable e.0)

      -- The file of a service that is not among those to load stays.
      pub load_into-keeps :
          (services : HashMap ServiceConfig) (name : String) (specs out : HashMap Value)
          (files files' : Files)
          → AreReadable services
          → AreWritable services
          → All (λ e. file_of e.0 ≢ file_of name) services
          → load_into ext locate fetch writable false cache_dir services specs files
            ≡ some (out, files')
          → cached name files' ≡ cached name files
      unfolding load_into load_spec
      load_into-keeps [] name specs out files files' h w d e =
          ap (λ x. cached name x) (sym (ap (λ x. x.1) (some-injective _ _ e)))
      load_into-keeps ((n, config) ∷ services) name specs out files files' h w d e =
          let (r, one, rest) =
            bind_inv (fetched_spec ext locate writable cache_dir n (fetch config.openapi_url) files)
              _ _ e in
          let (_, others) =
            fetched_spec-cached n (fetch config.openapi_url) files r.1 r.0 h.0 w.0 one in
          load_into-keeps services name (put n r.0 specs) out r.1 files' h.1 w.1 d.1 rest
          ∙ ap (λ o. o >>= ext.from_str) (others (file_of name) d.0)
