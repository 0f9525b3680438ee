-- ===== src/Postman/Specs/Offline.antt =====
-- The cache of the specifications of postman/generator/src/main.rs: a run with `--offline` after a run
-- without it.
use mathlib.Core.Bool.{false≢true}
use mathlib.Core.Option.{some-injective}
use rust_microservices_archi.Prelude.{
  ◌≡◌, refl, sym, ap, subst, ◌∙◌, inl, inr, String, Bool, true, false, ◌||◌, ◌==◌, eq_iff, eq_refl,
  Bool-cases, none, some, [], ◌∷◌, if◌then◌else◌,
}
use rust_microservices_archi.Prelude.Chain.{◌>>=◌, bind_inv}
use rust_microservices_archi.Postman.Value.{Value, External}
use rust_microservices_archi.Postman.Overlay.{HashMap, find_key, put, ServiceConfig}
use rust_microservices_archi.Postman.Overlay.Lookup.{find_key-put}
use rust_microservices_archi.Postman.Specs.{
  Fetched, Files, read_spec, fetched_spec, load_spec, load_into, load_specs,
}
use rust_microservices_archi.Postman.Specs.Cached.{
  HaveOwnFiles, cached, IsCached, AreReadable, AreWritable, fetched_spec-cached, load_into-keeps,
}

-- Whether a map has a key.
abbrev pub contains_key : {A : Type 0} → String → HashMap A → Bool
contains_key k [] = false
contains_key k ((j, a) ∷ rest) = (j == k) || contains_key k rest

module _ (ext : External) (locate : String → String) (cache_dir : String) where
  later : (a b : Bool) → b ≡ true → (a || b) ≡ true
  later true b h = refl
  later false b h = h

  -- The specifications are those in the files of the services, and the ones from before.
  abbrev AreCached : HashMap ServiceConfig → HashMap Value → HashMap Value → Files → Type 0
  AreCached services specs out files =
      (k : String)
      → find_key k out ≡ (
          if contains_key k services then cached ext locate cache_dir k files else find_key k specs)

  find_key-cached :
      (n k : String) (spec : Value) (b : Bool) (specs : HashMap Value) (files : Files)
      → cached ext locate cache_dir n files ≡ some spec
      → (if b then cached ext locate cache_dir k files else find_key k (put n spec specs))
        ≡ (if (n == k) || b then cached ext locate cache_dir k files else find_key k specs)
  find_key-cached n k spec true specs files e = elim (Bool-cases (n == k)) [
    | inl same ↦
        ap (λ x. if x || true then cached ext locate cache_dir k files else find_key k specs)
          (sym same)
    | inr other ↦
        ap (λ x. if x || true then cached ext locate cache_dir k files else find_key k specs)
          (sym other)
  ]
  find_key-cached n k spec false specs files e = elim (Bool-cases (n == k)) [
    | inl same ↦
        find_key-put n k spec specs
        ∙ ap (λ x. if x then some spec else find_key k specs) same
        ∙ sym e
        ∙ ap (λ x. cached ext locate cache_dir x files) ((eq_iff n k).0 same)
        ∙ ap (λ x. if x || false then cached ext locate cache_dir k files else find_key k specs)
            (sym same)
    | inr other ↦
        find_key-put n k spec specs
        ∙ ap (λ x. if x then some spec else find_key k specs) other
        ∙ ap (λ x. if x || false then cached ext locate cache_dir k files else find_key k specs)
            (sym other)
  ]

  contains_key-IsCached :
      (n k : String) (b : Bool) (files : Files)
      → IsCached ext locate cache_dir n files
      → (b ≡ true → IsCached ext locate cache_dir k files)
      → ((n == k) || b) ≡ true
      → IsCached ext locate cache_dir k files
  contains_key-IsCached n k b files here others h = elim (Bool-cases (n == k)) [
    | inl same ↦ subst (λ x. IsCached ext locate cache_dir x files) ((eq_iff n k).0 same) here
    | inr other ↦ others (ap (λ x. x || b) (sym other) ∙ h)
  ]

  -- What a run from the network leaves.
  load_into-online :
      (writable : String → Bool) (fetch : String → Fetched) (services : HashMap ServiceConfig)
      (specs out : HashMap Value) (files files' : Files)
      → AreReadable ext locate cache_dir writable fetch services
      → AreWritable ext locate cache_dir writable fetch services
      → HaveOwnFiles ext locate cache_dir services
      → load_into ext locate fetch writable false cache_dir services specs files
        ≡ some (out, files')
      → AreCached services specs out files'
        × ((k : String) → contains_key k services ≡ true → IsCached ext locate cache_dir k files')
  unfolding load_into load_spec
  load_into-online writable fetch [] specs out files files' h w d e =
      (λ k. ap (λ x. find_key k x.0) (sym (some-injective _ _ e)), λ k c. absurd (false≢true c))
  load_into-online writable fetch ((n, config) ∷ services) specs out files files' h w d e =
      let (r, one, rest) =
        bind_inv (fetched_spec ext locate writable cache_dir n (fetch config.openapi_url) files) _ _
          e in
      let (this, _) =
        fetched_spec-cached ext locate cache_dir writable n (fetch config.openapi_url) files r.1 r.0
          h.0 w.0 one in
      let kept =
        load_into-keeps ext locate cache_dir writable fetch services n (put n r.0 specs) out r.1
          files' h.1 w.1 d.0 rest
        ∙ this in
      let (found, there) =
        load_into-online writable fetch services (put n r.0 specs) out r.1 files' h.1 w.1 d.1
          rest in
      (
        λ k. found k ∙ find_key-cached n k r.0 (contains_key k services) specs files' kept,
        λ k. contains_key-IsCached n k (contains_key k services) files' (r.0, kept) (there k),
      )

  -- A run from the cache loads what the files hold, and changes none.
  load_into-offline :
      (writable : String → Bool) (fetch : String → Fetched) (services : HashMap ServiceConfig)
      (specs : HashMap Value) (files : Files)
      → ((k : String) → contains_key k services ≡ true → IsCached ext locate cache_dir k files)
      → (out : HashMap Value) × (load_into ext locate fetch writable true cache_dir services specs
            files
          ≡ some (out, files))
        × AreCached services specs out files
  unfolding load_into load_spec
  load_into-offline writable fetch [] specs files h = (specs, refl, λ k. refl)
  load_into-offline writable fetch ((n, config) ∷ services) specs files h =
      let (spec, this) = h n (ap (λ x. x || contains_key n services) (eq_refl n)) in
      let (out, e, found) =
        load_into-offline writable fetch services (put n spec specs) files
          (λ k c. h k (later (n == k) (contains_key k services) c)) in
      (
        out,
        ap
              (λ o. ◌>>=◌ {B = Value × Files} o (λ s. some (s, files)) >>= λ x.
                load_into ext locate fetch writable true cache_dir services (put n x.0 specs) x.1)
              this
            ∙ e,
        λ k. found k ∙ find_key-cached n k spec (contains_key k services) specs files this,
      )

-- After a run that loads the specifications from the network, or from the cache where the network
-- fails, and that can write the files of the cache, a run with `--offline` on the files it left loads
-- the same specification under each name and changes no file, whatever the network would answer and in
-- whatever order either run goes through its services: provided the overlay of the second run names the
-- same services, the paths of no two services lead to one file, and reading undoes printing for each
-- specification that was fetched.
pub load_specs-offline :
    (ext : External) (locate : String → String) (cache_dir : String)
    (writable writable' : String → Bool) (fetch fetch' : String → Fetched)
    (services services' : HashMap ServiceConfig) (specs : HashMap Value) (files files' : Files)
    → AreReadable ext locate cache_dir writable fetch services
    → AreWritable ext locate cache_dir writable fetch services
    → HaveOwnFiles ext locate cache_dir services
    → ((name : String) → contains_key name services' ≡ contains_key name services)
    → load_specs ext locate fetch writable false cache_dir services files ≡ some (specs, files')
    → (specs' : HashMap Value) × (load_specs ext locate fetch' writable' true cache_dir services'
          files'
        ≡ some (specs', files'))
      × ((name : String) → find_key name specs' ≡ find_key name specs)
unfolding load_specs
load_specs-offline ext locate cache_dir writable writable' fetch fetch' services services' specs
      files files' h w d same e =
    let (found, there) =
      load_into-online ext locate cache_dir writable fetch services [] specs files files' h w d e in
    let (specs', e', found') =
      load_into-offline ext locate cache_dir writable' fetch' services' [] files'
        (λ k c. there k (sym (same k) ∙ c)) in
    (
      specs',
      e',
      λ name.
          found' name
          ∙ ap (λ b. if b then read_spec ext locate cache_dir name files' else none) (same name)
          ∙ sym (found name),
    )
