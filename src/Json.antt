-- ===== src/Json.antt =====
-- JSON values, and the objects that serde's derived code builds and reads: a list of fields in
-- declaration order, of which reading takes the first of each name and ignores unknown ones.
pub use rust_microservices_archi.Prelude.Chain.{◌>>=◌}
use rust_microservices_archi.Prelude.{ℕ, ◌^◌, String, Option, none, some, ltb, ◌==◌, if◌then◌else◌}

mutual
  pub data Json : Type 0 where
    null : Json
    num : ℕ → Json
    str : String → Json
    arr : Items → Json
    obj : Fields → Json

  pub data Items : Type 0 where
    nil : Items
    cons : Json → Items → Items

  pub data Fields : Type 0 where
    end : Fields
    field : String → Json → Fields → Fields

abbrev pub field? : String → Fields → Option Json
field? k end = none
field? k (field j v fs) = if j == k then some v else field? k fs

-- `value.get(key)`.
abbrev pub get : String → Json → Option Json
get k (obj fs) = field? k fs
get k _ = none

abbrev pub as_str : Json → Option String
as_str (str s) = some s
as_str _ = none

-- A number that fits an `i32`.
abbrev pub as_i32 : Json → Option ℕ
as_i32 (num n) = if ltb n (2 ^ 31) then some n else none
as_i32 _ = none

abbrev pub as_array : Json → Option Items
as_array (arr xs) = some xs
as_array _ = none

-- A required field of a derived `Deserialize`: a missing one is an error.
abbrev pub text_field : String → Json → Option String
text_field k j = get k j >>= as_str

abbrev pub num_field : String → Json → Option ℕ
num_field k j = get k j >>= as_i32
