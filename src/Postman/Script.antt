-- ===== src/Postman/Script.antt =====
-- The test scripts of postman/generator/src/main.rs. `none` is the panic of `accept[0]`.
pub mod Braces
pub mod SavedFields
pub mod Balanced
pub mod Optional
use rust_microservices_archi.Prelude.{
  ℕ, String, ◌<>◌, Bool, true, false, Option, none, some, List, [], ◌∷◌, ◌++◌, get_or,
  if◌then◌else◌,
}
use rust_microservices_archi.Prelude.Decimal.{decimal}
use rust_microservices_archi.Postman.Text.{strip_suffix}
use rust_microservices_archi.Postman.Overlay.{HashMap, RequestConfig}

abbrev pub as_optional : String → Option String → String × Bool
as_optional field none = (field, false)
as_optional field (some f) = (f, true)

unfoldable pub parse_optional_field : String → String × Bool
unfolding strip_suffix
parse_optional_field field = as_optional field (strip_suffix b'?' field)

-- The line that saves a field of the response in a variable.
abbrev pub set_line : (indent var_name field : String) → String
set_line indent var_name field =
    indent <> "pm.collectionVariables.set('" <> var_name <> "', json." <> field <> ");"

abbrev pub save_lines : (indent var_name : String) → String × Bool → List String
save_lines indent var_name (field, true) =
    (indent <> "if (json." <> field <> ") {")
    ∷ (indent <> "    " <> set_line "" var_name field)
    ∷ (indent <> "}")
    ∷ []
save_lines indent var_name (field, false) = set_line indent var_name field ∷ []

unfoldable pub append_save_lines : List String → HashMap String → String → List String
unfolding parse_optional_field
append_save_lines lines [] indent = lines
append_save_lines lines ((var_name, field_raw) ∷ save) indent =
    append_save_lines (lines ++ save_lines indent var_name (parse_optional_field field_raw)) save
      indent

unfoldable pub save_part : Option (HashMap String) → List String → List String
unfolding append_save_lines
save_part none lines = lines
save_part (some save) lines =
    append_save_lines (lines ++ "    var json = pm.response.json();" ∷ []) save "    "

-- The branches for the other accepted statuses.
unfoldable pub else_lines : (name : String) → List ℕ → List String
unfolding decimal
else_lines name [] = []
else_lines name (status ∷ rest) =
    ("} else if (pm.response.code === " <> decimal status <> ") {")
    ∷ ("    pm.test('" <> name <> " - already exists (OK)', function () {")
    ∷ ("        pm.response.to.have.status(" <> decimal status <> ");")
    ∷ "    });"
    ∷ else_lines name rest

-- The branch of the first accepted status.
unfoldable pub accept_script :
    (name : String) → Option (HashMap String) → List ℕ → Option (List String)
unfolding save_part else_lines decimal
accept_script name save [] = none
accept_script name save (primary ∷ others) = some (
    save_part save (("if (pm.response.code === " <> decimal primary <> ") {") ∷ [])
    ++ ("    pm.test('" <> name <> " - success', function () {")
      ∷ ("        pm.response.to.have.status(" <> decimal primary <> ");")
      ∷ "    });"
      ∷ else_lines name others
    ++ "}" ∷ [])

unfoldable pub save_script : (name : String) → (status : ℕ) → HashMap String → List String
unfolding append_save_lines decimal
save_script name status save =
    append_save_lines
      (("pm.test('" <> name <> " - success', function () {")
        ∷ ("    pm.response.to.have.status(" <> decimal status <> ");")
        ∷ "    var json = pm.response.json();"
        ∷ [])
      save "    "
    ++ "});" ∷ []

unfoldable pub status_script : (name : String) → Option ℕ → List String
unfolding decimal
status_script name none = []
status_script name (some status) =
    ("pm.test('" <> name <> "', function () {")
    ∷ ("    pm.response.to.have.status(" <> decimal status <> ");")
    ∷ "});"
    ∷ []

unfoldable pub choose_script :
    (name : String)
    → (accept : Option (List ℕ)) → (save : Option (HashMap String)) → (expect : Option ℕ)
    → Option (List String)
unfolding accept_script save_script status_script
choose_script name (some accept) save expect = accept_script name save accept
choose_script name none (some save) expect = some (save_script name (get_or 200 expect) save)
choose_script name none none expect = some (status_script name expect)

unfoldable pub build_test_script : RequestConfig → Option (List String)
unfolding choose_script
build_test_script rc = choose_script rc.name rc.accept_status rc.save rc.expect_status
