-- ===== src/Postman/Script/SavedFields.antt =====
-- The lines of the test scripts that save fields of the response: their braces.
use rust_microservices_archi.Prelude.{
  ℕ, suc, ◌≡◌, refl, String, ◌<>◌, Bool, true, false, Option, none, some, List, [], ◌∷◌, ◌++◌, All,
}
use rust_microservices_archi.Postman.Text.{strip_suffix}
use rust_microservices_archi.Postman.Overlay.{HashMap}
use rust_microservices_archi.Postman.Script.{
  as_optional, parse_optional_field, set_line, save_lines, append_save_lines, save_part,
}
use rust_microservices_archi.Postman.Script.Braces.{
  scan, scan_lines, then_text, then_line, then_lines, is_plain, scan-plain, strip_suffix-plain,
}

-- The names and the fields of a map have no braces.
abbrev pub ArePlain : HashMap String → Type 0
ArePlain = All (λ e. (is_plain e.0 ≡ true) × (is_plain e.1 ≡ true))

abbrev pub IsPlainSave : Option (HashMap String) → Type 0
IsPlainSave none = Unit
IsPlainSave (some save) = ArePlain save

-- A line with something plain between two constant parts.
pub framed :
    (d : ℕ) {e f : ℕ} (before s after : String)
    → scan d before ≡ some e
    → is_plain s ≡ true
    → scan e after ≡ some f
    → scan d (before <> s <> after) ≡ some f
framed d {e} before s after h p k =
    then_text d before (s <> after) h (then_text e s after (scan-plain e s p) k)

set_line-scan :
    (d : ℕ) (indent var_name field : String)
    → is_plain indent ≡ true
    → is_plain var_name ≡ true
    → is_plain field ≡ true
    → scan d (set_line indent var_name field) ≡ some d
set_line-scan d indent var_name field i v f =
    then_text d indent ("pm.collectionVariables.set('" <> var_name <> "', json." <> field <> ");")
      (scan-plain d indent i)
      (framed d "pm.collectionVariables.set('" var_name ("', json." <> field <> ");") refl v
        (framed d "', json." field ");" refl f refl))

save_lines-scan :
    (d : ℕ) (var_name : String) (parsed : String × Bool)
    → is_plain var_name ≡ true
    → is_plain parsed.0 ≡ true
    → scan_lines d (save_lines "    " var_name parsed) ≡ some d
save_lines-scan d var_name (field, true) v f =
    then_line d ("    " <> "if (json." <> field <> ") {")
      (("    " <> "    " <> set_line "" var_name field) ∷ ("    " <> "}") ∷ [])
      (then_text d "    " ("if (json." <> field <> ") {") refl
        (framed d "if (json." field ") {" refl f refl))
      (then_line (suc d) ("    " <> "    " <> set_line "" var_name field) (("    " <> "}") ∷ [])
        (then_text (suc d) "    " ("    " <> set_line "" var_name field) refl (
          then_text (suc d) "    " (set_line "" var_name field) refl
            (set_line-scan (suc d) "" var_name field refl v f)))
        refl)
save_lines-scan d var_name (field, false) v f =
    then_line d (set_line "    " var_name field) [] (set_line-scan d "    " var_name field refl v f)
      refl

parsed-plain :
    (field : String) (o : Option String)
    → strip_suffix b'?' field ≡ o
    → is_plain field ≡ true
    → is_plain (as_optional field o).0 ≡ true
parsed-plain field none e h = h
parsed-plain field (some f) e h = strip_suffix-plain b'?' field f h e

parse_optional_field-plain :
    (field : String) → is_plain field ≡ true → is_plain (parse_optional_field field).0 ≡ true
unfolding parse_optional_field
parse_optional_field-plain field h = parsed-plain field _ refl h

pub append_save_lines-scan :
    (save : HashMap String) (c d : ℕ) (lines : List String)
    → scan_lines c lines ≡ some d
    → ArePlain save
    → scan_lines c (append_save_lines lines save "    ") ≡ some d
unfolding append_save_lines
append_save_lines-scan [] c d lines h p = h
append_save_lines-scan ((var_name, raw) ∷ save) c d lines h p =
    append_save_lines-scan save c d (lines ++ save_lines "    " var_name (parse_optional_field raw))
      (then_lines c lines (save_lines "    " var_name (parse_optional_field raw)) h (
        save_lines-scan d var_name (parse_optional_field raw) p.0.0
          (parse_optional_field-plain raw p.0.1)))
      p.1

pub save_part-scan :
    (c d : ℕ) (save : Option (HashMap String)) (lines : List String)
    → scan_lines c lines ≡ some d
    → IsPlainSave save
    → scan_lines c (save_part save lines) ≡ some d
unfolding save_part
save_part-scan c d none lines h p = h
save_part-scan c d (some save) lines h p =
    append_save_lines-scan save c d (lines ++ "    var json = pm.response.json();" ∷ [])
      (then_lines c lines ("    var json = pm.response.json();" ∷ []) h refl) p
