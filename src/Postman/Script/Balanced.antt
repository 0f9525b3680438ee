-- ===== src/Postman/Script/Balanced.antt =====
-- The test scripts of the generator as JavaScript: their braces.
use rust_microservices_archi.Prelude.{
  ℕ, suc, ◌≡◌, ◌↔◌, refl, String, ◌<>◌, true, Option, none, some, List, [], ◌∷◌, ◌++◌, get_or,
}
use mathlib.Core.Option.{some-injective}
use rust_microservices_archi.Prelude.Decimal.{decimal}
use rust_microservices_archi.Postman.Overlay.{HashMap, RequestConfig}
use rust_microservices_archi.Postman.Script.{
  append_save_lines, save_part, else_lines, accept_script, save_script, status_script,
  choose_script, build_test_script,
}
use rust_microservices_archi.Postman.Script.Braces.{
  scan, scan_lines, then_line, then_lines, is_plain, decimal-plain,
}
use rust_microservices_archi.Postman.Script.SavedFields.{
  ArePlain, IsPlainSave, framed, append_save_lines-scan, save_part-scan,
}

-- A test whose function asks for a status, from its two lines with a plain part.
test-scan :
    (d : ℕ) {e : ℕ} (before name after ask : String) (status : ℕ)
    → scan d before ≡ some d
    → is_plain name ≡ true
    → scan d after ≡ some (suc d)
    → scan (suc d) ask ≡ some (suc d)
    → (rest : List String) → scan_lines (suc d) rest ≡ some e
    → scan_lines d ((before <> name <> after) ∷ (ask <> decimal status <> ");") ∷ rest) ≡ some e
test-scan d before name after ask status b n a k rest r =
    then_line d (before <> name <> after) ((ask <> decimal status <> ");") ∷ rest)
      (framed d before name after b n a)
      (then_line (suc d) (ask <> decimal status <> ");") rest
        (framed (suc d) ask (decimal status) ");" k (decimal-plain status) refl) r)

else_lines-scan :
    (name : String) (others : List ℕ)
    → is_plain name ≡ true
    → scan_lines 1 (else_lines name others) ≡ some 1
unfolding else_lines
else_lines-scan name [] n = refl
else_lines-scan name (status ∷ others) n =
    then_line 1 ("} else if (pm.response.code === " <> decimal status <> ") {")
      (("    pm.test('" <> name <> " - already exists (OK)', function () {")
        ∷ ("        pm.response.to.have.status(" <> decimal status <> ");")
        ∷ "    });"
        ∷ else_lines name others)
      (framed 1 "} else if (pm.response.code === " (decimal status) ") {" refl
        (decimal-plain status) refl)
      (test-scan 1 "    pm.test('" name " - already exists (OK)', function () {"
        "        pm.response.to.have.status(" status refl n refl refl
        ("    });" ∷ else_lines name others) (else_lines-scan name others n))

-- The first lines of `accept_script`, and its lines from the saved fields to the last brace.
abbrev accept_head : (save : Option (HashMap String)) → ℕ → List String
accept_head save primary =
    save_part save (("if (pm.response.code === " <> decimal primary <> ") {") ∷ [])

abbrev accept_rest : (name : String) → ℕ → List ℕ → List String
accept_rest name primary others =
    ("    pm.test('" <> name <> " - success', function () {")
    ∷ ("        pm.response.to.have.status(" <> decimal primary <> ");")
    ∷ "    });"
    ∷ else_lines name others

accept_head-scan :
    (save : Option (HashMap String)) (primary : ℕ)
    → IsPlainSave save
    → scan_lines 0 (accept_head save primary) ≡ some 1
accept_head-scan save primary p =
    save_part-scan 0 1 save (("if (pm.response.code === " <> decimal primary <> ") {") ∷ [])
      (then_line 0 ("if (pm.response.code === " <> decimal primary <> ") {") []
        (framed 0 "if (pm.response.code === " (decimal primary) ") {" refl (decimal-plain primary)
          refl)
        refl)
      p

accept_rest-scan :
    (name : String) (primary : ℕ) (others : List ℕ)
    → is_plain name ≡ true
    → scan_lines 1 (accept_rest name primary others) ≡ some 1
accept_rest-scan name primary others n =
    test-scan 1 "    pm.test('" name " - success', function () {"
      "        pm.response.to.have.status(" primary refl n refl refl
      ("    });" ∷ else_lines name others) (else_lines-scan name others n)

accept_script-scan :
    (name : String) (save : Option (HashMap String)) (accept : List ℕ) (lines : List String)
    → is_plain name ≡ true
    → IsPlainSave save
    → accept_script name save accept ≡ some lines
    → scan_lines 0 lines ≡ some 0
unfolding accept_script
accept_script-scan name save [] lines n p e = cc
accept_script-scan name save (primary ∷ others) lines n p e = rw (← some-injective _ _ e) (
    then_lines 0 (accept_head save primary ++ accept_rest name primary others) ("}" ∷ [])
      (then_lines 0 (accept_head save primary) (accept_rest name primary others)
        (accept_head-scan save primary p) (accept_rest-scan name primary others n))
      refl)

save_script-scan :
    (name : String) (status : ℕ) (save : HashMap String)
    → is_plain name ≡ true
    → ArePlain save
    → scan_lines 0 (save_script name status save) ≡ some 0
unfolding save_script
save_script-scan name status save n p =
    then_lines 0
      (append_save_lines
        (("pm.test('" <> name <> " - success', function () {")
          ∷ ("    pm.response.to.have.status(" <> decimal status <> ");")
          ∷ "    var json = pm.response.json();"
          ∷ [])
        save "    ")
      ("});" ∷ [])
      (append_save_lines-scan save 0 1 _
        (test-scan 0 "pm.test('" name " - success', function () {" "    pm.response.to.have.status("
          status refl n refl refl ("    var json = pm.response.json();" ∷ []) refl)
        p)
      refl

status_script-scan :
    (name : String) (expect : Option ℕ)
    → is_plain name ≡ true
    → scan_lines 0 (status_script name expect) ≡ some 0
unfolding status_script
status_script-scan name none n = refl
status_script-scan name (some status) n =
    test-scan 0 "pm.test('" name "', function () {" "    pm.response.to.have.status(" status refl n
      refl refl ("});" ∷ []) refl

choose_script-scan :
    (name : String) (accept : Option (List ℕ)) (save : Option (HashMap String)) (expect : Option ℕ)
    (lines : List String)
    → is_plain name ≡ true
    → IsPlainSave save
    → choose_script name accept save expect ≡ some lines
    → scan_lines 0 lines ≡ some 0
unfolding choose_script
choose_script-scan name (some accept) save expect lines n p e =
    accept_script-scan name save accept lines n p e
choose_script-scan name none (some save) expect lines n p e =
    rw (← some-injective _ _ e) (save_script-scan name (get_or 200 expect) save n p)
choose_script-scan name none none expect lines n p e =
    rw (← some-injective _ _ e) (status_script-scan name expect n)

-- A test script closes every brace that it opens, and closes none before it is open, when the
-- name of the request and the names and fields that it saves have no braces.
pub build_test_script-IsBalanced :
    (rc : RequestConfig) (lines : List String)
    → is_plain rc.name ≡ true
    → IsPlainSave rc.save
    → build_test_script rc ≡ some lines
    → scan_lines 0 lines ≡ some 0
unfolding build_test_script
build_test_script-IsBalanced rc lines n p e =
    choose_script-scan rc.name rc.accept_status rc.save rc.expect_status lines n p e

choose_script-panics :
    (name : String) (accept : Option (List ℕ)) (save : Option (HashMap String)) (expect : Option ℕ)
    → choose_script name accept save expect ≡ none ↔ accept ≡ some []
unfolding choose_script accept_script
choose_script-panics name none none expect = (λ e. cc, λ e. cc)
choose_script-panics name none (some save) expect = (λ e. cc, λ e. cc)
choose_script-panics name (some []) save expect = (λ e. refl, λ e. refl)
choose_script-panics name (some (primary ∷ others)) save expect = (λ e. cc, λ e. cc)

-- Building a test script panics exactly when the request has a list of accepted statuses and
-- that list is empty.
pub build_test_script-panics :
    (rc : RequestConfig) → build_test_script rc ≡ none ↔ rc.accept_status ≡ some []
unfolding build_test_script
build_test_script-panics rc = choose_script-panics rc.name rc.accept_status rc.save rc.expect_status
