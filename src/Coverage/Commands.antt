-- ===== src/Coverage/Commands.antt =====
-- The commands that tools/coverage/src/main.rs runs, and what it does with their answers.
pub mod LastReport
use rust_microservices_archi.Prelude.{
  String, ◌<>◌, Bool, true, false, Option, none, some, List, [], ◌∷◌, if◌then◌else◌,
}
use rust_microservices_archi.Prelude.Chain.{◌>>=◌}
use rust_microservices_archi.Coverage.Types.{
  PathBuf, CoverageTotals, CoverageData, CoverageReport, ServiceInfo,
}
use rust_microservices_archi.Coverage.Paths.{join, display, to_str, name_to_str, file_name}
use rust_microservices_archi.Coverage.Lines.{lines, find_last_map, or_else}

-- A finished process: whether its status is a success, and its two texts.
pub record Output : Type 0 where
  pub success : Bool
  pub stdout : String
  pub stderr : String

-- What the machine answers: which paths exist, and the commands by their directories. A command that
-- cannot be started has no output, and no success.
pub record Machine (W : Type 0) : Type 0 where
  pub exists : PathBuf → Bool
  pub version : Bool
  pub json : PathBuf → Option Output
  pub html : PathBuf → Bool
  pub lcov : PathBuf → String → Bool
  -- `serde_json::from_str::<CoverageReport>`
  pub from_str : String → Option (CoverageReport W)

-- What the tool does to the outside, in order.
pub data Action : Type 0 where
  out : String → Action
  error : String → Action
  browse : PathBuf → Action

abbrev pub services : List ServiceInfo
services =
    record { name = "auth-service"; dir = "auth-service" }
    ∷ record { name = "user-service"; dir = "user-service" }
    ∷ []

module _ {W : Type 0} (m : Machine W) where
  unfoldable pub check_tool_installed : Bool
  check_tool_installed = m.version

  abbrev pub first_totals : List (CoverageData W) → Option (CoverageTotals W)
  first_totals [] = none
  first_totals (d ∷ ds) = some d.totals

  -- The report in an output: the last line that is one, or else the whole text.
  unfoldable pub report_of : String → Option (CoverageReport W)
  unfolding lines find_last_map
  report_of stdout = or_else (find_last_map m.from_str (lines stdout)) (m.from_str stdout)

  unfoldable pub coverage_of : Option Output → List Action × Option (CoverageTotals W)
  unfolding report_of
  coverage_of none = ([], none)
  coverage_of (some output) =
      if output.success
      then ([], report_of output.stdout >>= λ r. first_totals r.data')
      else (error ("  cargo llvm-cov failed:\n" <> output.stderr) ∷ [], none)

  unfoldable pub run_coverage : PathBuf → List Action × Option (CoverageTotals W)
  unfolding coverage_of
  run_coverage svc_dir =
      let (log, totals) = coverage_of (m.json svc_dir) in
      (out "  Running tests with coverage instrumentation..." ∷ log, totals)

  -- `none` is the panic of a path without a name, or with a name that is not UTF-8.
  unfoldable pub generate_html : PathBuf → Option (List Action)
  generate_html svc_dir = file_name svc_dir >>= name_to_str >>= λ name.
      let html_path = join (join (join (join svc_dir "target") "llvm-cov") "html") "index.html" in
      some (
        out ("  " <> name <> ": generating HTML...")
        ∷ (if m.html svc_dir
            then out ("  " <> name <> ": " <> display html_path) ∷ browse html_path ∷ []
            else error ("  " <> name <> ": HTML generation failed") ∷ []))

  -- `none` is the panic of a path that is not UTF-8.
  unfoldable pub generate_lcov : PathBuf → (name : String) → Option (List Action)
  generate_lcov svc_dir name =
      let lcov_path = join svc_dir (name <> ".lcov") in
      to_str lcov_path >>= λ text. some (
        out ("  " <> name <> ": generating LCOV → " <> display lcov_path)
        ∷ (if m.lcov svc_dir text
            then out ("  " <> name <> ": LCOV saved") ∷ []
            else error ("  " <> name <> ": LCOV generation failed") ∷ []))
