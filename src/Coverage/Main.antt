-- ===== src/Coverage/Main.antt =====
-- `main` of tools/coverage/src/main.rs. `none` is a panic.
pub mod Passing
pub mod Exit
pub mod Summary
use rust_microservices_archi.Prelude.{
  String, ◌<>◌, Bool, true, false, ◌||◌, Option, none, some, List, [], ◌∷◌, ◌++◌, keep,
  if◌then◌else◌,
}
use rust_microservices_archi.Postman.Text.{is_prefix}
use rust_microservices_archi.Prelude.Chain.{◌>>=◌}
use rust_microservices_archi.Coverage.Types.{
  F64, PathBuf, Cli, CoverageTotals, ServiceInfo, ExitCode, success, failure,
}
use rust_microservices_archi.Coverage.Paths.{join, display, project_root}
use rust_microservices_archi.Coverage.Commands.{
  Machine, Action, out, error, services, check_tool_installed, run_coverage, generate_html,
  generate_lcov,
}
use rust_microservices_archi.Coverage.Print.{print_totals, print_summary}

-- The services whose name or directory begins with the argument, or all.
unfoldable pub select : Option String → List ServiceInfo
unfolding is_prefix
select none = services
select (some name) = keep (λ s. is_prefix name s.name || is_prefix name s.dir) services

abbrev pub is_empty : {A : Type 0} → List A → Bool
is_empty [] = true
is_empty (x ∷ xs) = false

-- The variables of the loop, and what was printed.
pub record Progress (W : Type 0) : Type 0 where
  pub all_passed : Bool
  pub results : List (String × Option (CoverageTotals W))
  pub log : List Action

module _ {W : Type 0} (f : F64 W) (m : Machine W) where
  -- The threshold check: whether it passes, and its line.
  unfoldable pub check_threshold : Option W → CoverageTotals W → Bool × List Action
  check_threshold none t = (true, [])
  check_threshold (some min) t =
      if f.lt t.lines.percent min
      then (
        false,
        out (
              "  ✗ FAIL: line coverage "
              <> f.one_decimal t.lines.percent
              <> "% < threshold "
              <> f.one_decimal min
              <> "%")
            ∷ [],
      )
      else (
        true,
        out (
              "  ✓ PASS: line coverage "
              <> f.one_decimal t.lines.percent
              <> "% >= threshold "
              <> f.one_decimal min
              <> "%")
            ∷ [],
      )

  unfoldable pub judge : Option W → Option (CoverageTotals W) → Bool × List Action
  unfolding check_threshold print_totals
  judge threshold none = (false, error "  ERROR: coverage run failed" ∷ [])
  judge threshold (some t) =
      let (passed, lines) = check_threshold threshold t in (passed, print_totals f t ++ lines)

  -- One turn of the loop.
  unfoldable pub measure : PathBuf → Option W → Progress W → ServiceInfo → Progress W
  unfolding run_coverage judge
  measure root threshold st svc =
      let title = out ("── " <> svc.name <> " ──────────────────────────────") in
      let svc_dir = join root svc.dir in
      let (ran, totals) = run_coverage m svc_dir in
      let (passed, judged) = judge threshold totals in
      if m.exists svc_dir
      then record {
        all_passed = if passed then st.all_passed else false;
        results = st.results ++ (svc.name, totals) ∷ [];
        log = st.log ++ title ∷ ran ++ judged ++ out "" ∷ [];
      }
      else record {
        all_passed = st.all_passed;
        results = st.results ++ (svc.name, none) ∷ [];
        log = st.log ++ title ∷ error ("  SKIP: directory not found: " <> display svc_dir) ∷ [];
      }

  unfoldable pub measure_all : PathBuf → Option W → List ServiceInfo → Progress W → Progress W
  unfolding measure
  measure_all root threshold [] st = st
  measure_all root threshold (svc ∷ svcs) st =
      measure_all root threshold svcs (measure root threshold st svc)

  unfoldable pub html_all : PathBuf → List ServiceInfo → Option (List Action)
  unfolding generate_html
  html_all root [] = some []
  html_all root (svc ∷ svcs) =
      let rest = html_all root svcs in
      do one ← generate_html m (join root svc.dir); others ← rest; some (one ++ others)

  unfoldable pub lcov_all : PathBuf → List ServiceInfo → Option (List Action)
  unfolding generate_lcov
  lcov_all root [] = some []
  lcov_all root (svc ∷ svcs) =
      let rest = lcov_all root svcs in
      do one ← generate_lcov m (join root svc.dir) svc.name; others ← rest; some (one ++ others)

  abbrev pub banner : List Action
  banner =
      out "╔══════════════════════════════════════════╗"
      ∷ out "║       Code Coverage Report               ║"
      ∷ out "╚══════════════════════════════════════════╝\n"
      ∷ []

  abbrev pub verdict : Bool → ExitCode
  verdict true = success
  verdict false = failure

  -- From the selected services on.
  unfoldable pub report : Cli W → PathBuf → List ServiceInfo → Option (List Action × ExitCode)
  unfolding measure_all print_summary html_all lcov_all
  report cli root selected =
      let st : Progress W =
        measure_all root cli.threshold selected
          (record { all_passed = true; results = []; log = banner }) in
      let pages =
        if cli.html
        then (html_all root selected >>= λ l. some (out "\nGenerating HTML reports..." ∷ l))
        else some [] in
      let traces =
        if cli.lcov
        then (lcov_all root selected >>= λ l. some (out "\nGenerating LCOV reports..." ∷ l))
        else some [] in
      pages >>= λ html. traces >>= λ lcov.
      some
        (st.log ++ print_summary f st.results cli.threshold ++ html ++ lcov, verdict st.all_passed)

  -- A selection that is empty is an error; it panics if no service was named.
  abbrev pub no_service : Option String → Option (List Action × ExitCode)
  no_service none = none
  no_service (some name) = some (
    error ("ERROR: No matching service found for '" <> name <> "'")
        ∷ error "  Available: auth-service, user-service"
        ∷ [],
    failure,
  )

  -- From the root of the project on.
  unfoldable pub run_in : Cli W → PathBuf → Option (List Action × ExitCode)
  unfolding check_tool_installed select report
  run_in cli root =
      let selected = select cli.service in
      if check_tool_installed m
      then (if is_empty selected then no_service cli.service else report cli root selected)
      else some (
        error "ERROR: cargo-llvm-cov is not installed."
            ∷ error "  Install: cargo install cargo-llvm-cov"
            ∷ error "  Also:    rustup component add llvm-tools-preview"
            ∷ [],
        failure,
      )

  unfoldable pub main : (manifest_dir : PathBuf) → Cli W → Option (List Action × ExitCode)
  unfolding project_root run_in
  main manifest_dir cli = project_root m.exists manifest_dir cli.root >>= run_in cli
