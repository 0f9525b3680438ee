-- ===== src/Tests/Coverage.antt =====
-- The coverage tool: percentages in tenths, with NaN, a machine with fixed answers, and the theorems.
use rust_microservices_archi.Prelude.{
  ℕ, ◌+◌, ◌≡◌, ◌↔◌, ◌||◌, refl, sym, subst, ◌∙◌, String, ◌<>◌, ◌==◌, Bool, true, false, not, Option,
  none, some, [], ◌∷◌, All, map, ltb, leb, if◌then◌else◌, arith,
}
use Prim.Native.Nat.{◌/◌}
use mathlib.Core.Option.{some-injective}
use rust_microservices_archi.Prelude.Decimal.{decimal}
use rust_microservices_archi.Postman.Text.{size}
use rust_microservices_archi.Coverage.Types.{
  F64, utf8, PathBuf, Cli, CoverageMetric, CoverageTotals, CoverageReport, ServiceInfo, success,
}
use rust_microservices_archi.Coverage.Paths.{join, display, walk_up}
use rust_microservices_archi.Coverage.Paths.Nearest.{IsNearest, walk_up-IsNearest}
use rust_microservices_archi.Coverage.Commands.{Machine, services, run_coverage, report_of}
use rust_microservices_archi.Coverage.Commands.LastReport.{report_of-last}
use rust_microservices_archi.Coverage.Lines.{lines}
use rust_microservices_archi.Coverage.Print.{bar}
use rust_microservices_archi.Coverage.Print.Width.{bar-size}
use rust_microservices_archi.Coverage.Main.{measure_all}
use rust_microservices_archi.Coverage.Main.Summary.{
  row_of, IsTicked, IsComparable, measure_all-ticks,
}

-- Tenths of a per cent, with `none` for NaN.
abbrev Tenths : Type 0
Tenths = Option ℕ

abbrev on_numbers : (ℕ → ℕ → Bool) → Tenths → Tenths → Bool
on_numbers f (some a) (some b) = f a b
on_numbers f _ _ = false

abbrev fifths : Tenths → ℕ
fifths none = 0
fifths (some n) = (n + 25) / 50

abbrev one_decimal : Tenths → String
one_decimal none = "NaN"
one_decimal (some n) = decimal (n / 10) <> ".0"

abbrev tenths : F64 Tenths
tenths = record {
  lt = on_numbers ltb;
  ge = on_numbers (λ a b. leb b a);
  fifths = fifths;
  one_decimal = one_decimal;
}

abbrev metric : ℕ → CoverageMetric Tenths
metric n = record { count = 1000; covered = n; percent = some n }

abbrev totals : ℕ → CoverageTotals Tenths
totals n = record { lines = metric n; functions = metric n; regions = metric n }

-- The only report is the line `report`.
abbrev read_report : String → Option (CoverageReport Tenths)
read_report s =
    if s == "report" then some (record { data' = record { totals = totals 825 } ∷ [] }) else none

abbrev root : PathBuf
root = record { prefix = "/"; names = utf8 "repo" ∷ [] }

abbrev manifest_dir : PathBuf
manifest_dir = record { prefix = "/"; names = utf8 "coverage" ∷ utf8 "tools" ∷ utf8 "repo" ∷ [] }

-- The project lies in /repo.
abbrev is_there : PathBuf → Bool
is_there p =
    display p == "/repo/docker-compose.yml"
    || display p == "/repo/auth-service"
    || display p == "/repo/user-service"

abbrev machine : Machine Tenths
machine = record {
  exists = is_there;
  version = true;
  json = λ p. some (record { success = true; stdout = "running 3 tests\nreport\n"; stderr = "" });
  html = λ p. true;
  lcov = λ p s. true;
  from_str = read_report;
}

abbrev cli : Cli Tenths
cli = record { service = none; html = true; lcov = true; threshold = some (some 800); root = none }

measured : (s : ServiceInfo) → (run_coverage machine (join root s.dir)).1 ≡ some (totals 825)
unfolding run_coverage
measured s = refl

comparable : (svc : ServiceInfo) → IsComparable tenths machine root (some 800) svc
comparable svc t e =
    subst
      (λ x.
        on_numbers (λ a b. leb b a) x.lines.percent (some 800)
        ≡ not (on_numbers ltb x.lines.percent (some 800)))
      (some-injective _ _ (sym (measured svc) ∙ e)) refl

measure_all-ticks_example :
    (let st =
        measure_all tenths machine root
          (some (some 800))
          services
          (record { all_passed = true; results = []; log = [] }) in
      (st.results ≡ map (row_of tenths machine root) services)
      × ((st.all_passed ≡ true) ↔ All (IsTicked tenths machine root (some 800)) st.results))
measure_all-ticks_example =
    measure_all-ticks tenths machine root (some 800) services [] (refl, (refl, tt))
      (
        comparable (record { name = "auth-service"; dir = "auth-service" }),
        (comparable (record { name = "user-service"; dir = "user-service" }), tt),
      )

walk_up-IsNearest_example : IsNearest is_there "/" manifest_dir.names (some root)
unfolding walk_up
walk_up-IsNearest_example = walk_up-IsNearest is_there "/" manifest_dir.names

report_of-last_example :
    report_of machine "running 3 tests\nreport\n"
    ≡ some (record { data' = record { totals = totals 825 } ∷ [] })
unfolding lines
report_of-last_example =
    (report_of-last machine "running 3 tests\nreport\n").0 ("running 3 tests" ∷ []) [] "report" _
      refl refl tt

bar-size_example : size (bar tenths (some 825)) ≡ 22
bar-size_example = (bar-size tenths (some 825)).0 (omega arith)
