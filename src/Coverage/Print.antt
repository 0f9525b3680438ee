-- ===== src/Coverage/Print.antt =====
-- The texts that tools/coverage/src/main.rs prints: totals, bars and the table at the end.
pub mod Width
use rust_microservices_archi.Prelude.{
  ℕ, ◌-◌, String, ◌<>◌, Bool, true, false, Option, none, some, List, [], ◌∷◌, ◌++◌, map,
  if◌then◌else◌,
}
use rust_microservices_archi.Prelude.Decimal.{decimal}
use rust_microservices_archi.Coverage.Types.{F64, CoverageMetric, CoverageTotals}
use rust_microservices_archi.Coverage.Lines.{repeat, pad_left, pad_right}
use rust_microservices_archi.Coverage.Commands.{Action, out}

module _ {W : Type 0} (f : F64 W) where
  unfoldable pub bar : W → String
  unfolding repeat
  bar percent =
      let filled = f.fifths percent in
      let empty = 20 - filled in "[" <> (repeat "█" filled <> repeat "░" empty) <> "]"

  unfoldable pub metric_line : (label : String) → CoverageMetric W → String
  unfolding pad_left pad_right decimal bar
  metric_line label t =
      label
      <> pad_left 5 (decimal t.covered)
      <> "/"
      <> pad_right 5 (decimal t.count)
      <> " ("
      <> f.one_decimal t.percent
      <> "%) "
      <> bar t.percent

  unfoldable pub print_totals : CoverageTotals W → List Action
  unfolding metric_line
  print_totals t =
      out (metric_line "  Lines:     " t.lines)
      ∷ out (metric_line "  Functions: " t.functions)
      ∷ out (metric_line "  Regions:   " t.regions)
      ∷ []

  -- The mark of a row of the table.
  unfoldable pub mark : Option W → CoverageTotals W → String
  mark none t = " "
  mark (some min) t = if f.ge t.lines.percent min then "✓" else "✗"

  unfoldable pub row : Option W → String × Option (CoverageTotals W) → String
  unfolding mark pad_left pad_right
  row threshold (name, some t) =
      "║ "
      <> mark threshold t
      <> " "
      <> pad_right 15 name
      <> " │ "
      <> pad_left 5 (f.one_decimal t.lines.percent)
      <> "%   │ "
      <> pad_left 5 (f.one_decimal t.functions.percent)
      <> "%     │ "
      <> pad_left 5 (f.one_decimal t.regions.percent)
      <> "%            ║"
  row threshold (name, none) =
      "║   " <> pad_right 15 name <> " │  ERROR   │  ERROR    │  ERROR           ║"

  abbrev pub threshold_line : Option W → List Action
  threshold_line none = []
  threshold_line (some min) = out ("  Threshold: " <> f.one_decimal min <> "%") ∷ []

  unfoldable pub print_summary : List (String × Option (CoverageTotals W)) → Option W → List Action
  unfolding row
  print_summary results threshold =
      out "╔══════════════════════════════════════════════════════════════╗"
        ∷ out "║  Service          │ Lines    │ Functions │ Regions          ║"
        ∷ out "╠══════════════════════════════════════════════════════════════╣"
        ∷ map (λ r. out (row threshold r)) results
      ++ out "╚══════════════════════════════════════════════════════════════╝"
        ∷ threshold_line threshold
