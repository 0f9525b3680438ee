-- ===== src/Coverage/Main/Summary.antt =====
-- The table at the end of tools/coverage/src/main.rs beside the exit code.
use mathlib.Core.Bool.{false≢true, true≢false}
use mathlib.Core.Option.{some-injective}
use mathlib.Core.List.{append-nil, append_assoc}
use rust_microservices_archi.Prelude.{
  ◌≡◌, ◌↔◌, refl, sym, ap, subst, ◌∙◌, inl, inr, String, Bool, true, false, not, Option, none, some,
  List, [], ◌==◌, ◌∷◌, ◌++◌, All, map, if◌then◌else◌,
}
use rust_microservices_archi.Coverage.Types.{F64, PathBuf, CoverageTotals, ServiceInfo}
use rust_microservices_archi.Coverage.Paths.{join}
use rust_microservices_archi.Coverage.Commands.{Machine, Action, run_coverage}
use rust_microservices_archi.Coverage.Print.{mark}
use rust_microservices_archi.Coverage.Main.{Progress, measure, measure_all}
use rust_microservices_archi.Coverage.Main.Passing.{IsEnough, Passes, measure_all-Passes}

module _ {W : Type 0} (f : F64 W) (m : Machine W) (root : PathBuf) where
  -- The row of a service: its totals, or none if its directory is missing or nothing was measured.
  abbrev pub row_of : ServiceInfo → String × Option (CoverageTotals W)
  row_of svc =
      let dir = join root svc.dir in
      (svc.name, if m.exists dir then (run_coverage m dir).1 else none)

  turn-results :
      (there passed before : Bool) (name : String) (totals : Option (CoverageTotals W))
      (results : List (String × Option (CoverageTotals W))) (log log' : List Action)
      → (let st : Progress W =
            if there
            then record {
              all_passed = if passed then before else false;
              results = results ++ (name, totals) ∷ [];
              log = log;
            }
            else record {
              all_passed = before;
              results = results ++ (name, none) ∷ [];
              log = log';
            } in
          st.results)
        ≡ results ++ (name, if there then totals else none) ∷ []
  turn-results true passed before name totals results log log' = refl
  turn-results false passed before name totals results log log' = refl

  measure-results :
      (threshold : Option W) (st : Progress W) (svc : ServiceInfo)
      → (measure f m root threshold st svc).results ≡ st.results ++ row_of svc ∷ []
  unfolding measure
  measure-results threshold st svc =
      turn-results (m.exists (join root svc.dir)) _ st.all_passed svc.name
        (run_coverage m (join root svc.dir)).1 st.results _ _

  -- The table has one row for each selected service, in their order.
  measure_all-results :
      (threshold : Option W) (svcs : List ServiceInfo) (st : Progress W)
      → (measure_all f m root threshold svcs st).results ≡ st.results ++ map row_of svcs
  unfolding measure_all
  measure_all-results threshold [] st = sym (append-nil st.results)
  measure_all-results threshold (svc ∷ svcs) st =
      measure_all-results threshold svcs (measure f m root threshold st svc)
      ∙ ap (λ r. r ++ map row_of svcs) (measure-results threshold st svc)
      ∙ append_assoc st.results (row_of svc ∷ []) (map row_of svcs)

  tick :
      (below ge : Bool)
      → ge ≡ not below
      → (◌≡◌ {A = String} (if ge then "✓" else "✗") "✓") ↔ (below ≡ false)
  tick true true h = absurd (true≢false h)
  tick true false h = (λ e. absurd (false≢true (ap (λ x. x == "✓") e)), λ e. absurd (true≢false e))
  tick false true h = (λ e. refl, λ e. refl)
  tick false false h = absurd (false≢true h)

  mark-IsEnough :
      (min : W) (t : CoverageTotals W)
      → f.ge t.lines.percent min ≡ not (f.lt t.lines.percent min)
      → (mark f (some min) t ≡ "✓") ↔ IsEnough f m (some min) t
  unfolding mark
  mark-IsEnough min t h =
      let both = tick (f.lt t.lines.percent min) (f.ge t.lines.percent min) h in
      (
        λ e other same.
            subst (λ x. f.lt t.lines.percent x ≡ false) (some-injective _ _ same) (both.0 e),
        λ enough. both.1 (enough min refl),
      )

  -- Neither the coverage measured for a service nor the threshold is NaN.
  abbrev pub IsComparable : W → ServiceInfo → Type 0
  IsComparable min svc =
      (t : CoverageTotals W)
      → (run_coverage m (join root svc.dir)).1 ≡ some t
      → f.ge t.lines.percent min ≡ not (f.lt t.lines.percent min)

  abbrev pub IsTicked : W → String × Option (CoverageTotals W) → Type 0
  IsTicked min r = (t : CoverageTotals W) × (r.1 ≡ some t) × (mark f (some min) t ≡ "✓")

  row-Passes :
      (min : W) (svc : ServiceInfo)
      → m.exists (join root svc.dir) ≡ true
      → IsComparable min svc
      → Passes f m root (some min) svc ↔ IsTicked min (row_of svc)
  row-Passes min svc there c =
      let here : (row_of svc).1 ≡ (run_coverage m (join root svc.dir)).1 =
        ap (λ b. if b then (run_coverage m (join root svc.dir)).1 else none) there in
      (
        λ p. elim p [
          | inl gone ↦ absurd (true≢false (sym there ∙ gone))
          | inr (t, e, enough) ↦ (t, here ∙ e, (mark-IsEnough min t (c t e)).1 enough)
        ],
        λ (t, e, ticked).
            let e' = sym here ∙ e in inr (t, e', (mark-IsEnough min t (c t e')).0 ticked),
      )

  rows-Pass :
      (min : W) (svcs : List ServiceInfo)
      → All (λ svc. m.exists (join root svc.dir) ≡ true) svcs
      → All (IsComparable min) svcs
      → All (Passes f m root (some min)) svcs ↔ All (IsTicked min) (map row_of svcs)
  rows-Pass min [] h c = (λ e. e, λ e. e)
  rows-Pass min (svc ∷ svcs) h c =
      let one = row-Passes min svc h.0 c.0 in
      let others = rows-Pass min svcs h.1 c.1 in
      (λ p. (one.0 p.0, others.0 p.1), λ p. (one.1 p.0, others.1 p.1))

  -- When the directories of the services exist and neither a measured line coverage nor the threshold
  -- is NaN, the table has one row for each service in their order, and all services pass exactly when
  -- every row has totals and the mark of a service that passed.
  pub measure_all-ticks :
      (min : W) (svcs : List ServiceInfo) (log : List Action)
      → All (λ svc. m.exists (join root svc.dir) ≡ true) svcs
      → All (IsComparable min) svcs
      → (let st =
            measure_all f m root
              (some min)
              svcs
              (record { all_passed = true; results = []; log = log }) in
          (st.results ≡ map row_of svcs) × ((st.all_passed ≡ true) ↔ All (IsTicked min) st.results))
  measure_all-ticks min svcs log h c =
      let start : Progress W = record { all_passed = true; results = []; log = log } in
      let rows = measure_all-results (some min) svcs start in
      let passes = measure_all-Passes f m root (some min) svcs start in
      let ticks = rows-Pass min svcs h c in
      (
        rows,
        (
          λ e. subst (All (IsTicked min)) (sym rows) (ticks.0 (passes.0 e).1),
          λ t. passes.1 (refl, ticks.1 (subst (All (IsTicked min)) rows t)),
        ),
      )
