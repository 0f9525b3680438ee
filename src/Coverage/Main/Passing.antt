-- ===== src/Coverage/Main/Passing.antt =====
-- Which services pass the loop of tools/coverage/src/main.rs.
use mathlib.Core.Bool.{false≢true, true≢false}
use mathlib.Core.Option.{some-injective}
use rust_microservices_archi.Prelude.{
  ◌≡◌, ◌↔◌, refl, sym, subst, ◌⊎◌, inl, inr, String, Bool, true, false, Option, none, some, List,
  [], ◌∷◌, All, if◌then◌else◌,
}
use rust_microservices_archi.Coverage.Types.{F64, PathBuf, CoverageTotals, ServiceInfo}
use rust_microservices_archi.Coverage.Paths.{join}
use rust_microservices_archi.Coverage.Commands.{Machine, Action, run_coverage}
use rust_microservices_archi.Coverage.Main.{Progress, check_threshold, judge, measure, measure_all}

module _ {W : Type 0} (f : F64 W) (m : Machine W) where
  -- The line coverage is not below the threshold, if there is one.
  abbrev pub IsEnough : Option W → CoverageTotals W → Type 0
  IsEnough threshold t = (min : W) → threshold ≡ some min → f.lt t.lines.percent min ≡ false

  -- A service does not fail the run: its directory is missing, or its coverage was measured and is
  -- not below the threshold.
  abbrev pub Passes : PathBuf → Option W → ServiceInfo → Type 0
  Passes root threshold svc =
      (m.exists (join root svc.dir) ≡ false)
      ⊎ ((t : CoverageTotals W) × ((run_coverage m (join root svc.dir)).1 ≡ some t)
          × IsEnough threshold t)

  passes_when :
      (below : Bool) (failed passed : List Action)
      → ((let r : Bool × List Action = if below then (false, failed) else (true, passed) in r.0)
          ≡ true)
        ↔ (below ≡ false)
  passes_when true failed passed = (λ e. absurd (false≢true e), λ e. absurd (true≢false e))
  passes_when false failed passed = (λ e. refl, λ e. refl)

  pub check_threshold-passes :
      (threshold : Option W) (t : CoverageTotals W)
      → ((check_threshold f m threshold t).0 ≡ true) ↔ IsEnough threshold t
  unfolding check_threshold
  check_threshold-passes none t = (λ e min h. cc, λ h. refl)
  check_threshold-passes (some least) t = (
    λ e min h.
        subst (λ x. f.lt t.lines.percent x ≡ false) (some-injective _ _ h)
          ((passes_when (f.lt t.lines.percent least) _ _).0 e),
    λ h. (passes_when (f.lt t.lines.percent least) _ _).1 (h least refl),
  )

  judge-passes :
      (threshold : Option W) (totals : Option (CoverageTotals W))
      → ((judge f m threshold totals).0 ≡ true)
        ↔ ((t : CoverageTotals W) × (totals ≡ some t) × IsEnough threshold t)
  unfolding judge
  judge-passes threshold none = (λ e. absurd (false≢true e), λ (t, e, h). cc)
  judge-passes threshold (some t) = (
    λ e. (t, refl, (check_threshold-passes threshold t).0 e),
    λ (t', e, h).
        (check_threshold-passes threshold t).1
          (subst (IsEnough threshold) (sym (some-injective _ _ e)) h),
  )

  -- How a turn of the loop changes `all_passed`.
  turn :
      (there passed before : Bool) (results results' : List (String × Option (CoverageTotals W)))
      (log log' : List Action)
      → ((let st : Progress W =
              if there
              then record {
                all_passed = if passed then before else false;
                results = results;
                log = log;
              }
              else record { all_passed = before; results = results'; log = log' } in
            st.all_passed)
          ≡ true)
        ↔ ((before ≡ true) × ((there ≡ false) ⊎ (passed ≡ true)))
  turn true true before results results' log log' = (λ e. (e, inr refl), λ h. h.0)
  turn true false before results results' log log' = (
    λ e. absurd (false≢true e),
    λ (b, h). elim h [ inl gone ↦ absurd (true≢false gone) | inr passed ↦ passed ],
  )
  turn false passed before results results' log log' = (λ e. (e, inl refl), λ h. h.0)

  measure-Passes :
      (root : PathBuf) (threshold : Option W) (st : Progress W) (svc : ServiceInfo)
      → ((measure f m root threshold st svc).all_passed ≡ true)
        ↔ ((st.all_passed ≡ true) × Passes root threshold svc)
  unfolding measure
  measure-Passes root threshold st svc =
      let dir = join root svc.dir in
      let judged = judge-passes threshold (run_coverage m dir).1 in
      let t =
        turn (m.exists dir) (judge f m threshold (run_coverage m dir).1).0 st.all_passed _ _ _ _ in
      (
        λ e.
            let (before, why) = t.0 e in
            (before, elim why [ inl gone ↦ inl gone | inr passed ↦ inr (judged.0 passed) ]),
        λ (before, why).
            t.1 (before, elim why [ inl gone ↦ inl gone | inr passed ↦ inr (judged.1 passed) ]),
      )

  pub measure_all-Passes :
      (root : PathBuf) (threshold : Option W) (svcs : List ServiceInfo) (st : Progress W)
      → ((measure_all f m root threshold svcs st).all_passed ≡ true)
        ↔ ((st.all_passed ≡ true) × All (Passes root threshold) svcs)
  unfolding measure_all
  measure_all-Passes root threshold [] st = (λ e. (e, tt), λ h. h.0)
  measure_all-Passes root threshold (svc ∷ svcs) st =
      let one = measure-Passes root threshold st svc in
      let others = measure_all-Passes root threshold svcs (measure f m root threshold st svc) in
      (
        λ e. let (p, rest) = others.0 e in let (before, this) = one.0 p in (before, (this, rest)),
        λ (before, all). others.1 (one.1 (before, all.0), all.1),
      )
