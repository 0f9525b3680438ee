-- ===== src/Coverage/Types.antt =====
-- The types of tools/coverage/src/main.rs.
use rust_microservices_archi.Prelude.{ℕ, String, Bool, Option, List}

-- What the code does with an `f64`: the two comparisons, `(percent / 5.0).round() as usize`, and the
-- text that `{:.1}` prints.
pub record F64 (W : Type 0) : Type 0 where
  pub lt : W → W → Bool
  pub ge : W → W → Bool
  pub fifths : W → ℕ
  pub one_decimal : W → String

-- A name of a path: a text, or bytes that are not UTF-8 with what `display` shows for them.
pub data OsStr : Type 0 where
  utf8 : String → OsStr
  other : (bytes : List ℕ) → (lossy : String) → OsStr

-- A path: what stands before its names (`/` of an absolute path), and its names, the last one first.
pub record PathBuf : Type 0 where
  pub prefix : String
  pub names : List OsStr

module _ (W : Type 0) where
  pub record Cli : Type 0 where
    pub service : Option String
    pub html : Bool
    pub lcov : Bool
    pub threshold : Option W
    pub root : Option PathBuf

  pub record CoverageMetric : Type 0 where
    pub count : ℕ
    pub covered : ℕ
    pub percent : W

  pub record CoverageTotals : Type 0 where
    pub lines : CoverageMetric
    pub functions : CoverageMetric
    pub regions : CoverageMetric

  pub record CoverageData : Type 0 where
    pub totals : CoverageTotals

  pub record CoverageReport : Type 0 where
    pub data' : List CoverageData

pub record ServiceInfo : Type 0 where
  pub name : String
  pub dir : String

pub data ExitCode : Type 0 where
  success : ExitCode
  failure : ExitCode
