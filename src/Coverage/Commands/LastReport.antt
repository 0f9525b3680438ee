-- ===== src/Coverage/Commands/LastReport.antt =====
-- Which report tools/coverage/src/main.rs reads from the output of a command.
use rust_microservices_archi.Prelude.{
  ◌≡◌, refl, ap, ◌∙◌, String, Option, none, some, List, [], ◌∷◌, ◌++◌, All,
}
use rust_microservices_archi.Coverage.Types.{CoverageReport}
use rust_microservices_archi.Coverage.Lines.{lines, find_last_map, or_else}
use rust_microservices_archi.Coverage.Commands.{Machine, report_of}

module _ {A B : Type 0} (f : A → Option B) where
  find_last_map-none : (xs : List A) → All (λ x. f x ≡ none) xs → find_last_map f xs ≡ none
  unfolding find_last_map
  find_last_map-none [] h = refl
  find_last_map-none (x ∷ xs) (e, h) = rw (find_last_map-none xs h) e

  find_last_map-last :
      (before : List A) (x : A) (after : List A) (b : B)
      → f x ≡ some b
      → All (λ y. f y ≡ none) after
      → find_last_map f (before ++ x ∷ after) ≡ some b
  unfolding find_last_map
  find_last_map-last [] x after b e h = rw (find_last_map-none after h) e
  find_last_map-last (y ∷ before) x after b e h = rw (find_last_map-last before x after b e h) refl

-- The report of an output is the one of its last line that is a report; if no line is one, it is the
-- report that the whole text is, if it is one.
pub report_of-last :
    {W : Type 0} (m : Machine W) (stdout : String)
    → ((before after : List String) (line : String) (r : CoverageReport W)
        → lines stdout ≡ before ++ line ∷ after
        → m.from_str line ≡ some r
        → All (λ l. m.from_str l ≡ none) after
        → report_of m stdout ≡ some r)
      × (All (λ l. m.from_str l ≡ none) (lines stdout) → report_of m stdout ≡ m.from_str stdout)
unfolding report_of
report_of-last m stdout = (
  λ before after line r e p h.
      ap (λ o. or_else o (m.from_str stdout))
        (ap (find_last_map m.from_str) e ∙ find_last_map-last m.from_str before line after r p h),
  λ h. ap (λ o. or_else o (m.from_str stdout)) (find_last_map-none m.from_str (lines stdout) h),
)
