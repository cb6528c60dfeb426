-- ===== src/Assessment/Examples.antt =====
-- Grades of a clean repository and of one that GitHub let nobody check.
use cliff.Common.{String, ◌≡◌, refl, true, false, none, some, List, [], ◌∷◌, any, all, ◌↔◌}
use cliff.Common.Text.{same}
use cliff.Assessment.{
  CheckStatus, pass, unknown, a, b, Scan, derive_grade, build_snapshot, met_count, severities,
  severity_text, upper, check_status,
}
use cliff.Assessment.Grades.{passes, graded_checks, is_grave, derive_grade-best}

abbrev clean : Scan
clean = record { vulnerabilities = some "low" ∷ none ∷ []; secrets = []; semgrep = none }

abbrev all_as : CheckStatus → List String → List (String × CheckStatus)
all_as s [] = []
all_as s (name ∷ names) = (name, s) ∷ all_as s names

grading : Unit {0}
unfolding derive_grade met_count build_snapshot severities severity_text upper check_status same
grading = tt

grades :
    (derive_grade (build_snapshot clean (all_as pass graded_checks)) ≡ a)
    × (derive_grade (build_snapshot clean (("security_md", unknown) ∷ all_as pass graded_checks))
        ≡ b)
unfolding grading
grades = (refl, refl)

derive_grade-best_example :
    (derive_grade (build_snapshot clean (all_as pass graded_checks)) ≡ a) ↔ (
      (any is_grave (severities clean) ≡ false)
      × (all (λ name. passes (check_status name (all_as pass graded_checks))) graded_checks ≡ true))
derive_grade-best_example = derive_grade-best clean (all_as pass graded_checks)
