-- ===== src/FindingStore/Examples.antt =====
-- A finding that a user rejected, before and after scans.
use cliff.Common.{ℕ, String, ◌≡◌, refl, Option, none, some, List, [], ◌∷◌, map}
use cliff.Json.{str, get, set}
use cliff.Issue.{FindingStatus, new, exception, closed, triaged, false_positive}
use cliff.FindingStore.{
  FindingCreate, Row, create_finding, refresh, status_after, new_row, close_disappeared_findings,
  close_rows,
}
use cliff.FindingStore.Keeps.{find, Rescanned, create_finding-Kept}
use cliff.FindingStore.Passes.{Passed, close_disappeared_findings-Passed}

abbrev reported : String → FindingStatus → FindingCreate
reported source_id status = record {
  source_type = "trivy";
  source_id = source_id;
  title = "CVE-1";
  description = none;
  plain_description = none;
  raw_severity = some "high";
  normalized_priority = none;
  asset_id = none;
  asset_label = none;
  status = status;
  likely_owner = none;
  why_this_matters = none;
  raw_payload = none;
  kind = "dependency";
  grade_impact = "counts";
  category = none;
  assessment_id = none;
  pr_url = none;
  exception_reason = some false_positive;
  exception_note = none;
}

abbrev rejected : Row
rejected = new_row 1 7 (reported "a" exception)

abbrev seen : List String
seen = "b" ∷ []

store : Unit {0}
unfolding find create_finding refresh status_after close_disappeared_findings close_rows get set
store = tt

create_finding-Kept_example :
    (r' : Row) × (find "trivy" "a" (create_finding 2 8 (reported "a" new) (rejected ∷ []))
      ≡ some r')
    × Rescanned 2 (reported "a" new) rejected r'
unfolding store
create_finding-Kept_example =
    create_finding-Kept 2 8 (reported "a" new) (rejected ∷ []) "trivy" "a" rejected refl refl refl

abbrev status_of : Option (List Row × ℕ) → List FindingStatus
status_of none = []
status_of (some (rows, n)) = map (λ (r : Row). r.columns.status) rows

-- A rejected finding that a later scan does not see is closed.
closes :
    status_of (
      close_disappeared_findings
        (λ n. str "now")
        3
        "as"
        "trivy"
        seen
        1
        (rejected ∷ new_row 1 9 (reported "b" triaged) ∷ []))
    ≡ closed ∷ triaged ∷ []
unfolding store
closes = refl

abbrev rows_of : Option (List Row × ℕ) → List Row
rows_of none = []
rows_of (some (rows, n)) = rows

after_pass : List Row
after_pass = rows_of (
    close_disappeared_findings (λ n. str "now") 3 "as" "trivy" seen 1
      (new_row 1 9 (reported "b" triaged) ∷ rejected ∷ []))

close_disappeared_findings-Passed_example :
    (r' : Row) × (find "trivy" "a" after_pass ≡ some r') × Passed 3 1 "trivy" seen rejected r'
unfolding store after_pass
close_disappeared_findings-Passed_example =
    close_disappeared_findings-Passed (λ n. str "now") 3 "as" "trivy" seen 1 "trivy" "a" rejected
      (new_row 1 9 (reported "b" triaged) ∷ rejected ∷ []) after_pass 1 refl refl
