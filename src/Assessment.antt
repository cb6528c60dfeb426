-- ===== src/Assessment.antt =====
-- backend/cliff/assessment/engine.py with models/assessment.py: the criteria of an assessment and its
-- grade. A severity is a text that a scanner gives, in ASCII letters; a dict of checks is a list of
-- entries.
pub mod Grades
mod Examples
use cliff.Common.{
  ℕ, ◌-◌, String, Bool, true, false, not, ◌&&◌, ◌||◌, Option, none, some, List, [], ◌∷◌, ◌++◌, map,
  ◌==◌, any, count_if, length, leb, eqb, if◌then◌else◌,
}
use cliff.Common.Text.{Text, codes, same}

pub data CheckStatus : Type 0 where
  pass fail unknown advisory : CheckStatus

pub data Grade : Type 0 where
  a b c d f : Grade

-- what the scanners found: the severities of vulnerabilities and secrets, and those of semgrep, where
-- it ran
pub record Scan : Type 0 where
  pub vulnerabilities : List (Option String)
  pub secrets : List (Option String)
  pub semgrep : Option (List (Option String))

pub record CriteriaSnapshot : Type 0 where
  pub no_critical_vulns : Option Bool
  pub posture_checks_passing : ℕ
  pub posture_checks_total : ℕ
  pub security_md_present : Option Bool
  pub dependabot_present : Option Bool
  pub no_high_vulns : Option Bool
  pub branch_protection_enabled : Option Bool
  pub no_secrets_detected : Option Bool
  pub actions_pinned_to_sha : Option Bool
  pub no_stale_collaborators : Option Bool
  pub code_owners_exists : Option Bool
  pub secret_scanning_enabled : Option Bool

-- `v is True`
abbrev pub is_verified : Option Bool → Bool
is_verified (some true) = true
is_verified _ = false

-- the ten criteria that count
abbrev pub criteria : CriteriaSnapshot → List (Option Bool)
criteria s =
    s.no_critical_vulns ∷ s.no_high_vulns ∷ s.security_md_present ∷ s.dependabot_present
    ∷ s.branch_protection_enabled ∷ s.no_secrets_detected ∷ s.actions_pinned_to_sha
    ∷ s.no_stale_collaborators ∷ s.code_owners_exists ∷ s.secret_scanning_enabled ∷ []

unfoldable pub met_count : CriteriaSnapshot → ℕ
met_count s = count_if is_verified (criteria s)

unfoldable pub all_met : CriteriaSnapshot → Bool
unfolding met_count
all_met s = eqb (met_count s) 10

abbrev pub grade_of : ℕ → Grade
grade_of met =
    if eqb met 10
    then a
    else if leb 8 met
    then b
    else if leb 6 met
    then c
    else if leb 4 met
    then d
    else f

unfoldable pub derive_grade : CriteriaSnapshot → Grade
unfolding met_count
derive_grade s = grade_of (met_count s)

abbrev upper_code : ℕ → ℕ
upper_code n = if leb 97 n && leb n 122 then n - 32 else n

-- s.upper()
unfoldable pub upper : Text → Text
upper = map upper_code

-- (severity or "").upper()
unfoldable pub severity_text : Option String → Text
unfolding upper
severity_text none = []
severity_text (some s) = upper (codes s)

abbrev of_semgrep : Option (List (Option String)) → List (Option String)
of_semgrep none = []
of_semgrep (some found) = found

unfoldable pub severities : Scan → List Text
unfolding severity_text
severities scan =
    map severity_text (scan.vulnerabilities ++ (scan.secrets ++ of_semgrep scan.semgrep))

abbrev pub is_word : String → Text → Bool
is_word word s = same s (codes word)

unfoldable pub check_status : String → List (String × CheckStatus) → Option CheckStatus
check_status name [] = none
check_status name ((k, s) ∷ statuses) = if k == name then some s else check_status name statuses

abbrev pub tri : Option CheckStatus → Option Bool
tri (some pass) = some true
tri none = none
tri (some unknown) = none
tri (some fail) = some false
tri (some advisory) = some false

abbrev passed : String × CheckStatus → Bool
passed (k, pass) = true
passed (k, _) = false

unfoldable pub build_snapshot : Scan → List (String × CheckStatus) → CriteriaSnapshot
unfolding severities check_status
build_snapshot scan statuses =
    let found = λ (word : String). any (is_word word) (severities scan) in
    let status = λ (name : String). tri (check_status name statuses) in
    record {
      no_critical_vulns = some (not (found "CRITICAL") && not (found "UNKNOWN"));
      posture_checks_passing = count_if passed statuses;
      posture_checks_total = length statuses;
      security_md_present = status "security_md";
      dependabot_present = status "dependabot_config";
      no_high_vulns = some (
          not (found "HIGH")
          && not (found "CRITICAL")
          && not (found "ERROR")
          && not (found "UNKNOWN"));
      branch_protection_enabled = status "branch_protection";
      no_secrets_detected = status "no_secrets_in_code";
      actions_pinned_to_sha = status "actions_pinned_to_sha";
      no_stale_collaborators = status "stale_collaborators";
      code_owners_exists = status "code_owners_exists";
      secret_scanning_enabled = status "secret_scanning_enabled";
    }
