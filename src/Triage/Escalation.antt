-- ===== src/Triage/Escalation.antt =====
-- backend/cliff/agents/triage_deep/escalation.py and the gate of integration.py: when the deep dive
-- runs. A severity that is no text has a `str()` that is neither "critical" nor "high".
mod Examples
use cliff.Common.{
  ℕ, String, ◌≡◌, ◌↔◌, ◌⊎◌, inl, inr, Bool, true, false, not, ◌&&◌, ◌||◌, Option, none, some, arith,
  ◌==◌, eq_iff, if◌then◌else◌,
}
use cliff.Common.Int.{ℤ, pos, is_positive}
use cliff.Common.Text.{codes, lower, same}
use cliff.Json.{Value, str, Fields, get, truthy, is_true}
use cliff.Triage.Output.{Verdict, needs_review, real, TriageOutput}

abbrev pub default_deep_dive_budget : ℤ
default_deep_dive_budget = pos 10

pub record Decision : Type 0 where
  pub escalate : Bool
  pub reason : String

abbrev severe : Value → Bool
severe (str s) = same (lower (codes s)) (codes "critical") || same (lower (codes s)) (codes "high")
severe _ = false

-- `finding.get("raw_severity") or finding.get("severity") or ""`
abbrev severity : Fields → Value
severity finding =
    if truthy (get finding "raw_severity")
    then get finding "raw_severity"
    else get finding "severity"

unfoldable pub is_high_stakes : Fields → Bool
is_high_stakes finding =
    severe (severity finding)
    || is_true (get finding "internet_facing")
    || truthy (get finding "crown_jewel")

abbrev is_needs_review : Verdict → Bool
is_needs_review needs_review = true
is_needs_review _ = false

abbrev decision : Bool → String → Decision
decision escalate reason = record { escalate = escalate; reason = reason }

unfoldable pub decide_escalation : Verdict → Fields → ℤ → String → Decision
decide_escalation verdict finding budget_remaining source =
    if source == "report"
    then decision true "report — always deep dive"
    else if is_needs_review verdict
    then decision true "uncertain (needs_review)"
    else if is_high_stakes finding
    then if is_positive budget_remaining
      then decision true "high-stakes — produce evidence"
      else decision false "high-stakes but deep-dive budget exhausted — queue for manual"
    else decision false "clear and low-stakes — cheap verdict stands"

-- The deep dive is asked for exactly by a report, by an uncertain verdict, or by high stakes while
-- the budget lasts: severity alone never asks for it.
pub decide_escalation_iff :
    (verdict : Verdict) (finding : Fields) (budget : ℤ) (source : String)
    → ((decide_escalation verdict finding budget source).escalate ≡ true) ↔ (
        (source ≡ "report")
        ⊎ (verdict ≡ needs_review)
        ⊎ (is_high_stakes finding ≡ true) × (is_positive budget ≡ true))
unfolding decide_escalation
decide_escalation_iff verdict finding budget source = ground (arith, eq_iff source "report")

-- What the caller has at hand for the deep dive. A falsy `model_full_id`, `ai_env` or `repo_url`
-- is `none`; `ready_clone` says that the repo's profile is ready and its cached clone exists.
pub record Setup : Type 0 where
  pub configured : Bool
  pub repo_url : Option String
  pub ready_clone : String → Bool

abbrev reachable_clone : Setup → Option String → Bool
reachable_clone setup none = false
reachable_clone setup (some url) = setup.ready_clone url

-- the early returns of `maybe_deep_dive`: whether the runner is started
unfoldable pub starts_deep_dive : Verdict → Fields → ℤ → String → Setup → Bool
starts_deep_dive verdict finding budget source setup =
    (decide_escalation verdict finding budget source).escalate
    && setup.configured
    && reachable_clone setup setup.repo_url
