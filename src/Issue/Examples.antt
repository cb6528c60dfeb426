-- ===== src/Issue/Examples.antt =====
-- The derivation on concrete findings, and the theorems at inputs that meet their hypotheses.
use cliff.Common.{◌≡◌, ◌↔◌, refl, Bool, true, false, Option, none, some, ◌==◌, if◌then◌else◌}
use cliff.Common.Result.{ok}
use cliff.Json.{end, field, str, bool, get, truthy, is_str}
use cliff.Issue.{
  FindingStatus, new, in_progress, Section, Stage, Finding, AgentRun, RunStatus, Sidebar, Runs,
  IssueDerived, derive, place, remediation_place, triage_place, pull_request, pr_url_field,
  has_plan, is_running, is_failed, permission_pending, any_prerequisite_failed, triage_running,
  triage_failed, has_triage_verdict,
}
use cliff.Issue.Gates.{AwaitsApproval, derive-plan_ready}

abbrev finding : FindingStatus → Finding
finding st = record { status = st; exception_reason = none; raw_payload = none }

abbrev run : RunStatus → Bool → Option AgentRun
run st parked = some (record { status = st; permission_pending = parked })

abbrev planned : Option Sidebar
planned = some (record {
  plan = some (field "approved" (bool false) end);
  pull_request = none;
  triage = some (field "verdict" (str "real") end);
})

abbrev no_runs : Runs
no_runs agent = none

abbrev parked : Runs
parked agent = if agent == "remediation_executor" then run RunStatus.running true else none

abbrev no_credits : Runs
no_credits agent = if agent == "finding_enricher" then run RunStatus.rate_limited false else none

program : Unit {0}
unfolding derive place remediation_place triage_place pull_request pr_url_field has_plan is_running
    is_failed permission_pending any_prerequisite_failed triage_running triage_failed
    has_triage_verdict get truthy is_str
program = tt

abbrev issue : Section → Stage → IssueDerived
issue section stage = record {
  section = section;
  stage = stage;
  workspace_id = some "w";
  pr_url = none;
}

derive-planned :
    derive (finding in_progress) (some "w") planned no_runs
    ≡ ok (issue Section.review Stage.plan_ready)
unfolding program
derive-planned = refl

derive-parked :
    derive (finding in_progress) (some "w") planned parked
    ≡ ok (issue Section.review Stage.awaiting_permission)
unfolding program
derive-parked = refl

derive-verdict :
    derive (finding new) (some "w") planned no_runs ≡ ok (issue Section.review Stage.triage_verdict)
unfolding program
derive-verdict = refl

derive-plan_ready_example :
    (Stage.plan_ready ≡ Stage.plan_ready)
    ↔ ((FindingStatus.in_progress ≡ FindingStatus.in_progress) × AwaitsApproval planned no_runs)
derive-plan_ready_example =
    derive-plan_ready (finding in_progress) (some "w") planned no_runs
      (issue Section.review Stage.plan_ready) derive-planned
