-- ===== src/Issue.antt =====
-- backend/cliff/models/issue_derivation.py: the section and the stage of a finding on the Issues
-- page. The pydantic models are those of models/finding.py and models/__init__.py, with the fields
-- that the derivation reads. `Mapping.get` of the latest runs is a function; a JSON column is a
-- `Fields`.
pub mod Rules
pub mod Gates
mod Examples
use cliff.Common.{
  String, Bool, true, false, not, ◌&&◌, ◌||◌, Option, none, some, List, [], ◌∷◌, ◌==◌, any,
  if◌then◌else◌,
}
use cliff.Common.Result.{Result, ok, raise, type_error, validation_error}
use cliff.Json.{Value, null, str, arr, obj, Fields, end, get, truthy, is_str, as_obj}

pub data FindingStatus : Type 0 where
  new triaged in_progress remediated validated closed exception passed : FindingStatus

pub data RunStatus : Type 0 where
  queued running completed failed cancelled rate_limited : RunStatus

pub data Section : Type 0 where
  review in_progress todo done : Section

pub data Stage : Type 0 where
  todo triaging planning generating pushing opening_pr validating : Stage
  triage_verdict plan_ready pr_ready pr_awaiting_val awaiting_permission failed : Stage
  fixed false_positive unexploitable wont_fix accepted deferred : Stage

pub data ExceptionReason : Type 0 where
  false_positive accepted_risk wont_fix deferred unexploitable : ExceptionReason

pub record Finding : Type 0 where
  pub status : FindingStatus
  pub exception_reason : Option ExceptionReason
  pub raw_payload : Option Fields

pub record AgentRun : Type 0 where
  pub status : RunStatus
  pub permission_pending : Bool

pub record Sidebar : Type 0 where
  pub plan : Option Fields
  pub pull_request : Option Fields
  pub triage : Option Fields

pub record IssueDerived : Type 0 where
  pub section : Section
  pub stage : Stage
  pub workspace_id : Option String
  pub pr_url : Option String

-- `latest_runs_by_type.get`
abbrev pub Runs : Type 0
Runs = String → Option AgentRun

abbrev running? : RunStatus → Bool
running? running = true
running? _ = false

abbrev failed? : RunStatus → Bool
failed? failed = true
failed? rate_limited = true
failed? _ = false

unfoldable pub is_running : Option AgentRun → Bool
is_running none = false
is_running (some run) = running? run.status

unfoldable pub is_failed : Option AgentRun → Bool
is_failed none = false
is_failed (some run) = failed? run.status

unfoldable pub permission_pending : Option AgentRun → Bool
permission_pending none = false
permission_pending (some run) = run.permission_pending

-- the truth value of an optional dict
abbrev non_empty : Option Fields → Bool
non_empty none = false
non_empty (some d) = truthy (obj d)

unfoldable pub has_plan : Option Sidebar → Bool
has_plan none = false
has_plan (some s) = non_empty s.plan

abbrev pub prerequisite_agent_types : List String
prerequisite_agent_types =
    "finding_enricher" ∷ "owner_resolver" ∷ "exposure_analyzer" ∷ "evidence_collector" ∷ []

unfoldable pub any_prerequisite_failed : Runs → Bool
unfolding is_failed
any_prerequisite_failed runs = any (λ t. is_failed (runs t)) prerequisite_agent_types

abbrev or_empty : Option Fields → Fields
or_empty none = end
or_empty (some d) = d

unfoldable pub pull_request : Option Sidebar → Fields
pull_request none = end
pull_request (some s) = or_empty s.pull_request

abbrev pub triage_agent_types : List String
triage_agent_types = "finding_enricher" ∷ "exposure_analyzer" ∷ "report_triager" ∷ []

unfoldable pub triage_running : Runs → Bool
unfolding is_running
triage_running runs = any (λ t. is_running (runs t)) triage_agent_types

unfoldable pub triage_failed : Runs → Bool
unfolding is_failed
triage_failed runs = any (λ t. is_failed (runs t)) triage_agent_types

abbrev verdict_in : Option Fields → Bool
verdict_in none = false
verdict_in (some d) = truthy (get d "verdict")

unfoldable pub has_triage_verdict : Option Sidebar → Bool
has_triage_verdict none = false
has_triage_verdict (some s) = verdict_in s.triage

abbrev pub Place : Type 0
Place = Section × Stage

abbrev pub reason_text : ExceptionReason → String
reason_text false_positive = "false_positive"
reason_text accepted_risk = "accepted_risk"
reason_text wont_fix = "wont_fix"
reason_text deferred = "deferred"
reason_text unexploitable = "unexploitable"

-- `finding.exception_reason or (finding.raw_payload or {}).get("exception_reason")`
unfoldable pub exception_reason : Finding → Value
exception_reason f = elim f.exception_reason [
  | some reason ↦ str (reason_text reason)
  | none ↦ get (or_empty f.raw_payload) "exception_reason"
]

abbrev pub stage_by_reason : String → Stage
stage_by_reason reason =
    if reason == "false_positive"
    then Stage.false_positive
    else if reason == "unexploitable"
    then Stage.unexploitable
    else if reason == "wont_fix"
    then Stage.wont_fix
    else if reason == "deferred"
    then Stage.deferred
    else Stage.accepted

-- `stage_by_reason.get(reason, "accepted")`: a list or a dict is no key, and raises.
unfoldable pub exception_stage : Value → Option Stage
exception_stage (str reason) = some (stage_by_reason reason)
exception_stage (arr _) = none
exception_stage (obj _) = none
exception_stage _ = some Stage.accepted

-- the branch `finding.status == "in_progress"`
unfoldable pub remediation_place : Option Sidebar → Runs → Place
remediation_place sidebar runs =
    let pr = pull_request sidebar in
    let executor = runs "remediation_executor" in
    let planner = runs "remediation_planner" in
    if truthy (get pr "pr_url")
    then (Section.review, Stage.pr_ready)
    else if is_running executor && permission_pending executor
    then (Section.review, Stage.awaiting_permission)
    else if is_running executor
    then (Section.in_progress, Stage.generating)
    else if is_str (get pr "status") "failed"
    then (Section.review, Stage.failed)
    else if is_str (get pr "status") "changes_made"
    then (Section.in_progress, Stage.opening_pr)
    else if truthy (get pr "branch_name")
    then (Section.in_progress, Stage.pushing)
    else if is_failed executor || is_failed planner && not (has_plan sidebar)
    then (Section.review, Stage.failed)
    else if not (has_plan sidebar) && any_prerequisite_failed runs
    then (Section.review, Stage.failed)
    else if is_running planner
    then (Section.in_progress, Stage.planning)
    else if has_plan sidebar
    then (Section.review, Stage.plan_ready)
    else (Section.in_progress, Stage.planning)

-- the branch `finding.status == "new"`
unfoldable pub triage_place : Option Sidebar → Runs → Place
triage_place sidebar runs =
    if triage_running runs
    then (Section.in_progress, Stage.triaging)
    else if triage_failed runs && not (has_triage_verdict sidebar)
    then (Section.review, Stage.failed)
    else if has_triage_verdict sidebar
    then (Section.review, Stage.triage_verdict)
    else (Section.todo, Stage.todo)

-- the two rules for `remediated`, and the fall through
unfoldable pub remediated_place : Option Sidebar → Runs → Place
remediated_place sidebar runs = elim (runs "validation_checker") [
  | some run ↦
      if is_running (some run)
      then (Section.in_progress, Stage.validating)
      else (Section.todo, Stage.todo)
  | none ↦
      if truthy (get (pull_request sidebar) "pr_url")
      then (Section.review, Stage.pr_awaiting_val)
      else (Section.todo, Stage.todo)
]

abbrev exception_place : Option Stage → Result Place
exception_place none = raise type_error
exception_place (some stage) = ok (Section.done, stage)

unfoldable pub place : FindingStatus → Finding → Option Sidebar → Runs → Result Place
place exception f sidebar runs = exception_place (exception_stage (exception_reason f))
place validated f sidebar runs = ok (Section.done, Stage.fixed)
place closed f sidebar runs = ok (Section.done, Stage.fixed)
place remediated f sidebar runs = ok (remediated_place sidebar runs)
place in_progress f sidebar runs = ok (remediation_place sidebar runs)
place new f sidebar runs = ok (triage_place sidebar runs)
place triaged f sidebar runs = ok (Section.todo, Stage.todo)
place passed f sidebar runs = ok (Section.todo, Stage.todo)

-- `pr_block.get("pr_url") or None`, held to `str | None` by pydantic
unfoldable pub pr_url_field : Value → Option (Option String)
pr_url_field (str s) = some (if s == "" then none else some s)
pr_url_field v = if truthy v then none else some none

-- the closure `out`
abbrev out : Option String → Option (Option String) → Result Place → Result IssueDerived
out workspace_id url (raise e) = raise e
out workspace_id none (ok p) = raise validation_error
out workspace_id (some url) (ok p) =
    ok (record { section = p.0; stage = p.1; workspace_id = workspace_id; pr_url = url })

unfoldable pub derive : Finding → Option String → Option Sidebar → Runs → Result IssueDerived
derive f workspace_id sidebar runs =
    out workspace_id (pr_url_field (get (pull_request sidebar) "pr_url"))
      (place f.status f sidebar runs)
