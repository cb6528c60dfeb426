-- ===== src/Issue/Gates.antt =====
-- The human gates: when an issue waits for the user, and when a failure is shown.
use cliff.Common.{
  String, ◌≡◌, ◌≢◌, ◌↔◌, ◌⊎◌, refl, true, false, Option, none, some, arith, inl, inr, Bool-cases,
  Option-cases, ◌==◌, if◌then◌else◌,
}
use cliff.Common.Result.{ok}
use cliff.Json.{Value, str, end, get, truthy, is_str}
use cliff.Issue.{
  FindingStatus, new, in_progress, remediated, validated, closed, exception, Section, Stage,
  Finding, Sidebar, Runs, Place, IssueDerived, ExceptionReason, exception_stage, exception_reason,
  remediation_place, triage_place, remediated_place, place, is_running, is_failed, has_plan,
  permission_pending, any_prerequisite_failed, triage_running, triage_failed, has_triage_verdict,
  pull_request, pr_url_field, derive, stage_by_reason, reason_text,
}
use cliff.Issue.Rules.{derive-ok}

abbrev pub pr_field : Option Sidebar → String → Value
pr_field s key = get (pull_request s) key

-- The conditions under which a plan waits for approval.
pub record AwaitsApproval (s : Option Sidebar) (runs : Runs) : Type 0 where
  pub planned : has_plan s ≡ true
  pub no_pr : truthy (pr_field s "pr_url") ≡ false
  pub no_branch : truthy (pr_field s "branch_name") ≡ false
  pub not_failed : is_str (pr_field s "status") "failed" ≡ false
  pub not_changed : is_str (pr_field s "status") "changes_made" ≡ false
  pub executor_idle : is_running (runs "remediation_executor") ≡ false
  pub executor_sound : is_failed (runs "remediation_executor") ≡ false
  pub planner_idle : is_running (runs "remediation_planner") ≡ false

abbrev pub AwaitsPermission : Option Sidebar → Runs → Type 0
AwaitsPermission s runs =
    (truthy (pr_field s "pr_url") ≡ false)
    × (is_running (runs "remediation_executor") ≡ true)
    × (permission_pending (runs "remediation_executor") ≡ true)

remediation-plan_ready :
    (s : Option Sidebar) (runs : Runs)
    → ((remediation_place s runs).1 ≡ Stage.plan_ready) ↔ AwaitsApproval s runs
unfolding remediation_place
remediation-plan_ready s runs = (λ h. ground arith, λ h. ground arith)

remediation-awaiting :
    (s : Option Sidebar) (runs : Runs)
    → ((remediation_place s runs).1 ≡ Stage.awaiting_permission) ↔ AwaitsPermission s runs
unfolding remediation_place
remediation-awaiting s runs = (λ h. ground arith, λ h. ground arith)

exception_stage_done :
    (v : Value) (t : Stage)
    → exception_stage v ≡ some t
    → (t ≢ Stage.plan_ready) × (t ≢ Stage.awaiting_permission)
unfolding exception_stage
exception_stage_done v t h = ground arith

module _ (f : Finding) (s : Option Sidebar) (runs : Runs) where
  place-plan_ready :
      (st : FindingStatus) (p : Place)
      → place st f s runs ≡ ok p
      → (p.1 ≡ Stage.plan_ready) ↔ ((st ≡ in_progress) × AwaitsApproval s runs)
  unfolding place triage_place remediated_place
  place-plan_ready in_progress p h = ground (arith, remediation-plan_ready s runs)
  place-plan_ready exception p h = ground (arith, exception_stage_done (exception_reason f) p.1)
  place-plan_ready remediated p h = ground arith
  place-plan_ready new p h = ground arith
  place-plan_ready _ p h = ground arith

  place-awaiting :
      (st : FindingStatus) (p : Place)
      → place st f s runs ≡ ok p
      → (p.1 ≡ Stage.awaiting_permission) ↔ ((st ≡ in_progress) × AwaitsPermission s runs)
  unfolding place triage_place remediated_place
  place-awaiting in_progress p h = ground (arith, remediation-awaiting s runs)
  place-awaiting exception p h = ground (arith, exception_stage_done (exception_reason f) p.1)
  place-awaiting remediated p h = ground arith
  place-awaiting new p h = ground arith
  place-awaiting _ p h = ground arith

-- An issue shows a plan for approval exactly when the finding is in progress, there is a plan and
-- no pull request, branch or recorded push, the executor neither runs nor has failed, and the
-- planner does not run.
pub derive-plan_ready :
    (f : Finding) (w : Option String) (s : Option Sidebar) (runs : Runs) (i : IssueDerived)
    → derive f w s runs ≡ ok i
    → (i.stage ≡ Stage.plan_ready) ↔ ((f.status ≡ in_progress) × AwaitsApproval s runs)
derive-plan_ready f w s runs i h =
    place-plan_ready f s runs f.status (i.section, i.stage) (derive-ok f w s runs i h).0

-- An issue waits for a tool approval exactly when the finding is in progress without a pull
-- request and its latest executor run is running and parked on a request.
pub derive-awaiting_permission :
    (f : Finding) (w : Option String) (s : Option Sidebar) (runs : Runs) (i : IssueDerived)
    → derive f w s runs ≡ ok i
    → (i.stage ≡ Stage.awaiting_permission) ↔ ((f.status ≡ in_progress) × AwaitsPermission s runs)
derive-awaiting_permission f w s runs i h =
    place-awaiting f s runs f.status (i.section, i.stage) (derive-ok f w s runs i h).0

-- The four places that an untriaged finding can have.
pub data TriagePlace (s : Option Sidebar) (runs : Runs) (i : IssueDerived) : Type 0 where
  flying : triage_running runs ≡ true → i.stage ≡ Stage.triaging → TriagePlace s runs i
  broken :
      triage_running runs ≡ false
      → triage_failed runs ≡ true
      → has_triage_verdict s ≡ false
      → i.stage ≡ Stage.failed
      → TriagePlace s runs i
  decided :
      triage_running runs ≡ false
      → has_triage_verdict s ≡ true
      → i.stage ≡ Stage.triage_verdict
      → TriagePlace s runs i
  idle :
      triage_running runs ≡ false
      → triage_failed runs ≡ false
      → has_triage_verdict s ≡ false
      → i.stage ≡ Stage.todo
      → TriagePlace s runs i

-- A new finding never enters the remediation flow: its stage is triaging, failed, triage_verdict
-- or todo, each under its own condition on the triage runs and the recorded verdict.
pub derive-new :
    (f : Finding) (w : Option String) (s : Option Sidebar) (runs : Runs) (i : IssueDerived)
    → derive f w s runs ≡ ok i
    → f.status ≡ new
    → TriagePlace s runs i
unfolding place triage_place
derive-new f w s runs i h e =
    let p = (derive-ok f w s runs i h).0 in
    elim (Bool-cases (triage_running runs)) [
      | inl on ↦ flying on (ground arith)
      | inr off ↦ elim (Bool-cases (has_triage_verdict s)) [
        | inl yes? ↦ decided off yes? (ground arith)
        | inr no? ↦ elim (Bool-cases (triage_failed runs)) [
          | inl bad ↦ broken off bad no? (ground arith)
          | inr good ↦ idle off good no? (ground arith)
        ]
      ]
    ]

-- A failed enricher, owner, exposure or evidence run of a finding in progress with no plan, no
-- pull request data and no running executor is shown as failed, in review.
pub derive-prerequisite_failed :
    (f : Finding) (w : Option String) (s : Option Sidebar) (runs : Runs)
    → f.status ≡ in_progress
    → has_plan s ≡ false
    → pull_request s ≡ end
    → is_running (runs "remediation_executor") ≡ false
    → any_prerequisite_failed runs ≡ true
    → derive f w s runs
      ≡ ok (record {
        section = Section.review;
        stage = Stage.failed;
        workspace_id = w;
        pr_url = none;
      })
unfolding derive place remediation_place pr_url_field truthy get is_str
derive-prerequisite_failed f w s runs st plan pr stopped bad = ground arith

pr_url_field_returns :
    (v : Value)
    → (truthy v ≡ false) ⊎ ((url : String) × (v ≡ str url))
    → (u : Option String) × (pr_url_field v ≡ some u)
unfolding pr_url_field
pr_url_field_returns v (inr (url, e)) = (if url == "" then none else some url, ground arith)
pr_url_field_returns (str x) (inl e) = (if x == "" then none else some x, refl)
pr_url_field_returns v (inl e) = (none, ground arith)

place_returns :
    (st : FindingStatus) (f : Finding) (s : Option Sidebar) (runs : Runs)
    → ((r : ExceptionReason) × (f.exception_reason ≡ some r)) ⊎ (f.raw_payload ≡ none)
    → (p : Place) × (place st f s runs ≡ ok p)
unfolding place exception_stage exception_reason get
place_returns exception f s runs (inl (r, e)) =
    ((Section.done, stage_by_reason (reason_text r)), ground arith)
place_returns exception f s runs (inr e) = elim (Option-cases f.exception_reason) [
  | inl none? ↦ ((Section.done, Stage.accepted), ground arith)
  | inr (r, known) ↦ ((Section.done, stage_by_reason (reason_text r)), ground arith)
]
place_returns remediated f s runs h = (remediated_place s runs, refl)
place_returns in_progress f s runs h = (remediation_place s runs, refl)
place_returns new f s runs h = (triage_place s runs, refl)
place_returns validated f s runs h = ((Section.done, Stage.fixed), refl)
place_returns closed f s runs h = ((Section.done, Stage.fixed), refl)
place_returns _ f s runs h = ((Section.todo, Stage.todo), refl)

-- The derivation raises nothing when the `pr_url` of the sidebar is a text or absent, and the
-- reason of an exception is in its own column or the raw payload is absent.
pub derive_returns :
    (f : Finding) (w : Option String) (s : Option Sidebar) (runs : Runs)
    → (truthy (pr_field s "pr_url") ≡ false) ⊎ ((url : String) × (pr_field s "pr_url" ≡ str url))
    → ((r : ExceptionReason) × (f.exception_reason ≡ some r)) ⊎ (f.raw_payload ≡ none)
    → (i : IssueDerived) × (derive f w s runs ≡ ok i)
unfolding derive
derive_returns f w s runs url reason =
    let (u, eu) = pr_url_field_returns (pr_field s "pr_url") url in
    let (p, ep) = place_returns f.status f s runs reason in
    (record { section = p.0; stage = p.1; workspace_id = w; pr_url = u }, cc (eu, ep))
