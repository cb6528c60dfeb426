-- ===== src/Issue/Rules.antt =====
-- What every derived issue satisfies: the section fits the stage, and `done` is for closed findings.
use cliff.Common.{String, ◌≡◌, Bool, true, false, Option, some, arith}
use cliff.Common.Result.{ok}
use cliff.Json.{Value}
use cliff.Issue.{
  FindingStatus, new, in_progress, remediated, exception, Section, Stage, Finding, Sidebar, Runs,
  Place, IssueDerived, exception_stage, exception_reason, remediation_place, triage_place,
  remediated_place, place, derive,
}

-- The table of models/finding.py: the stages of each section.
abbrev pub stage_fits : Section → Stage → Bool
stage_fits Section.todo Stage.todo = true
stage_fits Section.in_progress Stage.triaging = true
stage_fits Section.in_progress Stage.planning = true
stage_fits Section.in_progress Stage.generating = true
stage_fits Section.in_progress Stage.pushing = true
stage_fits Section.in_progress Stage.opening_pr = true
stage_fits Section.in_progress Stage.validating = true
stage_fits Section.review Stage.triage_verdict = true
stage_fits Section.review Stage.plan_ready = true
stage_fits Section.review Stage.pr_ready = true
stage_fits Section.review Stage.pr_awaiting_val = true
stage_fits Section.review Stage.awaiting_permission = true
stage_fits Section.review Stage.failed = true
stage_fits Section.done Stage.fixed = true
stage_fits Section.done Stage.false_positive = true
stage_fits Section.done Stage.unexploitable = true
stage_fits Section.done Stage.wont_fix = true
stage_fits Section.done Stage.accepted = true
stage_fits Section.done Stage.deferred = true
stage_fits _ _ = false

pub derive-ok :
    (f : Finding) (w : Option String) (s : Option Sidebar) (runs : Runs) (i : IssueDerived)
    → derive f w s runs ≡ ok i
    → (place f.status f s runs ≡ ok (i.section, i.stage)) × (i.workspace_id ≡ w)
unfolding derive
derive-ok f w s runs i h = ground arith

exception_stage_fits :
    (v : Value) (t : Stage) → exception_stage v ≡ some t → stage_fits Section.done t ≡ true
unfolding exception_stage
exception_stage_fits v t h = ground arith

remediation_place_fits :
    (s : Option Sidebar) (runs : Runs)
    → stage_fits (remediation_place s runs).0 (remediation_place s runs).1 ≡ true
unfolding remediation_place
remediation_place_fits s runs = ground arith

place_fits :
    (st : FindingStatus) (f : Finding) (s : Option Sidebar) (runs : Runs) (p : Place)
    → place st f s runs ≡ ok p
    → stage_fits p.0 p.1 ≡ true
unfolding place triage_place remediated_place
place_fits exception f s runs p h = ground (arith, exception_stage_fits (exception_reason f) p.1)
place_fits remediated f s runs p h = ground arith
place_fits in_progress f s runs p h = ground (arith, remediation_place_fits s runs)
place_fits new f s runs p h = ground arith
place_fits _ f s runs p h = ground arith

-- The stage of a derived issue is one of those that models/finding.py lists for its section.
pub derive_fits :
    (f : Finding) (w : Option String) (s : Option Sidebar) (runs : Runs) (i : IssueDerived)
    → derive f w s runs ≡ ok i
    → stage_fits i.section i.stage ≡ true
derive_fits f w s runs i h =
    place_fits f.status f s runs (i.section, i.stage) (derive-ok f w s runs i h).0
