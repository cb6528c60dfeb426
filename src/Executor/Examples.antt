-- ===== src/Executor/Examples.antt =====
-- The life of an agent run on concrete agents: a planner, an executor that asks for a permission and
-- then opens a pull request, and a model that is limited.
use cliff.Common.{ℕ, ◌≡◌, ◌≢◌, refl, false, none, some, List, [], eqb, any, ◌⊎◌, if◌then◌else◌}
use cliff.Json.{str, field, end, get, truthy, is_str}
use cliff.Issue.{RunStatus, FindingStatus, triaged, in_progress}
use cliff.Executor.Runs.{
  Row, is_live, create_agent_run, reconcile_orphaned_agent_runs, is_busy, list_agent_runs,
  newest_first, insert, precedes, set_fields, update_agent_run, get_agent_run,
}
use cliff.Executor.Runs.Reconcile.{reconcile-again}
use cliff.Executor.Call.{
  done, raised, assertion, Answer, returned, http_error, unexpected, turn, attempts, run_pa_call,
}
use cliff.Executor.Call.Attempts.{Answered, run_pa_call-no_assertion, run_pa_call-Answered}
use cliff.Executor.Call.Limits.{Limited, run_pa_call-Limited}
use cliff.Executor.Advance.{
  FindingRow, target_status, takes_pr_url, write, move, advance_finding_status,
}
use cliff.Executor.Advance.Forward.{Moved, advance_finding_status-Moved}

abbrev limited_twice : ℕ → Answer ℕ
limited_twice n =
    if eqb n 3 then unexpected "no JSON" else http_error 429 "slow down" "slow down, body: prompt"

abbrev second_time : ℕ → Answer ℕ
second_time n = if eqb n 2 then returned 7 else unexpected "no JSON"

calls : Unit {0}
unfolding run_pa_call attempts turn
calls = tt

run_pa_call-no_assertion_example :
    run_pa_call "remediation_planner" 150 limited_twice ≢ raised assertion
run_pa_call-no_assertion_example = run_pa_call-no_assertion "remediation_planner" 150 limited_twice

run_pa_call-Answered_example : Answered second_time 7 1 3
unfolding calls
run_pa_call-Answered_example = run_pa_call-Answered "remediation_planner" 150 second_time 7 refl

run_pa_call-Limited_example : Limited limited_twice "slow down, body: prompt"
unfolding calls
run_pa_call-Limited_example =
    run_pa_call-Limited "remediation_planner" 150 limited_twice "slow down, body: prompt" refl

table : Unit {0}
unfolding create_agent_run is_busy list_agent_runs newest_first insert precedes set_fields
    update_agent_run get_agent_run reconcile_orphaned_agent_runs
table = tt

abbrev one_row : List Row
unfolding create_agent_run
one_row = create_agent_run 0 4 "ws" "remediation_planner" RunStatus.running []

reconcile-again_example :
    (any is_live (reconcile_orphaned_agent_runs 5 one_row).0 ≡ false)
    × (reconcile_orphaned_agent_runs 9 (reconcile_orphaned_agent_runs 5 one_row).0
        ≡ ((reconcile_orphaned_agent_runs 5 one_row).0, 0))
reconcile-again_example = reconcile-again 5 9 one_row

abbrev confirmed : FindingRow
confirmed = record { status = triaged; pr_url = none }

abbrev planned : FindingRow
planned = record { status = in_progress; pr_url = none }

advance_finding_status-Moved_example :
    (planned ≡ confirmed) ⊎ Moved "remediation_planner" end confirmed planned
unfolding advance_finding_status target_status takes_pr_url write move get is_str
advance_finding_status-Moved_example =
    advance_finding_status-Moved "remediation_planner" end confirmed planned refl

opens :
    advance_finding_status "remediation_executor"
      (field "status" (str "pr_created") (field "pr_url" (str "https://pr") end))
      (some planned)
    ≡ done (some (record { status = FindingStatus.remediated; pr_url = some "https://pr" }))
unfolding advance_finding_status target_status takes_pr_url write move get is_str truthy
opens = refl
