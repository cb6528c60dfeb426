-- ===== src/Executor/Scenarios.antt =====
-- Whole runs of the executor: it asks for a permission, and after the approval opens a pull request.
use cliff.Common.{arith, ◌≡◌, refl, true, none, some, [], ◌∷◌, ◌⊎◌}
use cliff.Common.Int.{pos}
use cliff.Common.Text.{strip}
use cliff.Json.{null, int, str, obj, arr, Fields, field, end, get, truthy, is_str, cons, nil}
use cliff.Issue.{RunStatus, FindingStatus}
use cliff.PrVerifier.{status, verify_parsed, expect, name_part, number_part}
use cliff.Executor.Runs.{Row, is_busy, list_agent_runs, newest_first, precedes, get_agent_run}
use cliff.Executor.Call.{done, returned, timed_out}
use cliff.Executor.Advance.{
  FindingRow, target_status, takes_pr_url, write, move, advance_finding_status,
}
use cliff.Executor.Finalize.{
  World, Services, ExecutionResult, finalize_run, conclude, with_pr, with_evidence, with_references,
  verify, finish, persist, store, cleanup, update_run,
}
use cliff.Executor.Finalize.Persist.{Verified, finalize_run-Verified}
use cliff.Executor.Agents.{Agents, Requests, output, deferred, parsed, tool_agent}
use cliff.Executor.Execute.{dispatch, execute}
use cliff.Executor.Execute.Leaves.{Ended, Running}
use cliff.Executor.Execute.Ends.{execute-Ended, execute-refused}
use cliff.Executor.Resume.{replay, resume_executor, pending_marker}
use cliff.Executor.Resume.Wakes.{resume_executor-Ended}

abbrev opened : Fields
opened =
    field "status" (str "pr_created") (field "pr_url" (str "https://github.com/o/r/pull/7") end)

abbrev requests : Requests
requests = record {
  approvals = record { tool_call_id = "c1"; tool_name = "bash" } ∷ [];
  metadata = λ id. end;
  history = "[]";
}

abbrev agents : Agents
agents = record {
  load = λ agent. done end;
  model = done tt;
  answers = λ agent n. timed_out;
  tool_answers = λ n. returned (deferred requests);
  resumed = λ history ids approved n. returned (output opened);
  valid_history = λ s. true;
  derive_summary = λ agent out. "Plan ready.";
  print_value = λ v. "v";
  backoff = λ n. "8";
}

abbrev services : Services
services = record {
  clean_references = λ v. none;
  update_context = λ writes. done 1;
  fetch = λ p.
      status 200
        (some (obj (field "number" (int (pos 7)) (field "html_url" (str "https://pr") end))));
  repr = λ u. "url";
  repr_value = λ v. "url";
}

abbrev found : FindingRow
found = record { status = FindingStatus.in_progress; pr_url = none }

abbrev fixed : FindingRow
fixed = record { status = FindingStatus.remediated; pr_url = some "https://github.com/o/r/pull/7" }

abbrev start : World
start = record { runs = []; active = []; sidebar = none; finding = some found; context = [] }

execute-Ended_example :
    (r : ExecutionResult) × ((execute agents services 3 "ws" 4 "remediation_executor" 150 start).1
      ≡ some r)
    × Ended
        (λ o. dispatch agents services 3 "ws" "remediation_executor" 600 ≡ done o)
        4
        "ws"
        (execute agents services 3 "ws" 4 "remediation_executor" 150 start).0
        r.status
unfolding is_busy list_agent_runs newest_first
execute-Ended_example = execute-Ended agents services 3 "ws" 4 "remediation_executor" 150 start refl

abbrev marker : Fields
marker = field "tool" (str "bash") (field "tool_call_ids" (arr (cons (str "c1") nil)) end)

abbrev waiting : Row
waiting = record {
  id = 4;
  workspace_id = "ws";
  agent_type = "remediation_executor";
  status = RunStatus.running;
  started_at = some 3;
  completed_at = none;
  summary_markdown = none;
  confidence = null;
  structured_output = none;
  next_action_hint = none;
  last_error = none;
  permission_pending = true;
  permission_request = some marker;
  pa_message_history = some "[]";
}

abbrev paused : World
paused = record start { runs = waiting ∷ []; active = "ws" ∷ [] }

live : Running 4 "ws" paused
unfolding get_agent_run
live = record { row = waiting; found = refl; running = refl; active = refl }

execute-refused_example :
    execute agents services 5 "ws" 9 "remediation_planner" 150 paused ≡ (paused, none)
unfolding live precedes
execute-refused_example =
    execute-refused agents services 5 "ws" 9 "remediation_planner" 150 paused 4 waiting refl refl
      refl (omega arith)

resume_executor-Ended_example :
    (r : ExecutionResult) × ((resume_executor agents services 5 "ws" 4 true paused).1 ≡ some r)
    × Ended
        (λ o.
          (f : Fields) × (replay agents services 5 "ws" "remediation_executor" marker
              (some "[]")
              true
            ≡ done (f, o)))
        4
        "ws"
        (resume_executor agents services 5 "ws" 4 true paused).0
        r.status
unfolding live pending_marker truthy
resume_executor-Ended_example =
    resume_executor-Ended agents services 5 "ws" 4 true marker paused live refl

storing : Unit {0}
unfolding finalize_run conclude with_pr with_evidence with_references verify finish persist store
    cleanup update_run advance_finding_status target_status takes_pr_url write move get is_str
    truthy verify_parsed expect strip name_part number_part
storing = tt

finalize_run-Verified_example :
    (fixed ≡ found)
    ⊎ ((tool_agent ≡ "remediation_executor") × Verified services (parsed opened none null))
unfolding storing
finalize_run-Verified_example =
    finalize_run-Verified services 5 "ws" 4 "remediation_executor" (parsed opened none null) end
      paused found fixed refl refl refl
