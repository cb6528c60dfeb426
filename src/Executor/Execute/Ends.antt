-- ===== src/Executor/Execute/Ends.antt =====
-- How an agent run ends: terminal and no longer active, or parked with its marker.
use cliff.Common.{
  ℕ, ◌≤◌, count_if, keep, String, ◌≡◌, refl, true, false, none, some, ◌==◌, eqb, arith, eq_iff,
}
use cliff.Json.{Fields, null}
use cliff.Issue.{RunStatus}
use cliff.Executor.Runs.{Row, get_agent_run, create_agent_run, of_workspace, is_busy}
use cliff.Executor.Runs.Newest.{is_as_new, is_busy-found}
use cliff.Executor.Call.{
  Failure, timeout, rate_limit, process, other, assertion, Tried, done, raised,
}
use cliff.Executor.Finalize.{World, ResultStatus, ExecutionResult, Services}
use cliff.Executor.Advance.{humanize_process_error}
use cliff.Executor.Execute as Execute
use cliff.Executor.Agents.{Agents, Outcome, effective_timeout}
use cliff.Executor.Execute.{
  handle, settle, run_agent, execute, begin, caught, with_finding, dispatch, timeout_words,
  rate_limit_words, unexpected_words,
}
use cliff.Executor.Execute.Leaves.{
  failed, rate_limited, Ended, Live, Left, threw, EndsIn, settle-Left, end_run-Ended, caught-Ended,
}

module _ (agents : Agents) (services : Services) (now : ℕ) (ws : String) where
  handle-Ended :
      (asked : Outcome → Type 0) (id : ℕ) (agent : String) (seconds : ℕ) (e : Failure) (w : World)
      → Live id ws w
      → Ended asked id ws
          (handle agents services now ws id agent seconds e w).0
          (handle agents services now ws id agent seconds e w).1.status
  unfolding handle
  handle-Ended asked id agent seconds (timeout words) w l =
      end_run-Ended agents services now ws asked id agent RunStatus.failed ResultStatus.failed
        "Agent timed out. Partial response may be available."
        (timeout_words agents services now ws seconds) "timeout" w failed l
  handle-Ended asked id agent seconds (rate_limit words) w l =
      end_run-Ended agents services now ws asked id agent RunStatus.rate_limited
        ResultStatus.rate_limited (humanize_process_error words)
        (rate_limit_words agents services now ws words) words w rate_limited l
  handle-Ended asked id agent seconds (process words) w l =
      end_run-Ended agents services now ws asked id agent RunStatus.failed ResultStatus.failed
        (humanize_process_error words) words words w failed l
  handle-Ended asked id agent seconds (other words) w l =
      end_run-Ended agents services now ws asked id agent RunStatus.failed ResultStatus.failed
        (unexpected_words agents services now ws words) words words w failed l
  handle-Ended asked id agent seconds assertion w l =
      end_run-Ended agents services now ws asked id agent RunStatus.failed ResultStatus.failed
        (unexpected_words agents services now ws "") "" "" w failed l

  -- what the agent's call gave
  Asked : String → ℕ → Outcome → Type 0
  Asked agent seconds o = dispatch agents services now ws agent seconds ≡ done o

  outcome-Left :
      (id : ℕ) (agent : String) (seconds : ℕ) (finding : Fields) (w : World) (o : Tried Outcome)
      → dispatch agents services now ws agent seconds ≡ o
      → Live id ws w
      → Left agents services now ws
          (Asked agent seconds)
          id
          (Execute.conclude agents services now ws id agent finding w o)
  unfolding Asked
  outcome-Left id agent seconds finding w (raised e) a l = threw l
  outcome-Left id agent seconds finding w (done o) a l =
      settle-Left agents services now ws (Asked agent seconds) id agent finding w o a l

  with_finding-Left :
      (id : ℕ) (agent : String) (seconds : ℕ) (w : World) (f : Tried Fields)
      → Live id ws w
      → Left agents services now ws
          (Asked agent seconds)
          id
          (with_finding agents services now ws id agent seconds w f)
  with_finding-Left id agent seconds w (raised e) l = threw l
  with_finding-Left id agent seconds w (done finding) l =
      outcome-Left id agent seconds finding w (dispatch agents services now ws agent seconds) refl l

  begin-Live :
      (id : ℕ) (agent : String) (w : World) → Live id ws (begin agents services now ws id agent w)
  unfolding begin create_agent_run get_agent_run
  begin-Live id agent w =
      let same : eqb id id ≡ true = ground arith in
      let own : (ws == ws) ≡ true = (eq_iff ws ws).1 refl in
      record {
        row = new_row id agent;
        found = rw same refl;
        running = refl;
        unasked = refl;
        unmarked = refl;
        active = rw own refl;
      }
    where
      new_row : ℕ → String → Row
      new_row id agent = record {
        id = id;
        workspace_id = ws;
        agent_type = agent;
        status = RunStatus.running;
        started_at = some now;
        completed_at = none;
        summary_markdown = none;
        confidence = null;
        structured_output = none;
        next_action_hint = none;
        last_error = none;
        permission_pending = false;
        permission_request = none;
        pa_message_history = none;
      }

  run_agent-EndsIn :
      (id : ℕ) (agent : String) (seconds : ℕ) (w : World)
      → Live id ws w
      → EndsIn agents services now ws
          (Asked agent seconds)
          id
          (run_agent agents services now ws id agent seconds w)
  unfolding run_agent EndsIn
  run_agent-EndsIn id agent seconds w l =
      caught-Ended agents services now ws (Asked agent seconds) id
        (handle agents services now ws id agent seconds)
        (with_finding agents services now ws id agent seconds w (agents.load agent))
        (handle-Ended (Asked agent seconds) id agent seconds)
        (with_finding-Left id agent seconds w (agents.load agent) l)

  -- A run that begins ends: whatever the agents, the services and the files give, the result's status
  -- is that of the run's row, which is completed, failed or rate_limited and has no marker, and the
  -- workspace is free; or the run waits for a permission, its row is running with the marker and the
  -- history of the agent's request, and the workspace is not free. The workspace was not busy.
  pub execute-Ended :
      (id : ℕ) (agent : String) (seconds : ℕ) (w : World)
      → is_busy ws w.runs ≡ false
      → (r : ExecutionResult) × ((execute agents services now ws id agent seconds w).1 ≡ some r)
        × Ended
            (λ o. dispatch agents services now ws agent (effective_timeout agent seconds) ≡ done o)
            id
            ws
            (execute agents services now ws id agent seconds w).0
            r.status
  unfolding execute EndsIn Asked
  execute-Ended id agent seconds w free =
      let begun = begin agents services now ws id agent w in
      let seconds' = effective_timeout agent seconds in
      let e = run_agent-EndsIn id agent seconds' begun (begin-Live id agent w) in
      ((run_agent agents services now ws id agent seconds' begun).1, rw free refl, rw free e)

  -- While a run of the workspace is on, also one that waits for a permission, the executor refuses to
  -- begin another, whatever agent is asked for, and changes nothing. This holds where at most ten runs
  -- of the workspace, that one included, are as new as it is.
  pub execute-refused :
      (id : ℕ) (agent : String) (seconds : ℕ) (w : World) (live : ℕ) (row : Row)
      → get_agent_run live w.runs ≡ some row
      → of_workspace ws row ≡ true
      → row.status ≡ RunStatus.running
      → count_if (is_as_new row) (keep (of_workspace ws) w.runs) ≤ 10
      → execute agents services now ws id agent seconds w ≡ (w, none)
  unfolding execute
  execute-refused id agent seconds w live row e own on few =
      let busy = is_busy-found ws live w.runs row e own (rw on refl) few in rw busy refl
