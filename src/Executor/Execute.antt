-- ===== src/Executor/Execute.antt =====
-- AgentExecutor.execute and resume_executor of agents/executor.py: a run from its check to its end.
-- What they need of the agents is the argument `Agents` of Executor.Agents.
pub mod Leaves
pub mod Ends
use cliff.Common.{
  ℕ, String, Bool, true, false, not, ◌&&◌, ◌||◌, Option, none, some, List, [], ◌∷◌, map, ◌==◌, any,
  leb, if◌then◌else◌,
}
use cliff.Common.Text.{show, format}
use cliff.Json.{
  Value, null, str, arr, Fields, end, field, Items, nil, cons, get, truthy, is_str, obj,
}
use cliff.Issue.{RunStatus}
use cliff.Executor.Runs.{Row, AgentRunUpdate, no_update, create_agent_run, get_agent_run, is_busy}
use cliff.Executor.Call.{
  Failure, timeout, rate_limit, process, other, assertion, Tried, done, raised, ◌>>=◌, Answer,
  run_pa_call, rate_limit_max_attempts,
}
use cliff.Executor.Advance.{humanize_process_error, is_given}
use cliff.Executor.Finalize.{
  ParseResult, World, ResultStatus, failed, rate_limited, awaiting_permission, ExecutionResult,
  Services, cleanup, update_run, finalize_run,
}
use cliff.Executor.Agents.{
  Reply, Agents, tool_agent, no_tools_agent_types, effective_timeout, parsed, has_key,
  build_permission_marker, summarize_executor, Outcome, end_run, park_for_permission, output,
  deferred, finished, paused,
}

module _ (agents : Agents) (services : Services) (now : ℕ) (workspace_id : String) where
  unfoldable pub outcome_of : Reply → Outcome
  unfolding build_permission_marker summarize_executor
  outcome_of (deferred reqs) = paused (build_permission_marker reqs) reqs.history
  outcome_of (output out) =
      finished (parsed out (some (summarize_executor agents.print_value out)) null)

  unfoldable pub run_pa_executor : (ℕ → Answer Reply) → ℕ → Tried Outcome
  unfolding run_pa_call outcome_of
  run_pa_executor answers seconds = do
    ready ← agents.model
    reply ← run_pa_call tool_agent seconds answers
    done (outcome_of reply)

  abbrev pub verdict_of : Fields → Value
  verdict_of out = if has_key out "verdict" then get out "verdict" else str "needs_review"

  unfoldable pub run_pa_report_triager : ℕ → Tried Outcome
  unfolding run_pa_call
  run_pa_report_triager seconds = do
    ready ← agents.model
    out ← run_pa_call "report_triager" seconds (agents.answers "report_triager")
    done (
        finished (
          parsed out
            (some
              (format ("Report triage verdict: " ∷ agents.print_value (verdict_of out) ∷ "." ∷ [])))
            (get out "confidence")))

  abbrev pub registered : String → Tried (Unit {0})
  registered agent_type =
      if any (λ a. a == agent_type) no_tools_agent_types
      then done tt
      else raised (
          process (
            format (
              "agent_type '" ∷ agent_type ∷ "' is not registered for the Pydantic AI no-tools path."
              ∷ [])))

  unfoldable pub run_pa_no_tools : String → ℕ → Tried Outcome
  unfolding run_pa_call
  run_pa_no_tools agent_type seconds = do
    known ← registered agent_type
    ready ← agents.model
    out ← run_pa_call agent_type seconds (agents.answers agent_type)
    done (finished (parsed out (some (agents.derive_summary agent_type out)) null))

  unfoldable pub dispatch : String → ℕ → Tried Outcome
  unfolding run_pa_executor run_pa_report_triager run_pa_no_tools
  dispatch agent_type seconds =
      if agent_type == tool_agent
      then run_pa_executor agents.tool_answers seconds
      else if agent_type == "report_triager"
      then run_pa_report_triager seconds
      else run_pa_no_tools agent_type seconds

  abbrev pub rate_limit_words : String → String
  rate_limit_words words = format (
      "Provider rate limit reached after "
      ∷ show rate_limit_max_attempts
      ∷ " attempts; retry in ~"
      ∷ agents.backoff rate_limit_max_attempts
      ∷ "s. Upstream: "
      ∷ words
      ∷ [])

  abbrev pub timeout_words : ℕ → String
  timeout_words seconds = format ("Agent timed out after " ∷ show seconds ∷ "s" ∷ [])

  abbrev pub unexpected_words : String → String
  unexpected_words words = format ("Unexpected error: " ∷ words ∷ [])

  -- The handlers of `execute`.
  unfoldable pub handle : ℕ → String → ℕ → Failure → World → World × ExecutionResult
  unfolding humanize_process_error
  handle id agent_type seconds (timeout words) w =
      end_run now workspace_id id agent_type RunStatus.failed failed
        "Agent timed out. Partial response may be available." (timeout_words seconds) "timeout" w
  handle id agent_type seconds (rate_limit words) w =
      end_run now workspace_id id agent_type RunStatus.rate_limited rate_limited
        (humanize_process_error words) (rate_limit_words words) words w
  handle id agent_type seconds (process words) w =
      end_run now workspace_id id agent_type RunStatus.failed failed (humanize_process_error words)
        words words w
  handle id agent_type seconds (other words) w =
      end_run now workspace_id id agent_type RunStatus.failed failed (unexpected_words words) words
        words w
  handle id agent_type seconds assertion w =
      end_run now workspace_id id agent_type RunStatus.failed failed (unexpected_words "") "" "" w

  -- a step that may have raised, with the handlers around it
  abbrev pub caught :
      (Failure → World → World × ExecutionResult)
      → World × Tried ExecutionResult
      → World × ExecutionResult
  caught handlers (w, done r) = (w, r)
  caught handlers (w, raised e) = handlers e w

  abbrev pub settle : ℕ → String → Fields → World → Outcome → World × Tried ExecutionResult
  settle id agent_type finding w (paused marker history) =
      let (w', r) = park_for_permission now id agent_type marker history w in (w', done r)
  settle id agent_type finding w (finished p) =
      finalize_run services now workspace_id id agent_type p finding w

  abbrev pub conclude : ℕ → String → Fields → World → Tried Outcome → World × Tried ExecutionResult
  conclude id agent_type finding w (raised e) = (w, raised e)
  conclude id agent_type finding w (done o) = settle id agent_type finding w o

  abbrev pub with_finding : ℕ → String → ℕ → World → Tried Fields → World × Tried ExecutionResult
  with_finding id agent_type seconds w (raised e) = (w, raised e)
  with_finding id agent_type seconds w (done finding) =
      conclude id agent_type finding w (dispatch agent_type seconds)

  -- from the row of the run on
  unfoldable pub run_agent : ℕ → String → ℕ → World → World × ExecutionResult
  run_agent id agent_type seconds w =
      caught (handle id agent_type seconds)
        (with_finding id agent_type seconds w (agents.load agent_type))

  unfoldable pub begin : ℕ → String → World → World
  unfolding create_agent_run
  begin id agent_type w = record w {
    runs = create_agent_run now id workspace_id agent_type RunStatus.running w.runs;
    active = workspace_id ∷ w.active;
  }

  -- `none` is the AgentBusyError, which changes nothing.
  unfoldable pub execute : ℕ → String → ℕ → World → World × Option ExecutionResult
  unfolding is_busy begin run_agent
  execute id agent_type seconds w =
      let (w', r) =
        run_agent id agent_type (effective_timeout agent_type seconds) (begin id agent_type w) in
      if is_busy workspace_id w.runs then (w, none) else (w', some r)
