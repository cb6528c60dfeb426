-- ===== src/Executor/Resume.antt =====
-- AgentExecutor.resume_executor of agents/executor.py: a run that waits for a permission, after the
-- user's decision.
pub mod Wakes
use cliff.Common.{
  ℕ, String, Bool, true, false, not, ◌&&◌, Option, none, some, List, [], ◌∷◌, if◌then◌else◌,
}
use cliff.Common.Text.{format}
use cliff.Json.{Fields, truthy, obj}
use cliff.Issue.{RunStatus}
use cliff.Executor.Runs.{Row, no_update, get_agent_run}
use cliff.Executor.Call.{
  Failure, timeout, rate_limit, process, other, assertion, Tried, done, raised, ◌>>=◌,
}
use cliff.Executor.Advance.{humanize_process_error, is_given}
use cliff.Executor.Finalize.{
  World, failed, rate_limited, ExecutionResult, Services, cleanup, update_run, finalize_run,
}
use cliff.Executor.Agents.{
  Agents, Outcome, finished, paused, tool_agent, effective_timeout, call_ids, end_run,
  park_for_permission,
}
use cliff.Executor.Execute.{run_pa_executor, conclude, caught, settle}

abbrev pub default_timeout : ℕ
default_timeout = 150

-- the marker of a run that waits for a permission
unfoldable pub pending_marker : Option Row → Option Fields
pending_marker none = none
pending_marker (some r) = elim r.permission_request [
  | none ↦ none
  | some marker ↦ if r.permission_pending && truthy (obj marker) then some marker else none
]

module _ (agents : Agents) (services : Services) (now : ℕ) (workspace_id : String) where
  -- The handlers of `resume_executor`.
  unfoldable pub handle_resume : ℕ → String → Failure → World → World × ExecutionResult
  unfolding humanize_process_error
  handle_resume id agent_type (timeout words) w =
      end_run now workspace_id id agent_type RunStatus.failed failed (humanize_process_error words)
        words words w
  handle_resume id agent_type (rate_limit words) w =
      end_run now workspace_id id agent_type RunStatus.rate_limited rate_limited
        (humanize_process_error words) words words w
  handle_resume id agent_type (process words) w =
      end_run now workspace_id id agent_type RunStatus.failed failed (humanize_process_error words)
        words words w
  handle_resume id agent_type (other words) w =
      end_run now workspace_id id agent_type RunStatus.failed failed (humanize_process_error words)
        (format ("Resume failed: " ∷ words ∷ [])) words w
  handle_resume id agent_type assertion w =
      end_run now workspace_id id agent_type RunStatus.failed failed (humanize_process_error "")
        (format ("Resume failed: " ∷ "" ∷ [])) "" w

  abbrev pub stored : Option String → Tried String
  stored h =
      if is_given h
      then elim h [ none ↦ raised (other "") | some s ↦ done s ]
      else raised (process "Paused run has no stored message history; cannot resume.")

  abbrev pub readable : String → Tried String
  readable h = if agents.valid_history h then done h else raised (other "validation error")

  -- the `try` block up to the agent's outcome, with the finding
  unfoldable pub replay : String → Fields → Option String → Bool → Tried (Fields × Outcome)
  unfolding run_pa_executor
  replay agent_type marker history approved = do
    h ← stored history
    finding ← agents.load agent_type
    messages ← readable h
    o ←
        run_pa_executor agents services now workspace_id
          (agents.resumed messages (call_ids marker) approved)
          (effective_timeout tool_agent default_timeout)
    done (finding, o)

  abbrev pub conclude_resume :
      ℕ → String → World → Tried (Fields × Outcome) → World × Tried ExecutionResult
  conclude_resume id agent_type w (raised e) = (w, raised e)
  conclude_resume id agent_type w (done (finding, o)) =
      settle agents services now workspace_id id agent_type finding w o

  -- the marker is cleared before the agent goes on
  unfoldable pub clear_marker : ℕ → World → World
  unfolding update_run
  clear_marker id w =
      update_run now id
        (record no_update {
          permission_pending = some false;
          permission_request = some none;
          pa_message_history = some none;
        })
        w

  unfoldable pub resume_run : ℕ → Row → Fields → Bool → World → World × ExecutionResult
  unfolding handle_resume replay clear_marker
  resume_run id r marker approved w =
      let w' = clear_marker id w in
      caught agents services now workspace_id (handle_resume id r.agent_type) (
        conclude_resume id r.agent_type w'
          (replay r.agent_type marker r.pa_message_history approved))

  -- `none` is the AgentProcessError of a run that waits for no permission; it changes nothing.
  unfoldable pub by_marker :
      ℕ → Option Row → Option Fields → Bool → World → World × Option ExecutionResult
  unfolding resume_run
  by_marker id (some r) (some marker) approved w =
      let (w', result) = resume_run id r marker approved w in (w', some result)
  by_marker id _ _ approved w = (w, none)

  unfoldable pub resume_executor : ℕ → Bool → World → World × Option ExecutionResult
  unfolding get_agent_run pending_marker by_marker
  resume_executor id approved w =
      let r = get_agent_run id w.runs in by_marker id r (pending_marker r) approved w
