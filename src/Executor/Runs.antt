-- ===== src/Executor/Runs.antt =====
-- backend/cliff/db/repo_agent_run.py: the table of the agent runs, newest row first. A time is a
-- number, and the id of a new row is an argument, as the code draws it at random.
pub mod Newest
pub mod Reconcile
use cliff.Common.{
  ℕ, zero, suc, ◌+◌, String, Bool, true, false, not, ◌||◌, Option, none, some, List, [], ◌∷◌, map,
  ◌==◌, any, count_if, keep, take, ltb, eqb, is_some, if◌then◌else◌,
}
use cliff.Json.{Value, null, Fields}
use cliff.Issue.{RunStatus, queued, running, completed, failed, cancelled, rate_limited}

pub record Row : Type 0 where
  pub id : ℕ
  pub workspace_id : String
  pub agent_type : String
  pub status : RunStatus
  pub started_at : Option ℕ
  pub completed_at : Option ℕ
  pub summary_markdown : Option String
  pub confidence : Value
  pub structured_output : Option Fields
  pub next_action_hint : Option String
  pub last_error : Option String
  pub permission_pending : Bool
  pub permission_request : Option Fields
  pub pa_message_history : Option String

-- A field that is set has `some`.
pub record AgentRunUpdate : Type 0 where
  pub status : Option RunStatus
  pub summary_markdown : Option (Option String)
  pub confidence : Option Value
  pub structured_output : Option (Option Fields)
  pub next_action_hint : Option (Option String)
  pub last_error : Option (Option String)
  pub permission_pending : Option Bool
  pub permission_request : Option (Option Fields)
  pub pa_message_history : Option (Option String)

abbrev pub no_update : AgentRunUpdate
no_update = record {
  status = none;
  summary_markdown = none;
  confidence = none;
  structured_output = none;
  next_action_hint = none;
  last_error = none;
  permission_pending = none;
  permission_request = none;
  pa_message_history = none;
}

abbrev pub assign {ℓ} : {A : Type ℓ} → Option A → A → A
assign none old = old
assign (some new) old = new

abbrev pub is_running : RunStatus → Bool
is_running running = true
is_running _ = false

abbrev pub is_queued : RunStatus → Bool
is_queued queued = true
is_queued _ = false

abbrev is_final : RunStatus → Bool
is_final completed = true
is_final failed = true
is_final cancelled = true
is_final rate_limited = true
is_final _ = false

abbrev pub stamp : (RunStatus → Bool) → ℕ → Option RunStatus → Option ℕ → Option ℕ
stamp test now none old = old
stamp test now (some s) old = if test s then some now else old

unfoldable pub create_agent_run : ℕ → ℕ → String → String → RunStatus → List Row → List Row
create_agent_run now id workspace_id agent_type status rows =
    record {
      id = id;
      workspace_id = workspace_id;
      agent_type = agent_type;
      status = status;
      started_at = if is_running status then some now else none;
      completed_at = none;
      summary_markdown = none;
      confidence = null;
      structured_output = none;
      next_action_hint = none;
      last_error = none;
      permission_pending = false;
      permission_request = none;
      pa_message_history = none;
    }
    ∷ rows

unfoldable pub set_fields : ℕ → AgentRunUpdate → Row → Row
set_fields now u r = record r {
  status = assign u.status r.status;
  started_at = stamp is_running now u.status r.started_at;
  completed_at = stamp is_final now u.status r.completed_at;
  summary_markdown = assign u.summary_markdown r.summary_markdown;
  confidence = assign u.confidence r.confidence;
  structured_output = assign u.structured_output r.structured_output;
  next_action_hint = assign u.next_action_hint r.next_action_hint;
  last_error = assign u.last_error r.last_error;
  permission_pending = assign u.permission_pending r.permission_pending;
  permission_request = assign u.permission_request r.permission_request;
  pa_message_history = assign u.pa_message_history r.pa_message_history;
}

-- UPDATE ... WHERE id = ?
unfoldable pub update_agent_run : ℕ → ℕ → AgentRunUpdate → List Row → List Row
unfolding set_fields
update_agent_run now id u [] = []
update_agent_run now id u (r ∷ rows) =
    let rest = update_agent_run now id u rows in
    if eqb r.id id then set_fields now u r ∷ rest else r ∷ rest

unfoldable pub get_agent_run : ℕ → List Row → Option Row
get_agent_run id [] = none
get_agent_run id (r ∷ rows) = if eqb r.id id then some r else get_agent_run id rows

-- started_at DESC NULLS LAST
unfoldable pub precedes : Option ℕ → Option ℕ → Bool
precedes none b = false
precedes (some a) none = true
precedes (some a) (some b) = ltb b a

unfoldable pub insert : Row → List Row → List Row
unfolding precedes
insert r [] = r ∷ []
insert r (s ∷ rows) =
    let rest = insert r rows in
    if precedes s.started_at r.started_at then s ∷ rest else r ∷ s ∷ rows

unfoldable pub newest_first : List Row → List Row
unfolding insert
newest_first [] = []
newest_first (r ∷ rows) = insert r (newest_first rows)

abbrev pub of_workspace : String → Row → Bool
of_workspace workspace_id r = r.workspace_id == workspace_id

unfoldable pub list_agent_runs : ℕ → String → List Row → List Row
unfolding newest_first
list_agent_runs limit workspace_id rows =
    take limit (newest_first (keep (of_workspace workspace_id) rows))

abbrev pub row_runs : Row → Bool
row_runs r = is_running r.status

-- AgentExecutor.check_not_busy: whether it raises
unfoldable pub is_busy : String → List Row → Bool
unfolding list_agent_runs
is_busy workspace_id rows = any row_runs (list_agent_runs 10 workspace_id rows)

abbrev or_else {ℓ} : {A : Type ℓ} → Option A → A → Option A
or_else none a = some a
or_else (some b) a = some b

abbrev pub is_live : Row → Bool
is_live r = is_queued r.status || is_running r.status

abbrev pub interrupted : String
interrupted =
    "**Agent run interrupted.** The backend restarted while this agent was working. Click Approve / Start to retry."

abbrev orphaned : ℕ → Row → Row
orphaned now r = record r {
  status = failed;
  completed_at = or_else r.completed_at now;
  summary_markdown = or_else r.summary_markdown interrupted;
  permission_pending = false;
  permission_request = none;
  pa_message_history = none;
}

-- the rows after the start-up, and how many were changed
unfoldable pub reconcile_orphaned_agent_runs : ℕ → List Row → List Row × ℕ
reconcile_orphaned_agent_runs now rows =
    (map (λ (r : Row). if is_live r then orphaned now r else r) rows, count_if is_live rows)
