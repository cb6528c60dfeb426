-- ===== src/Executor/Agents.antt =====
-- agents/executor.py: what the agents, the resolvers and the files give to a run (`Agents`), the marker of
-- a run that waits, and the end of a run without a result.
use cliff.Common.{
  ℕ, String, Bool, true, false, ◌&&◌, ◌||◌, Option, none, some, List, [], ◌∷◌, ◌==◌, leb,
  if◌then◌else◌,
}
use cliff.Common.Text.{format}
use cliff.Json.{Value, null, str, arr, Fields, end, field, Items, nil, cons, get, truthy, is_str}
use cliff.Issue.{RunStatus}
use cliff.Executor.Runs.{no_update}
use cliff.Executor.Call.{Tried, Answer}
use cliff.Executor.Finalize.{
  ParseResult, World, ResultStatus, awaiting_permission, ExecutionResult, cleanup, update_run,
}

pub record Approval : Type 0 where
  pub tool_call_id : String
  pub tool_name : String

-- DeferredToolRequests, with the metadata of each call, and the serialized messages
pub record Requests : Type 0 where
  pub approvals : List Approval
  pub metadata : String → Fields
  pub history : String

-- what a tool agent ends with: its output, or the calls that wait for a permission
pub data Reply : Type 0 where
  output : Fields → Reply
  deferred : Requests → Reply

-- `load` gives the finding; `model` stands for both resolvers and `build_model`, each of which may
-- raise an AgentProcessError; `answers` and `tool_answers` are the attempts at an agent, and
-- `resumed` those with the history and the user's decision for each tool call.
pub record Agents : Type 0 where
  pub load : String → Tried Fields
  pub model : Tried (Unit {0})
  pub answers : String → ℕ → Answer Fields
  pub tool_answers : ℕ → Answer Reply
  pub resumed : String → List String → Bool → ℕ → Answer Reply
  pub valid_history : String → Bool
  pub derive_summary : String → Fields → String
  pub print_value : Value → String
  pub backoff : ℕ → String

abbrev pub tool_agent : String
tool_agent = "remediation_executor"

abbrev pub no_tools_agent_types : List String
no_tools_agent_types =
    "finding_enricher" ∷ "owner_resolver" ∷ "exposure_analyzer" ∷ "evidence_collector"
    ∷ "remediation_planner" ∷ "validation_checker" ∷ []

-- max(timeout, 600) for a tool agent
abbrev pub effective_timeout : String → ℕ → ℕ
effective_timeout agent_type seconds =
    if agent_type == tool_agent then if leb seconds 600 then 600 else seconds else seconds

abbrev pub parsed : Fields → Option String → Value → ParseResult
parsed out summary confidence = record {
  success = true;
  raw_text = "";
  structured_output = some out;
  summary = summary;
  confidence = confidence;
  suggested_next_action = none;
  error = none;
}

abbrev pub unparsed : Option String → ParseResult
unparsed error = record {
  success = false;
  raw_text = "";
  structured_output = none;
  summary = none;
  confidence = null;
  suggested_next_action = none;
  error = error;
}

abbrev texts : List String → Items
texts [] = nil
texts (s ∷ ss) = cons (str s) (texts ss)

abbrev ids : List Approval → List String
ids [] = []
ids (a ∷ as_) = a.tool_call_id ∷ ids as_

abbrev or_value : Value → Value → Value
or_value v w = if truthy v then v else w

abbrev pub has_key : Fields → String → Bool
has_key end k = false
has_key (field j v d) k = j == k || has_key d k

abbrev tool_of : List Approval → (String → Fields) → Value
tool_of [] metadata = str "unknown"
tool_of (a ∷ as_) metadata =
    let meta = metadata a.tool_call_id in
    if has_key meta "tool" then get meta "tool" else str a.tool_name

abbrev patterns_of : List Approval → (String → Fields) → Value
patterns_of [] metadata = arr nil
patterns_of (a ∷ as_) metadata = or_value (get (metadata a.tool_call_id) "patterns") (arr nil)

-- _build_permission_marker
unfoldable pub build_permission_marker : Requests → Fields
build_permission_marker reqs = field "tool" (tool_of reqs.approvals reqs.metadata) (
    field "patterns" (patterns_of reqs.approvals reqs.metadata)
      (field "tool_call_ids" (arr (texts (ids reqs.approvals))) end))

abbrev pub call_ids : Fields → List String
call_ids marker = elim (get marker "tool_call_ids") [ arr vs ↦ ids_of vs | _ ↦ [] ]
  where
    ids_of : Items → List String
    ids_of nil = []
    ids_of (cons (str s) vs) = s ∷ ids_of vs
    ids_of (cons _ vs) = ids_of vs

-- _summarize_executor
abbrev or_text : (Value → String) → Value → String → String
or_text print v word = if truthy v then print v else word

unfoldable pub summarize_executor : (Value → String) → Fields → String
summarize_executor print out =
    let status = get out "status" in
    let pr_url = get out "pr_url" in
    if is_str status "pr_created" && truthy pr_url
    then format ("Opened draft PR: " ∷ print pr_url ∷ [])
    else if is_str status "needs_approval"
    then "Paused — remediation needs approval."
    else if is_str status "failed"
    then or_text print (get out "error_details") "Remediation failed."
    else or_text print (get out "changes_summary") "Changes applied."

-- what a run of the agent gives: a result, or a pause with the marker and the history
pub data Outcome : Type 0 where
  finished : ParseResult → Outcome
  paused : Fields → String → Outcome

-- The row's and the result's fields where a run ends without a result.
abbrev pub end_run :
    ℕ
    → String
    → ℕ
    → String
    → RunStatus
    → ResultStatus
    → String
    → String
    → String
    → World
    → World × ExecutionResult
end_run now workspace_id id agent_type row_status status summary last_error words w =
    let u = record no_update {
      status = some row_status;
      summary_markdown = some (some summary);
      last_error = some (some last_error);
    } in
    (
      update_run now id u (cleanup workspace_id w),
      record {
        agent_run_id = id;
        agent_type = agent_type;
        status = status;
        parse_result = unparsed (some words);
        sidebar_updated = false;
        context_version = none;
        error = some last_error;
      },
    )

-- _park_for_permission
unfoldable pub park_for_permission :
    ℕ → ℕ → String → Fields → String → World → World × ExecutionResult
unfolding update_run
park_for_permission now id agent_type marker history w =
    let u = record no_update {
      permission_pending = some true;
      permission_request = some (some marker);
      pa_message_history = some (some history);
    } in
    (
      update_run now id u w,
      record {
        agent_run_id = id;
        agent_type = agent_type;
        status = awaiting_permission;
        parse_result = unparsed none;
        sidebar_updated = false;
        context_version = none;
        error = none;
      },
    )
