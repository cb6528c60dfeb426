-- ===== src/Pipeline.antt =====
-- backend/cliff/agents/pipeline.py: the advice on the next agent, and the loop that follows it.
-- The context snapshot is its sections, each a dict or `None`, and the run history.
pub mod Advice
pub mod Loop
mod Examples
use cliff.Common.{
  ℕ, zero, suc, ◌+◌, String, Bool, true, false, not, ◌&&◌, ◌||◌, Option, none, some, List, [], ◌∷◌,
  ◌++◌, ◌==◌, ltb, length, count_if, if◌then◌else◌,
}
use cliff.Common.Text.{Text, codes, same, show, format}
use cliff.Common.Result.{Result, ok, raise, Raised, attribute_error}
use cliff.Json.{Value, Fields, obj, get, truthy, is_str, lower_or_empty}

pub record Snapshot : Type 0 where
  pub section : String → Option Fields
  pub agent_run_history : List Fields

pub data Priority : Type 0 where
  recommended optional required : Priority

pub data ActionType : Type 0 where
  run_agent review_pr await_approval : ActionType

pub record SuggestedAction : Type 0 where
  pub agent_type : Option String
  pub reason : String
  pub priority : Priority
  pub prerequisites_met : Bool
  pub action_type : ActionType

abbrev pub pipeline_order : List String
pipeline_order =
    "finding_enricher" ∷ "exposure_analyzer" ∷ "evidence_collector" ∷ "remediation_planner"
    ∷ "remediation_executor" ∷ []

abbrev pub max_retry_iterations : ℕ
max_retry_iterations = 3

abbrev pub pipeline_checks : List (String × String)
pipeline_checks =
    ("enrichment", "finding_enricher")
    ∷ ("exposure", "exposure_analyzer")
    ∷ ("evidence", "evidence_collector")
    ∷ ("plan", "remediation_planner")
    ∷ ("remediation", "remediation_executor")
    ∷ []

-- Every key of `pipeline_checks` is in the dict, so its last entry is the default here.
abbrev reasons : String → String
reasons section =
    if section == "enrichment"
    then "CVE details and exploit info not yet collected"
    else if section == "exposure"
    then "Reachability and blast radius not yet assessed"
    else if section == "evidence"
    then "Affected files and fix impact not yet analyzed"
    else if section == "plan"
    then "No remediation plan created yet"
    else "Remediation not yet executed"

abbrev completed_plan : Fields → Bool
completed_plan run =
    is_str (get run "agent_type") "remediation_planner" && is_str (get run "status") "completed"

unfoldable pub count_plan_retries : List Fields → ℕ
count_plan_retries history = count_if completed_plan history

-- A `SuggestedAction` with the dataclass's defaults.
abbrev pub suggest : String → String → Priority → SuggestedAction
suggest agent reason priority = record {
  agent_type = some agent;
  reason = reason;
  priority = priority;
  prerequisites_met = true;
  action_type = run_agent;
}

abbrev pub pause : String → Priority → ActionType → SuggestedAction
pause reason priority action = record {
  agent_type = none;
  reason = reason;
  priority = priority;
  prerequisites_met = true;
  action_type = action;
}

abbrev pub await_plan : SuggestedAction
await_plan =
    pause "Plan ready — review the steps and approve before the executor opens a pull request."
      required await_approval

abbrev pub replan : ℕ → SuggestedAction
replan retries =
    suggest "remediation_planner"
      (format (
        "Validation found issues (attempt "
        ∷ show (retries + 1)
        ∷ "/"
        ∷ show max_retry_iterations
        ∷ "). Re-planning."
        ∷ []))
      required

-- `(context_snapshot.get("plan") or {}).get("approved")`
unfoldable pub plan_approved : Option Fields → Bool
plan_approved none = false
plan_approved (some plan) = truthy (get plan "approved")

-- the body of the loop over `_PIPELINE_CHECKS` where the section is missing
unfoldable pub missing : Snapshot → String → String → SuggestedAction
missing snap section agent =
    if agent == "remediation_executor" && not (plan_approved (snap.section "plan"))
    then await_plan
    else suggest agent (reasons section) recommended

unfoldable pub first_missing : Snapshot → List (String × String) → Option SuggestedAction
first_missing snap [] = none
first_missing snap ((section, agent) ∷ rest) = elim (snap.section section) [
  | none ↦ some (missing snap section agent)
  | some _ ↦ first_missing snap rest
]

abbrev review : SuggestedAction
review = pause "Pull request created — ready for review" recommended review_pr

abbrev by_status : Option Text → Result (Option SuggestedAction)
by_status none = raise attribute_error
by_status (some status) = if same status (codes "pr_created") then ok (some review) else ok none

-- what follows the loop; an empty remediation dict has the status ""
unfoldable pub after_remediation : Option Fields → Result (Option SuggestedAction)
after_remediation none = ok none
after_remediation (some remediation) =
    if truthy (obj remediation)
    then by_status (lower_or_empty (get remediation "status"))
    else ok none

abbrev or_finish :
    Option SuggestedAction → Result (Option SuggestedAction) → Result (Option SuggestedAction)
or_finish none last = last
or_finish (some action) last = ok (some action)

-- the standard order
unfoldable pub forward : Snapshot → Result (Option SuggestedAction)
forward snap =
    or_finish (first_missing snap pipeline_checks) (after_remediation (snap.section "remediation"))

abbrev needs_fix : Text → Bool
needs_fix verdict = same verdict (codes "not_fixed") || same verdict (codes "partially_fixed")

abbrev by_verdict :
    Option Text → ℕ → Result (Option SuggestedAction) → Result (Option SuggestedAction)
by_verdict none retries next = raise attribute_error
by_verdict (some verdict) retries next =
    if needs_fix verdict && ltb retries max_retry_iterations
    then ok (some (replan retries))
    else next

-- the branch on a validation that ran; otherwise, and at the retry limit, the standard order
unfoldable pub validated_or :
    Option Fields → ℕ → Result (Option SuggestedAction) → Result (Option SuggestedAction)
validated_or none retries next = next
validated_or (some validation) retries next =
    if truthy (obj validation)
    then by_verdict (lower_or_empty (get validation "verdict")) retries next
    else next

unfoldable pub suggest_next : Snapshot → List Fields → Result (Option SuggestedAction)
suggest_next snap history =
    validated_or (snap.section "validation") (count_plan_retries history) (forward snap)

-- The executor, the context builder and the callback are the caller's: `execute` gives the new
-- state of the world and the result, or `none` where it raised.
pub record Services (W A : Type 0) : Type 0 where
  pub get_context_snapshot : W → Snapshot
  pub execute : W → Option String → W × Option A
  pub status : A → String
  pub on_agent_complete : W → A → W

abbrev pub stops : String → Bool
stops status = status == "failed" || status == "rate_limited" || status == "awaiting_permission"

pub data Next : Type 0 where
  abort finish : Next
  run : Option String → Next

-- `suggestion is None or suggestion.action_type != "run_agent"` ends the loop
abbrev pub decide : Result (Option SuggestedAction) → Next
decide (raise _) = abort
decide (ok none) = finish
decide (ok (some action)) = elim action.action_type [
  | run_agent ↦ run action.agent_type
  | _ ↦ finish
]

module _ {W A : Type 0} (s : Services W A) where
  unfoldable pub next : W → Next
  next w = let snap = s.get_context_snapshot w in decide (suggest_next snap snap.agent_run_history)

  -- The end of a round. `again` is the rest of the loop, and `none` an exception of the executor.
  unfoldable pub attend :
      (W → List A → W × Option (List A)) → List A → W × Option A → W × Option (List A)
  attend again results (w, none) = (w, none)
  attend again results (w, some result) =
      let w' = s.on_agent_complete w result in
      let results' = results ++ result ∷ [] in
      if stops (s.status result) then (w', some results') else again w' results'

  unfoldable pub obey : (W → List A → W × Option (List A)) → W → List A → Next → W × Option (List A)
  unfolding attend
  obey again w results abort = (w, none)
  obey again w results finish = (w, some results)
  obey again w results (run agent) = attend again results (s.execute w agent)

  -- The rounds left of `range(len(PIPELINE_ORDER) + MAX_RETRY_ITERATIONS)`.
  unfoldable pub rounds : ℕ → W → List A → W × Option (List A)
  unfolding obey
  rounds zero w results = (w, some results)
  rounds (suc left) w results = obey (rounds left) w results (next w)

  unfoldable pub run_pipeline : W → W × Option (List A)
  unfolding rounds
  run_pipeline w = rounds (length pipeline_order + max_retry_iterations) w []
