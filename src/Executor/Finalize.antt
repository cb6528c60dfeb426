-- ===== src/Executor/Finalize.antt =====
-- AgentExecutor._finalize_run of agents/executor.py: the safeguards on an agent's output, and then
-- what is stored. The state is that of one workspace; an exception leaves the state as it was then.
pub mod Persist
use cliff.Common.{
  ℕ, String, Bool, true, false, not, is_some, ◌&&◌, ◌||◌, Option, none, some, List, [], ◌∷◌, ◌++◌,
  ◌==◌, if◌then◌else◌,
}
use cliff.Common.Text.{format}
use cliff.Json.{Value, null, str, obj, Fields, get, set, truthy, is_str}
use cliff.EvidenceGuard.{guard_evidence_output}
use cliff.PrVerifier.{ParsedPrUrl, PrVerification, Response, verify_pr_url}
use cliff.Sidebar.{Sections, map_and_upsert}
use cliff.Issue.{RunStatus}
use cliff.Executor.Runs.{Row, AgentRunUpdate, no_update, update_agent_run}
use cliff.Executor.Call.{Tried, done, raised, other}
use cliff.Executor.Advance.{FindingRow, is_given, advance_finding_status}

pub record ParseResult : Type 0 where
  pub success : Bool
  pub raw_text : String
  pub structured_output : Option Fields
  pub summary : Option String
  pub confidence : Value
  pub suggested_next_action : Option String
  pub error : Option String

-- The state: the table of runs, the workspaces with an active run, the sections of the sidebar, the
-- finding, and the agents' outputs that the context has.
pub record World : Type 0 where
  pub runs : List Row
  pub active : List String
  pub sidebar : Option Sections
  pub finding : Option FindingRow
  pub context : List (String × Fields)

pub data ResultStatus : Type 0 where
  completed failed rate_limited awaiting_permission : ResultStatus

pub record ExecutionResult : Type 0 where
  pub agent_run_id : ℕ
  pub agent_type : String
  pub status : ResultStatus
  pub parse_result : ParseResult
  pub sidebar_updated : Bool
  pub context_version : Option ℕ
  pub error : Option String

-- The calls of other services. `clean_references` gives nothing where it raises, and otherwise the
-- references that are kept, where one was dropped. `update_context` gives the new version.
pub record Services : Type 0 where
  pub clean_references : Value → Option (Option Value)
  pub update_context : List (String × Fields) → Tried ℕ
  pub fetch : ParsedPrUrl → Response
  pub repr : Option String → String
  pub repr_value : Value → String

abbrev pub output_of : ParseResult → Fields
output_of p = elim p.structured_output [ none ↦ Fields.end | some d ↦ d ]

abbrev pub has_output : ParseResult → Bool
has_output p = elim p.structured_output [ none ↦ false | some d ↦ truthy (obj d) ]

abbrev pub persists : ParseResult → Bool
persists p = p.success && has_output p

abbrev pub as_fields : Value → Fields → Fields
as_fields (obj d) old = d
as_fields _ old = old

abbrev pub kept_or : Option (Option Value) → Fields → Fields
kept_or (some (some kept)) d = set d "references" kept
kept_or _ d = d

abbrev pub without : String → List String → List String
without w [] = []
without w (v ∷ vs) = let rest = without w vs in if v == w then rest else v ∷ rest

-- _cleanup_workspace_state
unfoldable pub cleanup : String → World → World
cleanup workspace_id w = record w { active = without workspace_id w.active }

unfoldable pub update_run : ℕ → ℕ → AgentRunUpdate → World → World
update_run now id u w = record w { runs = update_agent_run now id u w.runs }

module _ (services : Services) where
  -- 7b-ref.
  unfoldable pub with_references : String → ParseResult → ParseResult
  with_references agent_type p =
      let out = output_of p in
      let kept = some (kept_or (services.clean_references (get out "references")) out) in
      if persists p && agent_type == "finding_enricher"
      then record p { structured_output = kept }
      else p

  -- 7b-ev.
  unfoldable pub with_evidence : String → Fields → ParseResult → ParseResult
  unfolding guard_evidence_output
  with_evidence agent_type finding p =
      let out = output_of p in
      let guarded = some (as_fields (guard_evidence_output (obj out) (obj finding)).0 out) in
      if persists p && agent_type == "evidence_collector"
      then record p { structured_output = guarded }
      else p

  -- The argument of `verify_pr_url`; a value that is true and no text has no `strip`.
  abbrev pub claim : Value → Tried (Option String)
  claim (str s) = done (some s)
  claim v = if truthy v then raised (other "no attribute 'strip'") else done none

  abbrev pub denied : Value → String → String
  denied claimed reason = format (
      "PR verification failed: "
      ∷ reason
      ∷ ". Agent claimed pr_url="
      ∷ services.repr_value claimed
      ∷ "."
      ∷ [])

  -- the result with the false claim taken out
  abbrev pub cleaned : String → ParseResult → ParseResult
  cleaned words p = record p {
    success = false;
    error = some words;
    structured_output = some (
        set (set (set (output_of p) "status" (str "failed")) "pr_url" null) "error_details"
          (str words));
  }

  abbrev pub judge : ParseResult → PrVerification → ParseResult × Option String
  judge p v =
      let words = denied (get (output_of p) "pr_url") v.reason in
      if v.ok then (p, none) else (cleaned words p, some words)

  unfoldable pub verify : ParseResult → Tried (Option String) → Tried (ParseResult × Option String)
  unfolding verify_pr_url
  verify p (raised e) = raised e
  verify p (done url) = done (judge p (verify_pr_url services.repr services.fetch url))

  -- 7c.
  abbrev pub claims_pr : String → ParseResult → Bool
  claims_pr agent_type p =
      p.success
      && agent_type == "remediation_executor"
      && is_str (get (output_of p) "status") "pr_created"

  unfoldable pub with_pr : String → ParseResult → Tried (ParseResult × Option String)
  with_pr agent_type p =
      if claims_pr agent_type p
      then verify p (claim (get (output_of p) "pr_url"))
      else done (p, none)

  -- 8.
  abbrev pub after_advance : World → ℕ → Tried (Option FindingRow) → World × Tried (Option ℕ × Bool)
  after_advance w version (raised e) = (w, raised e)
  after_advance w version (done f) = (record w { finding = f }, done (some version, true))

  unfoldable pub store : String → Fields → World → Tried ℕ → World × Tried (Option ℕ × Bool)
  unfolding advance_finding_status map_and_upsert
  store agent_type out w (raised e) = (w, raised e)
  store agent_type out w (done version) =
      let w₁ = record w {
        context = w.context ++ (agent_type, out) ∷ [];
        sidebar = some (map_and_upsert agent_type out w.sidebar);
      } in
      after_advance w₁ version (advance_finding_status agent_type out w₁.finding)

  unfoldable pub persist : String → ParseResult → World → World × Tried (Option ℕ × Bool)
  unfolding store
  persist agent_type p w =
      let out = output_of p in
      let stored =
        store agent_type out w (services.update_context (w.context ++ (agent_type, out) ∷ [])) in
      if persists p then stored else (w, done (none, false))

  abbrev pub first_of : Option String → Option String → Option String
  first_of (some a) b = if a == "" then b else some a
  first_of none b = b

  abbrev pub is_bad : ParseResult → Option String → Bool
  is_bad p wrong = is_some wrong || not p.success

  abbrev pub finish_update : ParseResult → Option String → AgentRunUpdate
  finish_update p wrong =
      let message = first_of wrong (if p.success then none else p.error) in
      record no_update {
        status = some (if is_bad p wrong then RunStatus.failed else RunStatus.completed);
        summary_markdown = some (if is_given message then message else p.summary);
        confidence = some p.confidence;
        structured_output = some p.structured_output;
        next_action_hint = some p.suggested_next_action;
        last_error = some message;
      }

  -- 9.
  unfoldable pub finish :
      ℕ
      → String
      → ℕ
      → String
      → ParseResult
      → Option String
      → World × Tried (Option ℕ × Bool)
      → World × Tried ExecutionResult
  unfolding cleanup update_run
  finish now workspace_id id agent_type p wrong (w, raised e) = (w, raised e)
  finish now workspace_id id agent_type p wrong (w, done (version, updated)) = (
    cleanup workspace_id (update_run now id (finish_update p wrong) w),
    done (record {
      agent_run_id = id;
      agent_type = agent_type;
      status = if is_bad p wrong then failed else completed;
      parse_result = p;
      sidebar_updated = updated;
      context_version = version;
      error = wrong;
    }),
  )

  unfoldable pub conclude :
      ℕ
      → String
      → ℕ
      → String
      → World
      → Tried (ParseResult × Option String)
      → World × Tried ExecutionResult
  unfolding finish persist
  conclude now workspace_id id agent_type w (raised e) = (w, raised e)
  conclude now workspace_id id agent_type w (done (p, wrong)) =
      finish now workspace_id id agent_type p wrong (persist agent_type p w)

  unfoldable pub finalize_run :
      ℕ → String → ℕ → String → ParseResult → Fields → World → World × Tried ExecutionResult
  unfolding conclude with_pr with_evidence with_references
  finalize_run now workspace_id id agent_type p finding w =
      conclude now workspace_id id agent_type w
        (with_pr agent_type (with_evidence agent_type finding (with_references agent_type p)))
