-- ===== src/Executor/Execute/Leaves.antt =====
-- What a run leaves where it ends or waits, and that each step on the way leaves it so.
use cliff.Common.{
  ℕ, String, Bool, ◌≡◌, refl, ap, ◌++◌, true, false, Option, none, some, List, [], ◌∷◌, ◌==◌, any,
  inl, inr, Bool-cases, eqb, if◌then◌else◌,
}
use cliff.Json.{Fields}
use cliff.Issue.{RunStatus}
use cliff.Executor.Runs.{
  Row, AgentRunUpdate, no_update, get_agent_run, update_agent_run, set_fields,
}
use cliff.Executor.Call.{Failure, Tried, done, raised}
use cliff.Executor.Finalize.{
  ParseResult, World, ResultStatus, awaiting_permission, ExecutionResult, Services, cleanup,
  update_run, finalize_run, finish, conclude, persist, store, without, after_advance, persists,
  output_of, finish_update, is_bad, with_pr, with_evidence, with_references,
}
use cliff.Executor.Advance.{FindingRow, advance_finding_status}
use cliff.Sidebar.{map_and_upsert}
use cliff.Common.Options.{some_injective}
use cliff.Executor.Agents.{Agents, Outcome, finished, paused, park_for_permission, end_run}
use cliff.Executor.Execute.{settle, caught}

-- the status of a result and of its row
pub data Final : ResultStatus → RunStatus → Type 0 where
  completed : Final ResultStatus.completed RunStatus.completed
  failed : Final ResultStatus.failed RunStatus.failed
  rate_limited : Final ResultStatus.rate_limited RunStatus.rate_limited

abbrev pub is_active : String → World → Bool
is_active workspace_id w = any (λ v. v == workspace_id) w.active

-- A run is over, its row has no marker, and the workspace is free; or it waits for a permission, the
-- row has the marker and the history of the request that `asked` says the agent made, and the workspace
-- is not free.
pub data Ended (asked : Outcome → Type 0) (id : ℕ) (workspace_id : String) (w : World)
    : ResultStatus → Type 0 where
  over :
      {s : ResultStatus} (row : Row)
      → get_agent_run id w.runs ≡ some row
      → Final s row.status
      → row.permission_pending ≡ false
      → row.permission_request ≡ none
      → is_active workspace_id w ≡ false
      → Ended asked id workspace_id w s
  waits :
      (row : Row) (marker : Fields) (history : String)
      → asked (paused marker history)
      → get_agent_run id w.runs ≡ some row
      → row.status ≡ RunStatus.running
      → row.permission_pending ≡ true
      → row.permission_request ≡ some marker
      → row.pa_message_history ≡ some history
      → is_active workspace_id w ≡ true
      → Ended asked id workspace_id w awaiting_permission

-- a run that is on
pub record Running (id : ℕ) (workspace_id : String) (w : World) : Type 0 where
  pub row : Row
  pub found : get_agent_run id w.runs ≡ some row
  pub running : row.status ≡ RunStatus.running
  pub active : is_active workspace_id w ≡ true

-- a run that is on and waits for nothing
pub record Live (id : ℕ) (workspace_id : String) (w : World) : Type 0 where
  pub row : Row
  pub found : get_agent_run id w.runs ≡ some row
  pub running : row.status ≡ RunStatus.running
  pub unasked : row.permission_pending ≡ false
  pub unmarked : row.permission_request ≡ none
  pub active : is_active workspace_id w ≡ true

pub update-status :
    (now id : ℕ) (u : AgentRunUpdate) (rows : List Row) (r : Row)
    → get_agent_run id rows ≡ some r
    → get_agent_run id (update_agent_run now id u rows) ≡ some (set_fields now u r)
unfolding get_agent_run update_agent_run set_fields
update-status now id u [] r h = absurd (cc)
update-status now id u (s ∷ rows) r h = elim (Bool-cases (eqb s.id id)) [
  | inl y ↦
      let same : s ≡ r = some_injective (rw y at h) in
      rw (y, y) (ap (λ x. some (set_fields now u x)) same)
  | inr n ↦ rw (n, n) (update-status now id u rows r (rw n at h))
]

without-gone : (ws : String) (vs : List String) → any (λ v. v == ws) (without ws vs) ≡ false
without-gone ws [] = refl
without-gone ws (v ∷ vs) = elim (Bool-cases (v == ws)) [
  | inl y ↦ rw y (without-gone ws vs)
  | inr n ↦ rw (n, n) (without-gone ws vs)
]

Final-of :
    (b : Bool)
    → Final
        (if b then ResultStatus.failed else ResultStatus.completed)
        (if b then RunStatus.failed else RunStatus.completed)
Final-of true = failed
Final-of false = completed

-- the rest of the state that a run stores changes no run and frees no workspace
record Same (w w' : World) : Type 0 where
  runs : w'.runs ≡ w.runs
  active : w'.active ≡ w.active

Live-Same : {id : ℕ} {ws : String} {w w' : World} → Same w w' → Live id ws w → Live id ws w'
Live-Same {id} {ws} s l = record {
  row = l.row;
  found = rw s.runs l.found;
  running = l.running;
  unasked = l.unasked;
  unmarked = l.unmarked;
  active = rw s.active l.active;
}

module _ (agents : Agents) (services : Services) (now : ℕ) (ws : String) where
  after_advance-Same :
      (w : World) (version : ℕ) (r : Tried (Option FindingRow))
      → Same w (after_advance services w version r).0
  after_advance-Same w version (raised e) = record { runs = refl; active = refl }
  after_advance-Same w version (done f) = record { runs = refl; active = refl }

  store-Same :
      (agent : String) (out : Fields) (w : World) (v : Tried ℕ)
      → Same w (store services agent out w v).0
  unfolding store
  store-Same agent out w (raised e) = record { runs = refl; active = refl }
  store-Same agent out w (done v) =
      let w₁ : World = record w {
        context = w.context ++ (agent, out) ∷ [];
        sidebar = some (map_and_upsert agent out w.sidebar);
      } in
      let s = after_advance-Same w₁ v (advance_finding_status agent out w₁.finding) in
      record { runs = s.runs; active = s.active }

  persist-Same :
      (agent : String) (p : ParseResult) (w : World) → Same w (persist services agent p w).0
  unfolding persist
  persist-Same agent p w = elim (Bool-cases (persists p)) [
    | inl y ↦ rw y (
        store-Same agent (output_of p) w
          (services.update_context (w.context ++ (agent, output_of p) ∷ [])))
    | inr n ↦ rw n (record { runs = refl; active = refl })
  ]

  -- what a step that may raise leaves
  pub data Left (asked : Outcome → Type 0) (id : ℕ) : World × Tried ExecutionResult → Type 0 where
    stopped :
        {w : World} {r : ExecutionResult} → Ended asked id ws w r.status → Left asked id (w, done r)
    threw : {w : World} {e : Failure} → Live id ws w → Left asked id (w, raised e)

  finish-Left :
      (asked : Outcome → Type 0) (id : ℕ) (agent : String) (p : ParseResult) (wrong : Option String)
      (s : World × Tried (Option ℕ × Bool))
      → Live id ws s.0
      → Left asked id (finish services now ws id agent p wrong s)
  unfolding finish cleanup update_run set_fields
  finish-Left asked id agent p wrong (w, raised e) l = threw l
  finish-Left asked id agent p wrong (w, done (version, updated)) l =
      let u = finish_update services p wrong in
      stopped (
        over (set_fields now u l.row) (update-status now id u w.runs l.row l.found)
          (Final-of (is_bad services p wrong)) l.unasked l.unmarked (without-gone ws w.active))

  conclude-Left :
      (asked : Outcome → Type 0) (id : ℕ) (agent : String) (w : World)
      (v : Tried (ParseResult × Option String))
      → Live id ws w
      → Left asked id (conclude services now ws id agent w v)
  unfolding conclude
  conclude-Left asked id agent w (raised e) l = threw l
  conclude-Left asked id agent w (done (p, wrong)) l =
      finish-Left asked id agent p wrong (persist services agent p w)
        (Live-Same (persist-Same agent p w) l)

  finalize-Left :
      (asked : Outcome → Type 0) (id : ℕ) (agent : String) (p : ParseResult) (finding : Fields)
      (w : World)
      → Live id ws w
      → Left asked id (finalize_run services now ws id agent p finding w)
  unfolding finalize_run
  finalize-Left asked id agent p finding w l =
      conclude-Left asked id agent w
        (with_pr services agent
          (with_evidence services agent finding (with_references services agent p)))
        l

  pub settle-Left :
      (asked : Outcome → Type 0) (id : ℕ) (agent : String) (finding : Fields) (w : World)
      (o : Outcome)
      → asked o
      → Live id ws w
      → Left asked id (settle agents services now ws id agent finding w o)
  unfolding park_for_permission update_run set_fields
  settle-Left asked id agent finding w (paused marker history) a l =
      let u = record no_update {
        permission_pending = some true;
        permission_request = some (some marker);
        pa_message_history = some (some history);
      } in
      stopped (
        waits (set_fields now u l.row) marker history a
          (update-status now id u w.runs l.row l.found) l.running refl refl refl l.active)
  settle-Left asked id agent finding w (finished p) a l = finalize-Left asked id agent p finding w l

  pub end_run-Ended :
      (asked : Outcome → Type 0) (id : ℕ) (agent : String) (row_status : RunStatus)
      (status : ResultStatus) (a b c : String) (w : World)
      → Final status row_status
      → Live id ws w
      → Ended asked id ws (end_run now ws id agent row_status status a b c w).0 status
  unfolding update_run cleanup set_fields
  end_run-Ended asked id agent row_status status a b c w f l =
      let u = record no_update {
        status = some row_status;
        summary_markdown = some (some a);
        last_error = some (some b);
      } in
      over (set_fields now u l.row) (update-status now id u w.runs l.row l.found) f l.unasked
        l.unmarked (without-gone ws w.active)

  unfoldable pub EndsIn : (Outcome → Type 0) → ℕ → World × ExecutionResult → Type 0
  EndsIn asked id (w, r) = Ended asked id ws w r.status

  pub caught-Ended :
      (asked : Outcome → Type 0) (id : ℕ) (handlers : Failure → World → World × ExecutionResult)
      (s : World × Tried ExecutionResult)
      → ((e : Failure) (w : World) → Live id ws w → EndsIn asked id (handlers e w))
      → Left asked id s
      → EndsIn asked id (caught agents services now ws handlers s)
  unfolding EndsIn
  caught-Ended asked id handlers s h (stopped e) = e
  caught-Ended asked id handlers s h (threw {w} {e} l) = h e w l
