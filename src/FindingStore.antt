-- ===== src/FindingStore.antt =====
-- backend/cliff/db/repo_finding.py: the table of findings. The id of a new row and the time are
-- arguments. A row has the columns of `FindingCreate`, and its own.
pub mod Keeps
pub mod Passes
mod Examples
use cliff.Common.{
  ℕ, ◌+◌, String, Bool, true, false, not, ◌&&◌, ◌||◌, Option, none, some, List, [], ◌∷◌, ◌++◌, ◌==◌,
  any, eqb, if◌then◌else◌,
}
use cliff.Common.Options.{◌>>=◌}
use cliff.Json.{
  Value, null, bool, int, float, str, obj, arr, Items, nil, cons, Fields, end, field, get, set,
}
use cliff.Issue.{
  FindingStatus, new, triaged, in_progress, remediated, validated, closed, exception, passed,
  ExceptionReason,
}

pub record FindingCreate : Type 0 where
  pub source_type : String
  pub source_id : String
  pub title : String
  pub description : Option String
  pub plain_description : Option String
  pub raw_severity : Option String
  pub normalized_priority : Option String
  pub asset_id : Option String
  pub asset_label : Option String
  pub status : FindingStatus
  pub likely_owner : Option String
  pub why_this_matters : Option String
  pub raw_payload : Option Fields
  pub kind : String
  pub grade_impact : String
  pub category : Option String
  pub assessment_id : Option String
  pub pr_url : Option String
  pub exception_reason : Option ExceptionReason
  pub exception_note : Option String

pub record Row : Type 0 where
  pub id : ℕ
  pub columns : FindingCreate
  pub created_at : ℕ
  pub updated_at : ℕ

-- _USER_LIFECYCLE_STATUSES
abbrev pub is_user_lifecycle : FindingStatus → Bool
is_user_lifecycle new = false
is_user_lifecycle passed = false
is_user_lifecycle _ = true

abbrev pub is_posture : String → Bool
is_posture kind = kind == "posture"

-- status_clause
unfoldable pub status_after : FindingCreate → FindingStatus → FindingStatus
status_after given old =
    if is_posture given.kind
    then given.status
    else if is_user_lifecycle old
    then old
    else given.status

-- ON CONFLICT DO UPDATE
unfoldable pub refresh : ℕ → FindingCreate → Row → Row
unfolding status_after
refresh now given r = record r {
  updated_at = now;
  columns = record r.columns {
    title = given.title;
    description = given.description;
    raw_severity = given.raw_severity;
    normalized_priority = given.normalized_priority;
    raw_payload = given.raw_payload;
    kind = given.kind;
    grade_impact = given.grade_impact;
    category = given.category;
    assessment_id = given.assessment_id;
    asset_id = given.asset_id;
    asset_label = given.asset_label;
    status = status_after given r.columns.status;
  };
}

abbrev pub is_row : String → String → Row → Bool
is_row source_type source_id r =
    r.columns.source_type == source_type && r.columns.source_id == source_id

abbrev pub new_row : ℕ → ℕ → FindingCreate → Row
new_row now id given = record { id = id; columns = given; created_at = now; updated_at = now }

unfoldable pub create_finding : ℕ → ℕ → FindingCreate → List Row → List Row
unfolding refresh
create_finding now id given [] = new_row now id given ∷ []
create_finding now id given (r ∷ rows) =
    let rest = create_finding now id given rows in
    if is_row given.source_type given.source_id r then refresh now given r ∷ rows else r ∷ rest

abbrev pub with_status : ℕ → FindingStatus → Row → Row
with_status now s r = record r { columns = record r.columns { status = s }; updated_at = now }

abbrev is_unstarted : FindingStatus → Bool
is_unstarted new = true
is_unstarted triaged = true
is_unstarted _ = false

abbrev pub update_where : (Row → Bool) → (Row → Row) → List Row → List Row × Bool
update_where test change [] = ([], false)
update_where test change (r ∷ rows) =
    let (rest, hit) = update_where test change rows in
    if test r then (change r ∷ rest, true) else (r ∷ rest, hit)

unfoldable pub mark_started_on_workspace_create : ℕ → ℕ → List Row → List Row × Bool
mark_started_on_workspace_create now id rows =
    update_where (λ r. eqb r.id id && is_unstarted r.columns.status) (with_status now in_progress)
      rows

abbrev is_open : FindingStatus → Bool
is_open new = true
is_open triaged = true
is_open in_progress = true
is_open remediated = true
is_open _ = false

abbrev set_pr_url : Option String → Row → Row
set_pr_url none r = r
set_pr_url (some url) r = record r { columns = record r.columns { pr_url = some url } }

-- The URL is the answer of `_reconcile_pr_url_from_runs`.
unfoldable pub mark_resolved_on_workspace_close : ℕ → ℕ → Option String → List Row → List Row × Bool
mark_resolved_on_workspace_close now id url rows =
    update_where (λ r. eqb r.id id && is_open r.columns.status)
      (λ r. set_pr_url url (with_status now validated r)) rows

unfoldable pub delete_finding : ℕ → List Row → List Row × Bool
delete_finding id [] = ([], false)
delete_finding id (r ∷ rows) =
    let (rest, hit) = delete_finding id rows in
    if eqb r.id id then (rest, true) else (r ∷ rest, hit)

-- status NOT IN ('closed','remediated','validated','passed')
abbrev pub is_closable : FindingStatus → Bool
is_closable closed = false
is_closable remediated = false
is_closable validated = false
is_closable passed = false
is_closable _ = true

abbrev append : Items → Value → Items
append nil v = cons v nil
append (cons w vs) v = cons w (append vs v)

-- A value of `system_notes` that is no list has no `append`.
abbrev has_key : Fields → String → Bool
has_key end k = false
has_key (field j v d) k = j == k || has_key d k

abbrev noted : Value → Bool → Value → Option Value
noted note false v = some (arr (cons note nil))
noted note true (arr vs) = some (arr (append vs note))
noted note true _ = none

abbrev payload_of : Option Fields → Fields
payload_of none = end
payload_of (some d) = d

abbrev audit_note : Value → String → Value
audit_note ts assessment_id = obj (
    field "event" (str "auto_closed") (
      field "reason" (str "not seen in scan")
        (field "assessment_id" (str assessment_id) (field "ts" ts end))))

module _ (iso : ℕ → Value) (now : ℕ) (assessment_id source_type : String) (kept : List String) where
  abbrev pub is_stale : Row → Bool
  is_stale r =
      r.columns.source_type == source_type
      && not (any (λ k. k == r.columns.source_id) kept)
      && is_closable r.columns.status

  abbrev pub closed_row : Row → Value → Row
  closed_row r notes = record r {
    updated_at = now;
    columns = record r.columns {
      status = closed;
      raw_payload = some (set (payload_of r.columns.raw_payload) "system_notes" notes);
    };
  }

  abbrev pub notes_of : Row → Option Value
  notes_of r =
      let payload = payload_of r.columns.raw_payload in
      noted (audit_note (iso now) assessment_id) (has_key payload "system_notes")
        (get payload "system_notes")

  -- a row after the pass
  abbrev pub passed_row : Row → Option Row
  passed_row r = if is_stale r then (notes_of r >>= λ notes. some (closed_row r notes)) else some r

  abbrev pub with_row : Row → Row → List Row × ℕ → Option (List Row × ℕ)
  with_row r row (rest, n) = some (row ∷ rest, if is_stale r then n + 1 else n)

  unfoldable pub close_rows : List Row → Option (List Row × ℕ)
  close_rows [] = some ([], 0)
  close_rows (r ∷ rows) = passed_row r >>= λ row. (close_rows rows >>= with_row r row)

  -- `prior` is the number of other assessments of the repository; `none` says that a row raises.
  unfoldable pub close_disappeared_findings : ℕ → List Row → Option (List Row × ℕ)
  unfolding close_rows
  close_disappeared_findings prior rows = if eqb prior 0 then some (rows, 0) else close_rows rows
