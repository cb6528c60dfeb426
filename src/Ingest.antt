-- ===== src/Ingest.antt =====
-- backend/cliff/db/repo_ingest_job.py, backend/cliff/integrations/ingest_worker.py and the ingest
-- routes of backend/cliff/api/routes/findings.py: a job that imports raw findings chunk by chunk.
-- A job is one row of the table. The normalizer, the insert of a finding and the user who cancels
-- are the caller's, the record `World`; time stamps are left out.
pub mod Chunks
pub mod Record
pub mod Outcome
mod Examples
use cliff.Common.{
  ℕ, zero, suc, ◌+◌, ◌-◌, ◌*◌, ◌/◌, String, Bool, true, false, not, ◌&&◌, ◌||◌, Option, none, some,
  List, [], ◌∷◌, ◌++◌, map, length, take, drop, ltb, leb, eqb, ◌==◌, is_some, if◌then◌else◌,
}
use cliff.Common.Text.{Text, codes, same, show, format, partition_slash}

pub data Status : Type 0 where
  pending processing completed failed cancelled : Status

pub record Job (A : Type 0) : Type 0 where
  pub status : Status
  pub source : String
  pub total_items : ℕ
  pub chunk_size : ℕ
  pub total_chunks : ℕ
  pub completed_chunks : ℕ
  pub failed_chunks : ℕ
  pub findings_created : ℕ
  pub errors : List String
  pub model : Option String
  pub raw_data : Option (List A)

-- (n + size - 1) // size, for a size above 0
abbrev pub ceiling : ℕ → ℕ → ℕ
ceiling n size = (n + size - 1) / size

-- max(1, min(size, 50)), in the route that creates a job; a size below 1 is 0 here
abbrev pub clamp_size : ℕ → ℕ
clamp_size size = if ltb size 1 then 1 else if ltb 50 size then 50 else size

abbrev pub is_open : Status → Bool
is_open pending = true
is_open processing = true
is_open _ = false

module _ {A : Type 0} where
  unfoldable pub create_ingest_job : String → List A → ℕ → Option String → Job A
  create_ingest_job source raw_data chunk_size model = record {
    status = pending;
    source = source;
    total_items = length raw_data;
    chunk_size = chunk_size;
    total_chunks = ceiling (length raw_data) chunk_size;
    completed_chunks = 0;
    failed_chunks = 0;
    findings_created = 0;
    errors = [];
    model = model;
    raw_data = some raw_data;
  }

  abbrev pub set_job_status : Status → Job A → Job A
  set_job_status status job = record job { status = status }

  abbrev pub increment_completed_chunk : ℕ → Job A → Job A
  increment_completed_chunk count job = record job {
    completed_chunks = job.completed_chunks + 1;
    findings_created = job.findings_created + count;
  }

  abbrev pub increment_failed_chunk : String → Job A → Job A
  increment_failed_chunk error job = record job {
    failed_chunks = job.failed_chunks + 1;
    errors = job.errors ++ error ∷ [];
  }

  -- `cancel_ingest_endpoint`; `none` is the answer 409
  unfoldable pub cancel : Job A → Option (Job A)
  cancel job = if is_open job.status then some (set_job_status cancelled job) else none

  -- the oldest open job of a table in the order of creation
  unfoldable pub get_next_pending_job : List (Job A) → Option (Job A)
  get_next_pending_job [] = none
  get_next_pending_job (job ∷ jobs) =
      let rest = get_next_pending_job jobs in if is_open job.status then some job else rest

  -- raw_data[start:end]
  unfoldable pub chunk_at : List A → ℕ → ℕ → List A
  chunk_at raw_data size idx = take size (drop (idx * size) raw_data)

-- the normalizer's answer, or the text of its exception
pub data Answer (F : Type 0) : Type 0 where
  answered : List F → List String → Answer F
  raised : String → Answer F

-- `normalize idx i items` is the call for a chunk, or for its item `i` in the fallback;
-- `create_finding idx f` is the text of a database error, if there is one; `cancels idx` says
-- whether the user cancels while the chunk is normalized.
pub record World (A F : Type 0) : Type 0 where
  pub env : Bool
  pub active_model : Option String
  pub normalize : ℕ → Option ℕ → List A → Answer F
  pub create_finding : ℕ → F → Option String
  pub cancels : ℕ → Bool

abbrev is_set : Option String → Bool
is_set none = false
is_set (some s) = not (s == "")

-- `_provider_prefix`
unfoldable pub provider_prefix : Option String → Option Text
provider_prefix none = none
provider_prefix (some model) =
    let (front, slash, back) = partition_slash (codes model) in if slash then some front else none

abbrev same_prefix : Option Text → Option Text → Bool
same_prefix none none = true
same_prefix (some a) (some b) = same a b
same_prefix _ _ = false

-- the model that a job runs with
unfoldable pub pick_model : Option String → Option String → Option String
pick_model pinned active =
    if is_set pinned
      && is_set active
      && not (same_prefix (provider_prefix pinned) (provider_prefix active))
    then active
    else if is_set pinned
    then pinned
    else active

unfoldable pub is_usable : Bool → Option String → Bool
is_usable env model = env && is_set model && is_some (provider_prefix model)

abbrev pub max_consecutive_failures : ℕ
max_consecutive_failures = 3

abbrev pub small_import_threshold : ℕ
small_import_threshold = 5

abbrev label : ℕ → String → String
label idx error = format ("Chunk " ∷ show (idx + 1) ∷ ": " ∷ error ∷ [])

-- How a chunk leaves the loop: the worker returns, or goes on with a number of failures.
pub data Turn (A : Type 0) : Type 0 where
  leave : Job A → Turn A
  proceed : ℕ → Job A → Turn A

abbrev pub is_cancelled : Status → Bool
is_cancelled cancelled = true
is_cancelled _ = false

abbrev is_nil : {A : Type 0} → List A → Bool
is_nil [] = true
is_nil (_ ∷ _) = false

abbrev pub size_for : {A : Type 0} → List A → ℕ → ℕ
size_for raw_data size = if leb (length raw_data) small_import_threshold then 1 else size

module _ {A F : Type 0} (w : World A F) where
  abbrev append_answer : Answer F → List F × List String → List F × List String
  append_answer (answered valid errors) (vs, es) = (valid ++ vs, errors ++ es)
  append_answer (raised e) (vs, es) = (vs, format ("Individual item fallback: " ∷ e ∷ []) ∷ es)

  -- the items of a chunk one by one
  unfoldable pub one_by_one : ℕ → ℕ → List A → List F × List String
  one_by_one idx i [] = ([], [])
  one_by_one idx i (item ∷ items) =
      append_answer (w.normalize idx (some i) (item ∷ [])) (one_by_one idx (suc i) items)

  unfoldable pub fallback : ℕ → List A → List F → List String → List F × List String
  fallback idx chunk valid errors =
      let single = one_by_one idx 0 chunk in
      if is_nil valid && ltb 1 (length chunk) then single else (valid, errors)

  abbrev add_created : Option String → ℕ × List String → ℕ × List String
  add_created none (count, errors) = (suc count, errors)
  add_created (some e) (count, errors) = (count, format ("DB error: " ∷ e ∷ []) ∷ errors)

  -- the findings that were stored, and the new errors
  unfoldable pub persist : ℕ → List F → ℕ × List String
  persist idx [] = (0, [])
  persist idx (f ∷ fs) = add_created (w.create_finding idx f) (persist idx fs)

  unfoldable pub record_errors : ℕ → List String → Job A → Job A
  record_errors idx [] job = job
  record_errors idx (e ∷ es) job = record_errors idx es (increment_failed_chunk (label idx e) job)

  unfoldable pub settle : ℕ → ℕ → List String → Job A → Job A
  settle idx count errors job =
      record_errors idx errors
        (if ltb 0 count || is_nil errors then increment_completed_chunk count job else job)

  -- what is done with the findings and errors of a chunk
  unfoldable pub store : ℕ → List F × List String → Job A → Job A
  store idx (valid, errors) job =
      let (count, more) = persist idx valid in settle idx count (errors ++ more) job

  -- the job after the normalizer's call, in which the user may have cancelled it
  abbrev pub meanwhile : ℕ → Job A → Job A
  meanwhile idx job =
      if w.cancels idx && is_open job.status then set_job_status cancelled job else job

  unfoldable pub after_answer : ℕ → List A → ℕ → Job A → Answer F → Turn A
  after_answer idx chunk failures job (raised e) =
      let job' = increment_failed_chunk (label idx e) job in
      if leb max_consecutive_failures (failures + 1)
      then leave (set_job_status pending job')
      else proceed (failures + 1) job'
  after_answer idx chunk failures job (answered valid errors) =
      proceed 0 (store idx (fallback idx chunk valid errors) job)

  -- one round of the loop over the chunks
  unfoldable pub turn : List A → ℕ → ℕ → ℕ → Job A → Turn A
  turn raw_data size idx failures job =
      let chunk = chunk_at raw_data size idx in
      if is_cancelled job.status
      then leave job
      else after_answer idx chunk failures (meanwhile idx job) (w.normalize idx none chunk)

  -- the final status
  unfoldable pub finish : Job A → Job A
  finish job =
      if is_cancelled job.status
      then job
      else if eqb job.completed_chunks 0
      then set_job_status failed job
      else set_job_status completed job

  unfoldable pub obey : (ℕ → Job A → Job A) → Turn A → Job A
  obey rest (leave job) = job
  obey rest (proceed failures job) = rest failures job

  -- the chunks that are left, from the one at `idx`
  unfoldable pub chunks : List A → ℕ → ℕ → ℕ → ℕ → Job A → Job A
  chunks raw_data size zero idx failures job = finish job
  chunks raw_data size (suc left) idx failures job =
      obey (chunks raw_data size left (suc idx)) (turn raw_data size idx failures job)

  unfoldable pub process : List A → Job A → Job A
  process raw_data job =
      let size = size_for raw_data job.chunk_size in
      if is_usable w.env (pick_model job.model w.active_model)
      then chunks raw_data size (ceiling (length raw_data) size) 0 0 (set_job_status processing job)
      else set_job_status failed (
          increment_failed_chunk
            "No usable AI provider/model configured — connect a provider and pick a model in Settings, then retry."
            job)

  abbrev process_raw : Option (List A) → Job A → Job A
  process_raw none job = set_job_status failed job
  process_raw (some raw_data) job = process raw_data job

  -- `_process_job`, where the chunk size is positive, as the route that makes the job sees to
  unfoldable pub process_job : Job A → Job A
  unfolding process
  process_job job = process_raw job.raw_data job
