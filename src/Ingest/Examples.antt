-- ===== src/Ingest/Examples.antt =====
-- Jobs on concrete data.
use cliff.Common.{
  ℕ, ◌≡◌, ◌⊎◌, refl, Bool, true, false, none, some, List, [], ◌∷◌, arith, eqb, if◌then◌else◌,
}
use cliff.Common.Text.{same, show, partition_slash}
use cliff.Ingest.{
  pending, cancelled, completed, failed, Job, create_ingest_job, World, answered, raised,
  provider_prefix, pick_model, is_usable, one_by_one, fallback, persist, record_errors, settle,
  store, after_answer, turn, finish, obey, chunks, chunk_at, process, process_job, ceiling, cancel,
  get_next_pending_job,
}
use cliff.Ingest.Chunks.{chunk_list, flatten, chunks-cover}
use cliff.Ingest.Outcome.{
  Ended, Failing, chunk_count, process_job_ends, process_job-pending, process_job-cancelled,
}

worker : Unit {0}
unfolding create_ingest_job provider_prefix pick_model is_usable one_by_one fallback persist
    record_errors settle store after_answer turn finish obey chunks chunk_at process process_job
    cancel get_next_pending_job same show partition_slash
worker = tt

-- Items are numbers, and a finding is its item; `bad` items make the normalizer raise.
abbrev world : (ℕ → Bool) → (ℕ → Bool) → World ℕ ℕ
world bad cancels = record {
  env = true;
  active_model = some "anthropic/claude";
  normalize = λ idx i items. if bad idx then raised "timeout" else answered items [];
  create_finding = λ idx f. if eqb f 3 then some "locked" else none;
  cancels = cancels;
}

abbrev three : List ℕ
three = 1 ∷ 2 ∷ 3 ∷ []

abbrev four : List ℕ
four = 1 ∷ 2 ∷ 3 ∷ 4 ∷ []

abbrev job : List ℕ → Job ℕ
job raw_data = create_ingest_job "trivy" raw_data 10 none

abbrev never : ℕ → Bool
never n = false

abbrev always : ℕ → Bool
always n = true

abbrev good : World ℕ ℕ
good = world never never

abbrev down : World ℕ ℕ
down = world always never

abbrev stopping : World ℕ ℕ
stopping = world never (λ n. eqb n 1)

-- A small import is cut into single items, also where the job's row says one chunk.
imports :
    let j = process_job good (job three) in
    (j.status ≡ completed)
    × (j.total_chunks ≡ 1)
    × (j.completed_chunks ≡ 2)
    × (j.findings_created ≡ 2)
    × (j.failed_chunks ≡ 1)
    × (j.errors ≡ "Chunk 3: DB error: locked" ∷ [])
unfolding worker
imports = (refl, refl, refl, refl, refl, refl)

-- A cancellation during the third failure in a row is lost.
loses_cancel : (process_job (world always (λ n. eqb n 2)) (job four)).status ≡ pending
unfolding worker
loses_cancel = refl

cancels_open : (cancel (job three)) ≡ some (record (job three) { status = cancelled })
unfolding worker
cancels_open = refl

resumes_oldest :
    get_next_pending_job (record (job three) { status = failed } ∷ job four ∷ job three ∷ [])
    ≡ some (job four)
unfolding worker
resumes_oldest = refl

chunks-cover_example : flatten (chunk_list three 2 (ceiling 3 2) 0) ≡ three
chunks-cover_example = chunks-cover three 2 (omega arith)

process_job_ends_example : Ended (process_job good (job three))
unfolding worker
process_job_ends_example = process_job_ends good (job three) three refl refl

process_job-pending_example : Failing down four 1 (chunk_count down (job four) four)
unfolding worker
process_job-pending_example = process_job-pending down (job four) four refl refl

process_job-cancelled_example :
    ((process_job stopping (job three)).status ≡ cancelled)
    ⊎ ((process_job stopping (job three)).status ≡ pending)
unfolding worker
process_job-cancelled_example =
    process_job-cancelled stopping (job three) three 1 refl refl refl (omega arith)
