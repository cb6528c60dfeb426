-- ===== src/Ingest/Record.antt =====
-- What the stores and counters of a chunk do to the row of its job.
use cliff.Common.{
  ℕ, ◌+◌, ◌≤◌, ◌<◌, String, ◌≡◌, refl, none, List, [], ◌∷◌, ◌++◌, arith, leb, Bool-cases, inl, inr,
  ◌⊎◌,
}
use cliff.Ingest.{
  pending, processing, cancelled, Job, increment_failed_chunk, increment_completed_chunk, label,
  World, Answer, answered, raised, persist, record_errors, settle, store, is_cancelled, Turn, leave,
  proceed, after_answer, turn, meanwhile, chunk_at, fallback,
}

module _ {A F : Type 0} (w : World A F) where
  -- The fields that the errors of a chunk do not touch, and those that they count in.
  record_errors_lem :
      (idx : ℕ) (es : List String) (job : Job A)
      → let j = record_errors w idx es job in
        (j.status ≡ job.status)
        × (j.completed_chunks ≡ job.completed_chunks)
        × (j.findings_created ≡ job.findings_created)
  unfolding record_errors
  record_errors_lem idx [] job = (refl, refl, refl)
  record_errors_lem idx (e ∷ es) job =
      record_errors_lem idx es (increment_failed_chunk (label idx e) job)

  store_lem :
      (idx : ℕ) (p : List F × List String) (job : Job A)
      → let j = store w idx p job in
        (j.status ≡ job.status)
        × (job.completed_chunks ≤ j.completed_chunks)
        × (j.completed_chunks ≤ job.completed_chunks + 1)
        × (job.findings_created ≤ j.findings_created)
  unfolding store settle
  store_lem idx (valid, errors) job =
      let (count, more) = persist w idx valid in
      ground (
        arith,
        record_errors_lem idx (errors ++ more) job,
        record_errors_lem idx (errors ++ more) (increment_completed_chunk count job),
      )

-- The chunk at `idx` of a run makes the normalizer raise.
abbrev pub Raises : {A F : Type 0} → World A F → List A → ℕ → ℕ → Type 0
Raises w raw_data size idx =
    (e : String) × (w.normalize idx none (chunk_at raw_data size idx) ≡ raised e)

-- A job that the loop holds: it is processed, or was cancelled meanwhile.
abbrev pub Held : {A : Type 0} → Job A → Type 0
Held job = (job.status ≡ processing) ⊎ (job.status ≡ cancelled)

-- One round of the loop, by what happens in it.
module _ {A F : Type 0} (w : World A F) (raw_data : List A) (size idx failures : ℕ)
    (job : Job A) where
  pub data Round : Turn A → Type 0 where
    stopped : job.status ≡ cancelled → Round (leave job)
    paused :
        (j : Job A)
        → Raises w raw_data size idx
        → 3 ≤ failures + 1
        → j.status ≡ pending
        → j.completed_chunks ≡ job.completed_chunks
        → Round (leave j)
    skipped :
        (j : Job A)
        → Raises w raw_data size idx
        → failures + 1 < 3
        → j.status ≡ (meanwhile w idx job).status
        → j.completed_chunks ≡ job.completed_chunks
        → Round (proceed (failures + 1) j)
    stored :
        (j : Job A)
        → j.status ≡ (meanwhile w idx job).status
        → j.completed_chunks ≤ job.completed_chunks + 1
        → Round (proceed 0 j)

  meanwhile-completed : (meanwhile w idx job).completed_chunks ≡ job.completed_chunks
  meanwhile-completed = ground arith

  after_answer-Round :
      (a : Answer F)
      → w.normalize idx none (chunk_at raw_data size idx) ≡ a
      → Round (after_answer w idx (chunk_at raw_data size idx) failures (meanwhile w idx job) a)
  unfolding after_answer
  after_answer-Round (answered valid errors) e =
      let (s, _, c, _) =
        store_lem w idx (fallback w idx (chunk_at raw_data size idx) valid errors)
          (meanwhile w idx job) in
      stored _ s (omega (arith, c, meanwhile-completed))
  after_answer-Round (raised x) e = elim (Bool-cases (leb 3 (failures + 1))) [
    | inl y ↦ rw y (paused _ (x, e) (ground arith) refl meanwhile-completed)
    | inr n ↦ rw n (skipped _ (x, e) (ground arith) refl meanwhile-completed)
  ]

  pub turn-Round : Round (turn w raw_data size idx failures job)
  unfolding turn
  turn-Round = elim (Bool-cases (is_cancelled job.status)) [
    | inl y ↦ rw y (stopped (ground arith))
    | inr n ↦ rw n (after_answer-Round (w.normalize idx none (chunk_at raw_data size idx)) refl)
  ]
