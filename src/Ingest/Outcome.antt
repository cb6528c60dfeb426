-- ===== src/Ingest/Outcome.antt =====
-- How the worker leaves a job: its final status and its counters.
use cliff.Common.{
  ℕ, zero, suc, ◌+◌, ◌≤◌, ◌<◌, ◌≡◌, refl, ◌∙◌, true, some, List, arith, length, inl, inr, ◌⊎◌, eqb,
  Bool-cases,
}
use mathlib.Core.Path.{subst}
use cliff.Ingest.{
  pending, processing, cancelled, completed, failed, Job, set_job_status, World, Turn, leave,
  proceed, turn, obey, chunks, finish, process, process_job, size_for, ceiling, is_usable,
  pick_model, meanwhile,
}
use cliff.Ingest.Record.{Raises, Held, Round, stopped, paused, skipped, stored, turn-Round}

module _ {A F : Type 0} (w : World A F) (raw_data : List A) (size total : ℕ) where
  -- What a round has to keep: `P` of the next chunk's state, or `Q` of the job that is left.
  abbrev Keeps : (ℕ → ℕ → Job A → Type 0) → (Job A → Type 0) → ℕ → Turn A → Type 0
  Keeps P Q idx (leave j) = Q j
  Keeps P Q idx (proceed failures j) = P (suc idx) failures j

  obey_inv :
      (P : ℕ → ℕ → Job A → Type 0) (Q : Job A → Type 0) (idx : ℕ) (rest : ℕ → Job A → Job A)
      → ((failures : ℕ) (job : Job A) → P (suc idx) failures job → Q (rest failures job))
      → (t : Turn A) → Keeps P Q idx t
      → Q (obey w rest t)
  unfolding obey
  obey_inv P Q idx rest more (leave j) k = k
  obey_inv P Q idx rest more (proceed failures j) k = more failures j k

  -- The rule of the loop: a predicate of the chunk, the failures and the job that each round keeps.
  chunks_inv :
      (P : ℕ → ℕ → Job A → Type 0) (Q : Job A → Type 0)
      → ((idx failures : ℕ) (job : Job A) (t : Turn A)
          → idx < total
          → P idx failures job
          → Round w raw_data size idx failures job t
          → Keeps P Q idx t)
      → ((failures : ℕ) (job : Job A) → P total failures job → Q (finish w job))
      → (left idx failures : ℕ) (job : Job A) → idx + left ≡ total
      → P idx failures job
      → Q (chunks w raw_data size left idx failures job)
  unfolding chunks
  chunks_inv P Q step last zero idx failures job e p =
      last failures job (subst (λ n. P n failures job) (omega arith) p)
  chunks_inv P Q step last (suc left) idx failures job e p =
      obey_inv P Q idx (chunks w raw_data size left (suc idx))
        (λ f j. chunks_inv P Q step last left (suc idx) f j (omega arith))
        (turn w raw_data size idx failures job)
        (step idx failures job (turn w raw_data size idx failures job) (omega arith) p
          (turn-Round w raw_data size idx failures job))

-- The final states that the loop may leave a job in.
abbrev pub Ended : {A : Type 0} → Job A → Type 0
Ended job =
    (job.status ≡ cancelled)
    ⊎ (job.status ≡ pending)
    ⊎ (job.status ≡ completed) × (1 ≤ job.completed_chunks)
    ⊎ (job.status ≡ failed) × (job.completed_chunks ≡ 0)

finish-Ended : {A F : Type 0} (w : World A F) (job : Job A) → Held job → Ended (finish w job)
unfolding finish
finish-Ended w job h = ground arith

-- `f` chunks in a row, up to the one before `idx`, made the normalizer raise.
Recent : {A F : Type 0} → World A F → List A → ℕ → ℕ → ℕ → Type 0
Recent w raw_data size zero idx = Unit
Recent w raw_data size (suc f) zero = ⊥
Recent w raw_data size (suc f) (suc idx) = Raises w raw_data size idx × Recent w raw_data size f idx

module _ {A F : Type 0} (w : World A F) (raw_data : List A) (size total : ℕ) where
  Held-round :
      (idx f : ℕ) (job : Job A) (t : Turn A)
      → Held job
      → Round w raw_data size idx f job t
      → Keeps w raw_data size total (λ idx f j. Held j) Ended idx t
  Held-round idx f job _ h (stopped c) = inl c
  Held-round idx f job _ h (paused j r n s c) = inr (inl s)
  Held-round idx f job _ h (skipped j r n s c) = ground arith
  Held-round idx f job _ h (stored j s c) = ground arith

  chunks-Ended : (job : Job A) → Held job → Ended (chunks w raw_data size total 0 0 job)
  chunks-Ended job h =
      chunks_inv w raw_data size total (λ idx f j. Held j) Ended
        (λ idx f j t b. Held-round idx f j t) (λ f j. finish-Ended w j) total 0 0 job (omega arith)
        h

  -- At most `idx` of the chunks count as completed.
  abbrev Counted : ℕ → ℕ → ℕ → Job A → Type 0
  Counted start idx f job = job.completed_chunks ≤ start + idx

  Counted-round :
      (start idx f : ℕ) (job : Job A) (t : Turn A)
      → idx < total
      → Counted start idx f job
      → Round w raw_data size idx f job t
      → Keeps w raw_data size total (Counted start) (Counted start total 0) idx t
  Counted-round start idx f job _ b h (stopped c) = omega arith
  Counted-round start idx f job _ b h (paused j r n s c) = omega arith
  Counted-round start idx f job _ b h (skipped j r n s c) = omega arith
  Counted-round start idx f job _ b h (stored j s c) = omega arith

  finish-completed : (job : Job A) → (finish w job).completed_chunks ≡ job.completed_chunks
  unfolding finish
  finish-completed job = ground arith

  chunks-completed :
      (job : Job A)
      → (chunks w raw_data size total 0 0 job).completed_chunks ≤ job.completed_chunks + total
  chunks-completed job =
      chunks_inv w raw_data size total (Counted job.completed_chunks)
        (Counted job.completed_chunks total 0) (Counted-round job.completed_chunks)
        (λ f j c. omega (arith, finish-completed j)) total 0 0 job (omega arith) (omega arith)

  -- Three chunks in a row made the normalizer raise.
  abbrev pub Failing : Type 0
  Failing =
      (idx : ℕ) × Raises w raw_data size idx
      × Raises w raw_data size (idx + 1)
      × Raises w raw_data size (idx + 2)

  abbrev Tallied : ℕ → ℕ → Job A → Type 0
  Tallied idx f job = Held job × (f < 3) × Recent w raw_data size f idx

  abbrev Paused : Job A → Type 0
  Paused job = job.status ≡ pending → Failing

  Recent-Failing :
      (idx f : ℕ)
      → 2 ≤ f
      → f < 3
      → Raises w raw_data size idx
      → Recent w raw_data size f idx
      → Failing
  unfolding Recent
  Recent-Failing idx zero a b r k = absurd (omega arith)
  Recent-Failing idx (suc zero) a b r k = absurd (omega arith)
  Recent-Failing idx (suc (suc (suc f))) a b r k = absurd (omega arith)
  Recent-Failing zero (suc (suc zero)) a b r k = elim k [ ]
  Recent-Failing (suc zero) (suc (suc zero)) a b r k = elim k.1 [ ]
  Recent-Failing (suc (suc idx)) (suc (suc zero)) a b r k = (
    idx,
    k.1.0,
    subst (λ n. Raises w raw_data size n) (omega arith) k.0,
    subst (λ n. Raises w raw_data size n) (omega arith) r,
  )

  Tallied-round :
      (idx f : ℕ) (job : Job A) (t : Turn A)
      → Tallied idx f job
      → Round w raw_data size idx f job t
      → Keeps w raw_data size total Tallied Paused idx t
  unfolding Recent
  Tallied-round idx f job _ h (stopped c) = λ e. absurd (ground arith)
  Tallied-round idx f job _ h (paused j r n s c) = λ e. Recent-Failing idx f (omega arith) h.1 r h.2
  Tallied-round idx f job _ h (skipped j r n s c) =
      let more : suc f ≡ f + 1 = omega arith in
      (ground arith, omega arith, subst (λ n. Recent w raw_data size n (suc idx)) more (r, h.2))
  Tallied-round idx f job _ h (stored j s c) = (ground arith, omega arith, tt)

  finish-Paused : (job : Job A) → Held job → Paused (finish w job)
  unfolding finish
  finish-Paused job h e = absurd (ground arith)

  chunks-Paused : (job : Job A) → Held job → Paused (chunks w raw_data size total 0 0 job)
  unfolding Recent
  chunks-Paused job h =
      chunks_inv w raw_data size total Tallied Paused (λ idx f j t b. Tallied-round idx f j t)
        (λ f j k. finish-Paused j k.0) total 0 0 job (omega arith) (h, omega arith, tt)

  -- From the chunk in which the user cancels, the job stays cancelled.
  abbrev Obeyed : ℕ → ℕ → ℕ → Job A → Type 0
  Obeyed i idx f job = Held job × (i < idx → job.status ≡ cancelled)

  abbrev Stopped : Job A → Type 0
  Stopped job = (job.status ≡ cancelled) ⊎ (job.status ≡ pending)

  meanwhile-cancelled :
      (i idx : ℕ) (job : Job A)
      → Held job
      → w.cancels i ≡ true
      → (i < idx → job.status ≡ cancelled)
      → i < suc idx
      → (meanwhile w idx job).status ≡ cancelled
  meanwhile-cancelled i idx job h y before b = elim (Bool-cases (eqb i idx)) [
    | inl e ↦
        let now : w.cancels idx ≡ true = subst (λ n. w.cancels n ≡ true) (ground arith) y in
        ground arith
    | inr n ↦ ground (arith, before (ground arith))
  ]

  Obeyed-round :
      (i idx f : ℕ) (job : Job A) (t : Turn A)
      → w.cancels i ≡ true
      → Obeyed i idx f job
      → Round w raw_data size idx f job t
      → Keeps w raw_data size total (Obeyed i) Stopped idx t
  Obeyed-round i idx f job _ y h (stopped c) = inl c
  Obeyed-round i idx f job _ y h (paused j r n s c) = inr s
  Obeyed-round i idx f job _ y h (skipped j r n s c) =
      (ground arith, λ b. s ∙ meanwhile-cancelled i idx job h.0 y h.1 b)
  Obeyed-round i idx f job _ y h (stored j s c) =
      (ground arith, λ b. s ∙ meanwhile-cancelled i idx job h.0 y h.1 b)

  finish-Stopped : (job : Job A) → job.status ≡ cancelled → Stopped (finish w job)
  unfolding finish
  finish-Stopped job h = ground arith

  chunks-Stopped :
      (i : ℕ) (job : Job A)
      → w.cancels i ≡ true
      → i < total
      → Held job
      → Stopped (chunks w raw_data size total 0 0 job)
  chunks-Stopped i job y b h =
      chunks_inv w raw_data size total (Obeyed i) Stopped
        (λ idx f j t lt. Obeyed-round i idx f j t y) (λ f j k. finish-Stopped j (k.1 b)) total 0 0
        job (omega arith) (h, λ z. absurd (omega arith))

module _ {A F : Type 0} (w : World A F) (job : Job A) (raw_data : List A) where
  process_job-raw : job.raw_data ≡ some raw_data → process_job w job ≡ process w raw_data job
  unfolding process_job
  process_job-raw e = rw e

  -- The number of chunks of a run.
  abbrev pub chunk_count : ℕ
  chunk_count = ceiling (length raw_data) (size_for raw_data job.chunk_size)

  process-runs :
      is_usable w.env (pick_model job.model w.active_model) ≡ true
      → process w raw_data job
        ≡ chunks w raw_data
            (size_for raw_data job.chunk_size)
            chunk_count
            0
            0
            (set_job_status processing job)
  unfolding process
  process-runs u = rw u

  -- With raw data and a usable model, a job ends cancelled, pending for a later run, completed with
  -- at least one completed chunk, or failed without any.
  pub process_job_ends :
      job.raw_data ≡ some raw_data
      → is_usable w.env (pick_model job.model w.active_model) ≡ true
      → Ended (process_job w job)
  process_job_ends e u =
      rw (process_job-raw e, process-runs u)
        (chunks-Ended w raw_data (size_for raw_data job.chunk_size) chunk_count
          (set_job_status processing job) (inl refl))

  -- With raw data, a run adds at most one completed chunk for each chunk that the data are cut into.
  pub process_job-completed_chunks :
      job.raw_data ≡ some raw_data
      → (process_job w job).completed_chunks ≤ job.completed_chunks + chunk_count
  unfolding process
  process_job-completed_chunks e =
      elim (Bool-cases (is_usable w.env (pick_model job.model w.active_model))) [
        | inl u ↦
            rw (process_job-raw e, process-runs u)
              (chunks-completed w raw_data (size_for raw_data job.chunk_size) chunk_count
                (set_job_status processing job))
        | inr n ↦ rw (process_job-raw e, n) (omega arith)
      ]

  -- The worker puts a job with raw data back to pending only after the normalizer raised for three chunks in a
  -- row.
  pub process_job-pending :
      job.raw_data ≡ some raw_data
      → (process_job w job).status ≡ pending
      → Failing w raw_data (size_for raw_data job.chunk_size) chunk_count
  unfolding process
  process_job-pending e p =
      let p' = rw (process_job-raw e) at p in
      elim (Bool-cases (is_usable w.env (pick_model job.model w.active_model))) [
        | inl u ↦
            chunks-Paused w raw_data (size_for raw_data job.chunk_size) chunk_count
              (set_job_status processing job) (inl refl) (rw (process-runs u) at p')
        | inr n ↦ absurd (ground arith)
      ]

  -- Where the user cancels a job with raw data and a usable model while one of its chunks is
  -- normalized, the run does not end as
  -- completed or failed: the job is cancelled, or put back to pending.
  pub process_job-cancelled :
      (i : ℕ)
      → job.raw_data ≡ some raw_data
      → is_usable w.env (pick_model job.model w.active_model) ≡ true
      → w.cancels i ≡ true
      → i < chunk_count
      → ((process_job w job).status ≡ cancelled) ⊎ ((process_job w job).status ≡ pending)
  process_job-cancelled i e u y b =
      rw (process_job-raw e, process-runs u)
        (chunks-Stopped w raw_data (size_for raw_data job.chunk_size) chunk_count i
          (set_job_status processing job) y b (inl refl))
