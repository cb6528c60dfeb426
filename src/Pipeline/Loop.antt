-- ===== src/Pipeline/Loop.antt =====
-- `run_pipeline`: how many agents run, which, and when it stops.
use cliff.Common.{
  ℕ, zero, suc, ◌≤◌, String, ◌≡◌, refl, sym, ◌∙◌, true, false, Option, none, some, List, [], ◌∷◌,
  ◌++◌, arith, any, inl, inr, ◌==◌, Bool-cases, length,
}
use mathlib.Core.Path.{subst}
use mathlib.Core.List.{append-nil, append_assoc}
use cliff.Common.Result.{Result, ok, raise}
use cliff.Pipeline.{
  SuggestedAction, run_agent, pipeline_order, Services, stops, Next, abort, finish, run, decide,
  next, rounds, run_pipeline, suggest_next, attend, obey,
}
use cliff.Pipeline.Advice.{IsPrepared, suggest_next-executor, suggest_next-known}

decide-run :
    (r : Result (Option SuggestedAction)) (agent : Option String)
    → decide r ≡ run agent
    → (a : SuggestedAction) × (r ≡ ok (some a))
      × (a.action_type ≡ run_agent)
      × (a.agent_type ≡ agent)
decide-run (ok (some a)) agent h = (a, refl, ground arith, ground arith)
decide-run (ok none) agent h = absurd (cc)
decide-run (raise e) agent h = absurd (cc)

module _ {W A : Type 0} (s : Services W A) where
  -- The agent of a step is one of the five; if it is the executor, the plan is approved.
  next-run :
      (w : W) (agent : Option String)
      → next s w ≡ run agent
      → ((t : String) × (agent ≡ some t) × (any (λ u. u == t) pipeline_order ≡ true))
        × (agent ≡ some "remediation_executor" → IsPrepared (s.get_context_snapshot w))
  unfolding next
  next-run w agent h =
      let snap = s.get_context_snapshot w in
      let (a, e, r, t) = decide-run (suggest_next snap snap.agent_run_history) agent h in
      let (name, n, m) = suggest_next-known snap snap.agent_run_history a e r in
      ((name, sym t ∙ n, m), λ x. suggest_next-executor snap snap.agent_run_history a e (t ∙ x))

  attend_inv :
      (I : W → Type 0) (again : W → List A → W × Option (List A)) (results : List A)
      → ((w : W) (result : A) → I w → I (s.on_agent_complete w result))
      → ((w : W) (rs : List A) → I w → I (again w rs).0)
      → (r : W × Option A) → I r.0
      → I (attend s again results r).0
  unfolding attend
  attend_inv I again results done more (w, none) i = i
  attend_inv I again results done more (w, some r) i = elim (Bool-cases (stops (s.status r))) [
    | inl stop ↦ rw stop (done w r i)
    | inr on ↦ rw on (more (s.on_agent_complete w r) (results ++ r ∷ []) (done w r i))
  ]

  -- A permitted step: the executor runs only where its plan is approved.
  abbrev pub Permitted : W → Option String → Type 0
  Permitted w agent =
      ((t : String) × (agent ≡ some t) × (any (λ u. u == t) pipeline_order ≡ true))
      × (agent ≡ some "remediation_executor" → IsPrepared (s.get_context_snapshot w))

  obey_inv :
      (I : W → Type 0) (again : W → List A → W × Option (List A)) (w : W) (results : List A)
      → ((w : W) (agent : Option String) → Permitted w agent → I w → I (s.execute w agent).0)
      → ((w : W) (result : A) → I w → I (s.on_agent_complete w result))
      → ((w : W) (rs : List A) → I w → I (again w rs).0)
      → I w
      → (n : Next) → next s w ≡ n
      → I (obey s again w results n).0
  unfolding obey
  obey_inv I again w results step done more i abort e = i
  obey_inv I again w results step done more i finish e = i
  obey_inv I again w results step done more i (run agent) e =
      attend_inv I again results done more (s.execute w agent) (step w agent (next-run w agent e) i)

  rounds_inv :
      (I : W → Type 0)
      → ((w : W) (agent : Option String) → Permitted w agent → I w → I (s.execute w agent).0)
      → ((w : W) (result : A) → I w → I (s.on_agent_complete w result))
      → (left : ℕ) (w : W) (results : List A) → I w
      → I (rounds s left w results).0
  unfolding rounds
  rounds_inv I step done zero w results i = i
  rounds_inv I step done (suc left) w results i =
      obey_inv I (rounds s left) w results step done (λ w' rs. rounds_inv I step done left w' rs) i
        (next s w) refl

  -- Whatever holds at first, is kept by the callback, and is kept by each agent of the pipeline
  -- that may run, holds of the world when the pipeline ends, also where an exception ends it. An
  -- agent may run if it is one of the five, and the executor only after an approved plan.
  pub run_pipeline_inv :
      (I : W → Type 0)
      → ((w : W) (agent : Option String) → Permitted w agent → I w → I (s.execute w agent).0)
      → ((w : W) (result : A) → I w → I (s.on_agent_complete w result))
      → (w : W) → I w
      → I (run_pipeline s w).0
  unfolding run_pipeline
  run_pipeline_inv I step done w i = rounds_inv I step done 8 w [] i

  abbrev pub GoesOn : A → Type 0
  GoesOn r = stops (s.status r) ≡ false

  -- At most `left` results are added; each but the last lets the pipeline go on.
  abbrev pub AllButLast : List A → Type 0
  AllButLast [] = Unit
  AllButLast (r ∷ []) = Unit
  AllButLast (r ∷ q ∷ rs) = GoesOn r × AllButLast (q ∷ rs)

  abbrev pub Adds : ℕ → List A → Option (List A) → Type 0
  Adds left results none = Unit
  Adds left results (some rs) =
      (extra : List A) × (rs ≡ results ++ extra) × (length extra ≤ left) × AllButLast extra

  AllButLast-cons : (r : A) (rs : List A) → GoesOn r → AllButLast rs → AllButLast (r ∷ rs)
  AllButLast-cons r [] g h = tt
  AllButLast-cons r (q ∷ rs) g h = (g, h)

  Adds-cons :
      (left : ℕ) (results : List A) (r : A) (o : Option (List A))
      → GoesOn r
      → Adds left (results ++ r ∷ []) o
      → Adds (suc left) results o
  Adds-cons left results r none g h = tt
  Adds-cons left results r (some rs) g (extra, e, n, l) =
      (r ∷ extra, e ∙ append_assoc results (r ∷ []) extra, omega arith, AllButLast-cons r extra g l)

  attend-Adds :
      (left : ℕ) (again : W → List A → W × Option (List A)) (results : List A)
      → ((w : W) (rs : List A) → Adds left rs (again w rs).1)
      → (r : W × Option A) → Adds (suc left) results (attend s again results r).1
  unfolding attend
  attend-Adds left again results more (w, none) = tt
  attend-Adds left again results more (w, some r) = elim (Bool-cases (stops (s.status r))) [
    | inl stop ↦ rw stop (r ∷ [], refl, omega arith, tt)
    | inr on ↦ rw on (
        Adds-cons left results r (again (s.on_agent_complete w r) (results ++ r ∷ [])).1 on
          (more (s.on_agent_complete w r) (results ++ r ∷ [])))
  ]

  obey-Adds :
      (left : ℕ) (again : W → List A → W × Option (List A)) (w : W) (results : List A)
      → ((w : W) (rs : List A) → Adds left rs (again w rs).1)
      → (n : Next) → Adds (suc left) results (obey s again w results n).1
  unfolding obey
  obey-Adds left again w results more abort = tt
  obey-Adds left again w results more finish = ([], sym (append-nil results), omega arith, tt)
  obey-Adds left again w results more (run agent) =
      attend-Adds left again results more (s.execute w agent)

  rounds-Adds :
      (left : ℕ) (w : W) (results : List A) → Adds left results (rounds s left w results).1
  unfolding rounds
  rounds-Adds zero w results = ([], sym (append-nil results), omega arith, tt)
  rounds-Adds (suc left) w results =
      obey-Adds left (rounds s left) w results (rounds-Adds left) (next s w)

  -- If no exception ends the pipeline, it gives at most eight results, and every result but the
  -- last has a status with which the pipeline goes on.
  pub run_pipeline_results :
      (w : W) (results : List A)
      → (run_pipeline s w).1 ≡ some results
      → (length results ≤ 8) × AllButLast results
  unfolding run_pipeline
  run_pipeline_results w results h =
      let (extra, e, n, l) = subst (Adds 8 []) h (rounds-Adds 8 w []) in rw e (n, l)
