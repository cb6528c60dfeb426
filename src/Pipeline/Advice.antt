-- ===== src/Pipeline/Advice.antt =====
-- What `suggest_next` recommends.
use cliff.Common.{
  String, ◌≡◌, ◌≢◌, ◌⊎◌, refl, true, Option, none, some, List, [], ◌∷◌, arith, any, All, inl, inr,
  eq_iff, ◌==◌, Option-cases, ltb, if◌then◌else◌, ◌||◌,
}
use text.Mathlib.TextPositions.{eq_refl}
use cliff.Common.Text.{Text, codes, same}
use cliff.Common.Result.{ok}
use cliff.Json.{Fields, obj, get, truthy, lower_or_empty}
use cliff.Pipeline.{
  Snapshot, SuggestedAction, run_agent, review_pr, await_approval, pipeline_order, pipeline_checks,
  max_retry_iterations, count_plan_retries, plan_approved, missing, first_missing,
  after_remediation, forward, validated_or, suggest_next, replan,
}

-- The four sections that come before the remediation are there.
pub record IsPrepared (snap : Snapshot) : Type 0 where
  pub enriched : snap.section "enrichment" ≢ none
  pub exposed : snap.section "exposure" ≢ none
  pub evidenced : snap.section "evidence" ≢ none
  pub planned : snap.section "plan" ≢ none
  pub approved : plan_approved (snap.section "plan") ≡ true
  pub unremediated : snap.section "remediation" ≡ none

missing_executor :
    (snap : Snapshot) (section agent : String)
    → (missing snap section agent).agent_type ≡ some "remediation_executor"
    → ((agent == "remediation_executor") ≡ true) × (plan_approved (snap.section "plan") ≡ true)
unfolding missing
missing_executor snap section agent h = ground (arith, eq_iff agent "remediation_executor")

after-not_executor :
    (o : Option Fields) (a : SuggestedAction)
    → after_remediation o ≡ ok (some a)
    → (a.agent_type ≡ none) × (a.action_type ≡ review_pr)
unfolding after_remediation
after-not_executor o a h = ground arith

planner-ne-executor : ◌≢◌ {A = String} "remediation_planner" "remediation_executor"
planner-ne-executor = ground (arith, eq_iff "remediation_planner" "remediation_executor")

verdict_needs_fix :
    (verdict : Text)
    → (verdict ≡ codes "not_fixed") ⊎ (verdict ≡ codes "partially_fixed")
    → (same verdict (codes "not_fixed") || same verdict (codes "partially_fixed")) ≡ true
unfolding same
verdict_needs_fix verdict (inl e) = rw e
verdict_needs_fix verdict (inr e) = rw e

-- The snapshot of a workspace where no validation has run.
abbrev pub without_validation : Snapshot → Snapshot
without_validation snap = record snap {
  section = λ name. if name == "validation" then none else snap.section name;
}

module _ (snap : Snapshot) where
  first_missing_executor :
      (a : SuggestedAction)
      → first_missing snap pipeline_checks ≡ some a
      → a.agent_type ≡ some "remediation_executor"
      → IsPrepared snap
  unfolding first_missing
  first_missing_executor a h e = ground (
    arith,
    missing_executor snap "enrichment" "finding_enricher",
    missing_executor snap "exposure" "exposure_analyzer",
    missing_executor snap "evidence" "evidence_collector",
    missing_executor snap "plan" "remediation_planner",
    missing_executor snap "remediation" "remediation_executor",
  )

  first_missing-none :
      first_missing snap pipeline_checks ≡ none
      → All (λ (c : String × String). snap.section c.0 ≢ none) pipeline_checks
  unfolding first_missing
  first_missing-none h = ground arith

  -- The agent of a section is suggested; the pause before the executor runs nothing.
  missing_known :
      (section agent : String)
      → ((missing snap section agent).agent_type ≡ some agent)
        ⊎ ((missing snap section agent).action_type ≡ await_approval)
  unfolding missing
  missing_known section agent = ground arith

  first_missing_known :
      (checks : List (String × String)) (a : SuggestedAction)
      → first_missing snap checks ≡ some a
      → a.action_type ≡ run_agent
      → (t : String) × (a.agent_type ≡ some t) × (any (λ c. c.1 == t) checks ≡ true)
  unfolding first_missing
  first_missing_known [] a h e = absurd (cc)
  first_missing_known ((section, agent) ∷ rest) a h e = elim (Option-cases (snap.section section)) [
    | inl gone ↦ (agent, ground (arith, missing_known section agent), ground (arith, eq_refl agent))
    | inr (d, there) ↦
        let (t, p, q) = first_missing_known rest a (rw (there, first_missing) at h) e in
        (t, p, ground arith)
  ]

  forward_executor :
      (a : SuggestedAction)
      → forward snap ≡ ok (some a)
      → a.agent_type ≡ some "remediation_executor"
      → IsPrepared snap
  unfolding forward
  forward_executor a h e =
      ground (arith, first_missing_executor a, after-not_executor (snap.section "remediation") a)

  -- The executor is suggested only where enrichment, exposure, evidence and plan are there, the
  -- plan is approved, and no remediation is recorded.
  pub suggest_next-executor :
      (history : List Fields) (a : SuggestedAction)
      → suggest_next snap history ≡ ok (some a)
      → a.agent_type ≡ some "remediation_executor"
      → IsPrepared snap
  unfolding suggest_next validated_or
  suggest_next-executor history a h e = ground (arith, forward_executor a, planner-ne-executor)

  -- No suggestion at all is made only where every section of the pipeline is there.
  pub suggest_next_complete :
      (history : List Fields)
      → suggest_next snap history ≡ ok none
      → All (λ (c : String × String). snap.section c.0 ≢ none) pipeline_checks
  unfolding suggest_next validated_or forward
  suggest_next_complete history h = ground (arith, first_missing-none)

  without_validation_advice :
      (history : List Fields) → suggest_next (without_validation snap) history ≡ forward snap
  unfolding suggest_next validated_or forward first_missing missing
  without_validation_advice history = refl

  -- Where a suggestion comes from.
  suggest_next_source :
      (history : List Fields) (a : SuggestedAction)
      → suggest_next snap history ≡ ok (some a)
      → (a.agent_type ≡ some "remediation_planner")
        ⊎ (first_missing snap pipeline_checks ≡ some a)
        ⊎ (a.action_type ≡ review_pr)
  unfolding suggest_next validated_or forward
  suggest_next_source history a h =
      ground (arith, after-not_executor (snap.section "remediation") a)

  -- An agent that is to run is one of the five of the pipeline.
  pub suggest_next-known :
      (history : List Fields) (a : SuggestedAction)
      → suggest_next snap history ≡ ok (some a)
      → a.action_type ≡ run_agent
      → (t : String) × (a.agent_type ≡ some t) × (any (λ u. u == t) pipeline_order ≡ true)
  suggest_next-known history a h e = elim (suggest_next_source history a h) [
    | inl planner ↦ ("remediation_planner", planner, refl)
    | inr (inl walk) ↦ first_missing_known pipeline_checks a walk e
    | inr (inr other) ↦ absurd (cc)
  ]

  -- A validation that found the fix missing or partial asks for a new plan while fewer than three
  -- planner runs have completed; from then on the advice is that of the standard order.
  pub suggest_next-retry :
      (history : List Fields) (validation : Fields) (verdict : Text)
      → snap.section "validation" ≡ some validation
      → truthy (obj validation) ≡ true
      → lower_or_empty (get validation "verdict") ≡ some verdict
      → (verdict ≡ codes "not_fixed") ⊎ (verdict ≡ codes "partially_fixed")
      → suggest_next snap history ≡ (
          if ltb (count_plan_retries history) max_retry_iterations
          then ok (some (replan (count_plan_retries history)))
          else suggest_next (without_validation snap) history)
  unfolding suggest_next validated_or
  suggest_next-retry history validation verdict h v l f =
      ground (arith, without_validation_advice history, verdict_needs_fix verdict)
