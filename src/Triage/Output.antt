-- ===== src/Triage/Output.antt =====
-- backend/cliff/agents/schemas.py: `TriageOutput` and the blocks that it holds. A confidence is in
-- hundredths. Extra keys, which the schemas allow, are not modelled.
mod Examples
use cliff.Common.{
  ℕ, ◌≤◌, String, ◌≡◌, refl, Bool, true, false, Option, none, some, List, [], arith, ltb,
  if◌then◌else◌,
}
use cliff.Common.Int.{ℤ}
use cliff.Common.Result.{Result, ok, raise, validation_error}
use cliff.Json.{Fields}

pub data Verdict : Type 0 where
  real unexploitable false_positive needs_review : Verdict

pub data Close : Type 0 where
  false_positive unexploitable : Close

abbrev pub verdict_to_close : Verdict → Option Close
verdict_to_close real = none
verdict_to_close needs_review = none
verdict_to_close false_positive = some Close.false_positive
verdict_to_close unexploitable = some Close.unexploitable

pub record Node : Type 0 where
  pub label : String
  pub detail : Option String
  pub kind : Option String

pub record Reachability : Type 0 where
  pub reached : Bool
  pub path : List Node
  pub summary : Option String

pub data Exploitable : Type 0 where
  exploitable not_exploitable unknown : Exploitable

pub record Exploitability : Type 0 where
  pub exploitable : Exploitable
  pub reason : Option String

-- the icon of a proof row
pub data Kind : Type 0 where
  pass warn fail info : Kind

pub record Check : Type 0 where
  pub eyebrow : String
  pub result : String
  pub kind : Kind
  pub detail : Option String

pub data ReviewerVerdict : Type 0 where
  holds refuted : ReviewerVerdict

pub record Reviewer : Type 0 where
  pub lens : String
  pub verdict : ReviewerVerdict
  pub refutation : Option String

pub record Challenge : Type 0 where
  pub verdict_holds : Bool
  pub reviewers : List Reviewer
  pub downgraded_verdict : Option Verdict
  pub confidence_adjustment : ℤ

pub record Provenance : Type 0 where
  pub steps_run : List String
  pub traced_sha : Option String
  pub model_tiers : List (String × String)
  pub exit_stage : Option String
  pub escalated : Bool

-- `report` is filled by the report triager alone, and stays a dict; so does `exploit_plan`.
pub record TriageOutput : Type 0 where
  pub verdict : Verdict
  pub confidence : ℕ
  pub recommended_close : Option Close
  pub reachability : Option Reachability
  pub exploitability : Option Exploitability
  pub report : Option Fields
  pub checks : List Check
  pub exploit_plan : Option Fields
  pub challenge : Option Challenge
  pub provenance : Option Provenance

-- The keyword arguments `verdict` and `confidence`, with the schema's defaults for the others.
abbrev pub draft : Verdict → ℕ → TriageOutput
draft verdict confidence = record {
  verdict = verdict;
  confidence = confidence;
  recommended_close = none;
  reachability = none;
  exploitability = none;
  report = none;
  checks = [];
  exploit_plan = none;
  challenge = none;
  provenance = none;
}

abbrev same_close : Close → Close → Bool
same_close false_positive false_positive = true
same_close unexploitable unexploitable = true
same_close _ _ = false

-- `recommended_close != canonical`, for a close that is given
abbrev clashes : Close → Option Close → Bool
clashes c none = true
clashes c (some d) = if same_close c d then false else true

-- `_coherent_recommended_close`
unfoldable pub coherent_recommended_close : TriageOutput → Result TriageOutput
coherent_recommended_close t = elim t.recommended_close [
  | none ↦ ok (record t { recommended_close = verdict_to_close t.verdict })
  | some c ↦ if clashes c (verdict_to_close t.verdict) then raise validation_error else ok t
]

-- `TriageOutput(…)`: the bounds of the confidence, then the model validator
unfoldable pub validate : TriageOutput → Result TriageOutput
unfolding coherent_recommended_close
validate t = if ltb 100 t.confidence then raise validation_error else coherent_recommended_close t

-- The same where no close is given and the confidence is in bounds.
abbrev pub fill : TriageOutput → TriageOutput
fill t = record t { recommended_close = verdict_to_close t.verdict }

pub validate-fill :
    (t : TriageOutput) → t.recommended_close ≡ none → t.confidence ≤ 100 → validate t ≡ ok (fill t)
unfolding validate
validate-fill t e h = ground arith
