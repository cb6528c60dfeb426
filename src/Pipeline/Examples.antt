-- ===== src/Pipeline/Examples.antt =====
-- The pipeline on a workspace whose plan nobody approves, and the theorems at concrete inputs.
use text.Mathlib.TextEquality.{eq_iff}
use cliff.Common.{
  ℕ, suc, ◌≤◌, String, ◌≡◌, refl, Bool, true, false, Option, none, some, List, [], ◌∷◌, arith, inl,
  inr, ◌==◌, ltb, if◌then◌else◌, length, Bool-cases, ap,
}
use cliff.Common.Text.{same, lower}
use cliff.Common.Result.{ok}
use cliff.Json.{Fields, end, field, str, bool, get, truthy, is_str, lower_or_empty}
use cliff.Pipeline.{
  Snapshot, SuggestedAction, recommended, Services, suggest, suggest_next, validated_or, forward,
  first_missing, missing, plan_approved, after_remediation, count_plan_retries, next, obey, attend,
  rounds, run_pipeline,
}
use cliff.Pipeline.Advice.{IsPrepared, suggest_next-executor}
use cliff.Pipeline.Loop.{Permitted, AllButLast, run_pipeline_inv, run_pipeline_results}

-- The sections done so far, and whether the executor has run.
abbrev World : Type 0
World = ℕ × Bool

abbrev rank : String → ℕ
rank name =
    if name == "enrichment"
    then 0
    else if name == "exposure"
    then 1
    else if name == "evidence"
    then 2
    else if name == "plan"
    then 3
    else if name == "remediation"
    then 4
    else 9

abbrev snapshot : Fields → World → Snapshot
snapshot plan w = record {
  section = λ name. if ltb (rank name) w.0 then some plan else none;
  agent_run_history = [];
}

abbrev is_executor : Option String → Bool
is_executor none = false
is_executor (some agent) = agent == "remediation_executor"

abbrev services : Fields → Services World String
services plan = record {
  get_context_snapshot = snapshot plan;
  execute = λ w agent. ((suc w.0, is_executor agent), some "completed");
  status = λ result. result;
  on_agent_complete = λ w result. w;
}

abbrev approved : Fields
approved = field "approved" (bool true) end

program : Unit {0}
unfolding suggest_next validated_or forward first_missing missing plan_approved after_remediation
    count_plan_retries get truthy is_str lower_or_empty same lower next obey attend rounds
    run_pipeline
program = tt

abbrev four : List String
four = "completed" ∷ "completed" ∷ "completed" ∷ "completed" ∷ []

-- Four agents run, and the pipeline waits for the approval.
run-unapproved : run_pipeline (services end) (0, false) ≡ ((4, false), some four)
unfolding program
run-unapproved = refl

run-approved : (run_pipeline (services approved) (0, false)).0 ≡ (5, true)
unfolding program
run-approved = refl

executor_action : SuggestedAction
executor_action = suggest "remediation_executor" "Remediation not yet executed" recommended

suggest-executor : suggest_next (snapshot approved (4, false)) [] ≡ ok (some executor_action)
unfolding program executor_action
suggest-executor = refl

suggest_next-executor_example : IsPrepared (snapshot approved (4, false))
unfolding executor_action
suggest_next-executor_example =
    suggest_next-executor (snapshot approved (4, false)) [] executor_action suggest-executor refl

abbrev checked : Fields
checked = field "verdict" (str "Not_Fixed") end

abbrev after_check : Snapshot
after_check = record {
  section = λ name. if name == "validation" then some checked else some approved;
  agent_run_history = [];
}

unapproved_step :
    (w : World) (agent : Option String)
    → Permitted (services end) w agent
    → w.1 ≡ false
    → is_executor agent ≡ false
unfolding plan_approved truthy get
unapproved_step w agent p h = elim (Bool-cases (is_executor agent)) [
  | inl e ↦ absurd (never agent e p.1)
  | inr e ↦ e
]
  where
    never :
        (agent : Option String)
        → is_executor agent ≡ true
        → (agent ≡ some "remediation_executor" → IsPrepared (snapshot end w))
        → ⊥
    never none e f = cc
    never (some t) e f =
        let q = (f (ap some ((eq_iff t "remediation_executor").0 e))).approved in ground arith

run_pipeline_inv_example : (run_pipeline (services end) (0, false)).0.1 ≡ false
run_pipeline_inv_example =
    run_pipeline_inv (services end) (λ w. w.1 ≡ false) unapproved_step (λ w result h. h) (0, false)
      refl

run_pipeline_results_example : (length four ≤ 8) × AllButLast (services end) four
run_pipeline_results_example =
    run_pipeline_results (services end) (0, false) four (ap (λ r. r.1) run-unapproved)
