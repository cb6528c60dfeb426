-- ===== src/Triage/DeepDive/Examples.antt =====
-- The deep dive on concrete stages.
use cliff.Common.{◌≡◌, refl, Bool, true, false, none, some, [], ◌∷◌, inl, arith}
use cliff.Common.Int.{pos, negsuc}
use cliff.Common.Text.{strip, show}
use cliff.Common.Glob.{fnmatch}
use cliff.Json.{end}
use cliff.Triage.Output.{needs_review, Close, Challenge, TriageOutput}
use cliff.Triage.Findings.{
  Facts, RuleOut, Hop, Reach, affirmed, Plan, Knowledge, has_grounded_path, kill_corroborated,
  map_reach,
}
use cliff.Triage.DeepDive.{
  Stages, Failure, usage_limit, Outcome, done, failed, challenge_stage, plan_stage, disproof_stage,
  by_reach, trace_stage, run_stages, handle, run,
}
use cliff.Triage.DeepVerdicts.{
  gate_clear, exit_rule_out, exit_disproof, exit_unknown, exit_ungrounded, exit_hardening,
  exit_challenge, clamp_real, incomplete,
}
use cliff.Triage.DeepDive.Clears.{ClearGrounds, Confirmed, run-clear, run-real}
use cliff.Triage.DeepDive.Degrade.{is_caught, run_returns}

program : Unit {0}
unfolding gate_clear exit_rule_out exit_disproof exit_unknown exit_ungrounded exit_hardening
    exit_challenge clamp_real challenge_stage plan_stage disproof_stage by_reach trace_stage
    run_stages incomplete handle run has_grounded_path kill_corroborated map_reach strip show
    fnmatch is_caught
program = tt

abbrev facts : Facts
facts = record { candidate_files = "tests/a.py" ∷ [] }

abbrev rule_out : Bool → RuleOut
rule_out killed = record {
  killed = killed;
  kill_class = some "root_cause_in_nonship_code";
  kill_evidence = none;
  dedup_match = none;
  recommended_verdict_on_kill = some Close.unexploitable;
}

abbrev hop : Hop
hop = record { file = "app.py"; line = some (pos 12); symbol = some "eval"; role = "sink" }

abbrev reach : Reach
reach = record { reached = affirmed; path = hop ∷ []; disproof = none }

abbrev plan : Plan
plan = record { no_credible_exploit = false; body = end }

abbrev held : Challenge
held = record {
  verdict_holds = true;
  reviewers = [];
  downgraded_verdict = none;
  confidence_adjustment = negsuc 9;
}

abbrev stages : Bool → Outcome Reach → Stages
stages killed traced = record {
  gather = λ p. done facts;
  rule_out = λ p. done (rule_out killed);
  trace = λ p. traced;
  plan = λ p. done plan;
  challenge = λ p. done held;
  disproof_challenge = λ p. done held;
}

abbrev profile : Knowledge
profile = record { prior_issue_ids = []; excluded_roots = "tests/*" ∷ [] }

abbrev killing : Stages
killing = stages true (done reach)

abbrev confirming : Stages
confirming = stages false (done reach)

abbrev stalling : Stages
stalling = stages false (failed usage_limit)

abbrev dismissed : TriageOutput
dismissed = exit_rule_out none (rule_out true)

abbrev confirmed : TriageOutput
confirmed = exit_challenge none reach plan held

dismisses : run killing true none profile ≡ done dismissed
unfolding program
dismisses = refl

confirms : run confirming false none profile ≡ done confirmed
unfolding program
confirms = refl

run-clear_example : (true ≡ true) × ClearGrounds killing profile
unfolding program
run-clear_example =
    run-clear killing true none profile dismissed (λ p c e. inl (ground arith)) dismisses refl

run-real_example : Confirmed confirming profile
unfolding program
run-real_example =
    run-real confirming false none profile confirmed (λ p c e. inl (ground arith)) confirms refl

run_returns_example :
    (t : TriageOutput) × (run stalling true none profile ≡ done t)
    × ((e : Failure) → run_stages stalling none profile ≡ failed e → t.verdict ≡ needs_review)
unfolding program
run_returns_example = run_returns stalling true none profile (record {
  gather = λ p. refl;
  rule_out = λ p. refl;
  trace = λ p. refl;
  plan = λ p. refl;
  challenge = λ p. refl;
  disproof_challenge = λ p. refl;
})
