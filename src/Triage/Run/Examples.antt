-- ===== src/Triage/Run/Examples.antt =====
-- Triage runs of concrete services. The state is the list of the verdicts that were stored.
use cliff.Common.{
  ◌||◌, String, ◌≡◌, ◌≢◌, eq_iff, refl, Bool, true, false, Option, none, some, List, [], ◌∷◌, ◌==◌,
  inl, arith, if◌then◌else◌,
}
use cliff.Common.Int.{pos}
use cliff.Common.Text.{same, strip, lower, contains, begins_with, partition_slash}
use cliff.Json.{str, obj, field, end, get, set, truthy, is_true}
use cliff.Triage.Output.{Verdict, needs_review, false_positive, TriageOutput, validate}
use cliff.Triage.Synthesizer.{
  dependency, synthesize_triage, missing_exposure, quick_verdict, project,
}
use cliff.Triage.Reach.{classify_text, classify_reachable, any_in, flat_no}
use cliff.Triage.Escalation.{starts_deep_dive, decide_escalation, is_high_stakes}
use cliff.Triage.Tiers.{clearing_is_trusted, provider_of}
use cliff.Triage.Findings.{unclear, kill_corroborated, map_reach}
use cliff.Triage.DeepDive.{Stages, Outcome, done, failed, run_stages, trace_stage, by_reach, handle}
use cliff.Triage.DeepVerdicts.{exit_unknown, gate_clear}
use cliff.Triage.DeepDive
use cliff.Triage.CodeMap.{
  resolve_by_code_map, match_builtin, strip_line_suffix, find_segment, find_glob, by_classified,
  classified,
}
use cliff.Triage.CodeMap.Globs.{strip_slash, split_slash, glob_matches, matches}
use cliff.Triage.DepManifest.{resolve_by_dep_manifest}
use cliff.Triage.Run.{
  Finding, Services, returned, unreadable, Ran, verdict, context, attend, prepare, load_artifact,
  deep_dive, dependency_gate, decide, conclude, run_scanner_triage, reported, run_report_triage,
  run_triage,
}
use cliff.Triage.Run.Lands.{
  after, with_status, run_scanner_triage-lands, run_scanner_triage-degraded,
}
use cliff.Triage.Run.Dismisses.{Dismissed, decide-Dismissed}

program : Unit {0}
unfolding attend prepare load_artifact deep_dive dependency_gate decide conclude run_scanner_triage
    reported run_report_triage run_triage context validate synthesize_triage quick_verdict project
    classify_text classify_reachable any_in flat_no starts_deep_dive decide_escalation
    is_high_stakes clearing_is_trusted provider_of kill_corroborated map_reach run_stages
    trace_stage by_reach exit_unknown handle gate_clear DeepDive.run resolve_by_code_map
    match_builtin strip_line_suffix find_segment find_glob by_classified classified strip_slash
    split_slash glob_matches matches resolve_by_dep_manifest get set truthy is_true same strip lower
    contains begins_with partition_slash
program = tt

abbrev stages : Stages
stages = record {
  gather = λ p. done (record { candidate_files = [] });
  rule_out = λ p. done (record {
    killed = false;
    kill_class = none;
    kill_evidence = none;
    dedup_match = none;
    recommended_verdict_on_kill = none;
  });
  trace = λ p. done (record { reached = unclear; path = []; disproof = none });
  plan = λ p. done (record { no_credible_exploit = true; body = end });
  challenge = λ p. done (record {
    verdict_holds = true;
    reviewers = [];
    downgraded_verdict = none;
    confidence_adjustment = pos 0;
  });
  disproof_challenge = λ p. done (record {
    verdict_holds = true;
    reviewers = [];
    downgraded_verdict = none;
    confidence_adjustment = pos 0;
  });
}

abbrev finding : String → Finding
finding path = record {
  source_type = "scanner";
  type = dependency;
  raw_payload = obj (field "path" (str path) end);
  dump = field "raw_severity" (str "high") end;
}

abbrev services : Bool → String → Services (List TriageOutput)
services healthy path = record {
  get_finding = λ w. some (finding path);
  repo_url = some "https://example.org/app";
  execute = λ w agent. (
    w,
    returned (some (if healthy || agent == "finding_enricher" then "completed" else "failed")),
  );
  enrichment = λ w. none;
  exposure = λ w. some (record {
    internet_facing = some true;
    reachable = some "reachable";
    reachability_evidence = none;
  });
  sidebar_triage = λ w. none;
  is_ready = λ w url. false;
  read_artifact = λ w url name. unreadable;
  persist = λ w t. t ∷ w;
  setup = λ w. record { configured = true; repo_url = some "r"; ready_clone = λ url. true };
  model_full_id = "anthropic/claude";
  knowledge = λ w. some (record { prior_issue_ids = []; excluded_roots = [] });
  traced_sha = λ w. none;
  stages = λ f. stages;
  code_map_print = record { text = λ t. "t"; repr = λ t. "'t'"; value = λ v. "v" };
  dep_manifest_print = record { text = λ t. "t"; value = λ v. "v"; sorted_set = λ s. "s" };
}

abbrev verdict_of : Ran → Option Verdict
verdict_of (verdict t) = some t.verdict
verdict_of _ = none

-- An exposed finding of high severity is not confirmed without a traced path, a test file is
-- cleared, and a failed analyzer ends in a review.
runs :
    (verdict_of (run_triage (services true "app.py") []).1 ≡ some needs_review)
    × (verdict_of (run_triage (services true "tests/app.py") []).1 ≡ some false_positive)
    × (verdict_of (run_triage (services false "app.py") []).1 ≡ some needs_review)
unfolding program
runs = (refl, refl, refl)

abbrev steady : Services (List TriageOutput)
steady = services true "tests/app.py"

run_scanner_triage-lands_example :
    (w' : List TriageOutput) × (t : TriageOutput) × (run_scanner_triage steady []
        (finding "tests/app.py")
      ≡ (steady.persist w' t, verdict t))
run_scanner_triage-lands_example =
    run_scanner_triage-lands steady [] (finding "tests/app.py") (λ w agent e. ground arith)

abbrev sick : Services (List TriageOutput)
sick = services false "app.py"

other_status : ◌≢◌ {A = String} "failed" "completed"
other_status e = let y = (eq_iff "failed" "completed").1 e in absurd (cc)

run_scanner_triage-degraded_example :
    (run_scanner_triage sick [] (finding "app.py")
      ≡ (missing_exposure ∷ [], verdict missing_exposure))
    × (missing_exposure.verdict ≡ needs_review)
unfolding program
run_scanner_triage-degraded_example =
    run_scanner_triage-degraded sick [] [] (finding "app.py")
      (after refl (with_status "failed" refl other_status))

decide-Dismissed_example : Dismissed steady [] (finding "tests/app.py")
unfolding program
decide-Dismissed_example =
    decide-Dismissed steady [] (finding "tests/app.py") (λ p c e. inl (ground arith)) refl
