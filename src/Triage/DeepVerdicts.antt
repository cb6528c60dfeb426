-- ===== src/Triage/DeepVerdicts.antt =====
-- backend/cliff/agents/triage_deep/runner.py: the verdicts that the deep dive gives at its exits, and
-- the tier gate on them.
use cliff.Common.{
  ℕ, ◌+◌, ◌-◌, String, Bool, true, false, not, ◌||◌, Option, none, some, List, [], ◌∷◌, ◌++◌, map,
  ◌==◌, leb, length, if◌then◌else◌,
}
use cliff.Common.Int.{ℤ, pos, negsuc}
use cliff.Common.Text.{show, format}
use cliff.Triage.Output.{
  Verdict, real, unexploitable, false_positive, needs_review, Close, exploitable, not_exploitable,
  Kind, pass, warn, info, Check, Challenge, Provenance, TriageOutput, draft, fill,
}
use cliff.Triage.Findings.{RuleOut, Reach, Disproof, Plan, map_reach, is_clear}

abbrev retone_kind : Kind → Kind
retone_kind pass = info
retone_kind k = k

abbrev retone : Check → Check
retone c = record c { kind = retone_kind c.kind }

abbrev check : String → String → Kind → Option String → Check
check eyebrow result kind detail = record {
  eyebrow = eyebrow;
  result = result;
  kind = kind;
  detail = detail;
}

abbrev tier_check : Check
tier_check =
    check "Tier gate"
      "Analysis cleared this finding, but the configured model tier is below the auto-dismiss threshold — routed to review rather than dismissed."
      warn none

-- `_gate_clear`
unfoldable pub gate_clear : Bool → TriageOutput → TriageOutput
gate_clear can_clear t = if can_clear || not (is_clear t.verdict) then t else record t {
  verdict = needs_review;
  recommended_close = none;
  checks = map retone t.checks ++ tier_check ∷ [];
}

abbrev step_tier : String → String
step_tier step =
    if step == "gather_facts" || step == "rule_out"
    then "cheap"
    else if step == "trace_path" || step == "plan_exploit"
    then "strong"
    else "judge"

-- the closure `prov`
abbrev pub provenance : Option String → List String → String → Provenance
provenance sha steps exit = record {
  steps_run = steps;
  traced_sha = sha;
  model_tiers = map (λ s. (s, step_tier s)) steps;
  exit_stage = some exit;
  escalated = true;
}

abbrev kill_verdict : Option Close → Verdict
kill_verdict none = false_positive
kill_verdict (some Close.false_positive) = false_positive
kill_verdict (some Close.unexploitable) = unexploitable

abbrev or_word : Option String → String → String
or_word none word = word
or_word (some s) word = if s == "" then word else s

abbrev explanation : Option Disproof → Option String
explanation none = none
explanation (some d) = d.explanation

abbrev guard_location : Option Disproof → Option String
guard_location none = none
guard_location (some d) = some d.guard_location

-- max(0, min(1, 0.85 + adjustment)) in hundredths
unfoldable pub clamp_real : ℤ → ℕ
clamp_real (pos n) = if leb 15 n then 100 else 85 + n
clamp_real (negsuc n) = 85 - (n + 1)

abbrev reviewers_text : Challenge → String → String
reviewers_text c words = format (show (length c.reviewers) ∷ words ∷ [])

-- the `TriageOutput` of each exit
unfoldable pub exit_rule_out : Option String → RuleOut → TriageOutput
exit_rule_out sha ro = fill (record (draft (kill_verdict ro.recommended_verdict_on_kill) 85) {
  checks = check "Ruled out" (or_word ro.kill_class "false alarm") pass ro.kill_evidence ∷ [];
  provenance = some (provenance sha ("gather_facts" ∷ "rule_out" ∷ []) "rule_out");
})

abbrev disproof_steps : List String
disproof_steps = "gather_facts" ∷ "rule_out" ∷ "trace_path" ∷ "disproof_challenge" ∷ []

unfoldable pub exit_disproof : Option String → Reach → Challenge → TriageOutput
exit_disproof sha reach c =
    if c.verdict_holds
    then fill (record (draft unexploitable 80) {
      reachability = some (record {
        reached = false;
        path = [];
        summary = some (or_word (explanation reach.disproof) "A specific guard blocks this path.");
      });
      exploitability =
          some (record { exploitable = not_exploitable; reason = explanation reach.disproof });
      challenge = some c;
      checks =
          check "Disproof" "Not reachable (challenge upheld)" pass (guard_location reach.disproof)
          ∷ [];
      provenance = some (provenance sha disproof_steps "disproof_challenge");
    })
    else fill (record (draft needs_review 50) {
      reachability = some (map_reach reach);
      challenge = some c;
      checks =
          check "Disproof refuted" "Guard did not hold under challenge" warn
            (some (reviewers_text c " adversarial reviewers found a gap"))
          ∷ [];
      provenance = some (provenance sha disproof_steps "disproof_challenge");
    })

abbrev trace_steps : List String
trace_steps = "gather_facts" ∷ "rule_out" ∷ "trace_path" ∷ []

unfoldable pub exit_unknown : Option String → Reach → TriageOutput
exit_unknown sha reach = fill (record (draft needs_review 50) {
  reachability = some (map_reach reach);
  provenance = some (provenance sha trace_steps "trace_path");
})

unfoldable pub exit_ungrounded : Option String → Reach → TriageOutput
exit_ungrounded sha reach = fill (record (draft needs_review 50) {
  reachability = some (map_reach reach);
  checks =
      check "Reachability" "Claimed reachable without a traced path" warn (
        some "No file:line hop was recorded — routed to review rather than confirmed as reachable.")
      ∷ [];
  provenance = some (provenance sha trace_steps "trace_path");
})

abbrev plan_steps : List String
plan_steps = "gather_facts" ∷ "rule_out" ∷ "trace_path" ∷ "plan_exploit" ∷ []

unfoldable pub exit_hardening : Option String → Reach → Plan → TriageOutput
exit_hardening sha reach plan = fill (record (draft unexploitable 70) {
  reachability = some (map_reach reach);
  exploitability = some (record {
    exploitable = not_exploitable;
    reason = some "Reachable, but no credible exploit (hardening, not a vulnerability).";
  });
  exploit_plan = some plan.body;
  provenance = some (provenance sha plan_steps "plan_exploit");
})

abbrev challenge_steps : List String
challenge_steps = "gather_facts" ∷ "rule_out" ∷ "trace_path" ∷ "plan_exploit" ∷ "challenge" ∷ []

abbrev or_review : Option Verdict → Verdict
or_review none = needs_review
or_review (some v) = v

unfoldable pub exit_challenge : Option String → Reach → Plan → Challenge → TriageOutput
exit_challenge sha reach plan c =
    let verdict = if c.verdict_holds then real else or_review c.downgraded_verdict in
    fill (record (draft verdict (clamp_real c.confidence_adjustment)) {
      reachability = some (map_reach reach);
      exploitability = some (record {
        exploitable = exploitable;
        reason = some "Reachable with a credible exploit path.";
      });
      exploit_plan = some plan.body;
      challenge = some c;
      checks =
          check "Challenge" (if c.verdict_holds then "Held" else "Downgraded")
            (if c.verdict_holds then pass else warn)
            (some (reviewers_text c " adversarial reviewers"))
          ∷ [];
      provenance = some (provenance sha challenge_steps "challenge");
    })

-- the closure `incomplete`
unfoldable pub incomplete : String → TriageOutput
incomplete reason = fill (record (draft needs_review 30) {
  provenance = some (record {
    steps_run = [];
    traced_sha = none;
    model_tiers = [];
    exit_stage = some "incomplete";
    escalated = true;
  });
  checks = check "Incomplete" reason info none ∷ [];
})
