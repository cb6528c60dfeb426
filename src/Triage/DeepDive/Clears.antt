-- ===== src/Triage/DeepDive/Clears.antt =====
-- When the deep dive dismisses a finding, and when it confirms one.
use cliff.Common.{String, ◌≡◌, ◌⊎◌, Bool, true, false, Option, none, some, arith}
use cliff.Triage.Output.{real, needs_review, Challenge, TriageOutput}
use cliff.Triage.Findings.{
  Facts, RuleOut, Reach, affirmed, denied, Plan, Knowledge, has_grounded_path, kill_corroborated,
  is_clear,
}
use cliff.Triage.DeepDive.{
  Stages, Prior, Outcome, done, no_prior, with_facts, with_reach, with_plan, run_stages, handle,
  run,
}
use cliff.Triage.DeepVerdicts.{
  gate_clear, exit_rule_out, exit_disproof, exit_unknown, exit_ungrounded, exit_hardening,
  exit_challenge, incomplete,
}
use cliff.Triage.DeepDive.Exits.{
  Traced, Exit, ruled_out, disproof, unknown, ungrounded, hardening, challenged, run_stages-Exit,
}

-- The challenge stage downgrades to needs_review, as challenge.py does.
abbrev pub DowngradesToReview : Stages → Type 0
DowngradesToReview s =
    (p : Prior) (c : Challenge)
    → s.challenge p ≡ done c
    → (c.downgraded_verdict ≡ none) ⊎ (c.downgraded_verdict ≡ some needs_review)

-- The three grounds for a dismissal.
pub data ClearGrounds (s : Stages) (k : Knowledge) : Type 0 where
  corroborated_kill :
      (f : Facts) (ro : RuleOut)
      → s.gather no_prior ≡ done f
      → s.rule_out (with_facts f) ≡ done ro
      → ro.killed ≡ true
      → kill_corroborated ro f k ≡ true
      → ClearGrounds s k
  upheld_disproof :
      (f : Facts) (r : Reach) (c : Challenge)
      → Traced s k f r denied
      → s.disproof_challenge (with_reach f r) ≡ done c
      → c.verdict_holds ≡ true
      → ClearGrounds s k
  no_exploit :
      (f : Facts) (r : Reach) (p : Plan)
      → Traced s k f r affirmed
      → has_grounded_path r ≡ true
      → s.plan (with_reach f r) ≡ done p
      → p.no_credible_exploit ≡ true
      → ClearGrounds s k

Exit-clear :
    (s : Stages) (k : Knowledge) (sha : Option String) (t : TriageOutput)
    → DowngradesToReview s
    → Exit s k sha t
    → is_clear t.verdict ≡ true
    → ClearGrounds s k
unfolding exit_disproof exit_unknown exit_ungrounded exit_challenge
Exit-clear s k sha t d (ruled_out f ro ef er x y e) c = corroborated_kill f ro ef er x y
Exit-clear s k sha t d (disproof f r ch tr ec e) c = upheld_disproof f r ch tr ec (ground arith)
Exit-clear s k sha t d (unknown f r tr e) c = absurd (ground arith)
Exit-clear s k sha t d (ungrounded f r tr g e) c = absurd (ground arith)
Exit-clear s k sha t d (hardening f r p tr g ep y e) c = no_exploit f r p tr g ep y
Exit-clear s k sha t d (challenged f r p ch tr g ep n ec e) c =
    absurd (ground (arith, d (with_plan f r p) ch))

handle-clear :
    (can_clear : Bool) (o : Outcome TriageOutput) (t : TriageOutput)
    → handle can_clear o ≡ done t
    → is_clear t.verdict ≡ true
    → (can_clear ≡ true) × (o ≡ done t)
unfolding handle gate_clear
handle-clear can_clear o t h c = ground arith

-- Where the challenge stage downgrades to needs_review alone, the deep dive dismisses a finding only
-- where the configured judge may clear, and on one of three grounds: a rule-out that killed the finding
-- and that the repo profile corroborates, a disproof that its challenge upholds, or a grounded path
-- without a credible exploit.
pub run-clear :
    (s : Stages) (can_clear : Bool) (sha : Option String) (k : Knowledge) (t : TriageOutput)
    → DowngradesToReview s
    → run s can_clear sha k ≡ done t
    → is_clear t.verdict ≡ true
    → (can_clear ≡ true) × ClearGrounds s k
unfolding run
run-clear s can_clear sha k t d h c =
    let (ok?, e) = handle-clear can_clear (run_stages s sha k) t h c in
    (ok?, Exit-clear s k sha t d (run_stages-Exit s k sha t e) c)

-- What a confirmed finding rests on.
pub record Confirmed (s : Stages) (k : Knowledge) : Type 0 where
  pub facts : Facts
  pub reach : Reach
  pub plan : Plan
  pub challenge : Challenge
  pub traced : Traced s k facts reach affirmed
  pub grounded : has_grounded_path reach ≡ true
  pub planned : s.plan (with_reach facts reach) ≡ done plan
  pub credible : plan.no_credible_exploit ≡ false
  pub challenged : s.challenge (with_plan facts reach plan) ≡ done challenge
  pub upheld : challenge.verdict_holds ≡ true

Exit-real :
    (s : Stages) (k : Knowledge) (sha : Option String) (t : TriageOutput)
    → DowngradesToReview s
    → Exit s k sha t
    → t.verdict ≡ real
    → Confirmed s k
unfolding exit_rule_out exit_disproof exit_unknown exit_ungrounded exit_hardening exit_challenge
Exit-real s k sha t d (ruled_out f ro ef er x y e) c = absurd (ground arith)
Exit-real s k sha t d (disproof f r ch tr ec e) c = absurd (ground arith)
Exit-real s k sha t d (unknown f r tr e) c = absurd (ground arith)
Exit-real s k sha t d (ungrounded f r tr g e) c = absurd (ground arith)
Exit-real s k sha t d (hardening f r p tr g ep y e) c = absurd (ground arith)
Exit-real s k sha t d (challenged f r p ch tr g ep n ec e) c = record {
  facts = f;
  reach = r;
  plan = p;
  challenge = ch;
  traced = tr;
  grounded = g;
  planned = ep;
  credible = n;
  challenged = ec;
  upheld = ground (arith, d (with_plan f r p) ch);
}

handle-real :
    (can_clear : Bool) (o : Outcome TriageOutput) (t : TriageOutput)
    → handle can_clear o ≡ done t
    → t.verdict ≡ real
    → o ≡ done t
unfolding handle gate_clear incomplete
handle-real can_clear o t h c = ground arith

-- Where the challenge stage downgrades to needs_review alone, a finding is confirmed as real only on
-- a traced path with a file and a line, a plan with a
-- credible exploit, and a challenge that upholds the verdict.
pub run-real :
    (s : Stages) (can_clear : Bool) (sha : Option String) (k : Knowledge) (t : TriageOutput)
    → DowngradesToReview s
    → run s can_clear sha k ≡ done t
    → t.verdict ≡ real
    → Confirmed s k
unfolding run
run-real s can_clear sha k t d h c =
    Exit-real s k sha t d
      (run_stages-Exit s k sha t (handle-real can_clear (run_stages s sha k) t h c)) c
