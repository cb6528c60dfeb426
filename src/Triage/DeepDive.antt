-- ===== src/Triage/DeepDive.antt =====
-- backend/cliff/agents/triage_deep/runner.py: the deep dive, from its stages to a verdict. The five
-- agents are the argument `Stages`: each sees the prior context and gives its finding or a failure.
-- The finding itself, the repo's artifacts, and the enrichment and exposure that `gather` also sees
-- do not change during a run, so a stage holds them.
pub mod Exits
pub mod Clears
pub mod Degrade
mod Examples
use cliff.Common.{
  ℕ, ◌+◌, ◌-◌, String, Bool, true, false, not, ◌&&◌, ◌||◌, Option, none, some, List, [], ◌∷◌, ◌++◌,
  map, ◌==◌, eqb, leb, length, if◌then◌else◌,
}
use cliff.Common.Int.{ℤ, pos, negsuc}
use cliff.Common.Text.{Text, codes, contains, lower, show, format}
use cliff.Triage.Output.{
  Verdict, real, unexploitable, false_positive, needs_review, Close, Reachability, Exploitable,
  exploitable, not_exploitable, Exploitability, Kind, pass, warn, info, Check, Challenge,
  Provenance, TriageOutput, draft, fill,
}
use cliff.Triage.DeepVerdicts.{
  gate_clear, clamp_real, exit_rule_out, exit_disproof, exit_unknown, exit_ungrounded,
  exit_hardening, exit_challenge, incomplete, provenance,
}
use cliff.Triage.Findings.{
  Facts, RuleOut, Reach, Disproof, Answer, affirmed, denied, unclear, Plan, Knowledge,
  has_grounded_path, map_reach, kill_corroborated, is_clear,
}

-- the prior context of a stage, by the keys that are filled
pub record Prior : Type 0 where
  pub facts : Option Facts
  pub reachability : Option Reach
  pub exploit_plan : Option Plan

pub data Failure : Type 0 where
  usage_limit transport : Failure
  model_http : ℕ → String → Failure
  other : String → Failure

pub data Outcome (A : Type 0) : Type 0 where
  done : A → Outcome A
  failed : Failure → Outcome A

infixl 5 ◌>>=◌
abbrev pub ◌>>=◌ : {A B : Type 0} → Outcome A → (A → Outcome B) → Outcome B
done a >>= f = f a
failed e >>= f = failed e

pub data Tier : Type 0 where
  cheap strong judge : Tier

-- `challenge` gets the verdict "real", which the code fixes.
pub record Stages : Type 0 where
  pub gather : Prior → Outcome Facts
  pub rule_out : Prior → Outcome RuleOut
  pub trace : Prior → Outcome Reach
  pub plan : Prior → Outcome Plan
  pub challenge : Prior → Outcome Challenge
  pub disproof_challenge : Prior → Outcome Challenge

abbrev pub no_prior : Prior
no_prior = record { facts = none; reachability = none; exploit_plan = none }

abbrev pub with_facts : Facts → Prior
with_facts f = record no_prior { facts = some f }

abbrev pub with_reach : Facts → Reach → Prior
with_reach f r = record (with_facts f) { reachability = some r }

abbrev pub with_plan : Facts → Reach → Plan → Prior
with_plan f r p = record (with_reach f r) { exploit_plan = some p }

module _ (s : Stages) (sha : Option String) where
  -- 5. Challenge the verdict.
  unfoldable pub challenge_stage : Facts → Reach → Plan → Outcome TriageOutput
  challenge_stage facts reach plan = do
    c ← s.challenge (with_plan facts reach plan)
    done (exit_challenge sha reach plan c)

  -- 4. Plan the exploit.
  unfoldable pub plan_stage : Facts → Reach → Outcome TriageOutput
  plan_stage facts reach = do
    plan ← s.plan (with_reach facts reach)
    if plan.no_credible_exploit
        then done (exit_hardening sha reach plan)
        else challenge_stage facts reach plan

  unfoldable pub disproof_stage : Facts → Reach → Outcome TriageOutput
  disproof_stage facts reach = do
    c ← s.disproof_challenge (with_reach facts reach)
    done (exit_disproof sha reach c)

  unfoldable pub by_reach : Facts → Reach → Answer → Outcome TriageOutput
  by_reach facts reach denied = disproof_stage facts reach
  by_reach facts reach unclear = done (exit_unknown sha reach)
  by_reach facts reach affirmed =
      if has_grounded_path reach then plan_stage facts reach else done (exit_ungrounded sha reach)

  -- 3. Trace the path.
  unfoldable pub trace_stage : Facts → Outcome TriageOutput
  trace_stage facts = do reach ← s.trace (with_facts facts); by_reach facts reach reach.reached

  -- `_run`: 1. gather the facts, 2. rule out false alarms, and the rest
  unfoldable pub run_stages : Knowledge → Outcome TriageOutput
  run_stages knowledge = do
    facts ← s.gather no_prior
    ro ← s.rule_out (with_facts facts)
    if ro.killed && kill_corroborated ro facts knowledge
        then done (exit_rule_out sha ro)
        else trace_stage facts

abbrev pub is_recoverable : ℕ → String → Bool
is_recoverable status message =
    let msg = lower (codes message) in
    eqb status 429
    || eqb status 503
    || contains msg (codes "too long")
    || contains msg (codes "context")

-- the handlers of `run`; `failed` is an exception that is let through
unfoldable pub handle : Bool → Outcome TriageOutput → Outcome TriageOutput
unfolding incomplete
handle can_clear (done t) = done (gate_clear can_clear t)
handle can_clear (failed usage_limit) =
    done (incomplete "Analysis hit its usage budget (request or token cap)")
handle can_clear (failed transport) =
    done (incomplete "Analysis could not complete (provider/context)")
handle can_clear (failed (model_http status message)) =
    if is_recoverable status message
    then done (incomplete "Analysis could not complete (provider/context)")
    else failed (model_http status message)
handle can_clear (failed (other name)) = failed (other name)

unfoldable pub run : Stages → Bool → Option String → Knowledge → Outcome TriageOutput
run s can_clear sha knowledge = handle can_clear (run_stages s sha knowledge)
