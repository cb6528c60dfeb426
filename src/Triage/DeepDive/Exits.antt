-- ===== src/Triage/DeepDive/Exits.antt =====
-- The exits of the deep dive, each with what the stages gave on the way to it.
use cliff.Common.{
  String, ◌≡◌, refl, true, false, Option, arith, Bool-cases, inl, inr, ◌&&◌, if◌then◌else◌,
}
use cliff.Triage.Output.{Challenge, TriageOutput}
use cliff.Triage.Findings.{
  Facts, RuleOut, Reach, Answer, affirmed, denied, unclear, Plan, Knowledge, has_grounded_path,
  kill_corroborated,
}
use cliff.Triage.DeepDive.{
  Stages, Outcome, done, failed, ◌>>=◌, no_prior, with_facts, with_reach, with_plan,
  challenge_stage, plan_stage, disproof_stage, by_reach, trace_stage, run_stages,
}
use cliff.Triage.DeepVerdicts.{
  exit_rule_out, exit_disproof, exit_unknown, exit_ungrounded, exit_hardening, exit_challenge,
}

pub >>=-eq-done :
    {A B : Type 0} (m : Outcome A) (f : A → Outcome B) {b : B}
    → (m >>= f) ≡ done b
    → (a : A) × (m ≡ done a) × (f a ≡ done b)
>>=-eq-done (done a) f h = (a, refl, h)
>>=-eq-done (failed e) f h = absurd (cc)

-- The stages on the way to the trace, which no kill stopped.
pub record Traced (s : Stages) (k : Knowledge) (f : Facts) (r : Reach) (a : Answer) : Type 0 where
  pub gathered : s.gather no_prior ≡ done f
  pub traced : s.trace (with_facts f) ≡ done r
  pub answered : r.reached ≡ a

module _ (s : Stages) (k : Knowledge) (sha : Option String) where
  pub data Exit (t : TriageOutput) : Type 0 where
    ruled_out :
        (f : Facts) (ro : RuleOut)
        → s.gather no_prior ≡ done f
        → s.rule_out (with_facts f) ≡ done ro
        → ro.killed ≡ true
        → kill_corroborated ro f k ≡ true
        → t ≡ exit_rule_out sha ro
        → Exit t
    disproof :
        (f : Facts) (r : Reach) (c : Challenge)
        → Traced s k f r denied
        → s.disproof_challenge (with_reach f r) ≡ done c
        → t ≡ exit_disproof sha r c
        → Exit t
    unknown : (f : Facts) (r : Reach) → Traced s k f r unclear → t ≡ exit_unknown sha r → Exit t
    ungrounded :
        (f : Facts) (r : Reach)
        → Traced s k f r affirmed
        → has_grounded_path r ≡ false
        → t ≡ exit_ungrounded sha r
        → Exit t
    hardening :
        (f : Facts) (r : Reach) (p : Plan)
        → Traced s k f r affirmed
        → has_grounded_path r ≡ true
        → s.plan (with_reach f r) ≡ done p
        → p.no_credible_exploit ≡ true
        → t ≡ exit_hardening sha r p
        → Exit t
    challenged :
        (f : Facts) (r : Reach) (p : Plan) (c : Challenge)
        → Traced s k f r affirmed
        → has_grounded_path r ≡ true
        → s.plan (with_reach f r) ≡ done p
        → p.no_credible_exploit ≡ false
        → s.challenge (with_plan f r p) ≡ done c
        → t ≡ exit_challenge sha r p c
        → Exit t

  plan_stage-Exit :
      (f : Facts) (r : Reach) (t : TriageOutput)
      → Traced s k f r affirmed
      → has_grounded_path r ≡ true
      → plan_stage s sha f r ≡ done t
      → Exit t
  unfolding plan_stage challenge_stage
  plan_stage-Exit f r t tr g h =
      let (p, ep, h') =
        >>=-eq-done (s.plan (with_reach f r))
          (λ plan.
            if plan.no_credible_exploit
            then done (exit_hardening sha r plan)
            else challenge_stage s sha f r plan)
          h in
      elim (Bool-cases p.no_credible_exploit) [
        | inl hard ↦ hardening f r p tr g ep hard (ground arith)
        | inr soft ↦
            let (c, ec, e) =
              >>=-eq-done (s.challenge (with_plan f r p)) (λ c. done (exit_challenge sha r p c))
                (rw soft at h') in
            challenged f r p c tr g ep soft ec (ground arith)
      ]

  by_reach-Exit :
      (f : Facts) (r : Reach) (t : TriageOutput) (a : Answer)
      → Traced s k f r a
      → by_reach s sha f r a ≡ done t
      → Exit t
  unfolding by_reach disproof_stage
  by_reach-Exit f r t denied tr h =
      let (c, ec, e) =
        >>=-eq-done (s.disproof_challenge (with_reach f r)) (λ c. done (exit_disproof sha r c)) h in
      disproof f r c tr ec (ground arith)
  by_reach-Exit f r t unclear tr h = unknown f r tr (ground arith)
  by_reach-Exit f r t affirmed tr h = elim (Bool-cases (has_grounded_path r)) [
    | inl g ↦ plan_stage-Exit f r t tr g (rw g at h)
    | inr g ↦ ungrounded f r tr g (ground arith)
  ]

  pub run_stages-Exit : (t : TriageOutput) → run_stages s sha k ≡ done t → Exit t
  unfolding run_stages trace_stage
  run_stages-Exit t h =
      let (f, ef, h₁) = >>=-eq-done (s.gather no_prior) _ h in
      let (ro, er, h₂) = >>=-eq-done (s.rule_out (with_facts f)) _ h₁ in
      elim (Bool-cases (ro.killed && kill_corroborated ro f k)) [
        | inl kill ↦ ruled_out f ro ef er (ground arith) (ground arith) (ground arith)
        | inr go ↦
            let (r, et, h₃) = >>=-eq-done (s.trace (with_facts f)) _ (rw go at h₂) in
            by_reach-Exit f r t r.reached (record { gathered = ef; traced = et; answered = refl })
              h₃
      ]
