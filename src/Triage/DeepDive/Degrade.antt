-- ===== src/Triage/DeepDive/Degrade.antt =====
-- Every verdict of the deep dive, degraded ones included: what always holds of it, and that there is
-- one.
use cliff.Common.{◌≤◌, String, ◌≡◌, refl, Bool, true, false, Option, arith, ◌&&◌, if◌then◌else◌}
use cliff.Triage.Output.{needs_review, TriageOutput, verdict_to_close}
use cliff.Triage.Findings.{
  Facts, Reach, Answer, affirmed, denied, unclear, Knowledge, has_grounded_path, kill_corroborated,
}
use cliff.Triage.DeepDive.{
  Stages, Prior, Failure, usage_limit, transport, model_http, other, Outcome, done, failed, ◌>>=◌,
  no_prior, with_facts, with_reach, with_plan, challenge_stage, plan_stage, disproof_stage,
  by_reach, trace_stage, run_stages, is_recoverable, handle, run,
}
use cliff.Triage.DeepVerdicts.{
  gate_clear, exit_rule_out, exit_disproof, exit_unknown, exit_ungrounded, exit_hardening,
  exit_challenge, clamp_real, incomplete,
}
use cliff.Triage.DeepDive.Exits.{
  Exit, ruled_out, disproof, unknown, ungrounded, hardening, challenged, run_stages-Exit,
}

Exit-Coherent :
    (s : Stages) (k : Knowledge) (sha : Option String) (t : TriageOutput)
    → Exit s k sha t
    → (t.recommended_close ≡ verdict_to_close t.verdict) × (t.confidence ≤ 100)
unfolding exit_rule_out exit_disproof exit_unknown exit_ungrounded exit_hardening exit_challenge
    clamp_real
Exit-Coherent s k sha t (ruled_out f ro ef er x y e) = ground arith
Exit-Coherent s k sha t (disproof f r ch tr ec e) = ground arith
Exit-Coherent s k sha t (unknown f r tr e) = ground arith
Exit-Coherent s k sha t (ungrounded f r tr g e) = ground arith
Exit-Coherent s k sha t (hardening f r p tr g ep y e) = ground arith
Exit-Coherent s k sha t (challenged f r p ch tr g ep n ec e) = ground arith

handle-Coherent :
    (can_clear : Bool) (o : Outcome TriageOutput) (t : TriageOutput)
    → ((u : TriageOutput)
        → o ≡ done u
        → (u.recommended_close ≡ verdict_to_close u.verdict) × (u.confidence ≤ 100))
    → handle can_clear o ≡ done t
    → (t.recommended_close ≡ verdict_to_close t.verdict) × (t.confidence ≤ 100)
unfolding handle gate_clear incomplete
handle-Coherent can_clear (done u) t fine h = ground (arith, fine u refl)
handle-Coherent can_clear (failed usage_limit) t fine h = ground arith
handle-Coherent can_clear (failed transport) t fine h = ground arith
handle-Coherent can_clear (failed (model_http status m)) t fine h = ground arith
handle-Coherent can_clear (failed (other name)) t fine h = ground arith

-- Whatever the stages give and whichever judge is configured, a verdict of the deep dive has the
-- close that fits it, also after the tier gate took the dismissal back, and a confidence in bounds.
pub run-coherent :
    (s : Stages) (can_clear : Bool) (sha : Option String) (k : Knowledge) (t : TriageOutput)
    → run s can_clear sha k ≡ done t
    → (t.recommended_close ≡ verdict_to_close t.verdict) × (t.confidence ≤ 100)
unfolding run
run-coherent s can_clear sha k t h =
    handle-Coherent can_clear (run_stages s sha k) t
      (λ u e. Exit-Coherent s k sha u (run_stages-Exit s k sha u e)) h

-- The failures that `run` catches.
unfoldable pub is_caught : Failure → Bool
is_caught usage_limit = true
is_caught transport = true
is_caught (model_http status message) = is_recoverable status message
is_caught (other name) = false

abbrev pub degrades : {A : Type 0} → Outcome A → Bool
degrades (done a) = true
degrades (failed e) = is_caught e

degrades->>= :
    {A B : Type 0} (m : Outcome A) (f : A → Outcome B)
    → degrades m ≡ true
    → ((a : A) → degrades (f a) ≡ true)
    → degrades (m >>= f) ≡ true
degrades->>= (done a) f hm hf = hf a
degrades->>= (failed e) f hm hf = hm

degrades-if :
    {A : Type 0} (b : Bool) (x y : Outcome A)
    → degrades x ≡ true
    → degrades y ≡ true
    → degrades (if b then x else y) ≡ true
degrades-if true x y hx hy = hx
degrades-if false x y hx hy = hy

-- No stage raises anything but what `run` catches.
pub record Degrading (s : Stages) : Type 0 where
  pub gather : (p : Prior) → degrades (s.gather p) ≡ true
  pub rule_out : (p : Prior) → degrades (s.rule_out p) ≡ true
  pub trace : (p : Prior) → degrades (s.trace p) ≡ true
  pub plan : (p : Prior) → degrades (s.plan p) ≡ true
  pub challenge : (p : Prior) → degrades (s.challenge p) ≡ true
  pub disproof_challenge : (p : Prior) → degrades (s.disproof_challenge p) ≡ true

module _ (s : Stages) (sha : Option String) (d : Degrading s) where
  plan_stage-degrades : (f : Facts) (r : Reach) → degrades (plan_stage s sha f r) ≡ true
  unfolding plan_stage challenge_stage
  plan_stage-degrades f r = degrades->>= (s.plan (with_reach f r)) _ (d.plan (with_reach f r)) (λ p.
      degrades-if p.no_credible_exploit _ _ refl (
        degrades->>= (s.challenge (with_plan f r p)) _ (d.challenge (with_plan f r p)) (λ c. refl)))

  by_reach-degrades : (f : Facts) (r : Reach) (a : Answer) → degrades (by_reach s sha f r a) ≡ true
  unfolding by_reach disproof_stage
  by_reach-degrades f r denied =
      degrades->>= (s.disproof_challenge (with_reach f r)) _ (d.disproof_challenge (with_reach f r))
        (λ c. refl)
  by_reach-degrades f r unclear = refl
  by_reach-degrades f r affirmed =
      degrades-if (has_grounded_path r) _ _ (plan_stage-degrades f r) refl

  run_stages-degrades : (k : Knowledge) → degrades (run_stages s sha k) ≡ true
  unfolding run_stages trace_stage
  run_stages-degrades k = degrades->>= (s.gather no_prior) _ (d.gather no_prior) (λ f.
      degrades->>= (s.rule_out (with_facts f)) _ (d.rule_out (with_facts f)) (λ ro.
        degrades-if (ro.killed && kill_corroborated ro f k) _ _ refl (
          degrades->>= (s.trace (with_facts f)) _ (d.trace (with_facts f))
            (λ r. by_reach-degrades f r r.reached))))

handle_returns :
    (can_clear : Bool) (o : Outcome TriageOutput)
    → degrades o ≡ true
    → (t : TriageOutput) × (handle can_clear o ≡ done t)
      × ((e : Failure) → o ≡ failed e → t.verdict ≡ needs_review)
unfolding handle incomplete is_caught
handle_returns can_clear (done u) h = (gate_clear can_clear u, refl, λ e x. absurd (cc))
handle_returns can_clear (failed usage_limit) h = (_, refl, λ e x. refl)
handle_returns can_clear (failed transport) h = (_, refl, λ e x. refl)
handle_returns can_clear (failed (model_http status m)) h =
    (incomplete "Analysis could not complete (provider/context)", (rw h), λ e x. refl)
handle_returns can_clear (failed (other name)) h = absurd (cc)

-- Where the stages raise only what `run` catches (the usage limit, a lost connection, an
-- overloaded provider, a context that is too long), the deep dive always returns a verdict, and one
-- that could not be completed goes to a review.
pub run_returns :
    (s : Stages) (can_clear : Bool) (sha : Option String) (k : Knowledge)
    → Degrading s
    → (t : TriageOutput) × (run s can_clear sha k ≡ done t)
      × ((e : Failure) → run_stages s sha k ≡ failed e → t.verdict ≡ needs_review)
unfolding run
run_returns s can_clear sha k d =
    handle_returns can_clear (run_stages s sha k) (run_stages-degrades s sha d k)
