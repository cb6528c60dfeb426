-- ===== src/Triage/Run/Lands.antt =====
-- A scanner's triage always ends with a verdict, and the verdict that is returned is stored.
use cliff.Common.{
  String, ◌≡◌, ◌≢◌, inl, inr, refl, none, some, List, [], ◌∷◌, ◌==◌, Bool-cases, eq_iff,
}
use cliff.Triage.Output.{needs_review, TriageOutput}
use cliff.Triage.Synthesizer.{missing_exposure, synthesize_triage}
use cliff.Triage.Run.{
  Finding, Services, Executed, returned, crashed, verdict, Prepared, ready, broken, failed_at,
  prerequisites, attend, prepare, conclude, run_scanner_triage,
}

module _ {W : Type 0} (s : Services W) where
  -- The executor gives a result, or none, and does not raise.
  abbrev pub Steady : Type 0
  Steady = (w : W) (agent : String) → (s.execute w agent).1 ≢ crashed

  attend-whole :
      (rest : W → W × Prepared) (agent : String)
      → ((w : W) → (rest w).1 ≢ broken)
      → (r : W × Executed) → r.1 ≢ crashed
      → (attend s rest agent r).1 ≢ broken
  unfolding attend
  attend-whole rest agent h (w, crashed) n = absurd (n refl)
  attend-whole rest agent h (w, returned none) n = λ e. absurd (cc)
  attend-whole rest agent h (w, returned (some status)) n =
      elim (Bool-cases (status == "completed")) [
        | inl y ↦ rw y (h w)
        | inr x ↦ rw x (λ e. absurd (cc))
      ]

  prepare-whole : (agents : List String) → Steady → (w : W) → (prepare s agents w).1 ≢ broken
  unfolding prepare
  prepare-whole [] h w = λ e. absurd (cc)
  prepare-whole (agent ∷ agents) h w =
      attend-whole (prepare s agents) agent (prepare-whole agents h) (s.execute w agent) (h w agent)

  conclude-lands :
      (finding : Finding) (r : W × Prepared)
      → r.1 ≢ broken
      → (w' : W) × (t : TriageOutput) × (conclude s finding r ≡ (s.persist w' t, verdict t))
  unfolding conclude
  conclude-lands finding (w, broken) n = absurd (n refl)
  conclude-lands finding (w, failed_at agent) n = (w, _, refl)
  conclude-lands finding (w, ready) n = (w, _, refl)

  -- Where the executor does not raise, the triage of a scanner's finding returns a verdict, whatever
  -- the agents end with, and its last write stores the verdict that it returns.
  pub run_scanner_triage-lands :
      (w : W) (finding : Finding)
      → Steady
      → (w' : W) × (t : TriageOutput) × (run_scanner_triage s w finding
          ≡ (s.persist w' t, verdict t))
  unfolding run_scanner_triage
  run_scanner_triage-lands w finding h =
      conclude-lands finding (prepare s prerequisites w) (prepare-whole prerequisites h w)

  -- The agents of the list are called one after the other, each in the state that the one before left.
  -- The last of them that is called ends with no result, or with a status that is not `completed`, and
  -- those before it complete. The second state is the one that it leaves.
  pub data Stops : W → List String → W → Type 0 where
    without_result :
        {w w' : W} {agent : String} {agents : List String}
        → s.execute w agent ≡ (w', returned none)
        → Stops w (agent ∷ agents) w'
    with_status :
        {w w' : W} {agent : String} {agents : List String} (status : String)
        → s.execute w agent ≡ (w', returned (some status))
        → status ≢ "completed"
        → Stops w (agent ∷ agents) w'
    after :
        {w w₁ w' : W} {agent : String} {agents : List String}
        → s.execute w agent ≡ (w₁, returned (some "completed"))
        → Stops w₁ agents w'
        → Stops w (agent ∷ agents) w'

  prepare-Stops :
      {w w' : W} {agents : List String}
      → Stops w agents w'
      → (agent : String) × (prepare s agents w ≡ (w', failed_at agent))
  unfolding prepare attend
  prepare-Stops (without_result {agent = agent} e) = (agent, rw e refl)
  prepare-Stops (with_status {agent = agent} status e n) =
      elim (Bool-cases (status == "completed")) [
        | inl y ↦ absurd (n ((eq_iff status "completed").0 y))
        | inr x ↦ (agent, rw (e, x) refl)
      ]
  prepare-Stops (after e stop) = let (agent, h) = prepare-Stops stop in (agent, rw e h)

  -- Where a prerequisite agent ends without a result, or with any status but `completed`, after those
  -- before it completed, the triage of a scanner's finding returns and stores the needs_review for a
  -- missing exposure, in the state which that agent left: no later agent is called, and outputs of
  -- earlier runs, the gates and the deep dive have no part in it.
  pub run_scanner_triage-degraded :
      (w w' : W) (finding : Finding)
      → Stops w prerequisites w'
      → (run_scanner_triage s w finding ≡ (s.persist w' missing_exposure, verdict missing_exposure))
        × (missing_exposure.verdict ≡ needs_review)
  unfolding run_scanner_triage conclude synthesize_triage
  run_scanner_triage-degraded w w' finding stop =
      let (agent, h) = prepare-Stops stop in (rw h, refl)
