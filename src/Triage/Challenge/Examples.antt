-- ===== src/Triage/Challenge/Examples.antt =====
-- The panels on concrete answers.
use cliff.Common.{
  String, ◌≡◌, refl, true, false, not, ◌&&◌, ◌||◌, Option, none, some, List, [], ◌∷◌, ◌==◌,
  if◌then◌else◌,
}
use cliff.Triage.Output.{Reviewer, ReviewerVerdict, holds, refuted}
use cliff.Triage.Challenge.{
  resolve_challenge, resolve_disproof, run_challenge_panel, run_disproof_challenge,
}
use cliff.Triage.Challenge.Panels.{upholds, refutes, two_of, disproof_panel, challenge_panel}

abbrev reviewer : String → ReviewerVerdict → Reviewer
reviewer lens verdict = record { lens = lens; verdict = verdict; refutation = none }

-- A found bypass is not outvoted.
abbrev panel : List Reviewer
panel = reviewer "bypass" refuted ∷ reviewer "scope" holds ∷ reviewer "phantom" holds ∷ []

abbrev answers : String → Option Reviewer
answers lens =
    if lens == "bypass"
    then some (reviewer "exploit" refuted)
    else if lens == "scope"
    then none
    else some (reviewer "scope" holds)

panel-runs :
    ((resolve_disproof panel).verdict_holds ≡ false)
    × ((resolve_challenge panel).verdict_holds ≡ true)
    × ((run_disproof_challenge answers).verdict_holds ≡ false)
unfolding resolve_disproof resolve_challenge run_disproof_challenge
panel-runs = (refl, refl, refl)

disproof_panel_example :
    (run_disproof_challenge answers).verdict_holds
    ≡ (upholds (answers "bypass") && (upholds (answers "scope") || upholds (answers "phantom")))
disproof_panel_example = disproof_panel answers

challenge_panel_example :
    (run_challenge_panel answers).verdict_holds
    ≡ not (
        two_of
          (refutes (answers "reachability"))
          (refutes (answers "exploit"))
          (refutes (answers "impact")))
challenge_panel_example = challenge_panel answers
