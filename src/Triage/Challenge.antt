-- ===== src/Triage/Challenge.antt =====
-- backend/cliff/agents/triage_deep/challenge.py: the two panels that try to break a verdict. The
-- reviewer agents are not modelled: `ask` gives the answer to a lens, `none` where the run raised.
pub mod Panels
mod Examples
use cliff.Common.{
  ℕ, ◌+◌, ◌-◌, String, Bool, true, false, not, ◌&&◌, ◌||◌, Option, none, some, List, [], ◌∷◌, map,
  ◌==◌, ltb, leb, eqb, any, length, count_if, if◌then◌else◌,
}
use cliff.Common.Int.{ℤ, pos, negsuc}
use cliff.Triage.Output.{
  Verdict, needs_review, Reviewer, ReviewerVerdict, holds, refuted, Challenge,
}

abbrev pub is_refuted : ReviewerVerdict → Bool
is_refuted refuted = true
is_refuted holds = false

abbrev pub refuted_count : List Reviewer → ℕ
refuted_count = count_if (λ r. is_refuted r.verdict)

abbrev held : List Reviewer → ℤ → Challenge
held reviewers adjustment = record {
  verdict_holds = true;
  reviewers = reviewers;
  downgraded_verdict = none;
  confidence_adjustment = adjustment;
}

-- a verdict that goes to a review, 0.25 less sure
abbrev downgraded : List Reviewer → Challenge
downgraded reviewers = record {
  verdict_holds = false;
  reviewers = reviewers;
  downgraded_verdict = some needs_review;
  confidence_adjustment = negsuc 24;
}

unfoldable pub resolve_challenge : List Reviewer → Challenge
resolve_challenge [] = held [] (pos 0)
resolve_challenge (r ∷ rs) =
    let reviewers = r ∷ rs in
    let no = refuted_count reviewers in
    let yes? = length reviewers - no in
    if ltb yes? no
    then downgraded reviewers
    else if eqb no yes? && ltb 0 no
    then held reviewers (negsuc 9)
    else held reviewers (pos 0)

abbrev pub bypasses : Reviewer → Bool
bypasses r = r.lens == "bypass" && is_refuted r.verdict

unfoldable pub resolve_disproof : List Reviewer → Challenge
resolve_disproof [] = downgraded []
resolve_disproof (r ∷ rs) =
    let reviewers = r ∷ rs in
    let no = refuted_count reviewers in
    let yes? = length reviewers - no in
    if any bypasses reviewers || leb yes? no then downgraded reviewers else held reviewers (pos 0)

abbrev pub challenge_lenses : List String
challenge_lenses = "reachability" ∷ "exploit" ∷ "impact" ∷ []

abbrev pub disproof_lenses : List String
disproof_lenses = "bypass" ∷ "scope" ∷ "phantom" ∷ []

-- the inner function of `_run_reviewers`: an answer keeps the lens that was asked for
unfoldable pub review_of : ReviewerVerdict → String → Option Reviewer → Reviewer
review_of incomplete lens none = record {
  lens = lens;
  verdict = incomplete;
  refutation = some "reviewer did not complete";
}
review_of incomplete lens (some r) = record r { lens = lens }

unfoldable pub run_reviewers :
    (String → Option Reviewer) → List String → ReviewerVerdict → List Reviewer
unfolding review_of
run_reviewers ask lenses incomplete = map (λ lens. review_of incomplete lens (ask lens)) lenses

unfoldable pub run_challenge_panel : (String → Option Reviewer) → Challenge
unfolding run_reviewers resolve_challenge
run_challenge_panel ask = resolve_challenge (run_reviewers ask challenge_lenses holds)

unfoldable pub run_disproof_challenge : (String → Option Reviewer) → Challenge
unfolding run_reviewers resolve_disproof
run_disproof_challenge ask = resolve_disproof (run_reviewers ask disproof_lenses refuted)
