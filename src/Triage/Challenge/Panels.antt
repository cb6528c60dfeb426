-- ===== src/Triage/Challenge/Panels.antt =====
-- What it takes for a verdict, and for a disproof, to hold.
use cliff.Common.{
  ◌*◌, ◌≤◌, ◌<◌, String, ◌≡◌, ◌↔◌, Bool, true, false, Option, none, some, List, [], ◌∷◌, any,
  length, count_if-le-length, arith, not, ◌&&◌, ◌||◌, if◌then◌else◌,
}
use cliff.Triage.Output.{needs_review, Reviewer, holds, refuted}
use cliff.Triage.Challenge.{
  is_refuted, refuted_count, bypasses, resolve_challenge, resolve_disproof, review_of,
  run_challenge_panel, run_disproof_challenge,
}

-- A challenged verdict holds exactly when no more than half of the reviewers refute it; a verdict
-- that does not hold becomes needs_review.
pub resolve_challenge_majority :
    (reviewers : List Reviewer)
    → let c = resolve_challenge reviewers in
      ((c.verdict_holds ≡ true) ↔ (2 * refuted_count reviewers ≤ length reviewers))
      × (c.verdict_holds ≡ false → c.downgraded_verdict ≡ some needs_review)
unfolding resolve_challenge
resolve_challenge_majority [] = ground arith
resolve_challenge_majority (r ∷ rs) =
    ground (arith, count_if-le-length (λ (q : Reviewer). is_refuted q.verdict) (r ∷ rs))

-- A disproof holds exactly when no reviewer of the bypass lens refutes it and fewer than half of
-- the reviewers do; with no reviewer it does not hold.
pub resolve_disproof_majority :
    (reviewers : List Reviewer)
    → let c = resolve_disproof reviewers in
      ((c.verdict_holds ≡ true)
        ↔ ((any bypasses reviewers ≡ false) × (2 * refuted_count reviewers < length reviewers)))
      × (c.verdict_holds ≡ false → c.downgraded_verdict ≡ some needs_review)
unfolding resolve_disproof
resolve_disproof_majority [] = ground arith
resolve_disproof_majority (r ∷ rs) =
    ground (arith, count_if-le-length (λ (q : Reviewer). is_refuted q.verdict) (r ∷ rs))

-- The reviewer of a lens completed, and lets the claim stand, or refutes it.
abbrev pub upholds : Option Reviewer → Bool
upholds none = false
upholds (some r) = if is_refuted r.verdict then false else true

abbrev pub refutes : Option Reviewer → Bool
refutes none = false
refutes (some r) = is_refuted r.verdict

abbrev pub two_of : Bool → Bool → Bool → Bool
two_of a b c = a && b || a && c || b && c

disproof_of_answers :
    (a b c : Option Reviewer)
    → (resolve_disproof (
        review_of refuted "bypass" a
        ∷ review_of refuted "scope" b
        ∷ review_of refuted "phantom" c
        ∷ [])).verdict_holds
      ≡ (upholds a && (upholds b || upholds c))
unfolding resolve_disproof review_of
disproof_of_answers none none none = ground arith
disproof_of_answers none none (some c) = ground arith
disproof_of_answers none (some b) none = ground arith
disproof_of_answers none (some b) (some c) = ground arith
disproof_of_answers (some a) none none = ground arith
disproof_of_answers (some a) none (some c) = ground arith
disproof_of_answers (some a) (some b) none = ground arith
disproof_of_answers (some a) (some b) (some c) = ground arith

challenge_of_answers :
    (a b c : Option Reviewer)
    → (resolve_challenge (
        review_of holds "reachability" a
        ∷ review_of holds "exploit" b
        ∷ review_of holds "impact" c
        ∷ [])).verdict_holds
      ≡ not (two_of (refutes a) (refutes b) (refutes c))
unfolding resolve_challenge review_of
challenge_of_answers a b c = ground arith

-- The disproof panel clears a finding exactly when its bypass reviewer completes and holds, and so
-- does one of the scope and phantom reviewers: a reviewer that does not complete counts against.
pub disproof_panel :
    (ask : String → Option Reviewer)
    → (run_disproof_challenge ask).verdict_holds
      ≡ (upholds (ask "bypass") && (upholds (ask "scope") || upholds (ask "phantom")))
unfolding run_disproof_challenge
disproof_panel ask = disproof_of_answers (ask "bypass") (ask "scope") (ask "phantom")

-- The challenge panel upholds a verdict unless two of its three reviewers complete and refute it.
pub challenge_panel :
    (ask : String → Option Reviewer)
    → (run_challenge_panel ask).verdict_holds
      ≡ not
          (two_of (refutes (ask "reachability")) (refutes (ask "exploit")) (refutes (ask "impact")))
unfolding run_challenge_panel
challenge_panel ask = challenge_of_answers (ask "reachability") (ask "exploit") (ask "impact")
