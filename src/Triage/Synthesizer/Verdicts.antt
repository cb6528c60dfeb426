-- ===== src/Triage/Synthesizer/Verdicts.antt =====
-- When the quick read gives which verdict, and how sure it is.
use cliff.Common.{
  ◌<◌, ◌≡◌, ◌≢◌, ◌↔◌, refl, Bool, true, false, Option, none, some, arith, Bool-cases, inl, inr,
}
use cliff.Triage.Output.{Verdict, real, unexploitable, false_positive, needs_review}
use cliff.Triage.Reach.{Reached, reached, unreached, undetermined, classify_reachable}
use cliff.Triage.Synthesizer.{
  FindingType, Enrichment, Exposure, is_deferred, enricher_abstained, deferred_quick_verdict,
  project, quick_verdict, synthesize_triage, needs_review_confidence,
}

-- The exposure output, of a finding type that the quick read may judge.
abbrev pub Judged : FindingType → Option Exposure → (Exposure → Type 0) → Type 0
Judged type exposure P = (x : Exposure) × (exposure ≡ some x) × (is_deferred type ≡ false) × P x

-- Why the quick read leaves a finding to a review.
pub data Open (e : Option Enrichment) (type : FindingType) (x : Option Exposure) : Type 0 where
  unexposed : x ≡ none → Open e type x
  deferred : is_deferred type ≡ true → Open e type x
  not_facing :
      Judged type x
        (λ y. (classify_reachable y.reachable ≡ reached) × (y.internet_facing ≢ some true))
      → Open e type x
  advised :
      Judged type x
        (λ y. (classify_reachable y.reachable ≡ undetermined) × (enricher_abstained e ≡ false))
      → Open e type x

-- The four grounds of the four verdicts. They exclude one another.
pub data Grounds (e : Option Enrichment) (type : FindingType) (x : Option Exposure) (v : Verdict)
    : Type 0 where
  confirmed :
      Judged type x
        (λ y. (classify_reachable y.reachable ≡ reached) × (y.internet_facing ≡ some true))
      → v ≡ real
      → Grounds e type x v
  blocked :
      Judged type x (λ y. classify_reachable y.reachable ≡ unreached)
      → v ≡ unexploitable
      → Grounds e type x v
  abstained :
      Judged type x
        (λ y. (classify_reachable y.reachable ≡ undetermined) × (enricher_abstained e ≡ true))
      → v ≡ false_positive
      → Grounds e type x v
  open_question : Open e type x → v ≡ needs_review → Grounds e type x v

quick-Grounds :
    (e : Option Enrichment) (type : FindingType) (x : Exposure)
    → is_deferred type ≡ false
    → (r : Reached) → classify_reachable x.reachable ≡ r
    → (b : Option Bool) → x.internet_facing ≡ b
    → Grounds e type (some x) (quick_verdict e x).verdict
unfolding quick_verdict project
quick-Grounds e type x d unreached c b f = blocked (x, refl, d, c) (ground arith)
quick-Grounds e type x d reached c (some true) f = confirmed (x, refl, d, (c, f)) (ground arith)
quick-Grounds e type x d reached c (some false) f =
    open_question (not_facing (x, refl, d, (c, λ p. ground arith))) (ground arith)
quick-Grounds e type x d reached c none f =
    open_question (not_facing (x, refl, d, (c, λ p. ground arith))) (ground arith)
quick-Grounds e type x d undetermined c b f = elim (Bool-cases (enricher_abstained e)) [
  | inl a ↦ abstained (x, refl, d, (c, a)) (ground arith)
  | inr a ↦ open_question (advised (x, refl, d, (c, a))) (ground arith)
]

-- A verdict is real exactly on a clean statement that the code is reached, from an internet-facing
-- component; unexploitable exactly on a clean statement that it is not; false_positive exactly
-- where neither is said and the enricher found no advisory. Each needs an exposure output and a
-- type other than code and secret; all else is needs_review.
pub synthesize-Grounds :
    (e : Option Enrichment) (x : Option Exposure) (type : FindingType)
    → Grounds e type x (synthesize_triage e x type).verdict
unfolding synthesize_triage deferred_quick_verdict
synthesize-Grounds e none type = open_question (unexposed refl) refl
synthesize-Grounds e (some x) type = elim (Bool-cases (is_deferred type)) [
  | inl d ↦ open_question (deferred d) (rw d)
  | inr d ↦
      rw d (quick-Grounds e type x d (classify_reachable x.reachable) refl x.internet_facing refl)
]

-- The confidence is below the threshold of 0.70 exactly when the verdict is needs_review.
pub synthesize-threshold :
    (e : Option Enrichment) (x : Option Exposure) (type : FindingType)
    → ((synthesize_triage e x type).confidence < needs_review_confidence)
      ↔ ((synthesize_triage e x type).verdict ≡ needs_review)
unfolding synthesize_triage deferred_quick_verdict quick_verdict project
synthesize-threshold e none type = ground arith
synthesize-threshold e (some x) type = ground arith
