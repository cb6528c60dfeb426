-- ===== src/Triage/Synthesizer/Examples.antt =====
-- The quick read on concrete outputs of the analyzers.
use cliff.Common.{String, ◌≡◌, refl, true, none, some, inr}
use cliff.Common.Text.{codes, lower, strip, contains, same}
use cliff.Triage.Output.{real, unexploitable, false_positive, needs_review}
use cliff.Triage.Reach.{reached, undetermined, any_in, flat_no, classify_text, classify_reachable}
use cliff.Triage.Reach.Hedges.{classify_reachable-hedged}
use cliff.Triage.Synthesizer.{
  dependency, secret, Exposure, synthesize_triage, quick_verdict, project, deferred_quick_verdict,
  enricher_abstained,
}
use cliff.Triage.Synthesizer.Verdicts.{Grounds, synthesize-Grounds}

abbrev exposure : String → Exposure
exposure text = record {
  internet_facing = some true;
  reachable = some text;
  reachability_evidence = none;
}

program : Unit {0}
unfolding synthesize_triage quick_verdict project deferred_quick_verdict enricher_abstained
    classify_reachable classify_text any_in flat_no contains same strip lower
program = tt

synthesize-runs :
    ((synthesize_triage none (some (exposure "Directly reachable")) dependency).verdict ≡ real)
    × ((synthesize_triage none (some (exposure " No path found ")) dependency).verdict
        ≡ unexploitable)
    × ((synthesize_triage none (some (exposure "Likely reachable")) dependency).verdict
        ≡ false_positive)
    × ((synthesize_triage none (some (exposure "reachable")) secret).verdict ≡ needs_review)
unfolding program
synthesize-runs = (refl, refl, refl, refl)

classify_reachable-hedged_example :
    classify_reachable (some "Yes, reachable. It MAY be guarded ") ≡ undetermined
unfolding program
classify_reachable-hedged_example =
    classify_reachable-hedged "Yes, reachable. It MAY be guarded " "may "
      (codes "Yes, reachable. It ") (codes "MAY ") (codes "be guarded ") refl refl refl (inr refl)

-- A word that loses its space at the end of the text is not seen.
cut_word : classify_reachable (some "yes, it may ") ≡ reached
unfolding program
cut_word = refl

synthesize-Grounds_example :
    Grounds none dependency
      (some (exposure "yes"))
      (synthesize_triage none (some (exposure "yes")) dependency).verdict
synthesize-Grounds_example = synthesize-Grounds none (some (exposure "yes")) dependency
