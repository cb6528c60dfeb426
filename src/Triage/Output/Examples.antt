-- ===== src/Triage/Output/Examples.antt =====
-- The validator of a triage output on concrete outputs.
use cliff.Common.{◌≡◌, refl, some}
use cliff.Common.Result.{raise, validation_error}
use cliff.Triage.Output.{real, unexploitable, Close, TriageOutput, validate, draft}

abbrev contradictory : TriageOutput
contradictory = record (draft unexploitable 80) { recommended_close = some Close.false_positive }

refuses :
    (validate contradictory ≡ raise validation_error)
    × (validate (draft real 101) ≡ raise validation_error)
unfolding validate
refuses = (refl, refl)
