-- ===== src/Triage/Reach.antt =====
-- backend/cliff/agents/runtime/triage_synthesizer.py: the reading of the analyzer's free text on
-- reachability.
pub mod Hedges
use cliff.Common.{
  String, Bool, ◌||◌, Option, none, some, List, [], ◌∷◌, ◌++◌, ◌==◌, any, if◌then◌else◌,
}
use cliff.Common.Text.{Text, codes, lower, strip, contains, same}

abbrev pub reach_negative : List String
reach_negative =
    "no path" ∷ "not reachable" ∷ "unreachable" ∷ "not exploitable" ∷ "cannot be reached"
    ∷ "no reachable path" ∷ []

abbrev pub reach_uncertain : List String
reach_uncertain =
    "unlikely" ∷ "unknown" ∷ "unclear" ∷ "depends" ∷ "maybe" ∷ "possibl" ∷ "indeterminate"
    ∷ "uncertain" ∷ []

abbrev pub reach_hedge : List String
reach_hedge =
    "likely" ∷ "probabl" ∷ "suggest" ∷ "appears" ∷ "seems" ∷ "may " ∷ "might" ∷ "could" ∷ "would "
    ∷ "potential" ∷ "presum" ∷ "assume" ∷ "needs verification" ∷ "need to verify"
    ∷ "needs confirmation" ∷ "to confirm" ∷ "not confirmed" ∷ "unverified" ∷ "needs analysis"
    ∷ "need to trace" ∷ "needs further" ∷ "requires verification" ∷ "cannot confirm"
    ∷ "unable to confirm" ∷ []

abbrev pub reach_affirmative : List String
reach_affirmative = "reachable" ∷ "yes" ∷ "true" ∷ "confirmed" ∷ "direct" ∷ "exploitable" ∷ []

abbrev pub reach_unknown : List String
reach_unknown = reach_uncertain ++ reach_hedge

pub data Reached : Type 0 where
  reached unreached undetermined : Reached

-- any(k in s for k in keywords)
unfoldable pub any_in : List String → Text → Bool
any_in keywords s = any (λ k. contains s (codes k)) keywords

-- s in ("no", "false", "none")
unfoldable pub flat_no : Text → Bool
flat_no s = same s (codes "no") || same s (codes "false") || same s (codes "none")

unfoldable pub classify_text : Text → Reached
classify_text s =
    if any_in reach_unknown s
    then undetermined
    else if any_in reach_negative s || flat_no s
    then unreached
    else if any_in reach_affirmative s
    then reached
    else undetermined

unfoldable pub classify_reachable : Option String → Reached
classify_reachable none = undetermined
classify_reachable (some s) =
    if s == "" then undetermined else classify_text (lower (strip (codes s)))
