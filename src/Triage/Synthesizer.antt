-- ===== src/Triage/Synthesizer.antt =====
-- backend/cliff/agents/runtime/triage_synthesizer.py: the quick read, a projection of what the
-- enricher and the exposure analyzer found. Their outputs are dumps of `EnrichmentOutput` and
-- `ExposureOutput` (agents/schemas.py), so the dicts are records with the fields that are read.
pub mod Verdicts
mod Examples
use cliff.Common.{
  ℕ, String, Bool, true, false, not, ◌&&◌, ◌||◌, Option, none, some, List, [], ◌∷◌, ◌++◌, ◌==◌, any,
  ltb, if◌then◌else◌,
}
use cliff.Triage.Reach.{Reached, reached, unreached, undetermined, classify_reachable}
use cliff.Triage.Output.{
  Verdict, real, unexploitable, false_positive, needs_review, Reachability, Exploitable,
  exploitable, not_exploitable, unknown, Exploitability, Kind, pass, warn, fail, info, Check,
  TriageOutput, draft, fill,
}

pub data FindingType : Type 0 where
  dependency code secret posture : FindingType

-- `cvss_score` is only compared with `None`, so the score itself is left out.
pub record Enrichment : Type 0 where
  pub cve_ids : List String
  pub has_cvss_score : Bool
  pub known_exploits : Bool
  pub exploit_details : Option String

pub record Exposure : Type 0 where
  pub internet_facing : Option Bool
  pub reachable : Option String
  pub reachability_evidence : Option String

abbrev pub needs_review_confidence : ℕ
needs_review_confidence = 70

abbrev pub is_deferred : FindingType → Bool
is_deferred code = true
is_deferred secret = true
is_deferred _ = false

abbrev no_items : List String → Bool
no_items [] = true
no_items (_ ∷ _) = false

unfoldable pub enricher_abstained : Option Enrichment → Bool
enricher_abstained none = true
enricher_abstained (some e) = no_items e.cve_ids && not e.has_cvss_score

-- `text or default`
abbrev pub or_text : Option String → String → String
or_text none default = default
or_text (some s) default = if s == "" then default else s

-- `text or other`, for two optional texts
abbrev pub or_else : Option String → Option String → Option String
or_else none other = other
or_else (some s) other = if s == "" then other else some s

unfoldable pub build_reachability : Reached → Option String → Option Reachability
build_reachability unreached evidence =
    some (record { reached = false; path = []; summary = some (or_text evidence "No path found.") })
build_reachability reached evidence =
    some (record { reached = true; path = []; summary = evidence })
build_reachability undetermined evidence = none

abbrev pub check : String → String → Kind → String → Check
check eyebrow result kind detail = record {
  eyebrow = eyebrow;
  result = result;
  kind = kind;
  detail = some detail;
}

abbrev reach_check : Reached → Option String → Check
reach_check unreached evidence =
    check "REACHABILITY" "No path found" pass
      (or_text evidence "The vulnerable function is never called from your code.")
reach_check reached evidence =
    check "REACHABILITY" "Reachable" fail
      (or_text evidence "Your code reaches the vulnerable function.")
reach_check undetermined evidence =
    check "REACHABILITY" "Undetermined" warn
      (or_text evidence "Reachability could not be determined.")

abbrev facing_check : Option Bool → Check
facing_check (some true) =
    check "NETWORK EXPOSURE" "Internet-facing" fail "Untrusted input can reach this component."
facing_check (some false) =
    check "NETWORK EXPOSURE" "Internal only" pass "Not exposed to the public internet."
facing_check none =
    check "NETWORK EXPOSURE" "Unknown" warn "Network exposure depends on the deployment."

abbrev exploit_details : Option Enrichment → Option String
exploit_details none = none
exploit_details (some e) = e.exploit_details

unfoldable pub build_checks :
    Reached → Option Bool → Bool → Option Enrichment → Option String → List Check
unfolding enricher_abstained
build_checks r internet_facing known_exploits enrichment evidence =
    let advisory =
      if enricher_abstained enrichment
      then check "ADVISORY" "No matching advisory" info
          "No CVE/CVSS was found to substantiate this finding."
        ∷ []
      else [] in
    let maturity =
      if known_exploits
      then check "EXPLOIT MATURITY" "Known exploit" fail
          (or_text (exploit_details enrichment) "A public exploit exists for this advisory.")
        ∷ []
      else [] in
    reach_check r evidence ∷ facing_check internet_facing ∷ (maturity ++ advisory)

abbrev judged : Exploitable → String → Exploitability
judged e reason = record { exploitable = e; reason = some reason }

abbrev deferred_reason : FindingType → String
deferred_reason secret =
    "A flagged secret needs review to confirm it's a true exposure — not a placeholder, test fixture, or already-rotated value. The quick read can't clear it."
deferred_reason _ =
    "Confirming whether untrusted input reaches this code requires reading the flagged line — deferred to deep analysis (the quick read reasons from the file path, not the code)."

abbrev deferred_result : FindingType → String
deferred_result secret = "Needs your review"
deferred_result _ = "Needs a code read"

abbrev deferred_detail : FindingType → String
deferred_detail secret = "A potential secret was flagged — escalated for review."
deferred_detail _ =
    "The flagged line wasn't opened — escalated for a file-level trace before any verdict."

unfoldable pub deferred_quick_verdict : FindingType → Exposure → TriageOutput
deferred_quick_verdict type exposure =
    let hint = or_else exposure.reachability_evidence exposure.reachable in
    fill (record (draft needs_review 55) {
      exploitability = some (judged unknown (deferred_reason type));
      checks =
          check "REACHABILITY" (deferred_result type) warn (or_text hint (deferred_detail type))
          ∷ [];
    })

-- the verdict, its confidence and the exploitability block, branch by branch
pub record Projection : Type 0 where
  pub verdict : Verdict
  pub confidence : ℕ
  pub exploitability : Exploitability

abbrev projection : Verdict → ℕ → Exploitable → String → Projection
projection v c e reason = record { verdict = v; confidence = c; exploitability = judged e reason }

abbrev facing_known : Option Bool → Bool
facing_known none = false
facing_known (some _) = true

abbrev facing_true : Option Bool → Bool
facing_true (some true) = true
facing_true _ = false

unfoldable pub project : Reached → Option Bool → Bool → Bool → Option String → Projection
project unreached facing known_exploits abstained evidence =
    projection unexploitable (if facing_known facing then 88 else 78) not_exploitable
      (or_text evidence "The vulnerable code path is not reachable here.")
project reached facing known_exploits abstained evidence =
    if facing_true facing
    then projection real (if known_exploits then 92 else 82) exploitable
        (or_text evidence "Reachable from an internet-facing entrypoint by untrusted input.")
    else projection needs_review 55 unknown
        "Reachable, but whether untrusted input reaches it depends on the deployment (not internet-facing / facing unknown)."
project undetermined facing known_exploits abstained evidence =
    if abstained
    then projection false_positive 74 not_exploitable
        "No public advisory substantiates this finding."
    else projection needs_review 55 unknown
        "A real advisory, but reachability of the sink is undetermined."

abbrev is_unknown : Exploitable → Bool
is_unknown unknown = true
is_unknown _ = false

abbrev is_terminal : Verdict → Bool
is_terminal real = true
is_terminal unexploitable = true
is_terminal _ = false

-- the defensive override below the threshold
unfoldable pub override : Projection → Verdict
override p =
    if is_terminal p.verdict
      && (ltb p.confidence needs_review_confidence || is_unknown p.exploitability.exploitable)
    then needs_review
    else p.verdict

abbrev knows_exploits : Option Enrichment → Bool
knows_exploits none = false
knows_exploits (some e) = e.known_exploits

-- the projection for `dependency` and `posture`
unfoldable pub quick_verdict : Option Enrichment → Exposure → TriageOutput
unfolding override
quick_verdict enrichment exposure =
    let r = classify_reachable exposure.reachable in
    let known = knows_exploits enrichment in
    let evidence = exposure.reachability_evidence in
    let facing = exposure.internet_facing in
    let p = project r facing known (enricher_abstained enrichment) evidence in
    fill (record (draft (override p) p.confidence) {
      reachability = build_reachability r evidence;
      exploitability = some p.exploitability;
      checks = build_checks r facing known enrichment evidence;
    })

abbrev pub missing_exposure : TriageOutput
missing_exposure = fill (record (draft needs_review 40) {
  exploitability =
      some (judged unknown "Exposure analysis hasn't run yet — reachability is undetermined.");
  checks =
      check "REACHABILITY" "Not yet analyzed" warn
        "Run the exposure analyzer to determine reachability."
      ∷ [];
})

unfoldable pub synthesize_triage : Option Enrichment → Option Exposure → FindingType → TriageOutput
synthesize_triage enrichment none type = missing_exposure
synthesize_triage enrichment (some exposure) type =
    if is_deferred type
    then deferred_quick_verdict type exposure
    else quick_verdict enrichment exposure
