-- ===== src/Triage/Run.antt =====
-- backend/cliff/agents/triage_runner.py: a triage run, from the prerequisite agents to the verdict
-- that is stored. The database and the executor are the record `Services`, with the state `W`; their
-- writes are taken to succeed. The summary of the chat card is not modelled.
pub mod Lands
pub mod Dismisses
mod Examples
use cliff.Common.{
  String, Bool, true, false, not, ◌&&◌, Option, none, some, List, [], ◌∷◌, ◌==◌, if◌then◌else◌,
}
use cliff.Common.Int.{ℤ}
use cliff.Common.Text.{format}
use cliff.Common.Result.{Result, ok, raise}
use cliff.Json.{Value, null, bool, str, obj, Fields, end, get, set, truthy, as_obj}
use cliff.Triage.Output.{Verdict, TriageOutput, validate}
use cliff.Triage.Synthesizer.{FindingType, dependency, Enrichment, Exposure, synthesize_triage}
use cliff.Triage.Escalation.{Setup, starts_deep_dive, default_deep_dive_budget}
use cliff.Triage.Tiers.{clearing_is_trusted}
use cliff.Triage.Findings.{Knowledge}
use cliff.Triage.DeepDive.{Stages, Outcome, done, failed}
use cliff.Triage.DeepDive
use cliff.Triage.CodeMap.{resolve_by_code_map}
use cliff.Triage.CodeMap
use cliff.Triage.DepManifest.{resolve_by_dep_manifest}
use cliff.Triage.DepManifest

-- The finding's row; `dump` is its `model_dump(mode="json")`, `raw_payload` a dict or null.
pub record Finding : Type 0 where
  pub source_type : String
  pub type : FindingType
  pub raw_payload : Value
  pub dump : Fields

-- A call of the executor: the status of its result, `none` where there is no result.
pub data Executed : Type 0 where
  returned : Option String → Executed
  crashed : Executed

-- A read of an artifact.
pub data Loaded : Type 0 where
  loaded : Value → Loaded
  unreadable : Loaded

pub record Services (W : Type 0) : Type 0 where
  pub get_finding : W → Option Finding
  pub repo_url : Option String
  pub execute : W → String → W × Executed
  pub enrichment : W → Option Enrichment
  pub exposure : W → Option Exposure
  pub sidebar_triage : W → Option TriageOutput
  pub is_ready : W → String → Bool
  pub read_artifact : W → String → String → Loaded
  pub persist : W → TriageOutput → W
  -- what the deep dive is started with; `knowledge` is `none` where an artifact cannot be read
  pub setup : W → Setup
  pub model_full_id : String
  pub knowledge : W → Option Knowledge
  pub traced_sha : W → Option String
  pub stages : Fields → Stages
  pub code_map_print : CodeMap.Print
  pub dep_manifest_print : DepManifest.Print

-- `none` is an exception that `run_triage` lets through.
pub data Ran : Type 0 where
  verdict : TriageOutput → Ran
  no_verdict : Ran
  raised : Ran

-- How the prerequisite agents end.
pub data Prepared : Type 0 where
  ready broken : Prepared
  failed_at : String → Prepared

abbrev pub prerequisites : List String
prerequisites = "finding_enricher" ∷ "exposure_analyzer" ∷ []

abbrev pub dict_get : Value → String → Value
dict_get (obj d) k = get d k
dict_get _ k = null

abbrev pub facing : Option Exposure → Value
facing none = null
facing (some e) = elim e.internet_facing [ none ↦ null | some b ↦ bool b ]

abbrev path_value : Value → Value
path_value (str s) = str s
path_value _ = null

-- `finding_ctx`
unfoldable pub context : Finding → Option Exposure → Fields
context finding exposure =
    set (set finding.dump "internet_facing" (facing exposure)) "location"
      (path_value (dict_get finding.raw_payload "path"))

abbrev pub is_dependency : FindingType → Bool
is_dependency dependency = true
is_dependency _ = false

module _ {W : Type 0} (s : Services W) where
  unfoldable pub attend : (W → W × Prepared) → String → W × Executed → W × Prepared
  attend rest agent (w, crashed) = (w, broken)
  attend rest agent (w, returned none) = (w, failed_at agent)
  attend rest agent (w, returned (some status)) =
      if status == "completed" then rest w else (w, failed_at agent)

  -- the loop over the prerequisites
  unfoldable pub prepare : List String → W → W × Prepared
  prepare [] w = (w, ready)
  prepare (agent ∷ agents) w = attend (prepare agents) agent (s.execute w agent)

  abbrev artifact_dict : Loaded → Option Fields
  artifact_dict (loaded v) = as_obj v
  artifact_dict unreadable = none

  abbrev by_url : W → String → Option String → Option Fields
  by_url w name none = none
  by_url w name (some url) =
      if not (url == "") && s.is_ready w url
      then artifact_dict (s.read_artifact w url name)
      else none

  unfoldable pub load_artifact : W → String → Option Fields
  load_artifact w name = by_url w name s.repo_url

  -- what `deep_dive` keeps of `maybe_deep_dive`: no verdict where it does not start or raises
  abbrev kept : Outcome TriageOutput → Option TriageOutput
  kept (done t) = some t
  kept (failed _) = none

  abbrev dive : W → Fields → Option Knowledge → Option TriageOutput
  dive w finding none = none
  dive w finding (some k) =
      kept
        (DeepDive.run (s.stages finding) (clearing_is_trusted s.model_full_id) (s.traced_sha w) k)

  unfoldable pub deep_dive : W → Fields → Verdict → String → Option TriageOutput
  deep_dive w finding quick source =
      if starts_deep_dive quick finding default_deep_dive_budget source (s.setup w)
      then dive w finding (s.knowledge w)
      else none

  abbrev pub or_quick : Option TriageOutput → TriageOutput → TriageOutput
  or_quick none quick = quick
  or_quick (some t) quick = t

  -- the location that the dependency gate gets
  unfoldable pub dependency_context : Finding → Fields → Fields
  dependency_context finding ctx = set ctx "location" (
      str (
        format (
          s.dep_manifest_print.value (dict_get finding.raw_payload "package")
          ∷ "@"
          ∷ s.dep_manifest_print.value (dict_get finding.raw_payload "version")
          ∷ [])))

  abbrev pub has_package : Finding → Bool
  has_package finding =
      truthy (dict_get finding.raw_payload "package")
      && truthy (dict_get finding.raw_payload "version")

  unfoldable pub dependency_gate : W → Finding → Fields → Option TriageOutput
  dependency_gate w finding ctx =
      if is_dependency finding.type && has_package finding
      then resolve_by_dep_manifest s.dep_manifest_print (dependency_context finding ctx)
          (load_artifact w "dep_manifest")
      else none

  -- the verdict after both prerequisites: the gates, then the deep dive or the quick read
  unfoldable pub decide : W → Finding → TriageOutput
  decide w finding =
      let quick = synthesize_triage (s.enrichment w) (s.exposure w) finding.type in
      let ctx = context finding (s.exposure w) in
      or_quick (resolve_by_code_map s.code_map_print ctx (load_artifact w "code_map")) (
        or_quick (dependency_gate w finding ctx)
          (or_quick (deep_dive w ctx quick.verdict "scanner") quick))

  abbrev pub land : W → TriageOutput → W × Ran
  land w t = (s.persist w t, verdict t)

  abbrev enrichment_after : W → String → Option Enrichment
  enrichment_after w agent = if agent == "finding_enricher" then none else s.enrichment w

  -- A failed prerequisite drops its own output and the exposure.
  unfoldable pub conclude : Finding → W × Prepared → W × Ran
  conclude finding (w, broken) = (w, raised)
  conclude finding (w, failed_at agent) =
      land w (synthesize_triage (enrichment_after w agent) none finding.type)
  conclude finding (w, ready) = land w (decide w finding)

  unfoldable pub run_scanner_triage : W → Finding → W × Ran
  run_scanner_triage w finding = conclude finding (prepare prerequisites w)

  abbrev stored : W → TriageOutput → Option TriageOutput → W × Ran
  stored w quick none = (w, verdict quick)
  stored w quick (some t) = land w t

  abbrev escalated : W → Finding → Result TriageOutput → W × Ran
  escalated w finding (raise _) = (w, raised)
  escalated w finding (ok quick) = stored w quick (deep_dive w finding.dump quick.verdict "report")

  abbrev read_back : W → Finding → Option TriageOutput → W × Ran
  read_back w finding none = (w, no_verdict)
  read_back w finding (some t) = escalated w finding (validate t)

  unfoldable pub reported : Finding → W × Executed → W × Ran
  reported finding (w, crashed) = (w, raised)
  reported finding (w, returned none) = (w, no_verdict)
  reported finding (w, returned (some status)) =
      if status == "completed" then read_back w finding (s.sidebar_triage w) else (w, no_verdict)

  unfoldable pub run_report_triage : W → Finding → W × Ran
  unfolding reported
  run_report_triage w finding = reported finding (s.execute w "report_triager")

  abbrev by_source : W → Option Finding → W × Ran
  by_source w none = (w, raised)
  by_source w (some finding) =
      if finding.source_type == "report"
      then run_report_triage w finding
      else run_scanner_triage w finding

  unfoldable pub run_triage : W → W × Ran
  run_triage w = by_source w (s.get_finding w)
