-- ===== src/Triage/Run/Dismisses.antt =====
-- Who may dismiss a scanner's finding, through all the parts of a triage run.
use cliff.Common.{◌≡◌, inl, inr, refl, true, Option, none, some, arith, Bool-cases, Option-cases}
use cliff.Json.{Fields, get}
use cliff.Triage.Output.{TriageOutput}
use cliff.Triage.Synthesizer.{synthesize_triage}
use cliff.Triage.Escalation.{starts_deep_dive, default_deep_dive_budget}
use cliff.Triage.Tiers.{clearing_is_trusted}
use cliff.Triage.Findings.{Knowledge, is_clear}
use cliff.Triage.DeepDive.{Stages, Outcome, done, failed}
use cliff.Triage.DeepDive
use cliff.Triage.DeepDive.Clears.{DowngradesToReview, ClearGrounds, run-clear}
use cliff.Triage.CodeMap.{resolve_by_code_map}
use cliff.Triage.CodeMap.Clears.{path_of, resolve_by_code_map-Grounds}
use cliff.Triage.CodeMap.Clears as ByCodeMap
use cliff.Triage.DepManifest.{resolve_by_dep_manifest}
use cliff.Triage.DepManifest.Clears.{Cleared, resolve_by_dep_manifest-Cleared}
use cliff.Triage.Run.{
  Finding, Services, context, dependency_context, dependency_gate, is_dependency, load_artifact,
  deep_dive, dive, kept, or_quick, decide,
}

module _ {W : Type 0} (s : Services W) (w : W) (finding : Finding) where
  abbrev pub ctx : Fields
  ctx = context finding (s.exposure w)

  abbrev pub quick : TriageOutput
  quick = synthesize_triage (s.enrichment w) (s.exposure w) finding.type

  pub data Dismissed : Type 0 where
    non_ship_path :
        ByCodeMap.Grounds s.code_map_print
          (load_artifact s w "code_map")
          (path_of s.code_map_print (load_artifact s w "code_map") ctx)
        → Dismissed
    non_ship_package :
        (manifest : Fields)
        → is_dependency finding.type ≡ true
        → load_artifact s w "dep_manifest" ≡ some manifest
        → Cleared manifest (get (dependency_context s finding ctx) "location")
        → Dismissed
    deep :
        (k : Knowledge)
        → s.knowledge w ≡ some k
        → starts_deep_dive quick.verdict ctx default_deep_dive_budget "scanner" (s.setup w) ≡ true
        → clearing_is_trusted s.model_full_id ≡ true
        → ClearGrounds (s.stages ctx) k
        → Dismissed
    quick_read : is_clear quick.verdict ≡ true → Dismissed

  kept-done : (o : Outcome TriageOutput) (t : TriageOutput) → kept s o ≡ some t → o ≡ done t
  kept-done (done u) t h = ground arith
  kept-done (failed e) t h = absurd (cc)

  dive-clear :
      (t : TriageOutput) (o : Option Knowledge)
      → DowngradesToReview (s.stages ctx)
      → s.knowledge w ≡ o
      → starts_deep_dive quick.verdict ctx default_deep_dive_budget "scanner" (s.setup w) ≡ true
      → dive s w ctx o ≡ some t
      → is_clear t.verdict ≡ true
      → Dismissed
  dive-clear t none d e b h c = absurd (cc)
  dive-clear t (some k) d e b h c =
      let trusted = clearing_is_trusted s.model_full_id in
      let (ok?, g) =
        run-clear (s.stages ctx) trusted (s.traced_sha w) k t d
          (kept-done (DeepDive.run (s.stages ctx) trusted (s.traced_sha w) k) t h) c in
      deep k e b ok? g

  deep_dive-clear :
      (o : Option TriageOutput)
      → DowngradesToReview (s.stages ctx)
      → deep_dive s w ctx quick.verdict "scanner" ≡ o
      → is_clear (or_quick s o quick).verdict ≡ true
      → Dismissed
  unfolding deep_dive
  deep_dive-clear none d h c = quick_read c
  deep_dive-clear (some t) d h c =
      elim (Bool-cases
        (starts_deep_dive quick.verdict ctx default_deep_dive_budget "scanner" (s.setup w))) [
          | inl y ↦ dive-clear t (s.knowledge w) d refl y (rw y at h) c
          | inr n ↦ absurd (ground arith)
        ]

  dependency_gate-clear :
      (t : TriageOutput) (o : Option Fields)
      → load_artifact s w "dep_manifest" ≡ o
      → is_dependency finding.type ≡ true
      → resolve_by_dep_manifest s.dep_manifest_print (dependency_context s finding ctx) o ≡ some t
      → Dismissed
  unfolding resolve_by_dep_manifest
  dependency_gate-clear t none e d h = absurd (cc)
  dependency_gate-clear t (some m) e d h =
      non_ship_package m d e
        (resolve_by_dep_manifest-Cleared s.dep_manifest_print (dependency_context s finding ctx) m t
          h).1

  gate-clear : (t : TriageOutput) → dependency_gate s w finding ctx ≡ some t → Dismissed
  unfolding dependency_gate
  gate-clear t h = elim (Bool-cases (is_dependency finding.type)) [
    | inl y ↦ dependency_gate-clear t (load_artifact s w "dep_manifest") refl y (ground arith)
    | inr n ↦ absurd (ground arith)
  ]

  -- Where both prerequisites completed and the challenge stage downgrades to needs_review alone, a
  -- scanner's finding is dismissed only because its path does
  -- not ship, or its package does not ship, or the deep dive of a trusted model cleared it on one of
  -- its grounds, or the quick read itself dismissed it.
  pub decide-Dismissed :
      DowngradesToReview (s.stages ctx) → is_clear (decide s w finding).verdict ≡ true → Dismissed
  unfolding decide
  decide-Dismissed d c =
      elim (Option-cases
        (resolve_by_code_map s.code_map_print ctx (load_artifact s w "code_map"))) [
          | inr (t, e) ↦
              non_ship_path
                (resolve_by_code_map-Grounds s.code_map_print (load_artifact s w "code_map") ctx t
                  e).2
          | inl e ↦ elim (Option-cases (dependency_gate s w finding ctx)) [
            | inr (t, e') ↦ gate-clear t e'
            | inl e' ↦
                deep_dive-clear (deep_dive s w ctx quick.verdict "scanner") d refl (rw (e, e') at c)
          ]
        ]
