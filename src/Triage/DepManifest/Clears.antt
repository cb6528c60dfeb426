-- ===== src/Triage/DepManifest/Clears.antt =====
-- When triage_dep_manifest.py clears a dependency, and that it reads back the location that the
-- triage run writes.
use cliff.Common.{
  ◌≡◌, refl, true, false, Option, none, some, List, [], ◌∷◌, ◌++◌, any, arith, inl, inr, Bool-cases,
}
use cliff.Common.Text.{Text, strip}
use cliff.Json.{Value, Fields, get, truthy, str, obj, arr}
use cliff.Triage.Output.{false_positive, TriageOutput}
use cliff.Triage.DepManifest.{
  Print, rpartition_at, is_at, is_nil, parse_location, parsed, matches_in, scopes_clear,
  no_import_sites, node_clears, only, by_node, by_name, resolve_by_dep_manifest,
}

rpartition-none : (s : Text) → any is_at s ≡ false → rpartition_at s ≡ ([], false, s)
unfolding rpartition_at
rpartition-none [] h = refl
rpartition-none (c ∷ s) h = ground (arith, rpartition-none s)

rpartition-at :
    (name version : Text)
    → any is_at version ≡ false
    → rpartition_at (name ++ 64 ∷ version) ≡ (name, true, version)
unfolding rpartition_at
rpartition-at [] version h = ground (arith, rpartition-none version h)
rpartition-at (c ∷ name) version h = ground (arith, rpartition-at name version h)

-- A name and a version that are joined with `@`, as the triage run joins them, are read back as
-- they were, also for a name that starts with `@`: both are not empty, the version has no `@`, and
-- there is no white space around them.
pub parse_location-join :
    (name version : Text)
    → is_nil name ≡ false
    → is_nil version ≡ false
    → any is_at version ≡ false
    → strip (name ++ 64 ∷ version) ≡ name ++ 64 ∷ version
    → parse_location (name ++ 64 ∷ version) ≡ some (name, version)
unfolding parse_location
parse_location-join name version hn hv ha hs = rw (hs, rpartition-at name version ha) (ground arith)

-- What a cleared dependency satisfies.
pub record Cleared (manifest : Fields) (location : Value) : Type 0 where
  pub name : Text
  pub version : Text
  pub node : Fields
  pub located : parsed location ≡ some (name, version)
  pub single : matches_in name version (get manifest "nodes") ≡ obj node ∷ []
  pub scopes : scopes_clear (get node "scopes") ≡ true
  pub unimported : no_import_sites (get node "import_sites") ≡ true
  pub resolved : truthy (get node "import_name") ≡ true

only-single : (vs : List Value) (node : Fields) → only vs ≡ some node → vs ≡ obj node ∷ []
only-single (obj n ∷ []) node h = ground arith
only-single [] node h = absurd (cc)
only-single (Value.null ∷ []) node h = absurd (cc)
only-single (Value.bool x ∷ []) node h = absurd (cc)
only-single (Value.int x ∷ []) node h = absurd (cc)
only-single (Value.float x e ∷ []) node h = absurd (cc)
only-single (str x ∷ []) node h = absurd (cc)
only-single (arr x ∷ []) node h = absurd (cc)
only-single (x ∷ y ∷ vs) node h = absurd (ground arith)

module _ (print : Print) (manifest : Fields) (location : Value) (t : TriageOutput) where
  by_node-Cleared :
      (name version : Text) (o : Option Fields)
      → parsed location ≡ some (name, version)
      → only (matches_in name version (get manifest "nodes")) ≡ o
      → by_node print name version o ≡ some t
      → (t.verdict ≡ false_positive) × Cleared manifest location
  by_node-Cleared name version none l e h = absurd (cc)
  by_node-Cleared name version (some n) l e h = elim (Bool-cases (node_clears n)) [
    | inl y ↦ (
      ground arith,
      record {
        name = name;
        version = version;
        node = n;
        located = l;
        single = only-single (matches_in name version (get manifest "nodes")) n e;
        scopes = ground arith;
        unimported = ground arith;
        resolved = ground arith;
      },
    )
    | inr shut ↦ absurd (ground arith)
  ]

  by_name-Cleared :
      (o : Option (Text × Text))
      → parsed location ≡ o
      → by_name print manifest o ≡ some t
      → (t.verdict ≡ false_positive) × Cleared manifest location
  by_name-Cleared none l h = absurd (cc)
  by_name-Cleared (some (name, version)) l h =
      by_node-Cleared name version (only (matches_in name version (get manifest "nodes"))) l refl h

-- The gate clears a dependency only as a false positive, and only where exactly one node of the
-- manifest has its name and version, this node's scopes are a list that is not empty and whose
-- texts are all among dev, test, docs and build, no shipping source imports it, and its import name
-- is known.
pub resolve_by_dep_manifest-Cleared :
    (print : Print) (finding manifest : Fields) (t : TriageOutput)
    → resolve_by_dep_manifest print finding (some manifest) ≡ some t
    → (t.verdict ≡ false_positive) × Cleared manifest (get finding "location")
unfolding resolve_by_dep_manifest
resolve_by_dep_manifest-Cleared print finding manifest t h =
    by_name-Cleared print manifest (get finding "location") t (parsed (get finding "location")) refl
      h
