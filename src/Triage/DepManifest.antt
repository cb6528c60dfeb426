-- ===== src/Triage/DepManifest.antt =====
-- backend/cliff/agents/triage_dep_manifest.py: the gate that clears a dependency that does not ship.
-- Names are lists of code points, with ASCII letters; `Print` has Python's `str` and `repr`.
pub mod Clears
mod Examples
use cliff.Common.{
  ℕ, zero, suc, String, Bool, true, false, not, ◌&&◌, ◌||◌, Option, none, some, List, [], ◌∷◌, ◌++◌,
  map, ◌==◌, any, all, keep, eqb, if◌then◌else◌,
}
use cliff.Common.Text.{Text, codes, same, strip, lower, format}
use cliff.Json.{
  items, Value, null, Fields, end, field, get, truthy, str, obj, arr, Items, nil, as_str, as_arr,
  is_str,
}
use cliff.Triage.Output.{
  Verdict, false_positive, Kind, pass, Check, Provenance, TriageOutput, draft, fill,
}

pub record Print : Type 0 where
  pub text : Text → String
  pub value : Value → String
  pub sorted_set : List String → String

abbrev pub clearable_scopes : List String
clearable_scopes = "dev" ∷ "test" ∷ "docs" ∷ "build" ∷ []

abbrev pub is_at : ℕ → Bool
is_at c = eqb c 64

-- s.rpartition("@"): the text before the last sign, whether there is one, and the text after it
unfoldable pub rpartition_at : Text → Text × Bool × Text
rpartition_at [] = ([], false, [])
rpartition_at (c ∷ s) =
    let (front, sep, back) = rpartition_at s in
    if sep then (c ∷ front, true, back) else if is_at c then ([], true, s) else ([], false, c ∷ s)

abbrev pub is_nil {ℓ} : {A : Type ℓ} → List A → Bool
is_nil [] = true
is_nil (_ ∷ _) = false

abbrev both_parts : Text × Bool × Text → Option (Text × Text)
both_parts (name, sep, version) =
    if not sep || is_nil name || is_nil version then none else some (name, version)

unfoldable pub parse_location : Text → Option (Text × Text)
parse_location loc = both_parts (rpartition_at (strip loc))

abbrev separates : ℕ → Bool
separates c = eqb c 45 || eqb c 95 || eqb c 46

-- Runs of `-`, `_` and `.` become one `-`; `inside` says that one was written.
dashes : Bool → Text → Text
dashes inside [] = []
dashes inside (c ∷ s) =
    let on = dashes true s in
    let off = dashes false s in if separates c then if inside then on else 45 ∷ on else c ∷ off

unfoldable pub pep503 : Text → Text
unfolding dashes
pep503 name = lower (dashes false name)

abbrev text_is : Value → Text → Bool
text_is (str s) t = same t (codes s)
text_is _ t = false

unfoldable pub name_matches : Fields → Text → Bool
name_matches node raw_name =
    if is_str (get node "ecosystem") "pypi"
    then text_is (get node "name") (pep503 raw_name)
    else text_is (get node "name") raw_name

unfoldable pub node_matches : Text → Text → Value → Bool
node_matches name version (obj node) =
    name_matches node name && text_is (get node "version") version
node_matches name version _ = false

abbrev pub texts : List Value → List String
texts [] = []
texts (str s ∷ vs) = s ∷ texts vs
texts (_ ∷ vs) = texts vs

abbrev pub is_clearable : String → Bool
is_clearable s = any (λ w. s == w) clearable_scopes

-- a list that is not empty, whose texts are all clearable
unfoldable pub scopes_clear : Value → Bool
scopes_clear (arr vs) =
    let scopes = items vs in not (is_nil scopes) && all is_clearable (texts scopes)
scopes_clear _ = false

-- a list that is there and empty
abbrev pub no_import_sites : Value → Bool
no_import_sites (arr nil) = true
no_import_sites _ = false

abbrev only : List Value → Option Fields
only (obj node ∷ []) = some node
only _ = none

abbrev has_key : Fields → String → Bool
has_key end k = false
has_key (field j v d) k = j == k || has_key d k

abbrev pub node_clears : Fields → Bool
node_clears node =
    scopes_clear (get node "scopes")
    && no_import_sites (get node "import_sites")
    && truthy (get node "import_name")

-- the nodes of the manifest with the name and the version
abbrev pub matches_in : Text → Text → Value → List Value
matches_in name version (arr vs) = keep (node_matches name version) (items vs)
matches_in name version _ = []

abbrev pub parsed : Value → Option (Text × Text)
parsed (str loc) = parse_location (codes loc)
parsed _ = none

module _ (print : Print) where
  abbrev scope_texts : Value → List String
  scope_texts (arr vs) = texts (items vs)
  scope_texts _ = []

  abbrev or_word : Value → String → String
  or_word v word = if truthy v then print.value v else word
      -- the default of `get` is for a missing key alone

  abbrev ecosystem : Fields → String
  ecosystem node = if has_key node "ecosystem" then print.value (get node "ecosystem") else "?"

  unfoldable pub detail : Text → Text → Fields → String
  detail name version node = format (
      print.text name
      ∷ "@"
      ∷ print.text version
      ∷ " ("
      ∷ ecosystem node
      ∷ ") reaches only "
      ∷ print.sorted_set (scope_texts (get node "scopes"))
      ∷ " roots and is imported by no shipping first-party source (declared_in="
      ∷ or_word (get node "declared_in") "transitive"
      ∷ ")"
      ∷ [])

  abbrev pub clear : String → TriageOutput
  clear text = fill (record (draft false_positive 90) {
    checks =
        record {
          eyebrow = "Dependency does not ship";
          result = "dev/test-only dependency";
          kind = pass;
          detail = some text;
        }
        ∷ [];
    provenance = some (record {
      steps_run = "dep_manifest_resolver" ∷ [];
      traced_sha = none;
      model_tiers = [];
      exit_stage = some "dep_manifest_resolver";
      escalated = false;
    });
  })

  abbrev by_node : Text → Text → Option Fields → Option TriageOutput
  by_node name version none = none
  by_node name version (some node) =
      if node_clears node then some (clear (detail name version node)) else none

  abbrev by_name : Fields → Option (Text × Text) → Option TriageOutput
  by_name manifest none = none
  by_name manifest (some (name, version)) =
      by_node name version (only (matches_in name version (get manifest "nodes")))

  -- a missing manifest and an empty one are the same
  unfoldable pub resolve_by_dep_manifest : Fields → Option Fields → Option TriageOutput
  resolve_by_dep_manifest finding none = none
  resolve_by_dep_manifest finding (some manifest) =
      by_name manifest (parsed (get finding "location"))
