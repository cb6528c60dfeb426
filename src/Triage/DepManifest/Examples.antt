-- ===== src/Triage/DepManifest/Examples.antt =====
-- The dependency gate on concrete manifests.
use cliff.Common.{◌≡◌, refl, Bool, true, false, Option, none, some}
use cliff.Common.Text.{codes, same, strip, lower}
use cliff.Json.{null, str, obj, arr, Items, nil, cons, Fields, field, end, get, truthy, is_str}
use cliff.Triage.Output.{false_positive, TriageOutput}
use cliff.Triage.DepManifest.{
  Print, rpartition_at, parse_location, pep503, name_matches, node_matches, scopes_clear, detail,
  clear, resolve_by_dep_manifest,
}
use cliff.Triage.DepManifest.Clears.{Cleared, resolve_by_dep_manifest-Cleared}

gate : Unit {0}
unfolding rpartition_at parse_location pep503 name_matches node_matches scopes_clear detail
    resolve_by_dep_manifest get truthy is_str same strip lower
gate = tt

abbrev print : Print
print = record { text = λ t. "t"; value = λ v. "v"; sorted_set = λ s. "s" }

abbrev node : Items → Items → Fields
node scopes import_sites = field "name" (str "ruamel-yaml") (
    field "ecosystem" (str "pypi") (
      field "version" (str "0.18") (
        field "scopes" (arr scopes)
          (field "import_sites" (arr import_sites) (field "import_name" (str "ruamel") end)))))

abbrev manifest : Items → Items → Fields
manifest scopes import_sites = field "nodes" (arr (cons (obj (node scopes import_sites)) nil)) end

abbrev dev : Items
dev = cons (str "dev") nil

abbrev finding : Fields
finding = field "location" (str "Ruamel.YAML@0.18") end

abbrev clears : Option TriageOutput → Bool
clears none = false
clears (some t) = true

-- A scope that is no text is passed over, so a list of such scopes clears.
gates :
    (clears (resolve_by_dep_manifest print finding (some (manifest dev nil))) ≡ true)
    × (clears (resolve_by_dep_manifest print finding (some (manifest (cons (str "prod") dev) nil)))
        ≡ false)
    × (clears (resolve_by_dep_manifest print finding (some (manifest dev dev))) ≡ false)
    × (clears (resolve_by_dep_manifest print finding (some (manifest (cons null nil) nil))) ≡ true)
unfolding gate
gates = (refl, refl, refl, refl)

abbrev cleared : TriageOutput
cleared = clear print (detail print (codes "Ruamel.YAML") (codes "0.18") (node dev nil))

resolve_by_dep_manifest-Cleared_example :
    (cleared.verdict ≡ false_positive) × Cleared (manifest dev nil) (get finding "location")
unfolding gate
resolve_by_dep_manifest-Cleared_example =
    resolve_by_dep_manifest-Cleared print finding (manifest dev nil) cleared refl
