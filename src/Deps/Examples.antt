-- ===== src/Deps/Examples.antt =====
-- The dependency graph on a small lockfile: a shipped package and a tool, each with a dependency, and
-- a cycle below the tool.
use cliff.Common.{String, ◌≡◌, refl, true, false, none, some, [], ◌∷◌, ◌↔◌}
use cliff.Common.Text.{codes, same, strip, lower}
use cliff.Json.{str, Fields, field, end, get, truthy, is_str}
use cliff.Triage.Output.{TriageOutput}
use cliff.Triage.DepManifest.{
  Print, rpartition_at, parse_location, pep503, name_matches, node_matches, scopes_clear, detail,
  clear, resolve_by_dep_manifest,
}
use cliff.Deps.{
  Package, same_package, turn, is_in, visit, get_or, add_text, declare, DepGraph, empty_graph,
  add_root, add_edge, add_node, propagate_scopes, Scopes,
}
use cliff.Deps.Reached.{Shipped, propagate_scopes-Shipped}
use cliff.Deps.Entries.{has_scope}
use cliff.Deps.Build.{
  DepNode, Walks, build_dep_manifest, dump_node, dump_manifest, text_le, sorted, insert, assemble,
  add_ecosystem, try_nodes, list_nodes,
}

abbrev graph : DepGraph
unfolding add_root add_edge
graph =
    add_edge ("chai", "5.0") ("vitest", "1.0")
      (add_edge ("vitest", "1.0") ("chai", "5.0")
        (add_edge ("app", "2.0") ("lodash", "4.0")
          (add_node "chai" "5.0" "npm" (
            add_node "lodash" "4.0" "npm" (
              add_root "vitest" "1.0" "dev" "package.json" "npm"
                (add_root "app" "2.0" "prod" "package.json" "npm" empty_graph))))))

found : Scopes
found =
    (("app", "2.0"), "prod" ∷ [])
    ∷ (("vitest", "1.0"), "dev" ∷ [])
    ∷ (("lodash", "4.0"), "prod" ∷ [])
    ∷ (("chai", "5.0"), "dev" ∷ [])
    ∷ []

gate : Unit {0}
unfolding rpartition_at parse_location pep503 name_matches node_matches scopes_clear detail
    resolve_by_dep_manifest get truthy is_str same strip lower graph propagate_scopes
    build_dep_manifest dump_node dump_manifest assemble add_ecosystem try_nodes same_package
    list_nodes turn is_in visit get_or add_text insert declare sorted text_le found
gate = tt

scopes : propagate_scopes graph ≡ some found
unfolding gate
scopes = refl

sorts : sorted ("test" ∷ "build" ∷ "tes" ∷ []) ≡ "build" ∷ "tes" ∷ "test" ∷ []
unfolding gate
sorts = refl

abbrev walks : Walks
walks = record {
  discover_manifests = some (record { path = "package.json"; ecosystem = "npm" } ∷ []);
  parse_npm = λ ms. some (graph, []);
  parse_pypi = λ ms. none;
  collect_import_sites = λ eco. some (λ name. []);
  dist_to_import = λ name. some name;
}

abbrev chai : DepNode
chai = record {
  name = "chai";
  version = "5.0";
  ecosystem = "npm";
  scopes = "dev" ∷ [];
  direct = false;
  declared_in = [];
  import_name = some "chai";
  import_sites = [];
}

abbrev print : Print
print = record { text = λ t. "t"; value = λ v. "v"; sorted_set = λ s. "s" }

abbrev finding : Fields
finding = field "location" (str "chai@5.0") end

abbrev cleared : TriageOutput
cleared = clear print (detail print (codes "chai") (codes "5.0") (dump_node chai))

propagate_scopes-Shipped_example :
    (scopes : Scopes) × (propagate_scopes graph ≡ some scopes)
    × ((v : Package) (s : String) → (has_scope scopes v s ≡ true) ↔ Shipped graph v s graph.roots)
propagate_scopes-Shipped_example = propagate_scopes-Shipped graph
