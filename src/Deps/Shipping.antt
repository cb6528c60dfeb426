-- ===== src/Deps/Shipping.antt =====
-- The dependency manifest and the dependency gate together: what a cleared dependency is.
use cliff.Common.{String, ◌≡◌, true, some, List, [], ◌∷◌, keep}
use cliff.Common.Text.{Text}
use cliff.Json.{items, Value, obj}
use cliff.Triage.DepManifest.{is_clearable, parsed, node_matches}
use cliff.Deps.Reached.{Shipped}
use cliff.Deps.Build.{
  DepNode, DepManifest, ManifestFile, Walks, build_dep_manifest, dump_node, node_items,
}
use cliff.Deps.Nodes.{Sourced}

module _ (walks : Walks) where
  -- A value of the dumped manifest is the dump of a sourced node.
  IsDumped : List ManifestFile → Value → Type 0
  IsDumped files v = (n : DepNode) × (v ≡ obj (dump_node n)) × Sourced walks files n

  -- the values of the manifest's nodes with the name and the version
  abbrev pub found_in : Text → Text → DepManifest → List Value
  found_in name version m = keep (node_matches name version) (items (node_items m.nodes))

  -- What stands behind a dependency that the gate cleared.
  pub record Unshipped (location : Value) : Type 0 where
    pub name : Text
    pub version : Text
    pub node : DepNode
    pub files : List ManifestFile
    pub located : parsed location ≡ some (name, version)
    pub single : found_in name version (build_dep_manifest walks) ≡ obj (dump_node node) ∷ []
    pub discovered : walks.discover_manifests ≡ some files
    pub sourced : Sourced walks files node
    pub unimported : node.import_sites ≡ []
    pub rooted :
        (s : String) × Shipped sourced.graph (node.name, node.version) s sourced.graph.roots
    pub unshipped :
        (s : String)
        → Shipped sourced.graph (node.name, node.version) s sourced.graph.roots
        → is_clearable s ≡ true
