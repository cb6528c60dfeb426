-- ===== src/Deps/Build.antt =====
-- backend/cliff/repos/deps/build.py: the manifest of the dependencies, from the parsed lockfiles.
-- The walks over the repository's files are the argument `Walks`: where one raises, it gives `none`.
use cliff.Common.{
  String, Bool, true, false, ◌&&◌, Option, none, some, List, [], ◌∷◌, ◌++◌, map, ◌==◌, any, all,
  keep, ltb, eqb, if◌then◌else◌,
}
use cliff.Common.Options.{◌>>=◌}
use cliff.Json.{Value, null, bool, str, obj, arr, Fields, end, field, Items, nil, cons}
use cliff.Deps.{
  Package, Dict, is_in, get_or, DepGraph, Scopes, propagate_scopes, direct_nodes, declared_in_map,
}
use cliff.Common.Text.{format}
use Prim.Native.Char.{code}

pub record DepNode : Type 0 where
  pub name : String
  pub version : String
  pub ecosystem : String
  pub scopes : List String
  pub direct : Bool
  pub declared_in : List String
  pub import_name : Option String
  pub import_sites : List String

pub record ManifestFile : Type 0 where
  pub path : String
  pub ecosystem : String

pub record DepManifest : Type 0 where
  pub ecosystems : List String
  pub workspaces : List String
  pub nodes : List DepNode
  pub unresolved : List String

-- the import sites by import name, of one walk over the first-party sources
abbrev pub Sites : Type 0
Sites = String → List String

abbrev pub Parser : Type 0
Parser = List ManifestFile → Option (DepGraph × List String)

pub record Walks : Type 0 where
  pub discover_manifests : Option (List ManifestFile)
  pub parse_npm : Parser
  pub parse_pypi : Parser
  pub collect_import_sites : String → Option Sites
  pub dist_to_import : String → Option String

-- iname.split(".")[0]
unfoldable pub first_part : String → String
first_part String.[] = String.[]
first_part (String.◌∷◌ c s) =
    let rest = first_part s in if eqb (code c) 46 then String.[] else String.◌∷◌ c rest

-- s <= t
unfoldable pub text_le : String → String → Bool
text_le String.[] t = true
text_le (String.◌∷◌ c s) String.[] = false
text_le (String.◌∷◌ c s) (String.◌∷◌ d t) =
    let rest = text_le s t in if ltb (code c) (code d) then true else eqb (code c) (code d) && rest

unfoldable pub insert : String → List String → List String
insert s [] = s ∷ []
insert s (t ∷ ts) = let rest = insert s ts in if text_le s t then s ∷ t ∷ ts else t ∷ rest

-- sorted(set)
unfoldable pub sorted : List String → List String
sorted [] = []
sorted (t ∷ ts) = insert t (sorted ts)

abbrev pub dep_scopes : List String
dep_scopes = "prod" ∷ "dev" ∷ "test" ∷ "docs" ∷ "build" ∷ "optional" ∷ []

-- What pydantic takes for the `Literal` fields.
abbrev pub valid : DepNode → Option DepNode
valid n =
    if any (λ e. e == n.ecosystem) ("npm" ∷ "pypi" ∷ [])
      && all (λ s. any (λ t. t == s) dep_scopes) n.scopes
    then some n
    else none

-- the test `if iname`
abbrev named : Option String → Option String
named none = none
named (some s) = if s == "" then none else some s

unfoldable pub lookup_key : String → String → String
unfolding first_part
lookup_key iname ecosystem = if ecosystem == "pypi" then first_part iname else iname

abbrev sites_of : Sites → Option String → String → List String
unfolding lookup_key
sites_of imports none ecosystem = []
sites_of imports (some iname) ecosystem = imports (lookup_key iname ecosystem)

-- nodes and unresolved manifests
abbrev pub Listed : Type 0
Listed = List DepNode × List String

module _ (walks : Walks) where
  unfoldable pub import_name : String → String → Option String
  import_name name ecosystem =
      if ecosystem == "npm"
      then some name
      else if ecosystem == "pypi"
      then walks.dist_to_import name
      else none

  -- The body of the loop over the nodes.
  unfoldable pub node_of : DepGraph → Scopes → Sites → Package → String → DepNode
  unfolding is_in get_or direct_nodes declared_in_map sorted import_name lookup_key
  node_of g scopes imports nv node_eco =
      let iname = import_name nv.0 node_eco in
      record {
        name = nv.0;
        version = nv.1;
        ecosystem = node_eco;
        scopes = sorted (get_or [] nv scopes);
        direct = is_in nv (direct_nodes g.roots);
        declared_in = get_or [] nv (declared_in_map g);
        import_name = iname;
        import_sites = sites_of imports (named iname) node_eco;
      }

  unfoldable pub nodes_of : DepGraph → Scopes → Sites → Dict String → Option (List DepNode)
  unfolding node_of
  nodes_of g scopes imports [] = some []
  nodes_of g scopes imports ((nv, eco) ∷ d) = do
    node ← valid (node_of g scopes imports nv eco)
    rest ← nodes_of g scopes imports d
    some (node ∷ rest)

  unfoldable pub list_nodes : DepGraph → String → Option (List DepNode)
  unfolding propagate_scopes nodes_of
  list_nodes g eco = do
    scopes ← propagate_scopes g
    imports ← walks.collect_import_sites eco
    nodes_of g scopes imports g.nodes

  -- `if not node_map: return []`
  abbrev pub unless_empty : Dict String → Option (List DepNode) → Option (List DepNode)
  unless_empty [] listed = some []
  unless_empty (_ ∷ _) listed = listed

  -- the `try` block
  unfoldable pub try_nodes : Option (DepGraph × List String) → String → Option Listed
  try_nodes none eco = none
  try_nodes (some (g, unresolved)) eco = do
    nodes ← unless_empty g.nodes (list_nodes g eco)
    some (nodes, unresolved)

  abbrev pub or_error : Option Listed → String → Listed
  or_error none eco = ([], format ("<" ∷ eco ∷ "-parse-error>" ∷ []) ∷ [])
  or_error (some listed) eco = listed

  unfoldable pub ecosystem_nodes : List ManifestFile → Parser → String → Listed
  ecosystem_nodes ms parser eco = or_error (try_nodes (parser ms) eco) eco

  abbrev pub of_ecosystem : String → List ManifestFile → List ManifestFile
  of_ecosystem eco ms = keep (λ (m : ManifestFile). m.ecosystem == eco) ms

  abbrev pub add_listed : Listed → String → DepManifest → DepManifest
  add_listed ([], missing) eco out = record out { unresolved = out.unresolved ++ missing }
  add_listed (n ∷ ns, missing) eco out = record out {
    ecosystems = out.ecosystems ++ eco ∷ [];
    nodes = out.nodes ++ n ∷ ns;
    unresolved = out.unresolved ++ missing;
  }

  -- one turn of the loop over the ecosystems
  unfoldable pub add_ecosystem : List ManifestFile → Parser → String → DepManifest → DepManifest
  unfolding ecosystem_nodes
  add_ecosystem [] parser eco out = out
  add_ecosystem (m ∷ ms) parser eco out = add_listed (ecosystem_nodes (m ∷ ms) parser eco) eco out

  abbrev pub empty_manifest : List String → List String → DepManifest
  empty_manifest workspaces unresolved = record {
    ecosystems = [];
    workspaces = workspaces;
    nodes = [];
    unresolved = unresolved;
  }

  unfoldable pub assemble : Option (List ManifestFile) → DepManifest
  assemble none = empty_manifest [] ("<discovery-error>" ∷ [])
  assemble (some ms) =
      let start = empty_manifest (map (λ (m : ManifestFile). m.path) ms) [] in
      let npm = add_ecosystem (of_ecosystem "npm" ms) walks.parse_npm "npm" start in
      add_ecosystem (of_ecosystem "pypi" ms) walks.parse_pypi "pypi" npm

  unfoldable pub build_dep_manifest : DepManifest
  build_dep_manifest = assemble walks.discover_manifests

-- model_dump()
abbrev pub text_items : List String → Items
text_items [] = nil
text_items (s ∷ ss) = cons (str s) (text_items ss)

abbrev or_null : Option String → Value
or_null none = null
or_null (some s) = str s

unfoldable pub dump_node : DepNode → Fields
dump_node n = field "name" (str n.name) (
    field "version" (str n.version) (
      field "ecosystem" (str n.ecosystem) (
        field "scopes" (arr (text_items n.scopes)) (
          field "direct" (bool n.direct) (
            field "declared_in" (arr (text_items n.declared_in)) (
              field "import_name" (or_null n.import_name)
                (field "import_sites" (arr (text_items n.import_sites)) end)))))))

unfoldable pub node_items : List DepNode → Items
unfolding dump_node
node_items [] = nil
node_items (n ∷ ns) = cons (obj (dump_node n)) (node_items ns)

unfoldable pub dump_manifest : DepManifest → Fields
unfolding node_items
dump_manifest m = field "ecosystems" (arr (text_items m.ecosystems)) (
    field "workspaces" (arr (text_items m.workspaces)) (
      field "nodes" (arr (node_items m.nodes))
        (field "unresolved" (arr (text_items m.unresolved)) end)))
