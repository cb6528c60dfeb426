-- ===== src/Deps/Nodes.antt =====
-- What the nodes of the dependency manifest say, and what the dependency gate may conclude.
use cliff.Common.{
  String, Bool, ◌≡◌, refl, sym, ◌∙◌, true, false, ◌&&◌, ◌||◌, none, some, List, [], ◌∷◌, ◌==◌, any,
  all, All, All-imp, All-append, if◌then◌else◌, arith, inl, inr, Option-cases, ◌↔◌,
}
use cliff.Common.Options.{◌>>=◌, >>=-eq-some, some_injective}
use mathlib.Core.Path.{subst}
use cliff.Deps.{
  Package, Dict, is_in, has_key, get_or, DepGraph, Scopes, propagate_scopes, text_in, direct_nodes,
}
use cliff.Deps.Entries.{has_scope, same_package_iff}
use cliff.Deps.Reached.{Shipped, propagate_scopes-Shipped}
use cliff.Deps.Build.{
  dep_scopes, DepNode, ManifestFile, DepManifest, Sites, Parser, Walks, insert, sorted, valid,
  node_of, nodes_of, list_nodes, unless_empty, try_nodes, ecosystem_nodes, add_ecosystem, Listed,
  add_listed, of_ecosystem, assemble,
}

text_in-insert :
    (s t : String) (ts : List String) → text_in s (insert t ts) ≡ (t == s || text_in s ts)
unfolding insert
text_in-insert s t [] = refl
text_in-insert s t (u ∷ ts) = ground (arith, text_in-insert s t ts)

text_in-sorted : (s : String) (ts : List String) → text_in s (sorted ts) ≡ text_in s ts
unfolding sorted
text_in-sorted s [] = refl
text_in-sorted s (t ∷ ts) = ground (arith, text_in-sorted s ts, text_in-insert s t (sorted ts))

some_if-same : (b : Bool) (n m : DepNode) → (if b then some n else none) ≡ some m → n ≡ m
some_if-same true n m h = some_injective h
some_if-same false n m h = absurd (cc)

-- The node says of each scope whether a root of that scope reaches it, and of itself whether it is
-- a root.
pub record Traced (g : DepGraph) (n : DepNode) : Type 0 where
  pub known : has_key (n.name, n.version) g.nodes ≡ true
  pub scopes : (s : String) → (text_in s n.scopes ≡ true) ↔ Shipped g (n.name, n.version) s g.roots
  pub direct : n.direct ≡ is_in (n.name, n.version) (direct_nodes g.roots)

module _ (walks : Walks) where
  Scoped : DepGraph → Scopes → Type 0
  Scoped g scopes =
      (v : Package) (s : String) → (has_scope scopes v s ≡ true) ↔ Shipped g v s g.roots

  node_of-Traced :
      (g : DepGraph) (scopes : Scopes) (imports : Sites) (nv : Package) (eco : String)
      → has_key nv g.nodes ≡ true
      → Scoped g scopes
      → Traced g (node_of walks g scopes imports nv eco)
  unfolding node_of Scoped
  node_of-Traced g scopes imports nv eco k h = record {
    known = k;
    scopes = λ s. rw (text_in-sorted s (get_or [] nv scopes)) (h nv s);
    direct = refl;
  }

  valid-same : (n m : DepNode) → valid n ≡ some m → n ≡ m
  valid-same n m h =
      some_if-same
        (any (λ e. e == n.ecosystem) ("npm" ∷ "pypi" ∷ [])
          && all (λ s. any (λ t. t == s) dep_scopes) n.scopes)
        n m h

  nodes_of-Traced :
      (g : DepGraph) (scopes : Scopes) (imports : Sites) (d : Dict String)
      → ((nv : Package) → has_key nv d ≡ true → has_key nv g.nodes ≡ true)
      → Scoped g scopes
      → (ns : List DepNode) → nodes_of walks g scopes imports d ≡ some ns
      → All (Traced g) ns
  unfolding nodes_of has_key
  nodes_of-Traced g scopes imports [] inside h ns e = subst (All (Traced g)) (some_injective e) tt
  nodes_of-Traced g scopes imports ((nv, eco) ∷ d) inside h ns e =
      let here : has_key nv g.nodes ≡ true =
        inside nv (ground (arith, (same_package_iff nv nv).1 refl)) in
      let made = node_of walks g scopes imports nv eco in
      let (n, e₁, k) =
        >>=-eq-some (valid made)
          (λ node. nodes_of walks g scopes imports d >>= λ rest. some (node ∷ rest)) e in
      let (rest, e₂, k₂) =
        >>=-eq-some (nodes_of walks g scopes imports d) (λ rest. some (n ∷ rest)) k in
      subst (All (Traced g)) (some_injective k₂) (
        subst (Traced g) (valid-same made n e₁) (node_of-Traced g scopes imports nv eco here h),
        nodes_of-Traced g scopes imports d (λ v m. inside v (ground arith)) h rest e₂,
      )

  -- The files of an ecosystem among those that the repository has, with its parser.
  pub data Reads (ms : List ManifestFile) (graph : DepGraph) : Type 0 where
    npm :
        (unresolved : List String)
        → walks.parse_npm (of_ecosystem walks "npm" ms) ≡ some (graph, unresolved)
        → Reads ms graph
    pypi :
        (unresolved : List String)
        → walks.parse_pypi (of_ecosystem walks "pypi" ms) ≡ some (graph, unresolved)
        → Reads ms graph

  -- The node stands in the graph that an ecosystem's parser read in the repository's own files of
  -- that ecosystem.
  pub record Sourced (ms : List ManifestFile) (n : DepNode) : Type 0 where
    pub graph : DepGraph
    pub read : Reads ms graph
    pub traced : Traced graph n

  list_nodes-Traced :
      (g : DepGraph) (eco : String) (ns : List DepNode)
      → list_nodes walks g eco ≡ some ns
      → All (Traced g) ns
  unfolding Scoped list_nodes
  list_nodes-Traced g eco ns e =
      let (scopes, found, h) = propagate_scopes-Shipped g in
      let (s, e₁, k) = >>=-eq-some (propagate_scopes g) _ e in
      let (imports, e₂, k₂) = >>=-eq-some (walks.collect_import_sites eco) _ k in
      let same : scopes ≡ s = some_injective (sym found ∙ e₁) in
      nodes_of-Traced g s imports g.nodes (λ v m. m) (subst (Scoped g) same h) ns k₂

  unless_empty-Traced :
      (g : DepGraph) (d : Dict String) (eco : String) (ns : List DepNode)
      → unless_empty walks d (list_nodes walks g eco) ≡ some ns
      → All (Traced g) ns
  unless_empty-Traced g [] eco ns e = subst (All (Traced g)) (some_injective e) tt
  unless_empty-Traced g (x ∷ d) eco ns e = list_nodes-Traced g eco ns e

  try_nodes-Traced :
      (g : DepGraph) (u : List String) (eco : String) (r : Listed)
      → try_nodes walks (some (g, u)) eco ≡ some r
      → All (Traced g) r.0
  unfolding try_nodes
  try_nodes-Traced g u eco r e =
      let (ns, e₁, k) = >>=-eq-some (unless_empty walks g.nodes (list_nodes walks g eco)) _ e in
      subst (λ (x : Listed). All (Traced g) x.0) (some_injective k)
        (unless_empty-Traced g g.nodes eco ns e₁)

  ecosystem_nodes-Sourced :
      (ms files : List ManifestFile) (parser : Parser) (eco : String)
      → ((graph : DepGraph) (unresolved : List String)
          → parser files ≡ some (graph, unresolved)
          → Reads ms graph)
      → All (Sourced ms) (ecosystem_nodes walks files parser eco).0
  unfolding ecosystem_nodes try_nodes
  ecosystem_nodes-Sourced ms files parser eco h = elim (Option-cases (parser files)) [
    | inl e ↦ rw e tt
    | inr ((g, u), e) ↦ elim (Option-cases (try_nodes walks (some (g, u)) eco)) [
      | inl f ↦ rw (e, f) tt
      | inr (r, f) ↦
          rw (e, f)
            (All-imp (Traced g) (Sourced ms)
              (λ n t. record { graph = g; read = h g u e; traced = t }) r.0
              (try_nodes-Traced g u eco r f))
    ]
  ]

  add_listed-Sourced :
      (ms : List ManifestFile) (listed : Listed) (eco : String) (out : DepManifest)
      → All (Sourced ms) listed.0
      → All (Sourced ms) out.nodes
      → All (Sourced ms) (add_listed walks listed eco out).nodes
  add_listed-Sourced ms ([], missing) eco out h k = k
  add_listed-Sourced ms (n ∷ ns, missing) eco out h k =
      All-append (Sourced ms) out.nodes (n ∷ ns) k h

  add_ecosystem-Sourced :
      (ms files : List ManifestFile) (parser : Parser) (eco : String) (out : DepManifest)
      → ((graph : DepGraph) (unresolved : List String)
          → parser files ≡ some (graph, unresolved)
          → Reads ms graph)
      → All (Sourced ms) out.nodes
      → All (Sourced ms) (add_ecosystem walks files parser eco out).nodes
  unfolding add_ecosystem
  add_ecosystem-Sourced ms [] parser eco out h k = k
  add_ecosystem-Sourced ms (m ∷ files) parser eco out h k =
      add_listed-Sourced ms (ecosystem_nodes walks (m ∷ files) parser eco) eco out
        (ecosystem_nodes-Sourced ms (m ∷ files) parser eco h) k

  pub assemble-Sourced :
      (ms : List ManifestFile) → All (Sourced ms) (assemble walks (some ms)).nodes
  unfolding assemble
  assemble-Sourced ms =
      add_ecosystem-Sourced ms (of_ecosystem walks "pypi" ms) walks.parse_pypi "pypi" _
        (λ g u e. pypi u e)
        (add_ecosystem-Sourced ms (of_ecosystem walks "npm" ms) walks.parse_npm "npm" _
          (λ g u e. npm u e) tt)
