-- ===== src/Deps.antt =====
-- backend/cliff/repos/deps/graph.py: the resolved dependency graph and its scopes.
-- A package is a pair of a name and a version, a Python dict is a list of entries in insertion
-- order, and a set is a list. The stack's top is its head.
pub mod Entries
pub mod Search
pub mod Reached
pub mod Build
pub mod Nodes
pub mod Shipping
mod Examples
use cliff.Common.{
  ℕ, zero, suc, ◌+◌, String, Bool, true, false, ◌&&◌, ◌||◌, Option, none, some, List, [], ◌∷◌, ◌++◌,
  ◌==◌, length, any, if◌then◌else◌,
}
use cliff.Common.Options.{◌>>=◌}

abbrev pub Package : Type 0
Package = String × String

unfoldable pub same_package : Package → Package → Bool
same_package (a, v) (b, w) = a == b && v == w

pub record Root : Type 0 where
  pub name : String
  pub version : String
  pub scope : String
  pub declared_in : String

abbrev pub Dict : Type 0 → Type 0
Dict A = List (Package × A)

pub record DepGraph : Type 0 where
  pub nodes : Dict String
  pub edges : Dict (List Package)
  pub roots : List Root

-- nv in packages
unfoldable pub is_in : Package → List Package → Bool
is_in nv [] = false
is_in nv (p ∷ ps) = same_package p nv || is_in nv ps

-- nv in d
unfoldable pub has_key : {A : Type 0} → Package → Dict A → Bool
has_key nv [] = false
has_key nv ((p, a) ∷ d) = same_package p nv || has_key nv d

-- d.setdefault(nv, a)
unfoldable pub set_default : {A : Type 0} → Package → A → Dict A → Dict A
set_default nv a [] = (nv, a) ∷ []
set_default nv a ((p, b) ∷ d) =
    let rest = set_default nv a d in if same_package p nv then (p, b) ∷ d else (p, b) ∷ rest

-- d.get(nv, default)
unfoldable pub get_or : {A : Type 0} → A → Package → Dict A → A
get_or default nv [] = default
get_or default nv ((p, a) ∷ d) = if same_package p nv then a else get_or default nv d

-- d.setdefault(nv, default), and then f on the value that stands there
unfoldable pub update : {A : Type 0} → (A → A) → A → Package → Dict A → Dict A
update f default nv [] = (nv, f default) ∷ []
update f default nv ((p, a) ∷ d) =
    let rest = update f default nv d in if same_package p nv then (p, f a) ∷ d else (p, a) ∷ rest

abbrev pub text_in : String → List String → Bool
text_in s ts = any (λ t. t == s) ts

unfoldable pub add_text : String → List String → List String
add_text s ts = if text_in s ts then ts else s ∷ ts

abbrev pub add_package : Package → List Package → List Package
unfolding is_in
add_package nv ps = if is_in nv ps then ps else nv ∷ ps

abbrev pub empty_graph : DepGraph
empty_graph = record { nodes = []; edges = []; roots = [] }

unfoldable pub add_node : String → String → String → DepGraph → DepGraph
unfolding set_default
add_node name version ecosystem g = record g {
  nodes = set_default (name, version) ecosystem g.nodes;
  edges = set_default (name, version) [] g.edges;
}

unfoldable pub add_root : String → String → String → String → String → DepGraph → DepGraph
unfolding add_node
add_root name version scope declared_in ecosystem g =
    let g' = add_node name version ecosystem g in
    record g' {
      roots =
          g'.roots
          ++ record { name = name; version = version; scope = scope; declared_in = declared_in }
            ∷ [];
    }

unfoldable pub add_edge : Package → Package → DepGraph → DepGraph
unfolding update set_default
add_edge frm to g = record g { edges = set_default to [] (update (add_package to) [] frm g.edges) }

-- {(r.name, r.version) for r in self.roots}
unfoldable pub direct_nodes : List Root → List Package
direct_nodes [] = []
direct_nodes (r ∷ rs) = (r.name, r.version) ∷ direct_nodes rs

abbrev append_text : String → List String → List String
append_text s ts = if text_in s ts then ts else ts ++ s ∷ []

-- for r in self.roots: ...
unfoldable pub declare : List Root → Dict (List String) → Dict (List String)
unfolding update
declare [] out = out
declare (r ∷ rs) out = declare rs (update (append_text r.declared_in) [] (r.name, r.version) out)

unfoldable pub declared_in_map : DepGraph → Dict (List String)
declared_in_map g = declare g.roots []

abbrev pub Scopes : Type 0
Scopes = Dict (List String)

-- the local state of the search from one root
pub record Walk : Type 0 where
  pub stack : List Package
  pub seen : List Package
  pub scopes : Scopes

-- for dep in deps: if dep not in seen: stack.append(dep)
unfoldable pub push : List Package → List Package → List Package → List Package
push seen [] stack = stack
push seen (dep ∷ deps) stack = push seen deps (if is_in dep seen then stack else dep ∷ stack)

abbrev pub deps_of : DepGraph → Package → List Package
deps_of g nv = get_or [] nv g.edges

-- the body of the search for a package that has not been seen
unfoldable pub visit : DepGraph → String → Package → List Package → Walk → Walk
unfolding push update
visit g scope nv rest w =
    let seen = nv ∷ w.seen in
    record {
      stack = push seen (deps_of g nv) rest;
      seen = seen;
      scopes = update (add_text scope) [] nv w.scopes;
    }

-- one turn of the search, with the package that was popped and the stack that is left
unfoldable pub turn : DepGraph → String → Package → List Package → Walk → Walk
turn g scope nv rest w =
    if is_in nv w.seen then record w { stack = rest } else visit g scope nv rest w

-- while stack: ..., where `none` says that the fuel ran out
unfoldable pub search : ℕ → DepGraph → String → List Package → Walk → Option Walk
search fuel g scope [] w = some w
search zero g scope (nv ∷ rest) w = none
search (suc fuel) g scope (nv ∷ rest) w =
    let next = turn g scope nv rest w in search fuel g scope next.stack next

-- the dependencies that the packages not yet seen may still push
unfoldable pub unseen : List Package → Dict (List Package) → ℕ
unseen seen [] = 0
unseen seen ((p, ds) ∷ d) =
    let rest = unseen seen d in if is_in p seen then rest else length ds + rest

abbrev pub begin : Package → Scopes → Walk
begin start scopes = record { stack = start ∷ []; seen = []; scopes = scopes }

abbrev scopes_of : Option Walk → Option Scopes
scopes_of none = none
scopes_of (some w) = some w.scopes

unfoldable pub from_root : DepGraph → Root → Scopes → Option Scopes
unfolding search unseen has_key
from_root g root scopes =
    let start : Package = (root.name, root.version) in
    let found = search (suc (unseen [] g.edges)) g root.scope (start ∷ []) (begin start scopes) in
    if has_key start g.nodes then scopes_of found else some scopes

unfoldable pub from_roots : DepGraph → List Root → Scopes → Option Scopes
unfolding from_root
from_roots g [] scopes = some scopes
from_roots g (root ∷ roots) scopes = do next ← from_root g root scopes; from_roots g roots next

unfoldable pub no_scopes : Dict String → Scopes
no_scopes [] = []
no_scopes ((nv, _) ∷ d) = (nv, []) ∷ no_scopes d

unfoldable pub propagate_scopes : DepGraph → Option Scopes
unfolding from_roots no_scopes
propagate_scopes g = from_roots g g.roots (no_scopes g.nodes)
