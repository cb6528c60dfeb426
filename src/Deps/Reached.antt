-- ===== src/Deps/Reached.antt =====
-- The search of `propagate_scopes` against reachability: it ends with the fuel given, and a scope
-- stands at a package exactly when a root of that scope reaches it.
use cliff.Common.{
  String, ◌≡◌, refl, true, false, some, List, [], ◌∷◌, arith, inl, inr, Bool-cases, ◌↔◌, ◌⊎◌,
}
use cliff.Deps.{
  Package, Dict, get_or, Scopes, DepGraph, Root, from_root, from_roots, propagate_scopes, no_scopes,
  has_key,
}
use cliff.Deps.Search.{Reach, search-Marks, Marks}
use cliff.Deps.Entries.{has_scope}

-- a package that a root of the scope reaches, where the root stands in the graph
pub record Gives (g : DepGraph) (v : Package) (s : String) (root : Root) : Type 0 where
  pub scope : root.scope ≡ s
  pub known : has_key (root.name, root.version) g.nodes ≡ true
  pub reached : Reach g (root.name, root.version) v

-- the scopes after a root's search
Adds : DepGraph → (Package → String → Type 0) → Scopes → Scopes → Type 0
Adds g P before after =
    (v : Package) (s : String)
    → (has_scope after v s ≡ true) ↔ (P v s ⊎ (has_scope before v s ≡ true))

from_root-Adds :
    (g : DepGraph) (root : Root) (before : Scopes)
    → (after : Scopes) × (from_root g root before ≡ some after)
      × Adds g (λ v s. Gives g v s root) before after
unfolding from_root Adds Marks
from_root-Adds g root before =
    let start : Package = (root.name, root.version) in
    let (r, found, m) = search-Marks g start root.scope before in
    elim (Bool-cases (has_key start g.nodes)) [
      | inr n ↦ (
        before,
        rw n refl,
        λ v s. (λ y. inr y, λ x. elim x [ inl a ↦ let k = a.known in absurd (cc) | inr y ↦ y ]),
      )
      | inl y ↦ (
        r.scopes,
        rw (y, found) refl,
        λ v s. (
          λ k. elim ((m v s).0 k) [
            | inl (e, walk) ↦ inl (record { scope = e; known = y; reached = walk })
            | inr b ↦ inr b
          ],
          λ x. elim x [ inl a ↦ (m v s).1 (inl (a.scope, a.reached)) | inr b ↦ (m v s).1 (inr b) ],
        ),
      )
    ]

-- a root of the list gives the scope to the package
pub data Shipped (g : DepGraph) (v : Package) (s : String) : List Root → Type 0 where
  first : {r : Root} {rs : List Root} → Gives g v s r → Shipped g v s (r ∷ rs)
  later : {r : Root} {rs : List Root} → Shipped g v s rs → Shipped g v s (r ∷ rs)

from_roots-Adds :
    (g : DepGraph) (roots : List Root) (before : Scopes)
    → (after : Scopes) × (from_roots g roots before ≡ some after)
      × Adds g (λ v s. Shipped g v s roots) before after
unfolding from_roots Adds
from_roots-Adds g [] before =
    (before, refl, λ v s. (λ y. inr y, λ x. elim x [ inl (a) ↦ elim a [ ] | inr y ↦ y ]))
from_roots-Adds g (root ∷ roots) before =
    let (middle, e, m) = from_root-Adds g root before in
    let (after, f, n) = from_roots-Adds g roots middle in
    (
      after,
      rw e f,
      λ v s. (
        λ y. elim ((n v s).0 y) [
          | inl later_on ↦ inl (later later_on)
          | inr k ↦ elim ((m v s).0 k) [ inl now ↦ inl (first now) | inr b ↦ inr b ]
        ],
        λ x. elim x [
          | inl (first now) ↦ (n v s).1 (inr ((m v s).1 (inl now)))
          | inl (later x) ↦ (n v s).1 (inl x)
          | inr b ↦ (n v s).1 (inr ((m v s).1 (inr b)))
        ],
      ),
    )

no_scopes-none : (d : Dict String) (v : Package) (s : String) → has_scope (no_scopes d) v s ≡ false
unfolding no_scopes get_or
no_scopes-none [] v s = refl
no_scopes-none ((p, x) ∷ d) v s = ground (arith, no_scopes-none d v s)

-- The propagation of the scopes ends for every graph, and then a scope stands at a package exactly
-- when the graph's roots have one of that scope that is a node of the graph and from which resolved
-- edges lead to the package.
pub propagate_scopes-Shipped :
    (g : DepGraph)
    → (scopes : Scopes) × (propagate_scopes g ≡ some scopes)
      × ((v : Package) (s : String) → (has_scope scopes v s ≡ true) ↔ Shipped g v s g.roots)
unfolding propagate_scopes Adds
propagate_scopes-Shipped g =
    let (after, e, m) = from_roots-Adds g g.roots (no_scopes g.nodes) in
    (
      after,
      e,
      λ v s. (
        λ y. elim ((m v s).0 y) [
          | inl x ↦ x
          | inr b ↦ let z = no_scopes-none g.nodes v s in absurd (cc)
        ],
        λ x. (m v s).1 (inl x),
      ),
    )
