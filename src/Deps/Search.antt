-- ===== src/Deps/Search.antt =====
-- The search from one root of repos/deps/graph.py: the packages it sees are those that the root
-- reaches, and its fuel is enough.
use cliff.Common.{
  ℕ, zero, suc, ◌+◌, ◌≤◌, ◌<◌, String, ◌≡◌, refl, sym, true, false, ◌&&◌, ◌||◌, some, List, [], ◌∷◌,
  ◌==◌, eq_iff, arith, length, inl, inr, Bool-cases, ◌↔◌, ◌⊎◌,
}
use mathlib.Core.Path.{subst}
use cliff.Deps.{
  Package, same_package, is_in, Scopes, unseen, DepGraph, deps_of, Walk, visit, turn, search, begin,
}
use cliff.Deps.Entries.{
  same_package_iff, has_scope, has_scope-add, is_in-push, length-push, unseen-visit,
}

-- the packages that a chain of resolved edges leads to
pub data Reach (g : DepGraph) (start : Package) : Package → Type 0 where
  here : Reach g start start
  step : {u v : Package} → Reach g start u → is_in v (deps_of g u) ≡ true → Reach g start v

module _ (g : DepGraph) (start : Package) (scope : String) (before : Scopes) where
  record Inv (w : Walk) : Type 0 where
    source : (is_in start w.seen || is_in start w.stack) ≡ true
    queued : (v : Package) → is_in v w.stack ≡ true → Reach g start v
    sound : (v : Package) → is_in v w.seen ≡ true → Reach g start v
    closed :
        (u v : Package)
        → is_in u w.seen ≡ true
        → is_in v (deps_of g u) ≡ true
        → (is_in v w.seen || is_in v w.stack) ≡ true
    marks :
        (v : Package) (s : String)
        → has_scope w.scopes v s ≡ (scope == s && is_in v w.seen || has_scope before v s)

  Inv-begin : Inv (begin start before)
  unfolding is_in
  Inv-begin = record {
    source = ground (arith, same_package_iff start start);
    queued =
        λ v q. (subst (λ x. Reach g start x) ((same_package_iff start v).0 (ground arith)) here);
    sound = λ v m. absurd (cc);
    closed = λ u v m e. absurd (cc);
    marks = λ v s. ground arith;
  }

  popped :
      (w : Walk) (nv v : Package) (rest : List Package)
      → w.stack ≡ nv ∷ rest
      → is_in v w.stack ≡ (same_package nv v || is_in v rest)
  unfolding is_in
  popped w nv v rest e = rw e

  Inv-skip :
      (w : Walk) (nv : Package) (rest : List Package)
      → w.stack ≡ nv ∷ rest
      → is_in nv w.seen ≡ true
      → Inv w
      → Inv (record w { stack = rest })
  Inv-skip w nv rest e y h = record {
    source = ground (arith, popped w nv start rest e, same_package_iff nv start, source);
    queued = λ v q. queued v (ground (arith, popped w nv v rest e));
    sound = sound;
    closed = λ u v m d. ground (arith, popped w nv v rest e, same_package_iff nv v, closed u v m d);
    marks = marks;
  }
    where
      open h use {source, queued, sound, closed, marks}

  Inv-visit :
      (w : Walk) (nv : Package) (rest : List Package)
      → w.stack ≡ nv ∷ rest
      → is_in nv w.seen ≡ false
      → Inv w
      → Inv (visit g scope nv rest w)
  unfolding visit is_in
  Inv-visit w nv rest e n h =
      let to_nv = queued nv (ground (arith, popped w nv nv rest e, same_package_iff nv nv)) in
      let old = λ (v : Package). popped w nv v rest e in
      let pushed = λ (v : Package). is_in-push (nv ∷ w.seen) (deps_of g nv) rest v in
      let same = λ (v : Package). same_package_iff nv v in
      record {
        source = ground (arith, old start, pushed start, same start, source);
        queued = λ v q. elim (Bool-cases (is_in v rest)) [
          | inl y ↦ queued v (ground (arith, old v))
          | inr x ↦ step to_nv (ground (arith, pushed v))
        ];
        sound = λ v m. elim (Bool-cases (same_package nv v)) [
          | inl y ↦ subst (λ x. Reach g start x) ((same v).0 y) to_nv
          | inr x ↦ sound v (ground arith)
        ];
        closed = λ u v m d. elim (Bool-cases (same_package nv u)) [
          | inl y ↦
              let d' = subst (λ x. is_in v (deps_of g x) ≡ true) (sym ((same u).0 y)) d in
              ground (arith, pushed v)
          | inr x ↦ ground (arith, old v, pushed v, closed u v)
        ];
        marks = λ v s. ground (arith, has_scope-add w.scopes nv v s scope, marks v s);
      }
    where
      open h use {source, queued, sound, closed, marks}

  Inv-turn :
      (w : Walk) (nv : Package) (rest : List Package)
      → w.stack ≡ nv ∷ rest
      → Inv w
      → Inv (turn g scope nv rest w)
  unfolding turn
  Inv-turn w nv rest e h = elim (Bool-cases (is_in nv w.seen)) [
    | inl y ↦ rw y (Inv-skip w nv rest e y h)
    | inr n ↦ rw n (Inv-visit w nv rest e n h)
  ]

  pending : Walk → ℕ
  pending w = length w.stack + unseen w.seen g.edges

  pending-turn :
      (w : Walk) (nv : Package) (rest : List Package)
      → w.stack ≡ nv ∷ rest
      → pending (turn g scope nv rest w) < pending w
  unfolding turn visit pending
  pending-turn w nv rest e =
      let size : length w.stack ≡ suc (length rest) = rw e refl in
      elim (Bool-cases (is_in nv w.seen)) [
        | inl y ↦ rw y (omega arith)
        | inr n ↦ rw n (
            let a = unseen-visit nv w.seen g.edges n in
            let b = length-push (nv ∷ w.seen) (deps_of g nv) rest in omega arith)
      ]

  -- With as much fuel as there is pending, the search ends with an empty stack, and keeps the invariant.
  search_ends :
      (fuel : ℕ) (w : Walk) (stack : List Package)
      → w.stack ≡ stack
      → pending w ≤ fuel
      → Inv w
      → (r : Walk) × (search fuel g scope stack w ≡ some r) × (r.stack ≡ []) × Inv r
  unfolding search pending
  search_ends fuel w [] e le h = (w, refl, e, h)
  search_ends zero w (nv ∷ rest) e le h =
      let size : length w.stack ≡ suc (length rest) = rw e refl in absurd (omega arith)
  search_ends (suc fuel) w (nv ∷ rest) e le h =
      let next = turn g scope nv rest w in
      let less = pending-turn w nv rest e in
      search_ends fuel next next.stack refl (omega arith) (Inv-turn w nv rest e h)

  nothing_in : (r : Walk) (v : Package) → r.stack ≡ [] → is_in v r.stack ≡ false
  unfolding is_in
  nothing_in r v e = rw e refl

  reached-in :
      (r : Walk) → r.stack ≡ [] → Inv r → {v : Package} → Reach g start v → is_in v r.seen ≡ true
  reached-in r e h here = let z = nothing_in r start e in let s = source in ground arith
    where
      open h use {source}
  reached-in r e h (step {u} {v} walk d) =
      let z = nothing_in r v e in
      let m = reached-in r e h walk in let c = closed u v m d in ground arith
    where
      open h use {closed}

  unfoldable pub Marks : Walk → Type 0
  Marks r =
      (v : Package) (s : String)
      → (has_scope r.scopes v s ≡ true)
        ↔ (((scope ≡ s) × Reach g start v) ⊎ (has_scope before v s ≡ true))

  end-Marks : (r : Walk) → r.stack ≡ [] → Inv r → Marks r
  unfolding Marks
  end-Marks r e h v s = (
    λ y. elim (Bool-cases (has_scope before v s)) [
      | inl b ↦ inr b
      | inr n ↦ let m = marks v s in inl ((eq_iff scope s).0 (ground arith), sound v (ground arith))
    ],
    λ z. elim z [
      | inl (same, walk) ↦
          let k = (eq_iff scope s).1 same in
          let m = reached-in r e h walk in let eq = marks v s in ground arith
      | inr b ↦ let eq = marks v s in ground arith
    ],
  )
    where
      open h use {sound, marks}

  pub search-Marks :
      (r : Walk) × (search (suc (unseen [] g.edges)) g scope (start ∷ []) (begin start before)
        ≡ some r)
      × Marks r
  unfolding pending
  search-Marks =
      let (r, found, ended, inv) =
        search_ends (suc (unseen [] g.edges)) (begin start before) (start ∷ []) refl (omega arith)
          Inv-begin in
      (r, found, end-Marks r ended inv)
