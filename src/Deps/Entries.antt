-- ===== src/Deps/Entries.antt =====
-- The dictionaries and sets of repos/deps/graph.py: what stands in them after each operation.
use cliff.Common.{
  ◌+◌, ◌≤◌, String, Bool, ◌≡◌, ap, true, false, not, ◌&&◌, ◌||◌, List, [], ◌∷◌, ◌==◌, eq_iff, arith,
  length, inl, inr, Bool-cases, ◌↔◌,
}
use cliff.Deps.{
  Package, same_package, Dict, is_in, get_or, update, text_in, add_text, Scopes, push, unseen,
}

pub same_package_iff : (p q : Package) → (same_package p q ≡ true) ↔ (p ≡ q)
unfolding same_package
same_package_iff (a, v) (b, w) = (
  λ h. ground (arith, eq_iff a b, eq_iff v w),
  λ e.
      ground
        (arith, eq_iff a b, eq_iff v w, ap (λ (x : Package). x.0) e, ap (λ (x : Package). x.1) e),
)

-- the scope stands in the set of the package
abbrev pub has_scope : Scopes → Package → String → Bool
has_scope m nv s = text_in s (get_or [] nv m)

pub text_in-add :
    (s t : String) (ts : List String) → text_in s (add_text t ts) ≡ (t == s || text_in s ts)
unfolding add_text
text_in-add s t ts = elim (Bool-cases (text_in t ts)) [
  | inl y ↦ rw y (elim (Bool-cases (t == s)) [ inl e ↦ ground (arith, eq_iff t s) | inr n ↦ rw n ])
  | inr n ↦ rw n
]

pub has_scope-add :
    (m : Scopes) (nv v : Package) (s t : String)
    → has_scope (update (add_text t) [] nv m) v s ≡ (same_package nv v && t == s || has_scope m v s)
unfolding get_or update add_text
has_scope-add [] nv v s t = ground (arith, text_in-add s t [])
has_scope-add ((p, ts) ∷ m) nv v s t = ground (
  arith,
  has_scope-add m nv v s t,
  same_package_iff p nv,
  same_package_iff p v,
  same_package_iff nv v,
  text_in-add s t ts,
)

pub is_in-push :
    (seen ds stack : List Package) (v : Package)
    → is_in v (push seen ds stack) ≡ (is_in v stack || is_in v ds && not (is_in v seen))
unfolding push is_in
is_in-push seen [] stack v = ground arith
is_in-push seen (d ∷ ds) stack v =
    ground
      (arith, is_in-push seen ds stack v, is_in-push seen ds (d ∷ stack) v, same_package_iff d v)

pub length-push :
    (seen ds stack : List Package) → length (push seen ds stack) ≤ length ds + length stack
unfolding push
length-push seen [] stack = omega arith
length-push seen (d ∷ ds) stack =
    ground (arith, length-push seen ds stack, length-push seen ds (d ∷ stack))

pub unseen_mono :
    (nv : Package) (seen : List Package) (d : Dict (List Package))
    → unseen (nv ∷ seen) d ≤ unseen seen d
unfolding unseen is_in
unseen_mono nv seen [] = omega arith
unseen_mono nv seen ((p, ds) ∷ d) = ground (arith, unseen_mono nv seen d)

-- What a visit may push is no more than what the package's entry counted before it.
pub unseen-visit :
    (nv : Package) (seen : List Package) (d : Dict (List Package))
    → is_in nv seen ≡ false
    → unseen (nv ∷ seen) d + length (get_or [] nv d) ≤ unseen seen d
unfolding unseen is_in get_or
unseen-visit nv seen [] h = omega arith
unseen-visit nv seen ((p, ds) ∷ d) h = ground (
  arith,
  unseen-visit nv seen d h,
  unseen_mono nv seen d,
  same_package_iff p nv,
  same_package_iff nv p,
)
