-- ===== src/Common/Search.antt =====
-- Searches in a text: what stands in a text is found, and `lower` goes through concatenation.
use mathlib.Core.List.{map-append}
use cliff.Common.Text.{Text, begins_with, contains, lower, same}
use Prim.Native.Nat.{ℕ}
use mathlib.Core.Path.{◌≡◌, refl}
use mathlib.Core.Bool.{true}
use mathlib.Core.List.{[], ◌∷◌, ◌++◌}
use native.Mathlib.Omega.{arith}

pub eq_of_same : (s t : Text) → same s t ≡ true → s ≡ t
unfolding same
eq_of_same [] [] h = refl
eq_of_same [] (b ∷ t) h = cc
eq_of_same (a ∷ s) [] h = cc
eq_of_same (a ∷ s) (b ∷ t) h = ground (arith, eq_of_same s t)

pub begins_with-append : (k b : Text) → begins_with (k ++ b) k ≡ true
unfolding begins_with
begins_with-append [] [] = refl
begins_with-append [] (c ∷ b) = refl
begins_with-append (c ∷ k) b = ground (arith, begins_with-append k b)

contains_of_begins : (s k : Text) → begins_with s k ≡ true → contains s k ≡ true
unfolding contains
contains_of_begins [] k h = h
contains_of_begins (c ∷ s) k h = rw h

contains_cons : (c : ℕ) (s k : Text) → contains s k ≡ true → contains (c ∷ s) k ≡ true
unfolding contains
contains_cons c s k h = ground arith

pub contains-append : (a k b : Text) → contains (a ++ (k ++ b)) k ≡ true
contains-append [] k b = contains_of_begins (k ++ b) k (begins_with-append k b)
contains-append (c ∷ a) k b = contains_cons c (a ++ (k ++ b)) k (contains-append a k b)

pub lower-append : (s t : Text) → lower (s ++ t) ≡ lower s ++ lower t
unfolding lower
lower-append s t = rw map-append
