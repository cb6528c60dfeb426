-- ===== src/Triage/Reach/Hedges.antt =====
-- Speculation is never read as a confirmed answer.
use cliff.Common.{
  String, Bool, ◌≡◌, ◌≢◌, ◌⊎◌, ◌||◌, refl, sym, ap, ◌∙◌, some, true, List, [], ◌∷◌, ◌++◌, ◌==◌,
  eq_iff, any, all, arith, Bool-cases, inl, inr,
}
use mathlib.Core.Path.{subst}
use cliff.Common.Text.{Text, codes, lower, strip, contains}
use cliff.Common.Strip.{
  begins_visible-lower, lower-reverse, begins_visible, has_visible, strip-keeps, strip-keeps_before,
}
use mathlib.Core.List.{reverse}
use cliff.Common.Search.{contains-append, lower-append}
use cliff.Triage.Reach.{reach_unknown, undetermined, any_in, classify_text, classify_reachable}

any_in-listed :
    (ks : List String) (k : String) (s : Text)
    → any (λ j. j == k) ks ≡ true
    → contains s (codes k) ≡ true
    → any_in ks s ≡ true
unfolding any_in
any_in-listed [] k s h c = cc
any_in-listed (j ∷ ks) k s h c = elim (Bool-cases (j == k)) [
  | inl e ↦ rw ((eq_iff j k).0 e) (rw c)
  | inr n ↦ ground (arith, any_in-listed ks k s)
]

-- what holds of each word of the list
of_listed :
    (p : String → Bool) (ks : List String) (k : String)
    → all p ks ≡ true
    → any (λ j. j == k) ks ≡ true
    → p k ≡ true
of_listed p [] k l h = absurd (cc)
of_listed p (j ∷ ks) k l h = elim (Bool-cases (j == k)) [
  | inl e ↦ subst (λ x. p x ≡ true) ((eq_iff j k).0 e) (ground arith)
  | inr n ↦ of_listed p ks k (ground arith) (ground arith)
]

-- the two words that end in a space
abbrev ends_in_space : String → Bool
ends_in_space k = k == "may " || k == "would "

unknown_begins : all (λ j. begins_visible (codes j)) reach_unknown ≡ true
unknown_begins = refl

unknown_ends : all (λ j. ends_in_space j || begins_visible (reverse (codes j))) reach_unknown ≡ true
unknown_ends = refl

hedged-classify_text :
    (before after word : Text) (k : String)
    → lower word ≡ codes k
    → any (λ j. j == k) reach_unknown ≡ true
    → classify_text (lower (before ++ (word ++ after))) ≡ undetermined
unfolding classify_text
hedged-classify_text before after word k e h =
    let found : contains (lower (before ++ (word ++ after))) (codes k) ≡ true =
      rw (lower-append, lower-append, e) (contains-append (lower before) (codes k) (lower after)) in
    rw (any_in-listed reach_unknown k (lower (before ++ (word ++ after))) h found)

-- a word of the list begins visibly, in any case
word_begins :
    (k : String) (word : Text)
    → lower word ≡ codes k
    → any (λ j. j == k) reach_unknown ≡ true
    → begins_visible word ≡ true
word_begins k word e h =
    sym (begins_visible-lower word)
    ∙ ap begins_visible e
    ∙ of_listed (λ j. begins_visible (codes j)) reach_unknown k unknown_begins h

word_ends :
    (k : String) (word : Text)
    → lower word ≡ codes k
    → any (λ j. j == k) reach_unknown ≡ true
    → k ≢ "may "
    → k ≢ "would "
    → begins_visible (reverse word) ≡ true
word_ends k word e h n m =
    let ends =
      of_listed (λ j. ends_in_space j || begins_visible (reverse (codes j))) reach_unknown k
        unknown_ends h in
    sym (begins_visible-lower (reverse word))
    ∙ ap begins_visible (lower-reverse word ∙ ap reverse e)
    ∙ ground (arith, eq_iff k "may ", eq_iff k "would ")

stripped :
    (k : String) (before word after : Text)
    → lower word ≡ codes k
    → any (λ j. j == k) reach_unknown ≡ true
    → ((k ≢ "may ") × (k ≢ "would ")) ⊎ (has_visible after ≡ true)
    → (b : Text) × (a : Text) × (strip (before ++ (word ++ after)) ≡ b ++ (word ++ a))
stripped k before word after e h (inr v) =
    strip-keeps_before before word after (word_begins k word e h) v
stripped k before word after e h (inl (n, m)) =
    strip-keeps before word after (word_begins k word e h) (word_ends k word e h n m)

-- An answer on reachability with one of the 32 words of doubt anywhere in it, in any case of its ASCII
-- letters, is undetermined, whatever else it says. Two of the words end in a space, "may " and
-- "would ": behind these, more than white space follows.
pub classify_reachable-hedged :
    (s k : String) (before word after : Text)
    → codes s ≡ before ++ (word ++ after)
    → lower word ≡ codes k
    → any (λ j. j == k) reach_unknown ≡ true
    → ((k ≢ "may ") × (k ≢ "would ")) ⊎ (has_visible after ≡ true)
    → classify_reachable (some s) ≡ undetermined
unfolding classify_reachable
classify_reachable-hedged s k before word after e l h v = elim (Bool-cases (s == "")) [
  | inl y ↦ rw y refl
  | inr n ↦
      let (b, a, f) = stripped k before word after l h v in
      rw (n, e, f) (hedged-classify_text b a word k l h)
]
