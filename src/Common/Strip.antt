-- ===== src/Common/Strip.antt =====
-- What stands between two visible characters stays where `strip` takes the white space away.
use mathlib.Core.List.{reverse-cons, reverse-append, reverse-reverse, append_assoc}
use cliff.Common.Text.{Text, lower, is_space, strip_left, strip}
use cliff.Common.Search.{lower-append}
use Prim.Native.Nat.{ℕ}
use mathlib.Core.Path.{◌≡◌, refl, sym, ap, ◌∙◌, subst}
use mathlib.Core.Bool.{Bool, true, false, not}
use mathlib.Core.List.{[], ◌∷◌, ◌++◌, reverse}
use native.Mathlib.Omega.{arith}
use cliff.Common.Tests.{Bool-cases}
use cliff.Common.Lists.{any}
use mathlib.Core.Logic.{inl, inr}

-- the text begins with a character that is no white space
abbrev pub begins_visible : Text → Bool
begins_visible [] = false
begins_visible (c ∷ s) = not (is_space c)

strip_left-keeps :
    (b m a : Text)
    → begins_visible m ≡ true
    → (b' : Text) × (strip_left (b ++ (m ++ a)) ≡ b' ++ (m ++ a))
unfolding strip_left
strip_left-keeps [] [] a h = absurd (cc)
strip_left-keeps [] (c ∷ m) a h = ([], ground arith)
strip_left-keeps (c ∷ b) m a h = elim (Bool-cases (is_space c)) [
  | inl y ↦ let (b', e) = strip_left-keeps b m a h in (b', rw y e)
  | inr n ↦ (c ∷ b, rw n refl)
]

reverse-append_three :
    (x y z : Text) → reverse (x ++ (y ++ z)) ≡ reverse z ++ (reverse y ++ reverse x)
reverse-append_three x y z =
    reverse-append x (y ++ z)
    ∙ ap (λ t. t ++ reverse x) (reverse-append y z)
    ∙ append_assoc (reverse z) (reverse y) (reverse x)

pub strip-keeps :
    (b m a : Text)
    → begins_visible m ≡ true
    → begins_visible (reverse m) ≡ true
    → (b' : Text) × (a' : Text) × (strip (b ++ (m ++ a)) ≡ b' ++ (m ++ a'))
unfolding strip
strip-keeps b m a h k =
    let (b', e) = strip_left-keeps b m a h in
    let (a', f) = strip_left-keeps (reverse a) (reverse m) (reverse b') k in
    let again =
      ap (λ t. t ++ (reverse (reverse m) ++ reverse a')) (reverse-reverse b')
      ∙ ap (λ t. b' ++ (t ++ reverse a')) (reverse-reverse m) in
    (
      b',
      reverse a',
      ap (λ t. reverse (strip_left (reverse t))) e
          ∙ ap (λ t. reverse (strip_left t)) (reverse-append_three b' m a)
          ∙ ap reverse f
          ∙ reverse-append_three a' (reverse m) (reverse b')
          ∙ again,
    )

-- a visible character stands in the text
abbrev pub has_visible : Text → Bool
has_visible s = any (λ c. not (is_space c)) s

-- the text up to its first visible character, and what follows
pub visible-split :
    (s : Text)
    → has_visible s ≡ true
    → (front : Text) × (c : ℕ) × (back : Text) × (is_space c ≡ false)
      × (s ≡ (front ++ (c ∷ [])) ++ back)
visible-split [] h = absurd (cc)
visible-split (c ∷ s) h = elim (Bool-cases (is_space c)) [
  | inr n ↦ ([], c, s, n, refl)
  | inl y ↦
      let (front, d, back, n, e) = visible-split s (ground arith) in
      (c ∷ front, d, back, n, ap (λ t. c ∷ t) e)
]

-- A word that begins visibly, with a text behind it that has a visible character: the word and that
-- text up to the character stay.
pub strip-keeps_before :
    (b k a : Text)
    → begins_visible k ≡ true
    → has_visible a ≡ true
    → (b' : Text) × (a' : Text) × (strip (b ++ (k ++ a)) ≡ b' ++ (k ++ a'))
strip-keeps_before b k a h v =
    let (front, c, back, n, e) = visible-split a v in
    let m = k ++ (front ++ (c ∷ [])) in
    let ends : begins_visible (reverse m) ≡ true =
      subst (λ t. begins_visible t ≡ true) (sym (reverse-append_three k front (c ∷ [])))
        (rw n refl) in
    let (b', a', f) = strip-keeps b m back (begins k (front ++ (c ∷ [])) h) ends in
    let whole : k ++ a ≡ m ++ back =
      ap (λ t. k ++ t) e ∙ sym (append_assoc k (front ++ (c ∷ [])) back) in
    (
      b',
      (front ++ (c ∷ [])) ++ a',
      ap (λ t. strip (b ++ t)) whole
          ∙ f
          ∙ ap (λ t. b' ++ t) (append_assoc k (front ++ (c ∷ [])) a'),
    )
  where
    begins : (k t : Text) → begins_visible k ≡ true → begins_visible (k ++ t) ≡ true
    begins [] t h = absurd (cc)
    begins (c ∷ k) t h = h

-- `lower` makes no character visible and hides none.
pub begins_visible-lower : (s : Text) → begins_visible (lower s) ≡ begins_visible s
unfolding lower
begins_visible-lower [] = refl
begins_visible-lower (c ∷ s) = ground arith

pub lower-reverse : (s : Text) → lower (reverse s) ≡ reverse (lower s)
unfolding lower
lower-reverse [] = refl
lower-reverse (c ∷ s) =
    ap lower (reverse-cons c s)
    ∙ lower-append (reverse s) (c ∷ [])
    ∙ ap (λ t. t ++ lower (c ∷ [])) (lower-reverse s)
    ∙ sym (reverse-cons _ (lower s))
