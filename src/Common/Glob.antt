-- ===== src/Common/Glob.antt =====
-- Python's `fnmatch.fnmatch` (on a system whose paths keep their case): `*`, `?` and `[…]`.
use cliff.Common.Tests.{leb, eqb, if◌then◌else◌}
use cliff.Common.Text.{Text, codes}
use Prim.Native.Nat.{ℕ, zero, suc}
use mathlib.Core.Path.{◌≡◌, refl}
use mathlib.Core.Bool.{Bool, true, false, not, ◌&&◌, ◌||◌}
use mathlib.Core.Option.{Option, none, some}
use mathlib.Core.List.{List, [], ◌∷◌}

pub data Token : Type 0 where
  star one : Token
  class : Bool → Text → Token
  literal : ℕ → Token

-- the text up to the next `]`, and the rest
until_bracket : Text → Option (Text × Text)
until_bracket [] = none
until_bracket (c ∷ s) = elim (until_bracket s) [
  | none ↦ if eqb c 93 then some ([], s) else none
  | some (body, rest) ↦ if eqb c 93 then some ([], s) else some (c ∷ body, rest)
]

-- A `]` that comes first belongs to the class.
class_body : Text → Option (Text × Text)
class_body [] = none
class_body (c ∷ s) = elim (until_bracket s) [
  | none ↦ none
  | some (body, rest) ↦ some (c ∷ body, rest)
]

abbrev negated : Text → Bool × Text
negated [] = (false, [])
negated (c ∷ s) = if eqb c 33 then (true, s) else (false, c ∷ s)

-- The fuel is the length of the pattern, which each step shortens.
tokens : ℕ → Text → List Token
tokens zero p = []
tokens (suc fuel) [] = []
tokens (suc fuel) (c ∷ p) =
    let plain = tokens fuel p in
    let bracket : List Token = elim (class_body (negated p).1) [
      | none ↦ literal 91 ∷ tokens fuel p
      | some (body, rest) ↦ class (negated p).0 body ∷ tokens fuel rest
    ] in
    if eqb c 42
    then star ∷ plain
    else if eqb c 63
    then one ∷ plain
    else if eqb c 91
    then bracket
    else literal c ∷ plain

in_class : Text → ℕ → Bool
in_class [] c = false
in_class (a ∷ []) c = eqb a c
in_class (a ∷ b ∷ []) c = eqb a c || eqb b c
in_class (a ∷ d ∷ b ∷ r) c = elim (eqb d 45) [
  | true ↦ leb a c && leb c b || in_class r c
  | false ↦ eqb a c || in_class (d ∷ b ∷ r) c
]

accepts : Token → ℕ → Bool
unfolding in_class
accepts star c = true
accepts one c = true
accepts (class negative body) c = if negative then not (in_class body c) else in_class body c
accepts (literal a) c = eqb a c

-- `p` of a suffix of the text
some_suffix : (Text → Bool) → Text → Bool
some_suffix p [] = p []
some_suffix p (c ∷ s) = p (c ∷ s) || some_suffix p s

after_head : (Text → Bool) → (ℕ → Bool) → Text → Bool
after_head rest ok? [] = false
after_head rest ok? (c ∷ s) = ok? c && rest s

match_tokens : List Token → Text → Bool
unfolding accepts some_suffix after_head
match_tokens [] [] = true
match_tokens [] (_ ∷ _) = false
match_tokens (star ∷ ts) s = some_suffix (match_tokens ts) s
match_tokens (t ∷ ts) s = after_head (match_tokens ts) (accepts t) s

abbrev size : Text → ℕ
size [] = 0
size (_ ∷ s) = suc (size s)

-- fnmatch.fnmatch(name, pattern)
unfoldable pub fnmatch : Text → Text → Bool
unfolding tokens match_tokens until_bracket class_body
fnmatch name pattern = match_tokens (tokens (size pattern) pattern) name

globs :
    (fnmatch (codes "tests/unit/a.py") (codes "tests/*") ≡ true)
    × (fnmatch (codes "latest/a.py") (codes "tests/*") ≡ false)
    × (fnmatch (codes "v7.py") (codes "v[0-9].p?") ≡ true)
    × (fnmatch (codes "v7.py") (codes "v[!0-9].py") ≡ false)
unfolding fnmatch
globs = (refl, refl, refl, refl)
