-- ===== src/Triage/CodeMap/Globs.antt =====
-- The path globs of triage_codemap.py: the compiled regular expression, read as a matcher.
use cliff.Common.{
  ℕ, zero, suc, ◌≡◌, refl, Bool, true, false, not, ◌&&◌, ◌||◌, List, [], ◌∷◌, any, eqb, leb, length,
  drop, if◌then◌else◌,
}
use mathlib.Core.List.{reverse}
use cliff.Common.Text.{Text, codes, begins_with}

abbrev is_slash : ℕ → Bool
is_slash c = eqb c 47

strip_front : Text → Text
strip_front [] = []
strip_front (c ∷ s) = let rest = strip_front s in if is_slash c then rest else c ∷ s

-- s.strip("/")
unfoldable pub strip_slash : Text → Text
unfolding strip_front
strip_slash s = reverse (strip_front (reverse (strip_front s)))

abbrev put_first : ℕ → List Text → List Text
put_first c [] = (c ∷ []) ∷ []
put_first c (p ∷ ps) = (c ∷ p) ∷ ps

-- s.split("/")
unfoldable pub split_slash : Text → List Text
split_slash [] = [] ∷ []
split_slash (c ∷ s) = let rest = split_slash s in if is_slash c then [] ∷ rest else put_first c rest

-- the pieces of the regular expression: `(?:[^/]+/)*`, `.*`, `[^/]*`, `[^/]`, and a character
pub data Token : Type 0 where
  dirs anything star one : Token
  literal : ℕ → Token

-- re.sub(r"(?:\*\*/){2,}", "**/", g); each step shortens the text, whose length is the fuel
collapse : ℕ → Text → Text
collapse zero s = s
collapse (suc fuel) [] = []
collapse (suc fuel) (c ∷ s) =
    let skip = collapse fuel (drop 2 s) in
    let keep = collapse fuel s in if begins_with (c ∷ s) (codes "**/**/") then skip else c ∷ keep

tokens : ℕ → Text → List Token
tokens zero s = []
tokens (suc fuel) [] = []
tokens (suc fuel) (c ∷ s) =
    let one_on = tokens fuel s in
    let two_on = tokens fuel (drop 1 s) in
    let three_on = tokens fuel (drop 2 s) in
    if begins_with (c ∷ s) (codes "**/")
    then dirs ∷ three_on
    else if begins_with (c ∷ s) (codes "**")
    then anything ∷ two_on
    else if eqb c 42
    then star ∷ one_on
    else if eqb c 63
    then one ∷ one_on
    else literal c ∷ one_on

-- `[^/]*`, then the rest
star_then : (Text → Bool) → Text → Bool
star_then rest [] = rest []
star_then rest (c ∷ p) = rest (c ∷ p) || not (is_slash c) && star_then rest p

-- `.*`, where the dot is no line feed
any_then : (Text → Bool) → Text → Bool
any_then rest [] = rest []
any_then rest (c ∷ p) = rest (c ∷ p) || not (eqb c 10) && any_then rest p

-- `(?:[^/]+/)*`; `inside` a segment, or at the start of one
dirs_then : (Text → Bool) → Bool → Text → Bool
dirs_then rest false [] = rest []
dirs_then rest true [] = false
dirs_then rest false (c ∷ p) = rest (c ∷ p) || not (is_slash c) && dirs_then rest true p
dirs_then rest true (c ∷ p) = dirs_then rest (not (is_slash c)) p

-- `$`: the end, or a line feed before it
abbrev at_end : Text → Bool
at_end [] = true
at_end (c ∷ []) = eqb c 10
at_end (c ∷ d ∷ p) = false

unfoldable pub matches : List Token → Text → Bool
unfolding star_then any_then dirs_then
matches [] p = at_end p
matches (dirs ∷ ts) p = dirs_then (matches ts) false p
matches (anything ∷ ts) p = any_then (matches ts) p
matches (star ∷ ts) p = star_then (matches ts) p
matches (one ∷ ts) [] = false
matches (one ∷ ts) (c ∷ p) = not (is_slash c) && matches ts p
matches (literal a ∷ ts) [] = false
matches (literal a ∷ ts) (c ∷ p) = eqb a c && matches ts p

-- `_glob_to_regex(glob).match(path)`
unfoldable pub glob_matches : Text → Text → Bool
unfolding matches collapse tokens
glob_matches glob path =
    let g = strip_slash glob in let h = collapse (length g) g in matches (tokens (length h) h) path

abbrev is_alnum : ℕ → Bool
is_alnum c = leb 48 c && leb c 57 || leb 65 c && leb c 90 || leb 97 c && leb c 122

abbrev is_wild : ℕ → Bool
is_wild c = eqb c 42 || eqb c 63

-- a character of `_BOUNDARY`, or a wildcard
abbrev bounds : ℕ → Bool
bounds c = eqb c 47 || eqb c 46 || eqb c 95 || eqb c 45 || is_wild c

abbrev next_bounds : Text → Bool
next_bounds [] = true
next_bounds (c ∷ s) = bounds c

-- `left` says whether what stands before is a bound
unfoldable pub wildcards_bounded : Bool → Text → Bool
wildcards_bounded left [] = true
wildcards_bounded left (c ∷ s) =
    (not (is_wild c) || left && next_bounds s) && wildcards_bounded (bounds c) s

-- `_glob_is_safe`
unfoldable pub glob_is_safe : Text → Bool
unfolding wildcards_bounded
glob_is_safe glob = let g = strip_slash glob in any is_alnum g && wildcards_bounded true g

-- A bare name: no slash and no wildcard.
unfoldable pub is_plain : Text → Bool
is_plain g = not (any (λ c. is_slash c || is_wild c) g)

globs :
    (glob_matches (codes "**/**/tests/**") (codes "a/tests/x.py") ≡ true)
    × (glob_matches (codes "*.test.ts") (codes "a.test.ts") ≡ true)
    × (glob_matches (codes "src/*.py") (codes "src/a/b.py") ≡ false)
    × (glob_is_safe (codes "*test*") ≡ false)
    × (glob_is_safe (codes "**/*_test.py") ≡ true)
unfolding glob_matches glob_is_safe strip_slash begins_with
globs = (refl, refl, refl, refl, refl)
