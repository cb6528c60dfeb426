-- ===== src/Common/Text.antt =====
-- The methods of Python's `str` that the program calls, on the code points of a text.
-- `lower` is Python's on ASCII text; other letters are left as they are.
use Prim.Native.Nat.{ℕ, zero, suc, ◌+◌, ◌/◌, ◌%◌}
use Prim.Native.Char.{code}
use Prim.Native.String
use Prim.Native.String.{String}
use mathlib.Core.Path.{◌≡◌, refl}
use mathlib.Core.Bool.{Bool, true, false, ◌&&◌, ◌||◌}
use mathlib.Core.List.{List, [], ◌∷◌, ◌++◌, map, reverse}
use cliff.Common.Tests.{leb, eqb, if◌then◌else◌}

abbrev pub Text : Type 0
Text = List ℕ

abbrev pub codes : String → Text
codes String.[] = []
codes (String.◌∷◌ c s) = code c ∷ codes s

abbrev lower_code : ℕ → ℕ
lower_code c = if leb 65 c && leb c 90 then c + 32 else c

-- s.lower()
unfoldable pub lower : Text → Text
lower = map lower_code

-- a == b
unfoldable pub same : Text → Text → Bool
same [] [] = true
same (a ∷ s) (b ∷ t) = eqb a b && same s t
same _ _ = false

-- s.startswith(t)
unfoldable pub begins_with : Text → Text → Bool
begins_with s [] = true
begins_with [] (b ∷ t) = false
begins_with (a ∷ s) (b ∷ t) = eqb a b && begins_with s t

-- t in s
unfoldable pub contains : Text → Text → Bool
unfolding begins_with
contains [] t = begins_with [] t
contains (a ∷ s) t = begins_with (a ∷ s) t || contains s t

-- the ASCII white space, which `strip` removes
abbrev pub is_space : ℕ → Bool
is_space c = eqb c 32 || leb 9 c && leb c 13

unfoldable pub strip_left : Text → Text
strip_left [] = []
strip_left (c ∷ s) = if is_space c then strip_left s else c ∷ s

-- s.strip()
unfoldable pub strip : Text → Text
unfolding strip_left
strip s = reverse (strip_left (reverse (strip_left s)))

-- " ".join(parts)
unfoldable pub join_space : List Text → Text
join_space [] = []
join_space (p ∷ []) = p
join_space (p ∷ q ∷ ps) = p ++ 32 ∷ join_space (q ∷ ps)

-- s.partition("/"): the text before the first slash, whether there is one, and the text after it
unfoldable pub partition_slash : Text → Text × Bool × Text
partition_slash [] = ([], false, [])
partition_slash (c ∷ s) =
    let (front, sep, back) = partition_slash s in
    if eqb c b'/' then ([], true, s) else (c ∷ front, sep, back)

abbrev digit : ℕ → String
digit d =
    if eqb d 0
    then "0"
    else if eqb d 1
    then "1"
    else if eqb d 2
    then "2"
    else if eqb d 3
    then "3"
    else if eqb d 4
    then "4"
    else if eqb d 5
    then "5"
    else if eqb d 6
    then "6"
    else if eqb d 7
    then "7"
    else if eqb d 8
    then "8"
    else "9"

show_from : ℕ → ℕ → String
show_from zero n = ""
show_from (suc fuel) n =
    let front = show_from fuel (n / 10) in
    if leb 10 n then String.◌++◌ front (digit (n % 10)) else digit n

-- str(n): a number has at most n + 1 digits.
unfoldable pub show : ℕ → String
unfolding show_from
show n = show_from (suc n) n

-- The parts of an f-string, put together.
abbrev pub format : List String → String
format [] = ""
format (s ∷ parts) = String.◌++◌ s (format parts)

shows : show 1207 ≡ "1207"
unfolding show
shows = refl

searches : contains (lower (codes "Run MKFS now")) (codes "mkfs") ≡ true
unfolding contains lower
searches = refl

strips : strip (codes "  a b\n") ≡ codes "a b"
unfolding strip
strips = refl
