-- ===== src/EvidenceGuard.antt =====
-- backend/cliff/services/evidence_guard.py: the evidence that an agent gathered, set right by what
-- the scanner knows of the versions. A version is read for its first number; digits are ASCII.
pub mod Guards
mod Examples
use cliff.Common.{
  ℕ, ◌+◌, ◌-◌, ◌*◌, String, Bool, true, false, not, ◌&&◌, ◌||◌, Option, none, some, List, [], ◌∷◌,
  ◌++◌, leb, ltb, eqb, if◌then◌else◌,
}
use cliff.Common.Text.{Text, codes, strip, show, format}
use cliff.Json.{Value, str, obj, Fields, end, get, set, truthy, is_str, as_obj}

abbrev is_digit : ℕ → Bool
is_digit c = leb 48 c && leb c 57

-- the number that starts a text, with the digits read so far
number_from : ℕ → Text → ℕ
number_from n [] = n
number_from n (c ∷ s) =
    let rest = number_from (n * 10 + (c - 48)) s in if is_digit c then rest else n

-- the first run of digits
first_number : Text → Option ℕ
unfolding number_from
first_number [] = none
first_number (c ∷ s) =
    let rest = first_number s in if is_digit c then some (number_from 0 (c ∷ s)) else rest

-- `_major`
unfoldable pub major : Value → Option ℕ
unfolding first_number
major (str s) = first_number (codes s)
major _ = none

abbrev put_first : ℕ → List Text → List Text
put_first c [] = (c ∷ []) ∷ []
put_first c (p ∷ ps) = (c ∷ p) ∷ ps

-- split at each comma and semicolon
split_versions : Text → List Text
split_versions [] = [] ∷ []
split_versions (c ∷ s) =
    let rest = split_versions s in if eqb c 44 || eqb c 59 then [] ∷ rest else put_first c rest

abbrev smaller : Option ℕ → Option ℕ → Option ℕ
smaller none b = b
smaller (some a) none = some a
smaller (some a) (some b) = if ltb b a then some b else some a

least : List Text → Option ℕ
unfolding first_number
least [] = none
least (p ∷ ps) = smaller (first_number p) (least ps)

-- `_min_fixed_major`
unfoldable pub min_fixed_major : Value → Option ℕ
unfolding least split_versions
min_fixed_major (str s) = least (split_versions (codes s))
min_fixed_major _ = none

abbrev raw_of : Value → Fields
raw_of (obj finding) = elim (as_obj (get finding "raw_payload")) [ none ↦ end | some raw ↦ raw ]
raw_of _ = end

-- B13, with the text of the installed version
unfoldable pub backfill : Value → Fields → Fields × List String
backfill (str installed) output = if truthy (get output "current_version") then (output, []) else (
  set output "current_version" (str installed),
  format ("current_version backfilled from scanner data: " ∷ installed ∷ []) ∷ [],
)
backfill _ output = (output, [])

-- the number of major versions that the fix goes up
unfoldable pub jump : Option ℕ → Option ℕ → Option ℕ
jump (some installed) (some fixed) = if ltb installed fixed then some (fixed - installed) else none
jump _ _ = none

abbrev is_blank : Text → Bool
is_blank [] = true
is_blank (_ ∷ _) = false

abbrev reasoning : Value → String → String
reasoning (str existing) prefixed =
    if is_blank (strip (codes existing))
    then prefixed
    else format (existing ∷ "\n\n" ∷ prefixed ∷ [])
reasoning _ prefixed = prefixed

abbrev text_of : Value → String
text_of (str s) = s
text_of _ = ""

abbrev note : ℕ → Value → Value → String
note delta installed fixed = format (
    "fix_safety corrected safe_bump -> breaking_change: the fix requires a "
    ∷ show delta
    ∷ "-major version jump ("
    ∷ text_of installed
    ∷ " -> "
    ∷ text_of fixed
    ∷ "), which is not a drop-in upgrade."
    ∷ [])

abbrev corrected : Fields → String → Fields
corrected output n = set (set output "fix_safety" (str "breaking_change")) "fix_safety_reasoning" (
    str (reasoning (get output "fix_safety_reasoning") (format ("[Cliff semver guard] " ∷ n ∷ []))))

-- B11, for a jump
unfoldable pub downgrade : Option ℕ → Value → Value → Fields → Fields × List String
downgrade none installed fixed output = (output, [])
downgrade (some delta) installed fixed output =
    let n = note delta installed fixed in
    if is_str (get output "fix_safety") "safe_bump"
    then (corrected output n, n ∷ [])
    else (output, [])

abbrev both : Fields × List String → (Fields → Fields × List String) → Fields × List String
both (output, notes) f = let (output', more) = f output in (output', notes ++ more)

-- the guard on a dict
unfoldable pub guard_fields : Value → Value → Fields → Fields × List String
guard_fields installed fixed output =
    both (backfill installed output)
      (downgrade (jump (major installed) (min_fixed_major fixed)) installed fixed)

unfoldable pub guard_evidence_output : Value → Value → Value × List String
guard_evidence_output (obj output) finding =
    let raw = raw_of finding in
    let (output', notes) = guard_fields (get raw "version") (get raw "fixed_version") output in
    (obj output', notes)
guard_evidence_output v finding = (v, [])
