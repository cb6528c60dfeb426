-- ===== src/Triage/CodeMap.antt =====
-- backend/cliff/agents/triage_codemap.py: the gate that clears a finding whose path does not ship.
-- A path is a list of code points, letters and digits are ASCII. `Print` has Python's `str` and
-- `repr`, which fill the text of the receipt.
pub mod Globs
pub mod Clears
mod Examples
use cliff.Common.{
  ℕ, zero, suc, String, Bool, true, false, not, ◌&&◌, ◌||◌, Option, none, some, List, [], ◌∷◌, ◌++◌,
  ◌==◌, any, all, eqb, leb, if◌then◌else◌,
}
use mathlib.Core.List.{reverse}
use cliff.Common.Text.{Text, codes, same, strip, contains, format}
use cliff.Json.{Value, Fields, end, field, get, truthy, str, as_str, as_arr, as_obj}
use cliff.Triage.Output.{
  Verdict, false_positive, Kind, pass, Check, Provenance, TriageOutput, draft, fill,
}
use cliff.Triage.CodeMap.Globs.{strip_slash, split_slash, glob_matches, glob_is_safe, is_plain}

pub record Print : Type 0 where
  pub text : Text → String
  pub repr : Text → String
  pub value : Value → String

abbrev pub member : Text → List String → Bool
member t words = any (λ w. same t (codes w)) words

abbrev pub test_segments : List String
test_segments =
    "tests" ∷ "test" ∷ "__tests__" ∷ "spec" ∷ "specs" ∷ "e2e" ∷ "fixtures" ∷ "fixture" ∷ "testdata"
    ∷ "__mocks__" ∷ "mocks" ∷ []

abbrev pub vetoable_segments : List String
vetoable_segments =
    "examples" ∷ "example" ∷ "samples" ∷ "sample" ∷ "docs" ∷ "doc" ∷ "benchmarks" ∷ "bench" ∷ []

abbrev pub basename_globs : List String
basename_globs =
    "*.test.js" ∷ "*.test.ts" ∷ "*.test.jsx" ∷ "*.test.tsx" ∷ "*.spec.js" ∷ "*.spec.ts"
    ∷ "*_test.py" ∷ "*_test.go" ∷ "*_test.js" ∷ "*_test.ts" ∷ "test_*.py" ∷ "conftest.py"
    ∷ "*.stories.js" ∷ "*.stories.ts" ∷ "test.py" ∷ []

abbrev pub nonship_categories : List String
nonship_categories = "test" ∷ "fixture" ∷ "example" ∷ "docs" ∷ []

abbrev is_digit : ℕ → Bool
is_digit c = leb 48 c && leb c 57

-- Digits and a colon off the front, for a path read from its end.
after_number : Bool → Text → Option Text
after_number seen [] = none
after_number seen (c ∷ s) =
    let rest = after_number true s in
    if is_digit c then rest else if seen && eqb c 58 then some s else none

abbrev or_text : Option Text → Text → Text
or_text none t = t
or_text (some r) t = r

-- `_strip_line_suffix`
unfoldable pub strip_line_suffix : Text → Text
unfolding after_number
strip_line_suffix path = elim (after_number false (reverse path)) [
  | none ↦ path
  | some r ↦ reverse (or_text (after_number false r) r)
]

-- The directories of a split path, and its last part.
abbrev pub init : List Text → List Text
init [] = []
init (p ∷ []) = []
init (p ∷ q ∷ ps) = p ∷ init (q ∷ ps)

abbrev pub last : List Text → Text
last [] = []
last (p ∷ []) = p
last (p ∷ q ∷ ps) = last (q ∷ ps)

-- The first of the segments that is listed.
unfoldable pub find_segment : List String → List Text → Option Text
find_segment words [] = none
find_segment words (s ∷ segs) =
    let rest = find_segment words segs in if member s words then some s else rest

unfoldable pub find_glob : Text → List String → Option String
find_glob base [] = none
find_glob base (g ∷ globs) =
    let rest = find_glob base globs in if glob_matches (codes g) base then some g else rest

-- `_path_matches`
unfoldable pub path_matches : Text → Text → Bool
path_matches path glob =
    let p = strip_slash path in
    let g = strip_slash glob in
    not (same p [])
    && not (same g [])
    && (glob_matches g p || is_plain g && glob_matches (codes "**/" ++ (g ++ codes "/**")) p)

abbrev ships_root : Text → Value → Bool
ships_root path (str root) = not (root == "") && path_matches path (codes root)
ships_root path _ = false

-- A text that is not empty and a safe glob for the path.
abbrev pub glob_covers : Text → Value → Bool
glob_covers path (str glob) =
    not (glob == "") && glob_is_safe (codes glob) && path_matches path (codes glob)
glob_covers path _ = false

abbrev is_word : Value → String → Bool
is_word (str s) w = s == w
is_word _ w = false

abbrev ships_entry : Text → Value → Bool
ships_entry path (Value.obj entry) =
    is_word (get entry "category") "ships" && glob_covers path (get entry "glob")
ships_entry path _ = false

abbrev any_item : (Value → Bool) → Option (List Value) → Bool
any_item p none = false
any_item p (some vs) = any p vs

-- `_code_map_says_ships`; a missing code map and an empty one are the same
unfoldable pub code_map_says_ships : Text → Option Fields → Bool
code_map_says_ships path none = false
code_map_says_ships path (some m) =
    any_item (ships_root path) (as_arr (get m "ships_roots"))
    || any_item (ships_entry path) (as_arr (get m "classified"))

abbrev category_clears : Value → Bool
category_clears (str c) = any (λ w. c == w) nonship_categories
category_clears _ = false

-- an entry on which layer 2 clears
abbrev pub clears_entry : Text → Value → Bool
clears_entry path (Value.obj entry) =
    category_clears (get entry "category") && glob_covers path (get entry "glob")
clears_entry path _ = false

abbrev entry_get : Value → String → Value
entry_get (Value.obj entry) k = get entry k
entry_get _ k = Value.null

abbrev find_item : (Value → Bool) → Option (List Value) → Option Value
find_item p none = none
find_item p (some []) = none
find_item p (some (v ∷ vs)) = let rest = find_item p (some vs) in if p v then some v else rest

unfoldable pub classified : Option Fields → Option (List Value)
classified none = none
classified (some m) = as_arr (get m "classified")

abbrev pub located : Value → Text
located (str s) = strip (codes s)
located _ = []

module _ (print : Print) where
  abbrev clear : String → String → String → TriageOutput
  clear eyebrow result detail = fill (record (draft false_positive 90) {
    checks = record { eyebrow = eyebrow; result = result; kind = pass; detail = some detail } ∷ [];
    provenance = some (record {
      steps_run = "code_map_resolver" ∷ [];
      traced_sha = none;
      model_tiers = [];
      exit_stage = some "code_map_resolver";
      escalated = false;
    });
  })

  abbrev or_glob : Option String → Option (String × Bool)
  or_glob none = none
  or_glob (some glob) = some (format (glob ∷ " (non-ship test file)" ∷ []), false)

  -- `_match_builtin`: the label, and whether `ships` takes the match back
  unfoldable pub match_builtin : Text → Option (String × Bool)
  match_builtin path =
      let parts = split_slash (strip_slash path) in
      elim (find_segment test_segments (init parts)) [
        | some seg ↦ some (format (print.text seg ∷ "/ (non-ship test directory)" ∷ []), false)
        | none ↦ elim (find_segment vetoable_segments (init parts)) [
          | some seg ↦ some (format (print.text seg ∷ "/ (non-ship directory)" ∷ []), true)
          | none ↦ or_glob (find_glob (last parts) basename_globs)
        ]
      ]

  abbrev pub builtin_clear : Text → String → TriageOutput
  builtin_clear path label =
      clear "Non-ship path" "does not ship to production" (
        format
          ("path " ∷ print.repr path ∷ " is a built-in non-ship location (" ∷ label ∷ ")" ∷ []))

  abbrev reason : Value → String
  reason v = if truthy v then print.value v else "non-shipping code"

  abbrev entry_clear : Text → Value → TriageOutput
  entry_clear path entry =
      clear "Out of scope"
        (format
          (print.value (entry_get entry "category") ∷ " code — does not ship to production" ∷ []))
        (format (
          "path "
          ∷ print.repr path
          ∷ " matches code_map glob "
          ∷ print.repr (codes (print.value (entry_get entry "glob")))
          ∷ ": "
          ∷ reason (entry_get entry "reason")
          ∷ []))

  -- layer 2
  unfoldable pub by_classified : Text → Option Fields → Option TriageOutput
  unfolding classified
  by_classified path code_map = elim (find_item (clears_entry path) (classified code_map)) [
    | none ↦ none
    | some entry ↦ some (entry_clear path entry)
  ]

  abbrev layers : Text → Option Fields → Option (String × Bool) → Option TriageOutput
  layers path code_map none = by_classified path code_map
  layers path code_map (some (label, vetoable)) =
      if vetoable && code_map_says_ships path code_map
      then by_classified path code_map
      else some (builtin_clear path label)

  unfoldable pub resolve_by_code_map : Fields → Option Fields → Option TriageOutput
  resolve_by_code_map finding code_map =
      let raw = located (get finding "location") in
      let path = strip_line_suffix raw in
      if same raw [] then none else layers path code_map (match_builtin path)
