-- ===== src/Triage/CodeMap/Examples.antt =====
-- The path gate on concrete findings.
use cliff.Common.{String, ◌≡◌, refl, Bool, true, false, Option, none, some, []}
use cliff.Common.Text.{codes, same, strip, begins_with}
use cliff.Json.{Value, str, obj, arr, nil, cons, Fields, field, end, get, truthy}
use cliff.Triage.Output.{false_positive, TriageOutput}
use cliff.Triage.CodeMap.{
  Print, strip_line_suffix, find_segment, find_glob, path_matches, code_map_says_ships, classified,
  match_builtin, by_classified, builtin_clear, resolve_by_code_map, located,
}
use cliff.Triage.CodeMap.Globs.{
  strip_slash, split_slash, matches, glob_matches, wildcards_bounded, glob_is_safe, is_plain,
}
use cliff.Triage.CodeMap.Clears.{Grounds, path_of, resolve_by_code_map-Grounds}

gate : Unit {0}
unfolding strip_line_suffix find_segment find_glob path_matches code_map_says_ships classified
    match_builtin by_classified resolve_by_code_map strip_slash split_slash matches glob_matches
    wildcards_bounded glob_is_safe is_plain get truthy same strip begins_with
gate = tt

-- `str` and `repr` of a text with no use for the test
abbrev print : Print
print = record { text = λ t. "t"; repr = λ t. "'t'"; value = λ v. "v" }

abbrev at : String → Fields
at path = field "location" (str path) end

abbrev entry : String → String → Value
entry category glob = obj (field "category" (str category) (field "glob" (str glob) end))

abbrev profile : Fields
profile =
    field "classified"
      (arr (cons (entry "ships" "examples/**") (cons (entry "docs" "site/**/*.md") nil))) end

abbrev clears : Option TriageOutput → Bool
clears none = false
clears (some t) = true

gates :
    (clears (resolve_by_code_map print (at "app/tests/x.py:12:3") none) ≡ true)
    × (clears (resolve_by_code_map print (at "examples/x.py") none) ≡ true)
    × (clears (resolve_by_code_map print (at "examples/x.py") (some profile)) ≡ false)
    × (clears (resolve_by_code_map print (at "site/a/b.md") (some profile)) ≡ true)
    × (clears (resolve_by_code_map print (at "app/testimony.py") (some profile)) ≡ false)
unfolding gate
gates = (refl, refl, refl, refl, refl)

abbrev cleared : TriageOutput
cleared = builtin_clear print (codes "app/tests/x.py") "t/ (non-ship test directory)"

resolve_by_code_map-Grounds_example :
    (cleared.verdict ≡ false_positive)
    × (same (located (get (at "app/tests/x.py:12") "location")) [] ≡ false)
    × Grounds print none (path_of print none (at "app/tests/x.py:12"))
unfolding gate
resolve_by_code_map-Grounds_example =
    resolve_by_code_map-Grounds print none (at "app/tests/x.py:12") cleared refl
