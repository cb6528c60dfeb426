-- ===== src/Triage/CodeMap/Clears.antt =====
-- On what grounds triage_codemap.py clears a finding.
use cliff.Common.{
  String, ◌≡◌, inl, inr, refl, Bool, true, false, Option, none, some, List, [], ◌∷◌, any, arith,
  Bool-cases, Option-cases,
}
use cliff.Common.Text.{Text, same}
use cliff.Json.{Value, Fields, get}
use cliff.Triage.Output.{false_positive, TriageOutput}
use cliff.Triage.CodeMap.{
  Print, strip_line_suffix, located, match_builtin, code_map_says_ships, clears_entry, find_item,
  classified, by_classified, layers, resolve_by_code_map,
}

-- An entry that clears stands in the list.
find_item-any :
    (p : Value → Bool) (o : Option (List Value)) (v : Value)
    → find_item p o ≡ some v
    → (vs : List Value) × (o ≡ some vs) × (any p vs ≡ true)
find_item-any p none v h = absurd (cc)
find_item-any p (some []) v h = absurd (cc)
find_item-any p (some (x ∷ vs)) v h = elim (Bool-cases (p x)) [
  | inl y ↦ (x ∷ vs, refl, ground arith)
  | inr n ↦
      let (ws, e, a) = find_item-any p (some vs) v (rw n at h) in (x ∷ vs, refl, ground (arith))
]

module _ (print : Print) (code_map : Option Fields) where
  pub data Grounds (path : Text) : Type 0 where
    never_ships : (label : String) → match_builtin print path ≡ some (label, false) → Grounds path
    not_packaged :
        (label : String)
        → match_builtin print path ≡ some (label, true)
        → code_map_says_ships path code_map ≡ false
        → Grounds path
    listed :
        (vs : List Value)
        → classified code_map ≡ some vs
        → any (clears_entry path) vs ≡ true
        → Grounds path

  -- The path of a finding, without white space and the scanner's line suffix.
  abbrev pub path_of : Fields → Text
  path_of finding = strip_line_suffix (located (get finding "location"))

  by_classified-Grounds :
      (path : Text) (t : TriageOutput)
      → by_classified print path code_map ≡ some t
      → (t.verdict ≡ false_positive) × Grounds path
  unfolding by_classified
  by_classified-Grounds path t h =
      elim (Option-cases (find_item (clears_entry path) (classified code_map))) [
        | inl e ↦ absurd (ground arith)
        | inr (v, e) ↦
            let (vs, l, a) = find_item-any (clears_entry path) (classified code_map) v e in
            (ground arith, listed vs l a)
      ]

  layers-Grounds :
      (path : Text) (m : Option (String × Bool)) (t : TriageOutput)
      → match_builtin print path ≡ m
      → layers print path code_map m ≡ some t
      → (t.verdict ≡ false_positive) × Grounds path
  layers-Grounds path none t e h = by_classified-Grounds path t h
  layers-Grounds path (some (label, false)) t e h = (ground arith, never_ships label e)
  layers-Grounds path (some (label, true)) t e h =
      elim (Bool-cases (code_map_says_ships path code_map)) [
        | inl y ↦ by_classified-Grounds path t (rw y at h)
        | inr n ↦ (ground arith, not_packaged label e n)
      ]

  -- The gate clears a finding only as a false positive, only where it has a path, and only on one
  -- of three grounds: the path is a built-in test location, or another built-in location that the
  -- profile does not say to ship, or the profile lists a safe glob of a non-shipping category for
  -- it.
  pub resolve_by_code_map-Grounds :
      (finding : Fields) (t : TriageOutput)
      → resolve_by_code_map print finding code_map ≡ some t
      → (t.verdict ≡ false_positive)
        × (same (located (get finding "location")) [] ≡ false)
        × Grounds (path_of finding)
  unfolding resolve_by_code_map
  resolve_by_code_map-Grounds finding t h =
      elim (Bool-cases (same (located (get finding "location")) [])) [
        | inl y ↦ absurd (ground arith)
        | inr n ↦
            let (v, g) =
              layers-Grounds (path_of finding) (match_builtin print (path_of finding)) t refl
                (rw n at h) in
            (v, n, g)
      ]
