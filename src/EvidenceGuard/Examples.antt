-- ===== src/EvidenceGuard/Examples.antt =====
-- The guard on concrete evidence.
use cliff.Common.{◌≡◌, refl, true, false, arith, length}
use cliff.Common.Text.{strip, show}
use cliff.Json.{Value, null, str, obj, Fields, field, end, get, set, truthy, is_str}
use cliff.EvidenceGuard.{
  major, min_fixed_major, backfill, jump, downgrade, guard_fields, guard_evidence_output,
}
use cliff.EvidenceGuard.Guards.{guard_fields-safe}

guard : Unit {0}
unfolding major min_fixed_major backfill jump downgrade guard_fields guard_evidence_output get set
    truthy is_str strip show
guard = tt

abbrev evidence : Fields
evidence = field "fix_safety" (str "safe_bump") (field "package" (str "express") end)

abbrev installed : Value
installed = str "v3.1.0"

abbrev fixed : Value
fixed = str "5.0.0-beta.3, 4.19.2"

abbrev finding : Value
finding =
    obj
      (field "raw_payload" (obj (field "version" installed (field "fixed_version" fixed end))) end)

guards :
    (get (guard_fields installed fixed evidence).0 "current_version" ≡ installed)
    × (length (guard_evidence_output (obj evidence) finding).1 ≡ 2)
    × (length (guard_evidence_output (obj evidence) null).1 ≡ 0)
    × (is_str (get (guard_fields (str "4.1") fixed evidence).0 "fix_safety") "safe_bump" ≡ true)
unfolding guard
guards = (refl, refl, refl, refl)

guard_fields-safe_example :
    is_str (get (guard_fields installed fixed evidence).0 "fix_safety") "safe_bump" ≡ false
unfolding guard
guard_fields-safe_example = guard_fields-safe installed fixed evidence 3 4 refl refl (omega arith)
