-- ===== src/EvidenceGuard/Guards.antt =====
-- What holds of the evidence after the guard, and that a second run changes nothing.
use cliff.Common.{
  ℕ, ◌-◌, ◌<◌, String, ◌≡◌, refl, ◌∙◌, true, false, Option, none, some, [], ◌==◌, arith, ltb, inl,
  inr, Bool-cases,
}
use cliff.Json.{Value, str, obj, Fields, get, set, truthy, is_str}
use cliff.Json.Lookup.{get-set, get-set_other}
use cliff.EvidenceGuard.{major, min_fixed_major, backfill, jump, downgrade, corrected, guard_fields}

corrected-fix_safety :
    (output : Fields) (n : String) → get (corrected output n) "fix_safety" ≡ str "breaking_change"
corrected-fix_safety output n =
    get-set_other (set output "fix_safety" (str "breaking_change")) "fix_safety_reasoning"
      "fix_safety" _ refl
    ∙ get-set output "fix_safety" (str "breaking_change")

downgrade-safe :
    (delta : ℕ) (installed fixed : Value) (output : Fields)
    → is_str (get (downgrade (some delta) installed fixed output).0 "fix_safety") "safe_bump"
      ≡ false
unfolding downgrade is_str
downgrade-safe delta installed fixed output =
    elim (Bool-cases (is_str (get output "fix_safety") "safe_bump")) [
      | inl y ↦ rw (y, corrected-fix_safety output _) refl
      | inr n ↦ rw n n
    ]

downgrade-other :
    (delta : Option ℕ) (installed fixed : Value) (output : Fields) (k : String)
    → ("fix_safety" == k) ≡ false
    → ("fix_safety_reasoning" == k) ≡ false
    → get (downgrade delta installed fixed output).0 k ≡ get output k
unfolding downgrade
downgrade-other none installed fixed output k a b = refl
downgrade-other (some delta) installed fixed output k a b =
    elim (Bool-cases (is_str (get output "fix_safety") "safe_bump")) [
      | inl y ↦ rw y (
          get-set_other (set output "fix_safety" (str "breaking_change")) "fix_safety_reasoning" k _
            b
          ∙ get-set_other output "fix_safety" k _ a)
      | inr n ↦ rw n
    ]

-- Where the smallest fixed version has a higher first number than the installed one, the evidence
-- does not call the fix a safe_bump, whatever the agent called it.
pub guard_fields-safe :
    (installed fixed : Value) (output : Fields) (m n : ℕ)
    → major installed ≡ some m
    → min_fixed_major fixed ≡ some n
    → m < n
    → is_str (get (guard_fields installed fixed output).0 "fix_safety") "safe_bump" ≡ false
unfolding guard_fields jump
guard_fields-safe installed fixed output m n hm hn lt =
    let up : ltb m n ≡ true = ground arith in
    rw (hm, hn, up) (downgrade-safe (n - m) installed fixed (backfill installed output).0)

backfill-filled :
    (v : String) (output : Fields)
    → truthy (str v) ≡ true
    → truthy (get (backfill (str v) output).0 "current_version") ≡ true
unfolding backfill
backfill-filled v output t = elim (Bool-cases (truthy (get output "current_version"))) [
  | inl y ↦ rw y y
  | inr z ↦ rw (z, get-set output "current_version" (str v)) t
]

backfill-again :
    (installed : Value) (output after : Fields)
    → truthy installed ≡ true
    → get after "current_version" ≡ get (backfill installed output).0 "current_version"
    → backfill installed after ≡ (after, [])
unfolding backfill
backfill-again (str v) output after t e =
    let filled : truthy (get after "current_version") ≡ true = rw e (backfill-filled v output t) in
    rw filled
backfill-again Value.null output after t e = refl
backfill-again (Value.bool x) output after t e = refl
backfill-again (Value.int x) output after t e = refl
backfill-again (Value.float x d) output after t e = refl
backfill-again (Value.arr x) output after t e = refl
backfill-again (obj x) output after t e = refl

downgrade-again :
    (delta : Option ℕ) (installed fixed : Value) (output : Fields)
    → let after = (downgrade delta installed fixed output).0 in
      downgrade delta installed fixed after ≡ (after, [])
unfolding downgrade
downgrade-again none installed fixed output = refl
downgrade-again (some delta) installed fixed output =
    rw (downgrade-safe delta installed fixed output)

-- Where the scanner's installed version is not empty, a second run of the guard finds nothing to
-- correct and leaves the evidence as it is.
pub guard_fields-again :
    (installed fixed : Value) (output : Fields)
    → truthy installed ≡ true
    → let after = (guard_fields installed fixed output).0 in
      guard_fields installed fixed after ≡ (after, [])
unfolding guard_fields
guard_fields-again installed fixed output t =
    let delta = jump (major installed) (min_fixed_major fixed) in
    let filled = (backfill installed output).0 in
    rw (
      backfill-again installed output (downgrade delta installed fixed filled).0 t
          (downgrade-other delta installed fixed filled "current_version" refl refl),
      downgrade-again delta installed fixed filled,
    )
