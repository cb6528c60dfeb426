-- ===== src/Assessment/Grades.antt =====
-- The best grade says that nothing grave was found and that each check passed.
use cliff.Common.{
  ℕ, String, Bool, ◌≡◌, ◌≢◌, refl, sym, ◌∙◌, true, false, not, ◌&&◌, ◌||◌, Option, none, some, List,
  [], ◌∷◌, any, all, count_if, length, count_if-le-length, leb, eqb, arith, inl, inr, Bool-cases,
  ◌↔◌, if◌then◌else◌,
}
use cliff.Common.Text.{Text}
use cliff.Assessment.{
  CheckStatus, pass, fail, unknown, advisory, a, b, c, d, f, Scan, CriteriaSnapshot, is_verified,
  criteria, met_count, grade_of, derive_grade, severities, is_word, check_status, tri,
  build_snapshot,
}

count_if-all {ℓ} :
    {A : Type ℓ} (p : A → Bool) (xs : List A) → eqb (count_if p xs) (length xs) ≡ all p xs
count_if-all p [] = refl
count_if-all p (x ∷ xs) = ground (arith, count_if-all p xs, count_if-le-length p xs)

lower_grades : (p q r : Bool) → (if p then b else if q then c else if r then d else f) ≢ a
lower_grades true q r = λ e. cc
lower_grades false true r = λ e. cc
lower_grades false false true = λ e. cc
lower_grades false false false = λ e. cc

grade_of-a : (m : ℕ) → (grade_of m ≡ a) ↔ (eqb m 10 ≡ true)
grade_of-a m = elim (Bool-cases (eqb m 10)) [
  | inl y ↦ rw y (λ e. refl, λ e. refl)
  | inr n ↦ rw n (λ e. absurd (lower_grades (leb 8 m) (leb 6 m) (leb 4 m) e), λ e. absurd (cc))
]

derive_grade-a :
    (s : CriteriaSnapshot) → (derive_grade s ≡ a) ↔ (all is_verified (criteria s) ≡ true)
unfolding derive_grade met_count
derive_grade-a s =
    let m = count_if-all is_verified (criteria s) in
    let (to, from) = grade_of-a (count_if is_verified (criteria s)) in
    (λ e. sym m ∙ to e, λ e. from (m ∙ e))

abbrev pub passes : Option CheckStatus → Bool
passes (some pass) = true
passes _ = false

verified-tri : (o : Option CheckStatus) → is_verified (tri o) ≡ passes o
verified-tri none = refl
verified-tri (some pass) = refl
verified-tri (some fail) = refl
verified-tri (some unknown) = refl
verified-tri (some advisory) = refl

-- the checks that count, by their names
abbrev pub graded_checks : List String
graded_checks =
    "security_md" ∷ "dependabot_config" ∷ "branch_protection" ∷ "no_secrets_in_code"
    ∷ "actions_pinned_to_sha" ∷ "stale_collaborators" ∷ "code_owners_exists"
    ∷ "secret_scanning_enabled" ∷ []

abbrev pub is_grave : Text → Bool
is_grave s = is_word "CRITICAL" s || is_word "HIGH" s || is_word "ERROR" s || is_word "UNKNOWN" s

or_swap :
    (p q r t p' q' r' t' : Bool)
    → (p || q || r || t || (p' || q' || r' || t'))
      ≡ (p || p' || (q || q') || (r || r') || (t || t'))
or_swap p q r t p' q' r' t' = ground arith

two_criteria :
    (c h e u rest : Bool)
    → (is_verified (some (not c && not u))
        && (is_verified (some (not h && not c && not e && not u)) && rest))
      ≡ (not (c || h || e || u) && rest)
two_criteria true h e u rest = refl
two_criteria false h e true rest = ground arith
two_criteria false true e false rest = ground arith
two_criteria false false true false rest = ground arith
two_criteria false false false false rest = refl

any-or :
    {A : Type 0} (p q r t : A → Bool) (xs : List A)
    → any (λ x. p x || q x || r x || t x) xs ≡ (any p xs || any q xs || any r xs || any t xs)
any-or p q r t [] = refl
any-or p q r t (x ∷ xs) =
    rw (any-or p q r t xs)
      (or_swap (p x) (q x) (r x) (t x) (any p xs) (any q xs) (any r xs) (any t xs))

all_verified :
    (scan : Scan) (statuses : List (String × CheckStatus))
    → all is_verified (criteria (build_snapshot scan statuses)) ≡ (
        not (any is_grave (severities scan))
        && all (λ name. passes (check_status name statuses)) graded_checks)
unfolding build_snapshot
all_verified scan statuses =
    let t = λ (name : String). verified-tri (check_status name statuses) in
    let g =
      any-or (is_word "CRITICAL") (is_word "HIGH") (is_word "ERROR") (is_word "UNKNOWN")
        (severities scan) in
    let rest = all (λ name. passes (check_status name statuses)) graded_checks in
    let found = λ (word : String). any (is_word word) (severities scan) in
    rw
      (
        t "security_md",
        t "dependabot_config",
        t "branch_protection",
        t "no_secrets_in_code",
        t "actions_pinned_to_sha",
        t "stale_collaborators",
        t "code_owners_exists",
        t "secret_scanning_enabled",
        g,
      )
      (two_criteria (found "CRITICAL") (found "HIGH") (found "ERROR") (found "UNKNOWN") rest)

-- The best grade is given exactly where no vulnerability, secret or semgrep finding is critical, high,
-- an error or of unknown severity, and each of the eight checks that count passed; a check that is
-- unknown, advisory or missing did not pass.
pub derive_grade-best :
    (scan : Scan) (statuses : List (String × CheckStatus))
    → (derive_grade (build_snapshot scan statuses) ≡ a) ↔ (
        (any is_grave (severities scan) ≡ false)
        × (all (λ name. passes (check_status name statuses)) graded_checks ≡ true))
derive_grade-best scan statuses =
    let (to, from) = derive_grade-a (build_snapshot scan statuses) in
    let same = all_verified scan statuses in
    let grave = any is_grave (severities scan) in
    let rest = all (λ name. passes (check_status name statuses)) graded_checks in
    (λ e. both_of grave rest (sym same ∙ to e), λ (n, y). from (same ∙ rw (n, y) refl))
  where
    both_of : (g r : Bool) → (not g && r) ≡ true → (g ≡ false) × (r ≡ true)
    both_of false r e = (refl, e)
    both_of true r e = absurd (cc)
