-- ===== src/FindingStore/Keeps.antt =====
-- What a new report leaves of the decisions that a user took on a finding.
use cliff.Common.{
  ℕ, String, ◌≡◌, refl, sym, true, false, Option, none, some, List, [], ◌∷◌, inl, inr, Bool-cases,
  if◌then◌else◌, eq_iff, arith,
}
use mathlib.Core.Path.{subst}
use cliff.Common.Options.{some_injective}
use cliff.FindingStore.{
  FindingCreate, Row, is_user_lifecycle, is_posture, status_after, refresh, is_row, create_finding,
}

-- the row of a finding
unfoldable pub find : String → String → List Row → Option Row
find source_type source_id [] = none
find source_type source_id (r ∷ rows) =
    if is_row source_type source_id r then some r else find source_type source_id rows

-- What stays of a row: what a user decided and what was written for the user.
pub record Kept (r r' : Row) : Type 0 where
  pub id : r'.id ≡ r.id
  pub status : r'.columns.status ≡ r.columns.status
  pub exception_reason : r'.columns.exception_reason ≡ r.columns.exception_reason
  pub exception_note : r'.columns.exception_note ≡ r.columns.exception_note
  pub pr_url : r'.columns.pr_url ≡ r.columns.pr_url
  pub plain_description : r'.columns.plain_description ≡ r.columns.plain_description
  pub likely_owner : r'.columns.likely_owner ≡ r.columns.likely_owner
  pub why_this_matters : r'.columns.why_this_matters ≡ r.columns.why_this_matters
  pub created_at : r'.created_at ≡ r.created_at

refresh-Kept :
    (now : ℕ) (given : FindingCreate) (r : Row)
    → is_posture given.kind ≡ false
    → is_user_lifecycle r.columns.status ≡ true
    → Kept r (refresh now given r)
unfolding refresh status_after
refresh-Kept now given r p u = record {
  id = refl;
  status = rw (p, u) refl;
  exception_reason = refl;
  exception_note = refl;
  pr_url = refl;
  plain_description = refl;
  likely_owner = refl;
  why_this_matters = refl;
  created_at = refl;
}

-- What the scan's report replaces.
pub record Reported (now : ℕ) (given : FindingCreate) (r' : Row) : Type 0 where
  pub title : r'.columns.title ≡ given.title
  pub description : r'.columns.description ≡ given.description
  pub raw_severity : r'.columns.raw_severity ≡ given.raw_severity
  pub normalized_priority : r'.columns.normalized_priority ≡ given.normalized_priority
  pub raw_payload : r'.columns.raw_payload ≡ given.raw_payload
  pub kind : r'.columns.kind ≡ given.kind
  pub grade_impact : r'.columns.grade_impact ≡ given.grade_impact
  pub category : r'.columns.category ≡ given.category
  pub assessment_id : r'.columns.assessment_id ≡ given.assessment_id
  pub asset_id : r'.columns.asset_id ≡ given.asset_id
  pub asset_label : r'.columns.asset_label ≡ given.asset_label
  pub updated_at : r'.updated_at ≡ now

-- A row before and after a report: the report is of another finding, or of this one.
pub data Rescanned (now : ℕ) (given : FindingCreate) (r r' : Row) : Type 0 where
  of_other : is_row given.source_type given.source_id r ≡ false → r' ≡ r → Rescanned now given r r'
  again :
      is_row given.source_type given.source_id r ≡ true
      → Kept r r'
      → Reported now given r'
      → Rescanned now given r r'

refresh-Reported :
    (now : ℕ) (given : FindingCreate) (r : Row) → Reported now given (refresh now given r)
unfolding refresh
refresh-Reported now given r = record {
  title = refl;
  description = refl;
  raw_severity = refl;
  normalized_priority = refl;
  raw_payload = refl;
  kind = refl;
  grade_impact = refl;
  category = refl;
  assessment_id = refl;
  asset_id = refl;
  asset_label = refl;
  updated_at = refl;
}

find-is_row :
    (st si : String) (rows : List Row) (r : Row) → find st si rows ≡ some r → is_row st si r ≡ true
unfolding find
find-is_row st si [] r f = absurd (cc)
find-is_row st si (s ∷ rows) r f = elim (Bool-cases (is_row st si s)) [
  | inl y ↦ let e : s ≡ r = some_injective (rw y at f) in subst (λ x. is_row st si x ≡ true) e y
  | inr n ↦ find-is_row st si rows r (rw n at f)
]

-- two rows with one key have each key in common
same_key :
    (a b c d : String) (x y : Row)
    → is_row a b x ≡ true
    → is_row a b y ≡ true
    → is_row c d y ≡ true
    → is_row c d x ≡ true
same_key a b c d x y h k l = ground (
  arith,
  eq_iff x.columns.source_type a,
  eq_iff x.columns.source_id b,
  eq_iff y.columns.source_type a,
  eq_iff y.columns.source_id b,
  eq_iff y.columns.source_type c,
  eq_iff y.columns.source_id d,
  eq_iff x.columns.source_type c,
  eq_iff x.columns.source_id d,
)

-- A scanner reports a finding that is no posture check, and a user has taken up a finding of the
-- table. Its row is found again. Where the report is of another finding, the row is as before. Where it
-- is of this one, the row keeps its id, status, exception, pull request, plain description, owner,
-- reason and creation time; its title, description, severity, priority, payload, kind, grade impact,
-- category, asset and assessment are those of the report.
pub create_finding-Kept :
    (now id : ℕ) (given : FindingCreate) (rows : List Row) (source_type source_id : String)
    (r : Row)
    → find source_type source_id rows ≡ some r
    → is_posture given.kind ≡ false
    → is_user_lifecycle r.columns.status ≡ true
    → (r' : Row) × (find source_type source_id (create_finding now id given rows) ≡ some r')
      × Rescanned now given r r'
unfolding find create_finding refresh
create_finding-Kept now id given [] st si r f p u = absurd (cc)
create_finding-Kept now id given (s ∷ rows) st si r f p u =
    elim (Bool-cases (is_row given.source_type given.source_id s)) [
      | inl mine ↦ elim (Bool-cases (is_row st si s)) [
        | inl y ↦
            let e : s ≡ r = some_injective (rw y at f) in
            let u' = subst (λ (x : Row). is_user_lifecycle x.columns.status ≡ true) (sym e) u in
            let k = again mine (refresh-Kept now given s p u') (refresh-Reported now given s) in
            (
              refresh now given s,
              rw (mine, y) refl,
              subst (λ (x : Row). Rescanned now given x (refresh now given s)) e k,
            )
        | inr n ↦
            let f' = rw n at f in
            let key = find-is_row st si rows r f' in
            (r, rw (mine, n) f', of_other (other_key st si given s r mine n key) refl)
      ]
      | inr other ↦ elim (Bool-cases (is_row st si s)) [
        | inl y ↦
            let e : s ≡ r = some_injective (rw y at f) in
            let other' = subst (λ x. is_row given.source_type given.source_id x ≡ false) e other in
            (r, rw (other, y) (rw y at f), of_other other' refl)
        | inr n ↦
            let (r', f', k) = create_finding-Kept now id given rows st si r (rw n at f) p u in
            (r', rw (other, n) f', k)
      ]
    ]
  where
    other_key :
        (st si : String) (given : FindingCreate) (s r : Row)
        → is_row given.source_type given.source_id s ≡ true
        → is_row st si s ≡ false
        → is_row st si r ≡ true
        → is_row given.source_type given.source_id r ≡ false
    other_key st si given s r mine n key =
        elim (Bool-cases (is_row given.source_type given.source_id r)) [
          | inl y ↦
              let z = same_key given.source_type given.source_id st si s r mine y key in absurd (cc)
          | inr z ↦ z
        ]
