-- ===== src/FindingStore/Passes.antt =====
-- Which findings a scan closes that no longer sees them.
use cliff.Common.{
  ℕ, String, ◌≡◌, ◌≢◌, refl, sym, ap, true, false, Option, some, List, [], ◌∷◌, inl, inr,
  Bool-cases, eqb, ◌==◌, eq_iff, arith, any,
}
use mathlib.Core.Path.{subst}
use cliff.Common.Options.{◌>>=◌, >>=-eq-some, some_injective}
use cliff.Json.{Value, Fields}
use cliff.Issue.{
  FindingStatus, new, triaged, in_progress, remediated, validated, closed, exception, passed,
}
use cliff.FindingStore.{
  Row, is_row, is_closable, is_stale, closed_row, notes_of, passed_row, with_row, close_rows,
  close_disappeared_findings,
}
use cliff.FindingStore.Keeps.{find}

-- A finding that the pass leaves alone: one of another scanner, one that the scan saw, or one with a
-- status that ends it.
pub data Spared (source_type : String) (kept : List String) (r : Row) : Type 0 where
  of_other_scanner : r.columns.source_type ≢ source_type → Spared source_type kept r
  seen : any (λ k. k == r.columns.source_id) kept ≡ true → Spared source_type kept r
  was_closed : r.columns.status ≡ closed → Spared source_type kept r
  was_remediated : r.columns.status ≡ remediated → Spared source_type kept r
  was_validated : r.columns.status ≡ validated → Spared source_type kept r
  was_passed : r.columns.status ≡ passed → Spared source_type kept r

-- a status that does not end a finding, the one of a rejected finding included
pub data IsUnsettled : FindingStatus → Type 0 where
  is_new : IsUnsettled new
  is_triaged : IsUnsettled triaged
  is_in_progress : IsUnsettled in_progress
  is_exception : IsUnsettled exception

-- A finding of the scanner that its scan did not see, and that has not ended.
pub record Missing (source_type : String) (kept : List String) (r : Row) : Type 0 where
  pub source : r.columns.source_type ≡ source_type
  pub unseen : any (λ k. k == r.columns.source_id) kept ≡ false
  pub unsettled : IsUnsettled r.columns.status

-- A row before and after the pass, where `prior` other assessments are there. A row that is closed
-- changes its status, its payload and its time alone.
pub data Passed (now prior : ℕ) (source_type : String) (kept : List String) (r r' : Row)
    : Type 0 where
  first_scan : prior ≡ 0 → r' ≡ r → Passed now prior source_type kept r r'
  spared : Spared source_type kept r → r' ≡ r → Passed now prior source_type kept r r'
  shut :
      (payload : Option Fields)
      → prior ≢ 0
      → Missing source_type kept r
      → r' ≡ record r {
        updated_at = now;
        columns = record r.columns { status = closed; raw_payload = payload };
      }
      → Passed now prior source_type kept r r'

closable-IsUnsettled : (x : FindingStatus) → is_closable x ≡ true → IsUnsettled x
closable-IsUnsettled new h = is_new
closable-IsUnsettled triaged h = is_triaged
closable-IsUnsettled in_progress h = is_in_progress
closable-IsUnsettled exception h = is_exception
closable-IsUnsettled remediated h = absurd (cc)
closable-IsUnsettled validated h = absurd (cc)
closable-IsUnsettled closed h = absurd (cc)
closable-IsUnsettled passed h = absurd (cc)

ended-Spared :
    (source_type : String) (kept : List String) (r : Row) (x : FindingStatus)
    → r.columns.status ≡ x
    → is_closable x ≡ false
    → Spared source_type kept r
ended-Spared st kept r new e h = absurd (cc)
ended-Spared st kept r triaged e h = absurd (cc)
ended-Spared st kept r in_progress e h = absurd (cc)
ended-Spared st kept r exception e h = absurd (cc)
ended-Spared st kept r remediated e h = was_remediated e
ended-Spared st kept r validated e h = was_validated e
ended-Spared st kept r closed e h = was_closed e
ended-Spared st kept r passed e h = was_passed e

module _ (iso : ℕ → Value) (now : ℕ) (assessment_id source_type : String) (kept : List String) where
  passed-stale :
      (r r' : Row)
      → passed_row iso now assessment_id source_type kept r ≡ some r'
      → is_stale iso now assessment_id source_type kept r ≡ true
      → (notes : Value) × (closed_row iso now assessment_id source_type kept r notes ≡ r')
  passed-stale r r' h y =
      let (notes, e, k) =
        >>=-eq-some (notes_of iso now assessment_id source_type kept r)
          (λ notes. some (closed_row iso now assessment_id source_type kept r notes)) (rw y at h) in
      (notes, some_injective k)

  passed-fresh :
      (r r' : Row)
      → passed_row iso now assessment_id source_type kept r ≡ some r'
      → is_stale iso now assessment_id source_type kept r ≡ false
      → r ≡ r'
  passed-fresh r r' h n = some_injective (rw n at h)

  passed-key :
      (st si : String) (r r' : Row)
      → passed_row iso now assessment_id source_type kept r ≡ some r'
      → is_row st si r' ≡ is_row st si r
  passed-key st si r r' h = elim (Bool-cases (is_stale iso now assessment_id source_type kept r)) [
    | inl y ↦ let (notes, e) = passed-stale r r' h y in ap (is_row st si) (sym e)
    | inr n ↦ ap (is_row st si) (sym (passed-fresh r r' h n))
  ]

  stale-Missing :
      (r : Row)
      → is_stale iso now assessment_id source_type kept r ≡ true
      → Missing source_type kept r
  stale-Missing r h = record {
    source = (eq_iff r.columns.source_type source_type).0 (ground arith);
    unseen = ground arith;
    unsettled = closable-IsUnsettled r.columns.status (ground arith);
  }

  fresh-Spared :
      (r : Row)
      → is_stale iso now assessment_id source_type kept r ≡ false
      → Spared source_type kept r
  fresh-Spared r h = elim (Bool-cases (r.columns.source_type == source_type)) [
    | inr n ↦
        of_other_scanner
          (λ e. let y = (eq_iff r.columns.source_type source_type).1 e in absurd (cc))
    | inl y ↦ elim (Bool-cases (any (λ k. k == r.columns.source_id) kept)) [
      | inl k ↦ seen k
      | inr k ↦ ended-Spared source_type kept r r.columns.status refl (ground arith)
    ]
  ]

  passed_row-Passed :
      (prior : ℕ) (r r' : Row)
      → prior ≢ 0
      → passed_row iso now assessment_id source_type kept r ≡ some r'
      → Passed now prior source_type kept r r'
  passed_row-Passed prior r r' z h =
      elim (Bool-cases (is_stale iso now assessment_id source_type kept r)) [
        | inl y ↦
            let (notes, e) = passed-stale r r' h y in
            shut (closed_row iso now assessment_id source_type kept r notes).columns.raw_payload z
              (stale-Missing r y) (sym e)
        | inr n ↦ spared (fresh-Spared r n) (sym (passed-fresh r r' h n))
      ]

  close_rows-Passed :
      (prior : ℕ) (st si : String) (r : Row) (rows rows' : List Row) (n : ℕ)
      → prior ≢ 0
      → close_rows iso now assessment_id source_type kept rows ≡ some (rows', n)
      → find st si rows ≡ some r
      → (r' : Row) × (find st si rows' ≡ some r') × Passed now prior source_type kept r r'
  unfolding close_rows find
  close_rows-Passed prior st si r [] rows' n z h f = absurd (cc)
  close_rows-Passed prior st si r (x ∷ rows) rows' n z h f =
      let (x', e, k) =
        >>=-eq-some (passed_row iso now assessment_id source_type kept x)
          (λ row.
            close_rows iso now assessment_id source_type kept rows
            >>= with_row iso now assessment_id source_type kept x row)
          h in
      let ((rest, m), e', k') =
        >>=-eq-some (close_rows iso now assessment_id source_type kept rows)
          (with_row iso now assessment_id source_type kept x x') k in
      let shape : x' ∷ rest ≡ rows' = ap (λ (p : List Row × ℕ). p.0) (some_injective k') in
      let key = passed-key st si x x' e in
      subst (λ l. (r' : Row) × (find st si l ≡ some r') × Passed now prior source_type kept r r')
        shape
        (elim (Bool-cases (is_row st si x)) [
          | inl y ↦
              let same_row : x ≡ r = some_injective (rw y at f) in
              let p =
                subst (λ w. Passed now prior source_type kept w x') same_row
                  (passed_row-Passed prior x x' z e) in
              (x', rw (key, y) refl, p)
          | inr other ↦
              let (r', f', p) = close_rows-Passed prior st si r rows rest m z e' (rw other at f) in
              (r', rw (key, other) f', p)
        ])

  -- After the pass that closes what a scan no longer sees, each finding is found again. Its row is as
  -- it was where the repository has no other assessment, where another scanner reported it, where the
  -- scan saw it, or where it is closed, remediated, validated or passed. Each other row, one that a
  -- user rejected included, is closed, with its payload and its time changed and nothing else. The pass
  -- raised nothing.
  pub close_disappeared_findings-Passed :
      (prior : ℕ) (st si : String) (r : Row) (rows rows' : List Row) (n : ℕ)
      → close_disappeared_findings iso now assessment_id source_type kept prior rows
        ≡ some (rows', n)
      → find st si rows ≡ some r
      → (r' : Row) × (find st si rows' ≡ some r') × Passed now prior source_type kept r r'
  unfolding close_disappeared_findings
  close_disappeared_findings-Passed prior st si r rows rows' n h f =
      elim (Bool-cases (eqb prior 0)) [
        | inl y ↦
            let e : rows ≡ rows' = ap (λ (p : List Row × ℕ). p.0) (some_injective (rw y at h)) in
            (r, subst (λ l. find st si l ≡ some r) e f, first_scan (ground arith) refl)
        | inr z ↦
            let some_prior : prior ≢ 0 = λ e. ground arith in
            close_rows-Passed prior st si r rows rows' n some_prior (rw z at h) f
      ]
