-- ===== src/Executor/Runs/Reconcile.antt =====
-- What the start-up leaves of the runs that a stopped process had started.
use cliff.Common.{
  ℕ, ◌≡◌, refl, false, List, [], ◌∷◌, map, any, count_if, inl, inr, Bool-cases, if◌then◌else◌,
}
use cliff.Executor.Runs.{Row, is_live, reconcile_orphaned_agent_runs, orphaned}

step : ℕ → Row → Row
step now r = if is_live r then orphaned now r else r

rests : (now : ℕ) (r : Row) → is_live (step now r) ≡ false
unfolding step
rests now r = elim (Bool-cases (is_live r)) [ inl y ↦ rw y refl | inr n ↦ rw n n ]

none_live : (now : ℕ) (rows : List Row) → count_if is_live (map (step now) rows) ≡ 0
none_live now [] = refl
none_live now (r ∷ rows) = rw (rests now r, none_live now rows) refl

no_live : (now : ℕ) (rows : List Row) → any is_live (map (step now) rows) ≡ false
no_live now [] = refl
no_live now (r ∷ rows) = rw (rests now r, no_live now rows) refl

same_rested : (now : ℕ) (r : Row) → is_live r ≡ false → step now r ≡ r
unfolding step
same_rested now r n = rw n refl

again :
    (now later : ℕ) (rows : List Row) → map (step later) (map (step now) rows) ≡ map (step now) rows
again now later [] = refl
again now later (r ∷ rows) =
    rw (same_rested later (step now r) (rests now r), again now later rows) refl

-- After the start-up no run is queued or running, and a second start-up, at whatever time, changes no
-- row and counts none.
pub reconcile-again :
    (now later : ℕ) (rows : List Row)
    → (any is_live (reconcile_orphaned_agent_runs now rows).0 ≡ false)
      × (reconcile_orphaned_agent_runs later (reconcile_orphaned_agent_runs now rows).0
          ≡ ((reconcile_orphaned_agent_runs now rows).0, 0))
unfolding reconcile_orphaned_agent_runs step
reconcile-again now later rows =
    (no_live now rows, rw (again now later rows, none_live now rows) refl)
