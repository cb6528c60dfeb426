-- ===== src/Executor/Runs/Newest.antt =====
-- The newest runs of a workspace, which the check before a run reads: a row stands among the first
-- ones where few rows are as new as it is.
use mathlib.Core.List.{Memᴰ}
use cliff.Common.{
  ℕ, zero, suc, ◌≤◌, String, Bool, ◌≡◌, refl, sym, true, false, not, Option, none, some, List, [],
  ◌∷◌, any, count_if, keep, take, arith, inl, inr, Bool-cases, eqb,
}
use mathlib.Core.Path.{subst}
use cliff.Common.Options.{some_injective}
use cliff.Executor.Runs.{
  Row, row_runs, of_workspace, precedes, insert, newest_first, list_agent_runs, get_agent_run,
  is_busy,
}

-- the second row is as new as the first, or newer
abbrev pub is_as_new : Row → Row → Bool
is_as_new x s = not (precedes x.started_at s.started_at)

-- The row is among the first `n` of the list, and those before it are as new as it is.
data Front (x : Row) : ℕ → List Row → Type 0 where
  here : {n : ℕ} {rows : List Row} → Front x (suc n) (x ∷ rows)
  there :
      {n : ℕ} {s : Row} {rows : List Row}
      → precedes x.started_at s.started_at ≡ false
      → Front x n rows
      → Front x (suc n) (s ∷ rows)

precedes_over :
    (x s r : Option ℕ) → precedes x s ≡ false → precedes x r ≡ true → precedes s r ≡ true
unfolding precedes
precedes_over none s r h k = absurd (cc)
precedes_over (some a) none r h k = absurd (cc)
precedes_over (some a) (some b) none h k = refl
precedes_over (some a) (some b) (some c) h k = ground arith

precedes_asym : (s r : Option ℕ) → precedes s r ≡ true → precedes r s ≡ false
unfolding precedes
precedes_asym none r h = absurd (cc)
precedes_asym (some a) none h = refl
precedes_asym (some a) (some b) h = ground arith

precedes_own : (t : Option ℕ) → precedes t t ≡ false
unfolding precedes
precedes_own none = refl
precedes_own (some a) = ground arith

insert_older :
    {x : Row} (r : Row) {n : ℕ} {rows : List Row}
    → precedes x.started_at r.started_at ≡ true
    → Front x n rows
    → Front x n (insert r rows)
unfolding insert
insert_older r h here = rw h here
insert_older {x} r h (there {s = s} o f) =
    rw (precedes_over x.started_at s.started_at r.started_at o h) (there o (insert_older r h f))

insert_as_new :
    {x : Row} (r : Row) {n : ℕ} {rows : List Row}
    → precedes x.started_at r.started_at ≡ false
    → Front x n rows
    → Front x (suc n) (insert r rows)
unfolding insert
insert_as_new r h here = rw h (there h here)
insert_as_new {x} r h (there {s = s} o f) = elim (Bool-cases (precedes s.started_at r.started_at)) [
  | inl y ↦ rw y (there o (insert_as_new r h f))
  | inr n ↦ rw n (there h (there o f))
]

count_if-insert :
    (p : Row → Bool) (r : Row) (rows : List Row)
    → count_if p (insert r rows) ≡ count_if p (r ∷ rows)
unfolding insert
count_if-insert p r [] = refl
count_if-insert p r (s ∷ rows) = ground (arith, count_if-insert p r rows)

count_if-newest :
    (p : Row → Bool) (rows : List Row) → count_if p (newest_first rows) ≡ count_if p rows
unfolding newest_first
count_if-newest p [] = refl
count_if-newest p (r ∷ rows) =
    ground (arith, count_if-newest p rows, count_if-insert p r (newest_first rows))

insert-Front :
    (x : Row) (n : ℕ) (rows : List Row)
    → suc (count_if (is_as_new x) rows) ≤ n
    → Front x n (insert x rows)
unfolding insert
insert-Front x zero rows h = absurd (omega arith)
insert-Front x (suc n) [] h = here
insert-Front x (suc n) (s ∷ rows) h = elim (Bool-cases (precedes s.started_at x.started_at)) [
  | inl y ↦
      let o = precedes_asym s.started_at x.started_at y in
      rw y (there o (insert-Front x n rows (ground arith)))
  | inr k ↦ rw k here
]

newest-Front :
    (x : Row) (n : ℕ) (rows : List Row)
    → Memᴰ x rows
    → count_if (is_as_new x) rows ≤ n
    → Front x n (newest_first rows)
unfolding newest_first
newest-Front x n [] m h = elim m [ ]
newest-Front x n (r ∷ rows) (Memᴰ.head e) h =
    let own : precedes x.started_at x.started_at ≡ false = precedes_own x.started_at in
    let few : count_if (is_as_new x) (x ∷ rows) ≤ n =
      subst (λ z. count_if (is_as_new x) (z ∷ rows) ≤ n) (sym e) h in
    subst (λ z. Front x n (insert z (newest_first rows))) e
      (insert-Front x n (newest_first rows)
        (rw (count_if-newest (is_as_new x) rows) (ground arith)))
newest-Front x n (r ∷ rows) (Memᴰ.tail m) h =
    elim (Bool-cases (precedes x.started_at r.started_at)) [
      | inl y ↦ insert_older r y (newest-Front x n rows m (ground arith))
      | inr k ↦ as_new n (rw k at h) k (λ l few. newest-Front x l rows m few)
    ]
  where
    as_new :
        (n : ℕ)
        → suc (count_if (is_as_new x) rows) ≤ n
        → precedes x.started_at r.started_at ≡ false
        → ((l : ℕ) → count_if (is_as_new x) rows ≤ l → Front x l (newest_first rows))
        → Front x n (insert r (newest_first rows))
    as_new zero h k f = absurd (omega arith)
    as_new (suc n) h k f = insert_as_new r k (f n (omega arith))

Front-any :
    {x : Row} {n : ℕ} {rows : List Row}
    → row_runs x ≡ true
    → Front x n rows
    → any row_runs (take n rows) ≡ true
Front-any r here = rw r refl
Front-any r (there o f) = ground (arith, Front-any r f)

kept-Mem :
    (ws : String) (id : ℕ) (rows : List Row) (r : Row)
    → get_agent_run id rows ≡ some r
    → of_workspace ws r ≡ true
    → Memᴰ r (keep (of_workspace ws) rows)
unfolding get_agent_run
kept-Mem ws id [] r e h = absurd (cc)
kept-Mem ws id (s ∷ rows) r e h = elim (Bool-cases (eqb s.id id)) [
  | inl y ↦
      let same : s ≡ r = some_injective (rw y at e) in
      let own = subst (λ x. of_workspace ws x ≡ true) (sym same) h in rw own (Memᴰ.head (sym same))
  | inr n ↦
      let later = kept-Mem ws id rows r (rw n at e) h in
      elim (Bool-cases (of_workspace ws s)) [ inl y ↦ rw y (Memᴰ.tail later) | inr k ↦ rw k later ]
]

pub is_busy-found :
    (ws : String) (id : ℕ) (rows : List Row) (r : Row)
    → get_agent_run id rows ≡ some r
    → of_workspace ws r ≡ true
    → row_runs r ≡ true
    → count_if (is_as_new r) (keep (of_workspace ws) rows) ≤ 10
    → is_busy ws rows ≡ true
unfolding is_busy list_agent_runs
is_busy-found ws id rows r e h k few =
    Front-any k (newest-Front r 10 (keep (of_workspace ws) rows) (kept-Mem ws id rows r e h) few)
