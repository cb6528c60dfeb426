-- ===== src/Executor/Advance/Forward.antt =====
-- The finding's status only moves forward, and a pull request of the finding is never replaced.
use cliff.Common.{
  ◌<◌, String, Bool, ◌≡◌, refl, sym, ap, ◌∙◌, true, false, not, ◌&&◌, Option, none, some, ◌==◌,
  eq_iff, arith, leb, inl, inr, ◌⊎◌, Bool-cases, if◌then◌else◌,
}
use cliff.Json.{Value, null, bool, int, float, str, obj, arr, Fields, get, truthy, is_str}
use cliff.Issue.{FindingStatus, remediated, validated, in_progress}
use cliff.Common.Options.{some_injective}
use cliff.Executor.Call.Attempts.{done_injective}
use mathlib.Core.Path.{subst}
use cliff.Executor.Call.{Tried, done, raised, ◌>>=◌}
use cliff.Executor.Advance.{
  FindingRow, status_ordinal, target_status, is_given, takes_pr_url, write, url_field, move,
  advance_finding_status,
}

-- Why a finding has its new status.
pub data Reason (agent_type : String) (output : Fields) : FindingStatus → Type 0 where
  opened :
      agent_type ≡ "remediation_executor"
      → is_str (get output "status") "pr_created" ≡ true
      → Reason agent_type output remediated
  fixed :
      agent_type ≡ "validation_checker"
      → is_str (get output "verdict") "fixed" ≡ true
      → Reason agent_type output validated
  planned : agent_type ≡ "remediation_planner" → Reason agent_type output in_progress

-- The row is as it was, or it has moved forward for a reason.
pub record Moved (agent_type : String) (output : Fields) (before after : FindingRow) : Type 0 where
  pub reason : Reason agent_type output after.status
  pub forward : status_ordinal before.status < status_ordinal after.status
  pub kept : is_given before.pr_url ≡ true → after.pr_url ≡ before.pr_url

by_tests :
    (agent_type : String) (output : Fields) (t : FindingStatus) (a b c : Bool)
    → (a ≡ true → Reason agent_type output remediated)
    → (b ≡ true → Reason agent_type output validated)
    → (c ≡ true → Reason agent_type output in_progress)
    → (if a
        then some remediated
        else if b
        then some validated
        else if c
        then some in_progress
        else none)
      ≡ some t
    → Reason agent_type output t
by_tests agent_type output t true b c f g h e =
    subst (Reason agent_type output) (some_injective e) (f refl)
by_tests agent_type output t false true c f g h e =
    subst (Reason agent_type output) (some_injective e) (g refl)
by_tests agent_type output t false false true f g h e =
    subst (Reason agent_type output) (some_injective e) (h refl)
by_tests agent_type output t false false false f g h e = absurd (cc)

and_parts : (a b : Bool) → (a && b) ≡ true → (a ≡ true) × (b ≡ true)
and_parts true b h = (refl, h)
and_parts false b h = absurd (cc)

target-Reason :
    (agent_type : String) (output : Fields) (t : FindingStatus)
    → target_status agent_type output ≡ some t
    → Reason agent_type output t
unfolding target_status
target-Reason agent_type output t h =
    let tool = agent_type == "remediation_executor" in
    let checker = agent_type == "validation_checker" in
    by_tests agent_type output t (tool && is_str (get output "status") "pr_created")
      (checker && is_str (get output "verdict") "fixed") (agent_type == "remediation_planner")
      (λ y.
        let (p, q) = and_parts tool (is_str (get output "status") "pr_created") y in
        opened ((eq_iff agent_type "remediation_executor").0 p) q)
      (λ y.
        let (p, q) = and_parts checker (is_str (get output "verdict") "fixed") y in
        fixed ((eq_iff agent_type "validation_checker").0 p) q)
      (λ y. planned ((eq_iff agent_type "remediation_planner").0 y)) h

url-status :
    (v : Value) (target : FindingStatus) (before after : FindingRow)
    → (url_field v >>= λ url. done (record before { status = target; pr_url = some url }))
      ≡ done after
    → after.status ≡ target
url-status (str s) target before after h =
    sym (ap (λ (f : FindingRow). f.status) (done_injective h))
url-status null target before after h = absurd (cc)
url-status (bool _) target before after h = absurd (cc)
url-status (int _) target before after h = absurd (cc)
url-status (float _ _) target before after h = absurd (cc)
url-status (obj _) target before after h = absurd (cc)
url-status (arr _) target before after h = absurd (cc)

last_of : (a b c d : Bool) → (a && b && c && not d) ≡ true → d ≡ false
last_of a b c d h = ground arith

not_given :
    (agent_type : String) (output : Fields) (before : FindingRow)
    → takes_pr_url agent_type output before ≡ true
    → is_given before.pr_url ≡ false
unfolding takes_pr_url
not_given agent_type output before y =
    last_of (agent_type == "remediation_executor") (is_str (get output "status") "pr_created")
      (truthy (get output "pr_url")) (is_given before.pr_url) y

-- what a write gives: the target, and the URL where there was none
write-fields :
    (agent_type : String) (output : Fields) (target : FindingStatus) (before after : FindingRow)
    → write agent_type output target before ≡ done after
    → (after.status ≡ target) × (is_given before.pr_url ≡ true → after.pr_url ≡ before.pr_url)
unfolding write
write-fields agent_type output target before after h =
    elim (Bool-cases (takes_pr_url agent_type output before)) [
      | inr n ↦
          let e = done_injective (rw n at h) in
          (
            sym (ap (λ (f : FindingRow). f.status) e),
            λ g. sym (ap (λ (f : FindingRow). f.pr_url) e),
          )
      | inl y ↦ (
        url-status (get output "pr_url") target before after (rw y at h),
        λ g. let z = not_given agent_type output before y in absurd (cc),
      )
    ]

write-Moved :
    (agent_type : String) (output : Fields) (target : FindingStatus) (before after : FindingRow)
    → target_status agent_type output ≡ some target
    → leb (status_ordinal target) (status_ordinal before.status) ≡ false
    → write agent_type output target before ≡ done after
    → Moved agent_type output before after
write-Moved agent_type output target before after t n h =
    let (status, kept) = write-fields agent_type output target before after h in
    let up : status_ordinal before.status < status_ordinal target = ground arith in
    record {
      reason =
          subst (Reason agent_type output) (sym status) (target-Reason agent_type output target t);
      forward = rw status up;
      kept = kept;
    }

some_row :
    (r : Tried FindingRow) (o : Option FindingRow)
    → (r >>= λ f. done (some f)) ≡ done o
    → (f : FindingRow) × (r ≡ done f) × (some f ≡ o)
some_row (done f) o h = (f, refl, done_injective h)
some_row (raised e) o h = absurd (cc)

move-Moved :
    (agent_type : String) (output : Fields) (t : Option FindingStatus) (before after : FindingRow)
    → target_status agent_type output ≡ t
    → move agent_type output t (some before) ≡ done (some after)
    → (after ≡ before) ⊎ Moved agent_type output before after
unfolding move
move-Moved agent_type output none before after e h = inl (sym (some_injective (done_injective h)))
move-Moved agent_type output (some target) before after e h =
    elim (Bool-cases (leb (status_ordinal target) (status_ordinal before.status))) [
      | inl y ↦ inl (sym (some_injective (done_injective (rw y at h))))
      | inr n ↦
          let (f, w, same) =
            some_row (write agent_type output target before) (some after) (rw n at h) in
          inr (
            write-Moved agent_type output target before after e n
              (w ∙ ap done (some_injective same)))
    ]

-- Where the output of an agent is taken, the finding stays as it is or its status moves forward: to
-- remediated by an executor that opened a pull request, to validated by a checker that found it
-- fixed, to in_progress by a planner; and a pull request that the finding has already is kept.
pub advance_finding_status-Moved :
    (agent_type : String) (output : Fields) (before after : FindingRow)
    → advance_finding_status agent_type output (some before) ≡ done (some after)
    → (after ≡ before) ⊎ Moved agent_type output before after
unfolding advance_finding_status
advance_finding_status-Moved agent_type output before after h =
    move-Moved agent_type output (target_status agent_type output) before after refl h
