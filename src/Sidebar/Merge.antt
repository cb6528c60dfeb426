-- ===== src/Sidebar/Merge.antt =====
-- What stands in a section after an agent's output was merged into it.
use cliff.Common.{
  String, Bool, ◌≡◌, refl, ◌∙◌, true, false, ◌||◌, Option, none, some, ◌==◌, eq_iff, arith, inl,
  inr, Bool-cases, if◌then◌else◌,
}
use cliff.Json.{Value, null, bool, obj, Fields, end, field, get, set, truthy}
use cliff.Json.Lookup.{get-set, get-set_other}
use cliff.Sidebar.{
  Section, plan, Sections, is_replaced, merge, merge_section, existing, read_out,
  map_to_sidebar_update, map_and_upsert, mark_plan_approved,
}

abbrev pub has_key : Fields → String → Bool
has_key end k = false
has_key (field j v d) k = j == k || has_key d k

-- the value of a key after the fields of `new` were set, one after the other
after : Fields → String → Value → Value
after end k v = v
after (field j w new) k v = after new k (if j == k then w else v)

get-set_if :
    (d : Fields) (j k : String) (w : Value) → get (set d j w) k ≡ (if j == k then w else get d k)
get-set_if d j k w = elim (Bool-cases (j == k)) [
  | inl y ↦ rw (y, (eq_iff j k).0 y) (get-set d k w)
  | inr n ↦ rw n (get-set_other d j k w n)
]

get-merge : (old new : Fields) (k : String) → get (merge old new) k ≡ after new k (get old k)
unfolding merge after
get-merge old end k = refl
get-merge old (field j w new) k = rw (get-merge (set old j w) new k, get-set_if old j k w) refl

after-keeps : (new : Fields) (k : String) (v : Value) → has_key new k ≡ false → after new k v ≡ v
unfolding after
after-keeps end k v h = refl
after-keeps (field j w new) k v h = elim (Bool-cases (j == k)) [
  | inl y ↦ absurd (ground arith)
  | inr n ↦ rw n (after-keeps new k v (rw n at h))
]

get-absent : (d : Fields) (k : String) → has_key d k ≡ false → get d k ≡ null
unfolding get
get-absent end k h = refl
get-absent (field j w d) k h = elim (Bool-cases (j == k)) [
  | inl y ↦ absurd (ground arith)
  | inr n ↦ rw n (get-absent d k (rw n at h))
]

abbrev or_end : Option Fields → Fields
or_end none = end
or_end (some d) = d

-- the value of a key of a section, where a missing one is null
abbrev pub read : Sections → Section → String → Value
read row s k = get (or_end (row s)) k

-- whether the new value of a section decides the key
abbrev pub decides : Bool → Option Fields → String → Bool
decides replaced none k = false
decides replaced (some new) k = replaced || has_key new k

merge_section-keeps :
    (replaced : Bool) (old new : Option Fields) (k : String)
    → decides replaced new k ≡ false
    → get (or_end (merge_section replaced old new)) k ≡ get (or_end old) k
unfolding merge_section get
merge_section-keeps replaced old none k h = refl
merge_section-keeps true old (some new) k h = absurd (cc)
merge_section-keeps false none (some new) k h = get-absent new k h
merge_section-keeps false (some old) (some new) k h =
    rw (get-merge old new k) (after-keeps new k (get old k) h)

-- A value that an earlier agent wrote stays, whatever the row was: the section is one that the agent
-- does not write, or the section is merged and the agent's output has no such key there.
pub map_and_upsert-keeps :
    (agent : String) (out : Fields) (row : Option Sections) (s : Section) (k : String)
    → decides (is_replaced s) (map_to_sidebar_update agent out s) k ≡ false
    → read (map_and_upsert agent out row) s k ≡ read (existing row) s k
unfolding map_and_upsert
map_and_upsert-keeps agent out row s k h =
    merge_section-keeps (is_replaced s) (existing row s) (map_to_sidebar_update agent out s) k h

approved_set :
    (p : Fields) → get (merge p (field "approved" (bool true) end)) "approved" ≡ bool true
unfolding merge
approved_set p = get-set p "approved" (bool true)

unplanned :
    (out : Fields)
    → decides (is_replaced plan) (map_to_sidebar_update "remediation_planner" out plan) "approved"
      ≡ false
unfolding map_to_sidebar_update read_out
unplanned out = refl

marked :
    (row : Sections) (p : Fields)
    → row plan ≡ some p
    → truthy (obj p) ≡ true
    → read (existing (mark_plan_approved (some row))) plan "approved" ≡ bool true
unfolding mark_plan_approved
marked row p e t = rw (e, t) (approved_set p)

-- An approved plan that is planned again is approved already: the row has a plan that is not empty,
-- the user approves it, and then the planner writes whatever plan it made.
pub mark_plan_approved-replanned :
    (row : Sections) (p out : Fields)
    → row plan ≡ some p
    → truthy (obj p) ≡ true
    → read
        (map_and_upsert "remediation_planner" out (mark_plan_approved (some row)))
        plan
        "approved"
      ≡ bool true
mark_plan_approved-replanned row p out e t =
    map_and_upsert-keeps "remediation_planner" out (mark_plan_approved (some row)) plan "approved"
      (unplanned out)
    ∙ marked row p e t
