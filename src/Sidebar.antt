-- ===== src/Sidebar.antt =====
-- backend/cliff/agents/sidebar_mapper.py with db/repo_sidebar.py: what an agent's output writes to
-- the sidebar of its workspace. The row of a workspace is the argument: `none` says that there is
-- none. The fields of `SidebarStateUpdate` are the sections, read by name as `getattr` reads them.
pub mod Merge
mod Examples
use cliff.Common.{String, Bool, true, false, Option, none, some, List, [], ◌∷◌, ◌==◌, if◌then◌else◌}
use cliff.Json.{bool, obj, Fields, end, field, get, set, truthy}

pub data Section : Type 0 where
  summary evidence owner plan definition_of_done linked_ticket : Section
  validation similar_cases pull_request triage : Section

abbrev pub Sections : Type 0
Sections = Section → Option Fields

-- {name: out.get(key), ...}
unfoldable pub read_out : Fields → List (String × String) → Fields
read_out out [] = end
read_out out ((name, key) ∷ names) = field name (get out key) (read_out out names)

abbrev pub same_names : List String → List (String × String)
same_names [] = []
same_names (n ∷ ns) = (n, n) ∷ same_names ns

abbrev pub map_enricher : Fields → Sections
unfolding read_out
map_enricher out summary = some (
    read_out out
      (("title", "normalized_title") ∷ same_names ("cvss_score" ∷ "cve_ids" ∷ "description" ∷ [])))
map_enricher out evidence = some (
    read_out out (
      same_names (
        "known_exploits" ∷ "exploit_details" ∷ "references" ∷ "fixed_version" ∷ "affected_versions"
        ∷ [])))
map_enricher out _ = none

abbrev pub map_owner : Fields → Sections
unfolding read_out
map_owner out owner =
    some (read_out out (same_names ("recommended_owner" ∷ "candidates" ∷ "reasoning" ∷ [])))
map_owner out _ = none

abbrev pub map_exposure : Fields → Sections
unfolding read_out
map_exposure out evidence = some (
    read_out out (
      same_names (
        "environment" ∷ "internet_facing" ∷ "reachable" ∷ "reachability_evidence" ∷ "blast_radius"
        ∷ "recommended_urgency" ∷ [])))
map_exposure out _ = none

abbrev pub map_planner : Fields → Sections
unfolding read_out
map_planner out plan = some (
    read_out out (
      same_names (
        "plan_steps" ∷ "interim_mitigation" ∷ "dependencies" ∷ "estimated_effort"
        ∷ "suggested_due_date" ∷ "validation_method" ∷ [])))
map_planner out definition_of_done = some (
    read_out out
      (("items", "definition_of_done") ∷ ("validation_method", "validation_method") ∷ []))
map_planner out _ = none

abbrev pub map_validation : Fields → Sections
unfolding read_out
map_validation out validation = some (
    read_out out
      (same_names ("verdict" ∷ "evidence" ∷ "remaining_concerns" ∷ "recommendation" ∷ [])))
map_validation out _ = none

abbrev pub map_executor : Fields → Sections
unfolding read_out
map_executor out pull_request = some (
    read_out out (
      same_names (
        "status" ∷ "pr_url" ∷ "branch_name" ∷ "changes_summary" ∷ "test_results" ∷ "error_details"
        ∷ [])))
map_executor out _ = none

abbrev pub map_evidence_collector : Fields → Sections
unfolding read_out
map_evidence_collector out evidence = some (
    read_out out (
      same_names (
        "affected_files" ∷ "dependency_chain" ∷ "dependency_type" ∷ "current_version" ∷ "fix_safety"
        ∷ "fix_safety_reasoning" ∷ "test_coverage" ∷ "recommended_approach" ∷ "impact_assessment"
        ∷ [])))
map_evidence_collector out _ = none

abbrev pub map_triage : Fields → Sections
map_triage out triage = some out
map_triage out _ = none

abbrev pub no_sections : Sections
no_sections s = none

unfoldable pub map_to_sidebar_update : String → Fields → Sections
map_to_sidebar_update agent out =
    if agent == "finding_enricher"
    then map_enricher out
    else if agent == "owner_resolver"
    then map_owner out
    else if agent == "exposure_analyzer"
    then map_exposure out
    else if agent == "evidence_collector"
    then map_evidence_collector out
    else if agent == "remediation_planner"
    then map_planner out
    else if agent == "remediation_executor"
    then map_executor out
    else if agent == "validation_checker"
    then map_validation out
    else if agent == "report_triager"
    then map_triage out
    else if agent == "triage_synthesizer"
    then map_triage out
    else no_sections

-- _REPLACE_SECTIONS
abbrev pub is_replaced : Section → Bool
is_replaced triage = true
is_replaced _ = false

-- {**a, **b}
unfoldable pub merge : Fields → Fields → Fields
merge a end = a
merge a (field k v b) = merge (set a k v) b

-- The value of one field after the write.
unfoldable pub merge_section : Bool → Option Fields → Option Fields → Option Fields
unfolding merge
merge_section replaced old none = old
merge_section replaced none (some new) = some new
merge_section replaced (some old) (some new) = if replaced then some new else some (merge old new)

abbrev pub existing : Option Sections → Sections
existing none = no_sections
existing (some row) = row

unfoldable pub map_and_upsert : String → Fields → Option Sections → Sections
unfolding merge_section map_to_sidebar_update
map_and_upsert agent out row s =
    merge_section (is_replaced s) (existing row s) (map_to_sidebar_update agent out s)

-- the row with the plan replaced
abbrev with_plan : Fields → Sections → Sections
with_plan new row plan = some new
with_plan new row s = row s

-- `if not sidebar.plan`: the row stays
abbrev approve : Option Fields → Sections → Sections
approve none row = row
approve (some p) row =
    if truthy (obj p) then with_plan (merge p (field "approved" (bool true) end)) row else row

unfoldable pub mark_plan_approved : Option Sections → Option Sections
unfolding merge
mark_plan_approved none = none
mark_plan_approved (some row) = some (approve (row plan) row)
