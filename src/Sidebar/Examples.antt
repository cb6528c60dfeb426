-- ===== src/Sidebar/Examples.antt =====
-- The sidebar of a workspace after the agents of a run.
use cliff.Common.{◌≡◌, refl, true, Option, none, some}
use cliff.Json.{bool, str, Fields, field, end, truthy}
use cliff.Sidebar.{
  plan, triage, evidence, Sections, map_triage, map_and_upsert, map_to_sidebar_update,
  mark_plan_approved, read_out, merge_section, existing,
}
use cliff.Sidebar.Merge.{read, map_and_upsert-keeps, mark_plan_approved-replanned}

abbrev exposed : Fields
exposed = field "reachable" (str "likely") end

abbrev enriched : Fields
enriched = field "fixed_version" (str "2.0") end

abbrev row : Option Sections
row = some (map_and_upsert "exposure_analyzer" exposed none)

map_and_upsert-keeps_example :
    read (map_and_upsert "finding_enricher" enriched row) evidence "reachable"
    ≡ read (existing row) evidence "reachable"
unfolding map_to_sidebar_update read_out
map_and_upsert-keeps_example =
    map_and_upsert-keeps "finding_enricher" enriched row evidence "reachable" refl

triaged :
    map_and_upsert "report_triager" enriched (some (map_triage exposed)) triage ≡ some enriched
unfolding map_and_upsert map_to_sidebar_update merge_section
triaged = refl

abbrev first_plan : Fields
first_plan = field "plan_steps" (str "upgrade") end

abbrev planned : Sections
planned plan = some first_plan
planned _ = none

mark_plan_approved-replanned_example :
    read
      (map_and_upsert "remediation_planner" enriched (mark_plan_approved (some planned)))
      plan
      "approved"
    ≡ bool true
unfolding truthy
mark_plan_approved-replanned_example =
    mark_plan_approved-replanned planned first_plan enriched refl refl
