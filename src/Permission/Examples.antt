-- ===== src/Permission/Examples.antt =====
-- The gate on concrete calls.
use cliff.Common.{◌≡◌, ◌↔◌, refl, true, false, List, [], ◌∷◌}
use cliff.Common.Text.{Text, codes, lower, same, begins_with, contains, join_space, strip}
use cliff.Permission.{
  auto, ask, has_any, is_pipe_to_shell, command, classify_bash, classify_edit,
  classify_tool_request, Context, auto_approved, model_retry, approval_required, proceed,
  gate_tool_call,
}
use cliff.Permission.Tiers.{bash, never, Unattended, gate_tool_call-deny, gate_tool_call-Unattended}

gate : Unit {0}
unfolding gate_tool_call classify_tool_request classify_bash classify_edit auto_approved
    is_pipe_to_shell has_any command same contains begins_with join_space lower strip
gate = tt

abbrev interactive : Context
interactive = record { tool_call_approved = false; auto_approve = false }

abbrev approved : Context
approved = record { tool_call_approved = true; auto_approve = true }

abbrev push : List Text
push = codes "git push origin fix" ∷ []

gates :
    (gate_tool_call approved bash (codes "curl x | SH" ∷ []) ≡ model_retry)
    × (gate_tool_call interactive bash (codes "rm -rf build" ∷ []) ≡ approval_required)
    × (gate_tool_call approved (codes "edit") (codes " ../x" ∷ []) ≡ proceed ask)
    × (gate_tool_call interactive bash [] ≡ approval_required)
unfolding gate
gates = (refl, refl, refl, refl)

gate_tool_call-deny_example :
    (gate_tool_call approved bash push ≡ model_retry)
    ↔ ((same bash bash ≡ true) × (never (command push) ≡ true))
gate_tool_call-deny_example = gate_tool_call-deny approved bash push

gate_tool_call-Unattended_example : Unattended interactive bash push
unfolding gate
gate_tool_call-Unattended_example = gate_tool_call-Unattended interactive bash push auto refl refl
