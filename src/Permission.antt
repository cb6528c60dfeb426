-- ===== src/Permission.antt =====
-- backend/cliff/agents/runtime/tools/permissions.py: the tier of a tool call of the remediation
-- executor, and the gate that enforces it. `escapes_workspace` asks the file system and is not
-- modelled; `patterns` is a list of texts, as the tools pass it.
pub mod Tiers
mod Examples
use cliff.Common.{
  Bool, true, false, not, ◌&&◌, ◌||◌, List, [], ◌∷◌, String, map, any, if◌then◌else◌,
}
use cliff.Common.Text.{Text, codes, lower, same, begins_with, contains, strip, join_space}

pub data Tier : Type 0 where
  auto ask deny : Tier

-- `_CATASTROPHIC_BASH`
abbrev pub catastrophic_bash : List String
catastrophic_bash =
    ":(){" ∷ "mkfs" ∷ " dd " ∷ "sudo " ∷ "> /etc" ∷ ">/etc" ∷ "> /usr" ∷ ">/usr" ∷ "> /bin"
    ∷ ">/bin" ∷ "/etc/shadow" ∷ "/etc/passwd" ∷ []

-- `_GATED_BASH`
abbrev pub gated_bash : List String
gated_bash =
    "rm -" ∷ "rmdir" ∷ "git reset --hard" ∷ "git clean" ∷ "git push --force" ∷ "git push -f"
    ∷ "chmod " ∷ "chown " ∷ "cd /" ∷ "cd ~" ∷ "$home" ∷ "~/.ssh" ∷ "~/.aws" ∷ "~/.config" ∷ []

abbrev pub fetches : List String
fetches = "curl " ∷ "wget " ∷ []

abbrev pub shells : List String
shells = "| sh" ∷ "|sh" ∷ "| bash" ∷ "|bash" ∷ "|sh " ∷ "| sh " ∷ []

-- any(bad in cmd for bad in words)
unfoldable pub has_any : List String → Text → Bool
has_any words cmd = any (λ bad. contains cmd (codes bad)) words

unfoldable pub is_pipe_to_shell : Text → Bool
is_pipe_to_shell cmd = has_any fetches cmd && has_any shells cmd

-- `" ".join(patterns).lower() if patterns else ""`
unfoldable pub command : List Text → Text
command patterns = lower (join_space patterns)

abbrev pub no_text : Text → Bool
no_text [] = true
no_text (_ ∷ _) = false

abbrev pub climbs : Text → Bool
climbs path =
    let p = strip path in
    begins_with p (codes "/") || begins_with p (codes "~") || contains p (codes "../")

unfoldable pub classify_bash : Text → Tier
classify_bash cmd =
    if no_text cmd
    then ask
    else if is_pipe_to_shell cmd
    then deny
    else if has_any catastrophic_bash cmd
    then deny
    else if has_any gated_bash cmd
    then ask
    else auto

unfoldable pub classify_edit : List Text → Tier
classify_edit [] = auto
classify_edit (path ∷ paths) = let rest = classify_edit paths in if climbs path then ask else rest

unfoldable pub classify_tool_request : Text → List Text → Tier
classify_tool_request tool patterns =
    if same tool (codes "external_directory")
    then ask
    else if same tool (codes "bash")
    then classify_bash (command patterns)
    else if same tool (codes "edit")
    then classify_edit patterns
    else ask

-- What the gate reads of the run's context.
pub record Context : Type 0 where
  pub tool_call_approved : Bool
  pub auto_approve : Bool

unfoldable pub auto_approved : Context → Text → List Text → Bool
auto_approved ctx tool patterns =
    if not ctx.auto_approve
    then false
    else if not (same tool (codes "bash"))
    then false
    else not (no_text (command patterns)) && has_any gated_bash (command patterns)

-- `ModelRetry`, `ApprovalRequired`, or the tier of a call that goes ahead
pub data Gate : Type 0 where
  model_retry approval_required : Gate
  proceed : Tier → Gate

abbrev pub is_deny : Tier → Bool
is_deny deny = true
is_deny _ = false

abbrev pub is_ask : Tier → Bool
is_ask ask = true
is_ask _ = false

unfoldable pub gate_tool_call : Context → Text → List Text → Gate
gate_tool_call ctx tool patterns =
    let tier = classify_tool_request tool patterns in
    if is_deny tier
    then model_retry
    else if is_ask tier && not ctx.tool_call_approved && not (auto_approved ctx tool patterns)
    then approval_required
    else proceed tier
