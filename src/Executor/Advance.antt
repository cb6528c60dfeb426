-- ===== src/Executor/Advance.antt =====
-- agents/executor.py: how an agent's output moves the status of the finding (_advance_finding_status),
-- and the words that a user reads for a failure (_humanize_process_error).
pub mod Forward
use cliff.Common.{
  ℕ, String, Bool, true, false, not, ◌&&◌, ◌||◌, Option, none, some, [], ◌∷◌, ◌==◌, leb, is_some,
  if◌then◌else◌,
}
use cliff.Common.Text.{Text, codes, contains, lower, format}
use cliff.Json.{Value, null, str, Fields, get, truthy, is_str}
use cliff.Issue.{
  FindingStatus, new, triaged, in_progress, remediated, validated, closed, exception, passed,
}
use cliff.Executor.Call.{Tried, done, raised, other, ◌>>=◌}

-- what the executor reads and writes of a finding's row
pub record FindingRow : Type 0 where
  pub status : FindingStatus
  pub pr_url : Option String

-- `_STATUS_ORDINAL.get(status, 0)`
abbrev pub status_ordinal : FindingStatus → ℕ
status_ordinal new = 0
status_ordinal triaged = 1
status_ordinal in_progress = 2
status_ordinal remediated = 3
status_ordinal validated = 4
status_ordinal closed = 5
status_ordinal exception = 5
status_ordinal passed = 0

unfoldable pub target_status : String → Fields → Option FindingStatus
target_status agent_type output =
    if agent_type == "remediation_executor" && is_str (get output "status") "pr_created"
    then some remediated
    else if agent_type == "validation_checker" && is_str (get output "verdict") "fixed"
    then some validated
    else if agent_type == "remediation_planner"
    then some in_progress
    else none

-- the truth value of an optional text
abbrev pub is_given : Option String → Bool
is_given none = false
is_given (some s) = not (s == "")

unfoldable pub takes_pr_url : String → Fields → FindingRow → Bool
takes_pr_url agent_type output finding =
    agent_type == "remediation_executor"
    && is_str (get output "status") "pr_created"
    && truthy (get output "pr_url")
    && not (is_given finding.pr_url)

-- `FindingUpdate` takes a text as the URL and nothing else.
abbrev pub url_field : Value → Tried String
url_field (str s) = done s
url_field _ = raised (other "validation error")

unfoldable pub write : String → Fields → FindingStatus → FindingRow → Tried FindingRow
unfolding takes_pr_url
write agent_type output target finding =
    let moved = record finding { status = target } in
    if takes_pr_url agent_type output finding
    then (url_field (get output "pr_url") >>= λ url. done (record moved { pr_url = some url }))
    else done moved

unfoldable pub move :
    String → Fields → Option FindingStatus → Option FindingRow → Tried (Option FindingRow)
unfolding write
move agent_type output none finding = done finding
move agent_type output (some target) none = done none
move agent_type output (some target) (some finding) =
    if leb (status_ordinal target) (status_ordinal finding.status)
    then done (some finding)
    else (write agent_type output target finding >>= λ f. done (some f))

-- The finding after an agent completed; `none` is a workspace without a finding.
unfoldable pub advance_finding_status :
    String → Fields → Option FindingRow → Tried (Option FindingRow)
unfolding target_status move
advance_finding_status agent_type output finding =
    move agent_type output (target_status agent_type output) finding

unfoldable pub humanize_process_error : String → String
humanize_process_error raw =
    let lowered = lower (codes raw) in
    let says = λ (word : String). contains lowered (codes word) in
    if says "more credits" || says "insufficient" && says "credit"
    then "**Out of AI provider credits.** OpenRouter rejected the request because your account balance can't fund this agent run. [Add credits](https://openrouter.ai/settings/credits) or switch to a cheaper model in Settings → AI provider, then click Approve to retry."
    else if says "rate limit" || says "429" || says "too many requests"
    then "**AI provider rate limit hit.** The provider asked us to slow down. Wait a minute and click Approve to retry, or switch to a different model in Settings → AI provider."
    else if says "unauthorized"
        || says "401"
        || says "invalid api key"
        || says "missing authentication"
        || says "authentication header"
    then "**AI provider rejected the credentials.** The configured API key is missing, revoked, or wrong for this model. Re-connect the provider in Settings → AI provider."
    else if says "context length" || says "context_length_exceeded"
    then "**Request exceeded the model's context window.** The finding or workspace context is too large for the configured model. Try a higher-context model in Settings → AI provider."
    else format ("**Workspace AI engine error.** " ∷ raw ∷ [])
