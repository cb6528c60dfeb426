-- ===== src/Triage/Findings.antt =====
-- backend/cliff/agents/triage_deep/runner.py: what the stages of the deep dive find, and the tests
-- that the runner makes on it. The dicts are dumps of the schemas in agents/schemas.py, so they are
-- records with the fields that are read.
use cliff.Common.{
  ◌+◌, String, Bool, true, false, not, ◌&&◌, Option, none, some, List, [], ◌∷◌, map, ◌==◌, any, all,
  if◌then◌else◌,
}
use cliff.Common.Int.{ℤ, pos, negsuc, is_zero, is_positive}
use cliff.Common.Text.{codes, strip, show, format}
use cliff.Common.Glob.{fnmatch}
use cliff.Json.{Fields}
use cliff.Triage.Output.{Verdict, unexploitable, false_positive, Close, Node, Reachability}

-- `FindingFacts`, `RuleOutResult`, `ReachNode`, `Disproof`, `DeepReachability`, `ExploitPlan`
pub record Facts : Type 0 where
  pub candidate_files : List String

pub record RuleOut : Type 0 where
  pub killed : Bool
  pub kill_class : Option String
  pub kill_evidence : Option String
  pub dedup_match : Option String
  pub recommended_verdict_on_kill : Option Close

pub record Hop : Type 0 where
  pub file : String
  pub line : Option ℤ
  pub symbol : Option String
  pub role : String

pub record Disproof : Type 0 where
  pub guard_location : String
  pub explanation : Option String

pub data Answer : Type 0 where
  affirmed denied unclear : Answer

pub record Reach : Type 0 where
  pub reached : Answer
  pub path : List Hop
  pub disproof : Option Disproof

pub record Plan : Type 0 where
  pub no_credible_exploit : Bool
  pub body : Fields

-- The artifacts of the repo profile, with what `_kill_corroborated` reads of them.
pub record Knowledge : Type 0 where
  pub prior_issue_ids : List String
  pub excluded_roots : List String

abbrev is_nil {ℓ} : {A : Type ℓ} → List A → Bool
is_nil [] = true
is_nil (_ ∷ _) = false

-- `reach.get("path")` has a hop with a file and a line above 0
abbrev positive_line : Option ℤ → Bool
positive_line none = false
positive_line (some n) = is_positive n

abbrev pub grounded_hop : Hop → Bool
grounded_hop h = not (is_nil (strip (codes h.file))) && positive_line h.line

unfoldable pub has_grounded_path : Reach → Bool
has_grounded_path reach = any grounded_hop reach.path

abbrev show_ℤ : ℤ → String
show_ℤ (pos n) = show n
show_ℤ (negsuc n) = format ("-" ∷ show (n + 1) ∷ [])

-- `if n.get("line")` is false at 0
abbrev location : Hop → String
location h = elim h.line [
  | none ↦ h.file
  | some n ↦ if is_zero n then h.file else format (h.file ∷ ":" ∷ show_ℤ n ∷ [])
]

abbrev non_empty : String → Option String
non_empty s = if s == "" then none else some s

abbrev file_or_node : String → String
file_or_node file = if file == "" then "node" else file

abbrev or_file : Option String → String → String
or_file none file = file_or_node file
or_file (some s) file = if s == "" then file_or_node file else s

unfoldable pub map_hop : Hop → Node
map_hop h = record {
  label = or_file h.symbol h.file;
  detail = non_empty (location h);
  kind = some h.role;
}

abbrev is_affirmed : Answer → Bool
is_affirmed affirmed = true
is_affirmed _ = false

unfoldable pub map_reach : Reach → Reachability
unfolding map_hop
map_reach reach = record {
  reached = is_affirmed reach.reached;
  path = map map_hop reach.path;
  summary = none;
}

abbrev named : Option String → List String → Bool
named none ids = false
named (some id) ids = not (id == "") && any (λ i. i == id) ids

abbrev excluded : List String → String → Bool
excluded roots file = any (λ pattern. fnmatch (codes file) (codes pattern)) roots

unfoldable pub kill_corroborated : RuleOut → Facts → Knowledge → Bool
kill_corroborated ro facts knowledge = elim ro.kill_class [
  | none ↦ false
  | some class ↦
      if class == "duplicate_of_known"
      then named ro.dedup_match knowledge.prior_issue_ids
      else if class == "root_cause_in_nonship_code"
      then not (is_nil facts.candidate_files)
        && all (excluded knowledge.excluded_roots) facts.candidate_files
      else false
]

abbrev pub is_clear : Verdict → Bool
is_clear unexploitable = true
is_clear false_positive = true
is_clear _ = false
