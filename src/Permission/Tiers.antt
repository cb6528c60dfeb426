-- ===== src/Permission/Tiers.antt =====
-- Which calls the gate of permissions.py lets through, asks about, and denies.
use cliff.Common.{
  ◌≡◌, ◌↔◌, inl, inr, refl, ap, Bool, true, false, not, ◌&&◌, ◌||◌, List, [], ◌∷◌, ◌++◌, String,
  any, all, arith, Bool-cases, All, ◌==◌, eq_iff,
}
use cliff.Common.Text.{Text, codes, lower, same, contains, begins_with, join_space}
use cliff.Common.Search.{eq_of_same, contains-append, lower-append}
use cliff.Permission.{
  Tier, catastrophic_bash, gated_bash, has_any, is_pipe_to_shell, command, no_text, climbs,
  classify_bash, classify_edit, classify_tool_request, Context, auto_approved, model_retry, proceed,
  is_deny, is_ask, gate_tool_call,
}

abbrev pub bash : Text
bash = codes "bash"

-- A command that the lists or the pipe test refuse.
abbrev pub never : Text → Bool
never cmd = not (no_text cmd) && (is_pipe_to_shell cmd || has_any catastrophic_bash cmd)

classify_bash-deny : (cmd : Text) → is_deny (classify_bash cmd) ≡ never cmd
unfolding classify_bash
classify_bash-deny cmd = ground arith

classify_edit-never_denies : (paths : List Text) → is_deny (classify_edit paths) ≡ false
unfolding classify_edit
classify_edit-never_denies [] = refl
classify_edit-never_denies (p ∷ paths) = ground (arith, classify_edit-never_denies paths)

bash_not_external :
    (tool : Text) → same tool bash ≡ true → same tool (codes "external_directory") ≡ false
unfolding same
bash_not_external tool h = rw (eq_of_same tool bash h)

-- the tier of each tool
classify-deny :
    (tool : Text) (patterns : List Text)
    → is_deny (classify_tool_request tool patterns) ≡ (same tool bash && never (command patterns))
unfolding classify_tool_request
classify-deny tool patterns = ground (
  arith,
  classify_bash-deny (command patterns),
  classify_edit-never_denies patterns,
  bash_not_external tool,
)

-- A call is denied exactly when it is a shell command that is not empty and has a catastrophic
-- pattern or pipes a download into a shell; no approval, of the call or of the run, changes that.
pub gate_tool_call-deny :
    (ctx : Context) (tool : Text) (patterns : List Text)
    → (gate_tool_call ctx tool patterns ≡ model_retry)
      ↔ ((same tool bash ≡ true) × (never (command patterns) ≡ true))
unfolding gate_tool_call
gate_tool_call-deny ctx tool patterns = ground (arith, classify-deny tool patterns)

any-intro :
    (p : String → Bool) (w : String) (ws : List String)
    → any (λ x. x == w) ws ≡ true
    → p w ≡ true
    → any p ws ≡ true
any-intro p w [] h e = absurd (cc)
any-intro p w (x ∷ ws) h e = ground (arith, any-intro p w ws, eq_iff x w)

listed-some :
    (w : String) (ws : List String)
    → all (λ x. not (no_text (codes x))) ws ≡ true
    → any (λ x. x == w) ws ≡ true
    → no_text (codes w) ≡ false
listed-some w [] ha h = absurd (cc)
listed-some w (x ∷ ws) ha h = elim (Bool-cases (x == w)) [
  | inl e ↦ ground (arith, ap (λ y. no_text (codes y)) ((eq_iff x w).0 e))
  | inr n ↦ listed-some w ws (ground arith) (ground arith)
]

contains-no_text : (s k : Text) → no_text k ≡ false → contains s k ≡ true → no_text s ≡ false
unfolding contains begins_with
contains-no_text [] [] hk h = absurd (cc)
contains-no_text [] (c ∷ k) hk h = absurd (cc)
contains-no_text (a ∷ s) k hk h = refl

-- A shell command that has a catastrophic pattern anywhere, in upper or lower case, is denied,
-- whatever stands around the pattern and whatever was approved.
pub gate_tool_call-catastrophic :
    (ctx : Context) (a w b : Text) (bad : String)
    → any (λ x. x == bad) catastrophic_bash ≡ true
    → lower w ≡ codes bad
    → gate_tool_call ctx bash ((a ++ (w ++ b)) ∷ []) ≡ model_retry
unfolding command join_space has_any same
gate_tool_call-catastrophic ctx a w b bad listed hw =
    let cmd = lower (a ++ (w ++ b)) in
    let found : contains cmd (codes bad) ≡ true =
      rw (lower-append a (w ++ b), lower-append w b, hw)
        (contains-append (lower a) (codes bad) (lower b)) in
    (gate_tool_call-deny ctx bash ((a ++ (w ++ b)) ∷ [])).1 (
      refl,
      ground (
        arith,
        any-intro (λ x. contains cmd (codes x)) bad catastrophic_bash listed found,
        contains-no_text cmd (codes bad) (listed-some bad catastrophic_bash refl listed) found,
      ),
    )

-- A path that does not start with a slash or a tilde and has no `../`.
abbrev pub Stays : Text → Type 0
Stays path = climbs path ≡ false

classify_edit-auto : (paths : List Text) → is_ask (classify_edit paths) ≡ false → All Stays paths
unfolding classify_edit
classify_edit-auto [] h = tt
classify_edit-auto (p ∷ paths) h = (ground arith, classify_edit-auto paths (ground arith))

-- What may run that no one approved.
pub data Unattended (ctx : Context) (tool : Text) (patterns : List Text) : Type 0 where
  inside_edit : tool ≡ codes "edit" → All Stays patterns → Unattended ctx tool patterns
  plain_bash :
      tool ≡ bash
      → no_text (command patterns) ≡ false
      → never (command patterns) ≡ false
      → (has_any gated_bash (command patterns) ≡ true → ctx.auto_approve ≡ true)
      → Unattended ctx tool patterns

-- Without the user's approval, a call goes ahead only if it is an edit whose paths, as texts, all
-- stay in the workspace, or a shell command that is not empty, is not denied, and has a gated
-- pattern only in a run that approves those in advance.
pub gate_tool_call-Unattended :
    (ctx : Context) (tool : Text) (patterns : List Text) (tier : Tier)
    → ctx.tool_call_approved ≡ false
    → gate_tool_call ctx tool patterns ≡ proceed tier
    → Unattended ctx tool patterns
unfolding gate_tool_call classify_tool_request auto_approved classify_bash
gate_tool_call-Unattended ctx tool patterns tier na h = elim (Bool-cases (same tool bash)) [
  | inl b ↦
      plain_bash (eq_of_same tool bash b) (ground (arith, bash_not_external tool b))
        (ground (arith, bash_not_external tool b)) (λ g. ground (arith, bash_not_external tool b))
  | inr nb ↦
      inside_edit (eq_of_same tool (codes "edit") (ground arith))
        (classify_edit-auto patterns (ground arith))
]
