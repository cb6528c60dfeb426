-- ===== src/Triage/Tiers.antt =====
-- backend/cliff/agents/runtime/model_tiers.py: the three model tiers of a configured model.
mod Examples
use cliff.Common.{
  ℕ, String, ◌≡◌, ◌≢◌, ◌↔◌, ◌⊎◌, inl, inr, refl, Bool, true, false, not, ◌&&◌, ◌||◌, Option, none,
  some, List, [], ◌∷◌, arith, ◌==◌, eq_iff, eqb, is_some, if◌then◌else◌, Bool-cases, Option-cases,
}
use cliff.Common.Text.{Text, codes, same, format, partition_slash}

-- the keys of `_LINEUP`
pub data Provider : Type 0 where
  anthropic openrouter openai google : Provider

pub record Tiers : Type 0 where
  pub cheap : String
  pub strong : String
  pub judge : String

unfoldable pub provider_of : Text → Option Provider
provider_of name =
    if same name (codes "anthropic")
    then some anthropic
    else if same name (codes "openrouter")
    then some openrouter
    else if same name (codes "openai")
    then some openai
    else if same name (codes "google")
    then some google
    else none

-- `_LINEUP`, with the provider's prefix put back
unfoldable pub lineup : Provider → Tiers
lineup anthropic = record {
  cheap = format ("anthropic" ∷ "/" ∷ "claude-haiku-4-5" ∷ []);
  strong = format ("anthropic" ∷ "/" ∷ "claude-sonnet-4-6" ∷ []);
  judge = format ("anthropic" ∷ "/" ∷ "claude-opus-4-8" ∷ []);
}
lineup openrouter = record {
  cheap = format ("openrouter" ∷ "/" ∷ "anthropic/claude-haiku-4.5" ∷ []);
  strong = format ("openrouter" ∷ "/" ∷ "anthropic/claude-sonnet-4.6" ∷ []);
  judge = format ("openrouter" ∷ "/" ∷ "anthropic/claude-opus-4.8" ∷ []);
}
lineup openai = record {
  cheap = format ("openai" ∷ "/" ∷ "gpt-5-mini" ∷ []);
  strong = format ("openai" ∷ "/" ∷ "gpt-5" ∷ []);
  judge = format ("openai" ∷ "/" ∷ "gpt-5" ∷ []);
}
lineup google = record {
  cheap = format ("google" ∷ "/" ∷ "gemini-2.5-flash" ∷ []);
  strong = format ("google" ∷ "/" ∷ "gemini-2.5-pro" ∷ []);
  judge = format ("google" ∷ "/" ∷ "gemini-2.5-pro" ∷ []);
}

abbrev single : String → Tiers
single id = record { cheap = id; strong = id; judge = id }

abbrev tiers_from : String → Text × Bool × Text → Tiers
tiers_from id (front, sep, back) = elim (provider_of front) [
  | none ↦ single id
  | some p ↦ if sep then lineup p else single id
]

unfoldable pub resolve_tier_model_ids : String → Tiers
resolve_tier_model_ids id = tiers_from id (partition_slash (codes id))

unfoldable pub judge_is_independent : String → Bool
judge_is_independent id = let ids = resolve_tier_model_ids id in not (ids.judge == ids.strong)

abbrev no_text : Text → Bool
no_text [] = true
no_text (_ ∷ _) = false

abbrev trusted_from : Text × Bool × Text → Bool
trusted_from (front, sep, back) = sep && not (no_text back) && is_some (provider_of front)

unfoldable pub clearing_is_trusted : String → Bool
clearing_is_trusted id = trusted_from (partition_slash (codes id))

lineup_judge : (p : Provider) → ((lineup p).judge == (lineup p).cheap) ≡ false
unfolding lineup
lineup_judge anthropic = refl
lineup_judge openrouter = refl
lineup_judge openai = refl
lineup_judge google = refl

-- A model whose dismissals are trusted has the tiers of a known provider's lineup, and its judge
-- differs from its cheap model.
pub clearing_is_trusted-lineup :
    (id : String)
    → clearing_is_trusted id ≡ true
    → (p : Provider) × (resolve_tier_model_ids id ≡ lineup p)
      × ((lineup p).judge ≢ (lineup p).cheap)
unfolding clearing_is_trusted resolve_tier_model_ids
clearing_is_trusted-lineup id h = elim (Option-cases (provider_of (partition_slash (codes id)).0)) [
  | inl unknown ↦ absurd (ground arith)
  | inr (p, known) ↦ (
    p,
    ground arith,
    λ e. ground (arith, lineup_judge p, eq_iff (lineup p).judge (lineup p).cheap),
  )
]
