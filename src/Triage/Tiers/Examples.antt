-- ===== src/Triage/Tiers/Examples.antt =====
-- The tiers of concrete model ids.
use cliff.Common.{◌≡◌, refl, false}
use cliff.Common.Text.{same, partition_slash}
use cliff.Triage.Tiers.{
  provider_of, lineup, resolve_tier_model_ids, judge_is_independent, clearing_is_trusted,
}

tiers : Unit {0}
unfolding resolve_tier_model_ids judge_is_independent clearing_is_trusted partition_slash
    provider_of lineup same
tiers = tt

resolves :
    ((resolve_tier_model_ids "openai/gpt-4").judge ≡ "openai/gpt-5")
    × ((resolve_tier_model_ids "ollama/llama3").judge ≡ "ollama/llama3")
    × (clearing_is_trusted "anthropic/" ≡ false)
unfolding tiers
resolves = (refl, refl, refl)
