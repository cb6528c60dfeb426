-- ===== src/Triage.antt =====
-- Triage: the verdict schema of agents/schemas.py, the scanner's quick read, the resolvers that
-- clear a finding without a model, and the deep dive of agents/triage_deep.
pub mod Output
pub mod Reach
pub mod Synthesizer
pub mod Escalation
pub mod Challenge
pub mod Tiers
pub mod Findings
pub mod DeepVerdicts
pub mod DeepDive
pub mod CodeMap
pub mod DepManifest
pub mod Run
