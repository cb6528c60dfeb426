-- ===== src/Executor.antt =====
-- backend/cliff/agents/executor.py with db/repo_agent_run.py: the life of an agent run.
-- `Runs` has the table of the runs, `Call` the attempts at a model, `Advance` the finding's status,
-- `Finalize` what a finished agent leaves behind and `Execute` the run from start to end.
pub mod Runs
pub mod Call
pub mod Advance
pub mod Finalize
pub mod Agents
pub mod Execute
pub mod Resume
mod Examples
mod Scenarios
