-- ===== src/Lib.antt =====
-- Cliff: a service that ingests security findings, triages them with agents, and remediates them
-- through pull requests. This library models the decisions that the service takes itself, between
-- the agents' answers, and proves what they rest on.
--
-- The parts, in the order in which a finding meets them:
-- * Ingest (backend/cliff/db/repo_ingest_job.py, backend/cliff/integrations/ingest_worker.py): a
--   `Job` is a row of the table of jobs; `process_job` is `_process_job`, `turn` a round of its loop, `finish` the final
--   status.
-- * Triage.Run (backend/cliff/agents/triage_runner.py): `run_triage` runs the prerequisite agents
--   (`prepare`), then `decide` asks the two deterministic gates, the deep dive, and the quick read.
--   - Triage.Synthesizer with Triage.Reach (agents/runtime/triage_synthesizer.py): the quick read.
--   - Triage.CodeMap (agents/triage_codemap.py) and Triage.DepManifest
--     (agents/triage_dep_manifest.py): the gates.
--   - Triage.Escalation (agents/triage_deep/escalation.py, integration.py): whether the deep dive
--     starts. Triage.DeepDive, Triage.DeepVerdicts and Triage.Findings
--     (agents/triage_deep/runner.py): its stages and exits. Triage.Challenge (agents/triage_deep/challenge.py): its panels. Triage.Tiers
--     (agents/runtime/model_tiers.py): which models may clear.
--   - Triage.Output (agents/schemas.py): the verdict that all of them give.
-- * Issue (backend/cliff/models/issue_derivation.py): `derive`, the stage that a user sees.
-- * Pipeline (backend/cliff/agents/pipeline.py): `suggest_next` and the loop `run_pipeline`.
-- * Executor (backend/cliff/agents/executor.py, backend/cliff/db/repo_agent_run.py): an agent run.
--   `Executor.Runs` has the rows of the runs, `check_not_busy` (`is_busy`) and the clean-up at the
--   start; `Executor.Call` is `_run_pa_call`, `Executor.Finalize` is `_finalize_run`,
--   `Executor.Advance` moves the finding's status, and `Executor.Execute` and `Executor.Resume` are
--   `execute` and `resume_executor`. `World` is the state of one workspace.
-- * Sidebar (backend/cliff/agents/sidebar_mapper.py, backend/cliff/db/repo_sidebar.py): the sections
--   that agents write, which a function by `Section` stands for; `map_and_upsert` is called when a
--   run is finalized.
-- * PrVerifier (backend/cliff/services/pr_verifier.py): `verify_pr_url`, which finalizing asks.
-- * Deps (backend/cliff/repos/deps/graph.py, backend/cliff/repos/deps/build.py): the dependency
--   graph, `propagate_scopes`, and the manifest that Triage.DepManifest reads.
-- * FindingStore (backend/cliff/db/repo_finding.py): the rows of findings, `create_finding` and
--   `close_disappeared_findings`, which an assessment calls one after the other.
-- * Assessment (backend/cliff/assessment/engine.py, backend/cliff/models/assessment.py): the criteria
--   (`build_snapshot`) and the grade.
-- * EvidenceGuard (backend/cliff/services/evidence_guard.py): `guard_evidence_output`.
-- * Permission (backend/cliff/agents/runtime/tools/permissions.py): `gate_tool_call`.
-- * Json and Common: JSON values, Python's text methods and file globs, numbers, lists.
--
-- State and failures: the executor, the database and the agents are records of functions that a
-- definition takes (`Services`, `Stages`, `World`); exceptions are values (`Result`, `Outcome`,
-- `Ran`). Confidences are in hundredths. Texts that the program searches are lists of code points;
-- `lower`, `strip`, digits and letters are those of ASCII. Python's `str` and `repr` of a value,
-- which fill receipts, are arguments (`Print`).
--
-- Bounds and fuel: `run_pipeline` runs at most the eight rounds of the source's `range`. The loop
-- over the chunks of a job recurses on the chunks that are left. `collapse`, `tokens` and `fnmatch`
-- have the length of the pattern as fuel, of which each step takes at least one character. A search of
-- the dependency graph has one turn more than there are edges as fuel, since a turn takes a package
-- off the stack and only a first visit puts its edges there. A call of a model has three attempts. All
-- else recurses on its data.
--
-- Not modelled: model calls, prompts, scanners, HTTP, SQL as such, file system and encryption, which
-- are I/O; the waiting between attempts and the durations; database failures while a handler writes;
-- the words of the summaries of agents without tools; the order in which the tasks of one process
-- run, also between the check of an executor for a run that is on and the row that it then writes;
-- Python's limit of 4300 digits for `int` of a text; a chunk size of zero, which the route that makes
-- the jobs does not let through and for which the source raises a ZeroDivisionError; the command line
-- and the frontend, which are clients; the output parser, the lockfile parsers, the run of an
-- assessment with its posture checks, and the repository profiles.
pub mod Assessment
pub mod Common
pub mod Deps
pub mod EvidenceGuard
pub mod Executor
pub mod FindingStore
pub mod Ingest
pub mod Issue
pub mod Json
pub mod Permission
pub mod Pipeline
pub mod PrVerifier
pub mod Sidebar
pub mod Triage
