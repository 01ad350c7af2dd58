-- ===== src/Pipeline.antt =====
-- The pipeline of backend/app/engine/orchestration with the registered adapters: `build_steps` on a
-- resolved context. The children say what it gives.
pub mod Runner
pub mod Fallbacks
pub mod Unconfirmed
pub mod Quiet
pub mod Suppression
pub mod Runs
pub mod Answers
use researchhub_engine.Prelude.{ℕ, String, ◌⊎◌, Option, List}
use researchhub_engine.Contracts.{StepResult}
use researchhub_engine.Sources.{SourceException}
use researchhub_engine.Sources.Context.{Context, log}
use researchhub_engine.Sources.Services.{Python, Services}
use researchhub_engine.Sources.Registry.{adapter_for, adapters}
use researchhub_engine.Steps.{build_steps}

-- `build_steps` with `ADAPTERS`
unfoldable pub research_steps :
    Python
    → (String → String)
    → Services
    → Option (List String)
    → Context
    → (SourceException ⊎ List StepResult) × Context
unfolding build_steps adapter_for adapters log
research_steps python cut services include ctx =
    build_steps python.repr cut log (adapter_for (adapters python services)) include ctx
