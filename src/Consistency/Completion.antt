-- ===== src/Consistency/Completion.antt =====
-- What a task of backend/app/engine/worker.py comes to where the rest of the engine is as it is: the job
-- was made by the calls of service.py, and the documents come from the fetcher of adapters.py.
use researchhub_engine.Prelude.{String, ◌≡◌, ◌⊎◌, Option, some, List}
use researchhub_engine.Contracts.{ResearchResult}
use researchhub_engine.Models.{Uuid, OrderData}
use researchhub_engine.World.{World, ResearchService}
use researchhub_engine.Adapters.{Environment, Stores}
use researchhub_engine.Adapters.Fetching.{RunArguments, fetch}
use researchhub_engine.Consistency.Reachable.{Reachable}

-- What the service's fetcher answers is what the fetcher of adapters.py does, on the stores of that moment.
pub record FetchesWith (env : Environment) (run_research : RunArguments → String ⊎ ResearchResult)
    (service : ResearchService) : Type 0 where
  pub stores : Option OrderData → List String → Uuid → Stores
  pub answers :
      (order : Option OrderData) (doc_types : List String) (tenant_id : Uuid)
      → service.document_fetcher order doc_types tenant_id
        ≡ (fetch env run_research order doc_types
            (some tenant_id)
            (stores order doc_types tenant_id)).0
