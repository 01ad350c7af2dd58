-- ===== src/World.antt =====
-- What the service and the worker share: the database, the broker's queue and the supply of random
-- UUIDs; and a call that may raise. The state comes back after a raise too, since what was committed
-- stays committed.
use researchhub_engine.Prelude.{ℕ, String, ◌⊎◌, Bool, Option, none, some, List}
use researchhub_engine.Errors.{ResearchEngineError, Raised, engine}
use researchhub_engine.Models.{Uuid, OrderData, FetchedDocument}
use researchhub_engine.Repository.{Db}

-- the arguments of `research_job.delay`
pub record Task : Type 0 where
  pub job_id : Uuid
  pub tenant_id : Uuid
  pub actor_id : Uuid

-- `drawn` counts the calls of `uuid.uuid4()` so far.
pub record World : Type 0 where
  pub db : Db
  pub queue : List Task
  pub drawn : ℕ

pub data Result {ℓ} (A : Type ℓ) : Type ℓ where
  ok : A → Result A
  err : Raised → Result A

abbrev pub M : Type 0 → Type 0
M A = World → Result A × World

module _ {A : Type 0} where
  abbrev pub pure : A → M A
  pure a w = (ok a, w)

  abbrev pub raise : ResearchEngineError → M A
  raise e w = (err (engine e), w)

  abbrev pub lift : Result A → M A
  lift r w = (r, w)

  abbrev pub gets : (World → A) → M A
  gets f w = (ok (f w), w)

  abbrev pub or_raise : Option A → ResearchEngineError → M A
  or_raise none e = raise e
  or_raise (some a) _ = pure a

abbrev pub modify_db : (Db → Db) → M (Unit {0})
modify_db f w = (ok tt, record w { db = f w.db })

infixl 5 ◌>>=◌ ◌>>◌
abbrev pub ◌>>=◌ : {A B : Type 0} → M A → (A → M B) → M B
◌>>=◌ m f w = let (r, w') = m w in elim r [ ok a ↦ f a w' | err e ↦ (err e, w') ]

abbrev pub ◌>>◌ : {A B : Type 0} → M A → M B → M B
m >> k = m >>= λ _. k

abbrev pub guard : Bool → ResearchEngineError → M (Unit {0})
guard Bool.true e = pure tt
guard Bool.false e = raise e

-- The injected dependencies of `ResearchService`. A document fetcher runs one research pipeline for
-- some document types: it raises, with the text of the exception, or returns a dict. `enqueue` says
-- whether the broker took the task.
pub record ResearchService : Type 0 where
  pub order_provider : Option (Uuid → Uuid → Option OrderData)
  pub document_fetcher :
      Option OrderData → List String → Uuid → String ⊎ List (String × FetchedDocument)
  pub enqueue : Option (Task → Bool)
