-- ===== src/Service/Idempotency.antt =====
-- `create_job` of backend/app/engine/service.py under an idempotency key.
use researchhub_engine.Prelude.{
  ℕ, String, ◌+◌, ◌≡◌, refl, sym, ap, ◌∙◌, Bool, true, false, Option, none, some, List, [], ◌∷◌,
  ◌++◌, arith, All-any_by-false, All-weaken, any_by, find_by, find_by-append, find_by-eq-none,
  length, and_then-eq-some,
}
use researchhub_engine.Errors.{idempotency_conflict}
use researchhub_engine.Models.{Uuid, Time, ResearchJob, ResearchDocument, OrderData}
use researchhub_engine.Repository.{
  Db, is_keyed, job_conflicts, get_by_idempotency, insert_document, new_job,
}
use researchhub_engine.Repository.Queries.{insert_job-eq-some, insert_document-eq-some}
use researchhub_engine.World.{
  World, Task, Result, ok, err, pure, lift, gets, or_raise, ◌>>=◌, ◌>>◌, ResearchService,
}
use researchhub_engine.DocTypes.{validate_doc_types}
use researchhub_engine.Service.{resolve_order}
use researchhub_engine.Service.Creation.{
  draw, insert_documents, insert_rows, answered, publish_by, publish, existing_job, return_winner,
  commit_or_return, insert_or_return, key_or_draw, create_new, return_or_create, create_job,
}

pub ok-inj :
    {A : Type 0} (a b : A) (w w' : World)
    → ◌≡◌ {A = Result A × World} (ok a, w) (ok b, w')
    → (a ≡ b) × (w ≡ w')
ok-inj a b w w' e = (cc, ap (λ x. x.1) e)

-- A row that was inserted without a conflict is the one that its key finds.
find-inserted :
    (jobs : List ResearchJob) (job : ResearchJob)
    → any_by (job_conflicts job) jobs ≡ false
    → job.deleted_at ≡ none
    → find_by (is_keyed job.idempotency_key job.tenant_id) (jobs ++ job ∷ []) ≡ some job
find-inserted jobs job apart live =
    find_by-append _ jobs (job ∷ []) (
      find_by-eq-none _ jobs
        (All-weaken jobs (λ r h. ground arith) (All-any_by-false (job_conflicts job) jobs apart)))
    ∙ rw live (ground arith)

jobs-insert_document :
    (db db' : Db) (doc : ResearchDocument) → insert_document db doc ≡ some db' → db'.jobs ≡ db.jobs
jobs-insert_document db db' doc h = ap (λ (d : Db). d.jobs) (insert_document-eq-some db db' doc h).1

module _ (service : ResearchService) (lower : String → String) (uuid4 : ℕ → Uuid) (race : Db → Db)
    (now : Time) where
  jobs-insert_documents :
      (n : ℕ) (db db' : Db) (job_id order_id : Uuid) (ts : List String)
      → insert_documents service lower uuid4 race now n db job_id order_id ts ≡ some db'
      → db'.jobs ≡ db.jobs
  unfolding insert_documents
  jobs-insert_documents n db db' job_id order_id [] h = ground arith
  jobs-insert_documents n db db' job_id order_id (t ∷ ts) h =
      let (db1, h1, h2) = and_then-eq-some _ _ db' h in
      jobs-insert_documents (n + 1) db1 db' job_id order_id ts h2 ∙ jobs-insert_document db db1 _ h1

  -- The rows that were inserted are found by the key of their job.
  find-insert_rows :
      (n : ℕ) (db db' : Db) (job : ResearchJob)
      → insert_rows service lower uuid4 race now n db job ≡ some db'
      → job.deleted_at ≡ none
      → get_by_idempotency db' job.idempotency_key job.tenant_id ≡ some job
  unfolding insert_rows get_by_idempotency
  find-insert_rows n db db' job h live =
      let (db1, h1, h2) = and_then-eq-some _ _ db' h in
      let (apart, rows) = insert_job-eq-some db db1 job h1 in
      rw
        (
          jobs-insert_documents n db1 db' job.id job.order_id job.requested_doc_types h2,
          ap (λ (d : Db). d.jobs) rows,
        )
        (find-inserted db.jobs job apart live)

  -- The insertion, once it has been answered with a job, has made the job that its key finds.
  commit-finds :
      (tenant_id actor_id : Uuid) (k : Uuid) (job row : ResearchJob) (w w' : World) (o : Option Db)
      → insert_rows service lower uuid4 race now w.drawn w.db row ≡ o
      → row.idempotency_key ≡ k
      → row.tenant_id ≡ tenant_id
      → row.deleted_at ≡ none
      → commit_or_return service lower uuid4 race now tenant_id actor_id (some k) row o w
        ≡ (ok job, w')
      → get_by_idempotency w'.db k tenant_id ≡ some job
  unfolding commit_or_return return_winner existing_job publish
  commit-finds tenant_id actor_id k job row w w' none h hk ht live e =
      won (get_by_idempotency w.db k tenant_id) refl e
    where
      won :
          (f : Option ResearchJob)
          → get_by_idempotency w.db k tenant_id ≡ f
          → or_raise f (idempotency_conflict "A job with this idempotency key already exists") w
            ≡ (ok job, w')
          → get_by_idempotency w'.db k tenant_id ≡ some job
      won none hf e = cc
      won (some j) hf e = let (same, still) = ok-inj j job w w' e in rw (sym still, sym same) hf
  commit-finds tenant_id actor_id k job row w w' (some db') h hk ht live e =
      by_broker service.enqueue e
    where
      task : Task
      task = record { job_id = row.id; tenant_id = tenant_id; actor_id = actor_id }

      committed : World
      committed = record w { db = db'; drawn = w.drawn + length row.requested_doc_types }

      found : get_by_idempotency db' k tenant_id ≡ some row
      found = rw (sym hk, sym ht) (find-insert_rows w.drawn w.db db' row h live)

      by_answer :
          (b : Bool)
          → (answered b task >> pure row) committed ≡ (ok job, w')
          → get_by_idempotency w'.db k tenant_id ≡ some job
      by_answer true e = let (same, still) = ok-inj row job _ w' e in rw (sym still, sym same) found
      by_answer false e = cc

      by_broker :
          (q : Option (Task → Bool))
          → (publish_by q task >> pure row) committed ≡ (ok job, w')
          → get_by_idempotency w'.db k tenant_id ≡ some job
      by_broker none e = let (same, still) = ok-inj row job _ w' e in rw (sym still, sym same) found
      by_broker (some send) e = by_answer (send task) e

  -- `create_job` with a key that names a job returns that job and changes nothing: an order that
  -- resolves and requested types that are valid are all that it asks for.
  pub create_job-existing :
      (tenant_id actor_id order_id : Uuid) (order : OrderData) (doc_types types : List String)
      (key : Uuid) (callback_url : Option String) (job : ResearchJob) (w : World)
      → resolve_order service.order_provider tenant_id order_id ≡ ok order
      → validate_doc_types lower doc_types ≡ ok types
      → get_by_idempotency w.db key tenant_id ≡ some job
      → create_job service lower uuid4 race now tenant_id actor_id order_id doc_types
          (some key)
          callback_url
          w
        ≡ (ok job, w)
  unfolding create_job existing_job return_or_create
  create_job-existing tenant_id actor_id order_id order doc_types types key callback_url job w ho hv
        h =
      rw (ho, hv, h) refl

  -- A job that `create_job` returns for a key is the one that this key finds in the database it
  -- leaves, be it an earlier job, a new one, or that of a session that was faster.
  pub create_job-get_by_idempotency :
      (tenant_id actor_id order_id : Uuid) (doc_types : List String) (key : Uuid)
      (callback_url : Option String) (job : ResearchJob) (w w' : World)
      → create_job service lower uuid4 race now tenant_id actor_id order_id doc_types
          (some key)
          callback_url
          w
        ≡ (ok job, w')
      → get_by_idempotency w'.db key tenant_id ≡ some job
  unfolding create_job existing_job return_or_create create_new key_or_draw draw insert_or_return
      new_job
  create_job-get_by_idempotency tenant_id actor_id order_id doc_types key callback_url job w w' =
      resolved (resolve_order service.order_provider tenant_id order_id)
    where
      created :
          (id : Uuid) (types : List String) (f : Option ResearchJob)
          → get_by_idempotency w.db key tenant_id ≡ f
          → return_or_create service lower uuid4 race now tenant_id actor_id id types
              (some key)
              callback_url
              f
              w
            ≡ (ok job, w')
          → get_by_idempotency w'.db key tenant_id ≡ some job
      created id types (some j) h e =
          let (same, still) = ok-inj j job w w' e in rw (sym still, sym same) h
      created id types none h e =
          commit-finds tenant_id actor_id key job
            (new_job (uuid4 w.drawn) id tenant_id actor_id key types callback_url now)
            (record w { db = race w.db; drawn = w.drawn + 1 }) w' _ refl refl refl refl e

      validated :
          (order : OrderData) (v : Result (List String))
          → (lift v >>= λ types.
                gets (λ (u : World).
                  existing_job service lower uuid4 race now tenant_id (some key) u.db)
                >>= return_or_create service lower uuid4 race now tenant_id actor_id order.id types
                    (some key)
                    callback_url)
              w
            ≡ (ok job, w')
          → get_by_idempotency w'.db key tenant_id ≡ some job
      validated order (err r) e = cc
      validated order (ok types) e =
          created order.id types (get_by_idempotency w.db key tenant_id) refl e

      resolved :
          (o : Result OrderData)
          → (lift o >>= λ order. lift (validate_doc_types lower doc_types) >>= λ types.
                gets (λ (u : World).
                  existing_job service lower uuid4 race now tenant_id (some key) u.db)
                >>= return_or_create service lower uuid4 race now tenant_id actor_id order.id types
                    (some key)
                    callback_url)
              w
            ≡ (ok job, w')
          → get_by_idempotency w'.db key tenant_id ≡ some job
      resolved (err r) e = cc
      resolved (ok order) e = validated order (validate_doc_types lower doc_types) e
