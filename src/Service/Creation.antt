-- ===== src/Service/Creation.antt =====
-- `create_job` and `retry_job` of backend/app/engine/service.py. What they take from outside: the
-- injected dependencies, `lower` for `str.lower`, `uuid4` for the stream of random UUIDs, `now` for
-- the time of the transaction, and `race` for what other sessions commit between the check for an
-- existing job and the insertion of a new one.
use researchhub_engine.Prelude.{
  ℕ, String, ◌+◌, Option, none, some, List, [], ◌∷◌, ◌++◌, map, ◌==◌, not, length, filter_by,
  contains, and_then, Bool, true, false,
}
use researchhub_engine.Errors.{job_not_retryable, idempotency_conflict, other}
use researchhub_engine.Models.{Uuid, Time, ResearchJob, ResearchDocument}
use researchhub_engine.Repository.{
  Db, get_by_idempotency, new_job, insert_job, list_failed, new_document, insert_document,
}
use researchhub_engine.World.{
  Task, Result, err, M, pure, lift, gets, or_raise, modify_db, ◌>>=◌, ◌>>◌, guard, ResearchService,
}
use researchhub_engine.DocTypes.{validate_doc_types}
use researchhub_engine.Service.{is_retryable, resolve_order, get_job}

-- What the broker's answer does; where it refuses, the exception leaves the committed job behind.
abbrev pub answered : Bool → Task → M (Unit {0})
answered true task w = (Result.ok tt, record w { queue = w.queue ++ task ∷ [] })
answered false task w = (err (other "broker unreachable"), w)

abbrev pub publish_by : Option (Task → Bool) → Task → M (Unit {0})
publish_by none task = pure tt
publish_by (some send) task = answered (send task) task

-- the types to retry: all that failed, or those of the request that failed
unfoldable pub retry_types : Option (List String) → List String → List String
retry_types none failed_types = failed_types
retry_types (some ts) failed_types = filter_by (λ t. contains t failed_types) ts

module _ (service : ResearchService) (lower : String → String) (uuid4 : ℕ → Uuid) (race : Db → Db)
    (now : Time) where
  unfoldable pub draw : M Uuid
  draw w = (Result.ok (uuid4 w.drawn), record w { drawn = w.drawn + 1 })

  -- the loop that creates the document rows; the `n`-th UUID is the next
  unfoldable pub insert_documents : ℕ → Db → Uuid → Uuid → List String → Option Db
  insert_documents n db job_id order_id [] = some db
  insert_documents n db job_id order_id (t ∷ ts) =
      and_then (insert_document db (new_document (uuid4 n) job_id order_id t now))
        (λ db'. insert_documents (n + 1) db' job_id order_id ts)

  -- the `try` block up to its commit; `none` is the IntegrityError, after which nothing is kept
  unfoldable pub insert_rows : ℕ → Db → ResearchJob → Option Db
  unfolding insert_documents
  insert_rows n db job =
      and_then (insert_job db job)
        (λ db'. insert_documents n db' job.id job.order_id job.requested_doc_types)

  -- `if self.enqueue: self.enqueue(...)`
  unfoldable pub publish : Task → M (Unit {0})
  publish task = publish_by service.enqueue task

  -- the lookup by key, where a key was given
  unfoldable pub existing_job : Uuid → Option Uuid → Db → Option ResearchJob
  existing_job tenant_id none db = none
  existing_job tenant_id (some key) db = get_by_idempotency db key tenant_id

  -- the `except IntegrityError` branch
  unfoldable pub return_winner : Uuid → Option Uuid → M ResearchJob
  unfolding existing_job
  return_winner tenant_id key w =
      or_raise (existing_job tenant_id key w.db)
        (idempotency_conflict "A job with this idempotency key already exists") w

  -- after the attempt to insert: nothing is kept, or the rows are committed and the task published
  unfoldable pub commit_or_return :
      Uuid → Uuid → Option Uuid → ResearchJob → Option Db → M ResearchJob
  unfolding publish return_winner
  commit_or_return tenant_id actor_id key job none w = return_winner tenant_id key w
  commit_or_return tenant_id actor_id key job (some db') w =
      (publish (record { job_id = job.id; tenant_id = tenant_id; actor_id = actor_id }) >> pure job)
        (record w { db = db'; drawn = w.drawn + length job.requested_doc_types })

  -- from the `try` on: `job` is the row to insert
  unfoldable pub insert_or_return : Uuid → Uuid → Option Uuid → ResearchJob → M ResearchJob
  unfolding insert_rows commit_or_return
  insert_or_return tenant_id actor_id key job w =
      commit_or_return tenant_id actor_id key job (insert_rows w.drawn w.db job) w

  -- `idempotency_key or uuid.uuid4()`
  unfoldable pub key_or_draw : Option Uuid → M Uuid
  unfolding draw
  key_or_draw none = draw
  key_or_draw (some key) = pure key

  unfoldable pub create_new :
      (tenant_id actor_id order_id : Uuid)
      → List String
      → Option Uuid
      → Option String
      → M ResearchJob
  unfolding key_or_draw draw insert_or_return
  create_new tenant_id actor_id order_id types key callback_url = do
    modify_db race
    job_key ← key_or_draw key
    id ← draw
    insert_or_return tenant_id actor_id key
        (new_job id order_id tenant_id actor_id job_key types callback_url now)

  -- `if existing: return existing`
  unfoldable pub return_or_create :
      (tenant_id actor_id order_id : Uuid)
      → List String
      → Option Uuid
      → Option String
      → Option ResearchJob
      → M ResearchJob
  unfolding create_new
  return_or_create tenant_id actor_id order_id types key callback_url (some job) = pure job
  return_or_create tenant_id actor_id order_id types key callback_url none =
      create_new tenant_id actor_id order_id types key callback_url

  unfoldable pub create_job :
      (tenant_id actor_id order_id : Uuid)
      → List String
      → Option Uuid
      → Option String
      → M ResearchJob
  unfolding resolve_order return_or_create existing_job
  create_job tenant_id actor_id order_id doc_types key callback_url = do
    order ← lift (resolve_order service.order_provider tenant_id order_id)
    types ← lift (validate_doc_types lower doc_types)
    existing ← gets (λ w. existing_job tenant_id key w.db)
    return_or_create tenant_id actor_id order.id types key callback_url existing

  unfoldable pub retry_job : Uuid → Uuid → Uuid → Option (List String) → M ResearchJob
  unfolding get_job create_job retry_types
  retry_job tenant_id actor_id job_id doc_types = do
    original ← get_job tenant_id job_id
    guard (is_retryable original.status)
        (job_not_retryable "Original job is not in a retryable state")
    failed ← gets (λ w. list_failed w.db job_id)
    let types = retry_types doc_types (map (λ (d : ResearchDocument). d.doc_type) failed)
    guard (not (length types == 0)) (job_not_retryable "No failed documents to retry")
    create_job tenant_id actor_id original.order_id types none none
