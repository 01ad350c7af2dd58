-- ===== src/Service/Retries.antt =====
-- What `retry_job` of backend/app/engine/service.py asks for.
use researchhub_engine.Prelude.{
  ℕ, String, ◌+◌, ◌≡◌, refl, sym, ◌∙◌, Bool, true, false, not, Option, none, some, List, [], ◌∷◌,
  map, All, any_by, contains, filter_by, filter_by-All, length, ◌==◌, str_eq, if◌then◌else◌,
  All-contains,
}
use researchhub_engine.Errors.{job_not_found, job_not_retryable}
use researchhub_engine.Schemas.{ResearchJobStatus}
use researchhub_engine.Models.{Uuid, Time, ResearchJob, ResearchDocument, OrderData}
use researchhub_engine.Repository.{Db, get, list_failed, new_job}
use researchhub_engine.World.{
  World, Task, Result, ok, err, M, pure, lift, gets, or_raise, ◌>>=◌, ◌>>◌, guard, ResearchService,
}
use researchhub_engine.DocTypes.{validate_doc_types}
use researchhub_engine.DocTypes.Lookup.{IsRequestable, canonical_of_requestable}
use researchhub_engine.DocTypes.Validation.{stands_for, contains-validate_doc_types}
use researchhub_engine.Service.{is_retryable, resolve_order, get_job}
use researchhub_engine.Service.Creation.{
  answered, publish_by, publish, existing_job, return_winner, commit_or_return, insert_or_return,
  draw, key_or_draw, create_new, return_or_create, create_job, retry_types, retry_job,
}
use researchhub_engine.Service.Idempotency.{ok-inj}

-- the types of the documents of a job that failed
abbrev pub failed_types : Db → Uuid → List String
failed_types db job_id = map (λ (d : ResearchDocument). d.doc_type) (list_failed db job_id)

module _ (service : ResearchService) (lower : String → String) (uuid4 : ℕ → Uuid) (race : Db → Db)
    (now : Time) where
  -- Without a key, the job that comes back is the row that was to be inserted.
  commit-row :
      (tenant_id actor_id : Uuid) (job row : ResearchJob) (w w' : World) (o : Option Db)
      → commit_or_return service lower uuid4 race now tenant_id actor_id none row o w ≡ (ok job, w')
      → job ≡ row
  unfolding commit_or_return return_winner existing_job publish
  commit-row tenant_id actor_id job row w w' none e = cc
  commit-row tenant_id actor_id job row w w' (some db') e = by_broker service.enqueue e
    where
      task : Task
      task = record { job_id = row.id; tenant_id = tenant_id; actor_id = actor_id }

      committed : World
      committed = record w { db = db'; drawn = w.drawn + length row.requested_doc_types }

      by_answer : (b : Bool) → (answered b task >> pure row) committed ≡ (ok job, w') → job ≡ row
      by_answer true e = sym (ok-inj row job _ w' e).0
      by_answer false e = cc

      by_broker :
          (q : Option (Task → Bool))
          → (publish_by q task >> pure row) committed ≡ (ok job, w')
          → job ≡ row
      by_broker none e = sym (ok-inj row job _ w' e).0
      by_broker (some send) e = by_answer (send task) e

  -- A job created without a key asks for the types that the request stands for.
  create_job-types :
      (tenant_id actor_id order_id : Uuid) (doc_types : List String) (callback_url : Option String)
      (job : ResearchJob) (w w' : World)
      → create_job service lower uuid4 race now tenant_id actor_id order_id doc_types none
          callback_url w
        ≡ (ok job, w')
      → (validate_doc_types lower doc_types ≡ ok job.requested_doc_types)
        × (job.status ≡ ResearchJobStatus.queued)
        × (job.tenant_id ≡ tenant_id)
  unfolding create_job existing_job return_or_create create_new key_or_draw draw insert_or_return
      new_job
  create_job-types tenant_id actor_id order_id doc_types callback_url job w w' =
      resolved (resolve_order service.order_provider tenant_id order_id)
    where
      validated :
          (order : OrderData) (v : Result (List String))
          → validate_doc_types lower doc_types ≡ v
          → (lift v >>= λ types.
                gets (λ (u : World). existing_job service lower uuid4 race now tenant_id none u.db)
                >>= return_or_create service lower uuid4 race now tenant_id actor_id order.id types
                    none callback_url)
              w
            ≡ (ok job, w')
          → (validate_doc_types lower doc_types ≡ ok job.requested_doc_types)
            × (job.status ≡ ResearchJobStatus.queued)
            × (job.tenant_id ≡ tenant_id)
      validated order (err r) h e = cc
      validated order (ok types) h e =
          let same = commit-row tenant_id actor_id job _ _ w' _ e in rw same (h, refl, refl)

      resolved :
          (o : Result OrderData)
          → (lift o >>= λ order. lift (validate_doc_types lower doc_types) >>= λ types.
                gets (λ (u : World). existing_job service lower uuid4 race now tenant_id none u.db)
                >>= return_or_create service lower uuid4 race now tenant_id actor_id order.id types
                    none callback_url)
              w
            ≡ (ok job, w')
          → (validate_doc_types lower doc_types ≡ ok job.requested_doc_types)
            × (job.status ≡ ResearchJobStatus.queued)
            × (job.tenant_id ≡ tenant_id)
      resolved (err r) e = cc
      resolved (ok order) e = validated order (validate_doc_types lower doc_types) refl e

stands_for_requestable :
    (lower : String → String) (r c : String) → IsRequestable r → stands_for lower r c ≡ str_eq c r
stands_for_requestable lower r c h = rw (canonical_of_requestable lower r h) refl

-- Requestable names stand for themselves.
any-stands_for :
    (lower : String → String) (c : String) (ts : List String)
    → All IsRequestable ts
    → any_by (λ r. stands_for lower r c) ts ≡ contains c ts
any-stands_for lower c [] h = refl
any-stands_for lower c (t ∷ ts) h =
    rw (stands_for_requestable lower t c h.0, any-stands_for lower c ts h.1) refl

contains-filter_by :
    (c : String) (p : String → Bool) (ts : List String)
    → contains c (filter_by p ts) ≡ true
    → p c ≡ true
contains-filter_by c p ts h =
    All-contains (λ t. p t ≡ true) c (filter_by p ts) (filter_by-All p ts) h

-- What is retried has failed.
contains-retry_types :
    (c : String) (doc_types : Option (List String)) (failed : List String)
    → contains c (retry_types doc_types failed) ≡ true
    → contains c failed ≡ true
unfolding retry_types
contains-retry_types c none failed h = h
contains-retry_types c (some ts) failed h = contains-filter_by c (λ t. contains t failed) ts h

All-filter-contains :
    (failed ts : List String)
    → All IsRequestable failed
    → All IsRequestable (filter_by (λ t. contains t failed) ts)
All-filter-contains failed [] h = tt
All-filter-contains failed (t ∷ ts) h =
    go (contains t failed) refl (All-filter-contains failed ts h)
  where
    go :
        (b : Bool)
        → contains t failed ≡ b
        → All IsRequestable (filter_by (λ t. contains t failed) ts)
        → All IsRequestable (
            if b
            then t ∷ filter_by (λ t. contains t failed) ts
            else filter_by (λ t. contains t failed) ts)
    go true e more = (All-contains IsRequestable t failed h e, more)
    go false e more = more

retry_types-IsRequestable :
    (doc_types : Option (List String)) (failed : List String)
    → All IsRequestable failed
    → All IsRequestable (retry_types doc_types failed)
unfolding retry_types
retry_types-IsRequestable none failed h = h
retry_types-IsRequestable (some ts) failed h = All-filter-contains failed ts h

-- The types that a retry is accepted with are those to retry.
contains-accepted :
    (lower : String → String) (c : String) (ts types : List String)
    → All IsRequestable ts
    → not (length ts == 0) ≡ true
    → validate_doc_types lower ts ≡ ok types
    → contains c types ≡ contains c ts
contains-accepted lower c [] types h nonempty e = cc
contains-accepted lower c (t ∷ ts) types h nonempty e =
    contains-validate_doc_types lower t ts c e ∙ any-stands_for lower c (t ∷ ts) h

-- What a retry that returns has made.
pub record IsRetry (original : ResearchJob) (tenant_id : Uuid) (failed : List String)
    (wanted : Option (List String)) (job : ResearchJob) : Type 0 where
  pub retryable : is_retryable original.status ≡ true
  pub queued : job.status ≡ ResearchJobStatus.queued
  pub own : job.tenant_id ≡ tenant_id
  pub asks :
      (c : String) → contains c job.requested_doc_types ≡ contains c (retry_types wanted failed)
  pub only_failed :
      (c : String) → contains c job.requested_doc_types ≡ true → contains c failed ≡ true

-- A retry that returns a job found the tenant's original in a retryable status, and the new job, the
-- tenant's and queued, asks for the types to retry, each of them one that failed in the original, if
-- the failed documents are of requestable types.
pub retry_job-IsRetry :
    (service : ResearchService) (lower : String → String) (uuid4 : ℕ → Uuid) (race : Db → Db)
    (now : Time) (tenant_id actor_id job_id : Uuid) (doc_types : Option (List String))
    (job : ResearchJob) (w w' : World)
    → All IsRequestable (failed_types w.db job_id)
    → retry_job service lower uuid4 race now tenant_id actor_id job_id doc_types w ≡ (ok job, w')
    → (original : ResearchJob) × (get w.db job_id tenant_id ≡ some original)
      × IsRetry original tenant_id (failed_types w.db job_id) doc_types job
unfolding retry_job get_job
retry_job-IsRetry service lower uuid4 race now tenant_id actor_id job_id doc_types job w w'
      requestable =
    by_original (get w.db job_id tenant_id) refl
  where
    failed : List String
    failed = failed_types w.db job_id

    types : List String
    types = retry_types doc_types failed

    create : Uuid → List String → M ResearchJob
    create order_id ts =
        create_job service lower uuid4 race now tenant_id actor_id order_id ts none none

    rest : ResearchJob → M ResearchJob
    rest original = gets (λ u. list_failed u.db job_id) >>= λ fs.
        let ts = retry_types doc_types (map (λ (d : ResearchDocument). d.doc_type) fs) in
        guard (not (length ts == 0)) (job_not_retryable "No failed documents to retry")
        >> create original.order_id ts

    by_types :
        (original : ResearchJob) (b : Bool)
        → is_retryable original.status ≡ true
        → not (length types == 0) ≡ b
        → (guard b (job_not_retryable "No failed documents to retry")
              >> create original.order_id types)
            w
          ≡ (ok job, w')
        → IsRetry original tenant_id failed doc_types job
    by_types original false h hb e = cc
    by_types original true h hb e =
        let (accepted, queued, own) =
          create_job-types service lower uuid4 race now tenant_id actor_id original.order_id types
            none job w w' e in
        let asks : (c : String) → contains c job.requested_doc_types ≡ contains c types = λ c.
          contains-accepted lower c types job.requested_doc_types
            (retry_types-IsRequestable doc_types failed requestable) hb accepted in
        record {
          retryable = h;
          queued = queued;
          own = own;
          asks = asks;
          only_failed = λ c there. contains-retry_types c doc_types failed (sym (asks c) ∙ there);
        }

    by_status :
        (original : ResearchJob) (b : Bool)
        → is_retryable original.status ≡ b
        → (guard b (job_not_retryable "Original job is not in a retryable state") >> rest original)
            w
          ≡ (ok job, w')
        → IsRetry original tenant_id failed doc_types job
    by_status original false hb e = cc
    by_status original true hb e = by_types original (not (length types == 0)) hb refl e

    by_original :
        (o : Option ResearchJob)
        → get w.db job_id tenant_id ≡ o
        → (or_raise o (job_not_found (some job_id)) >>= λ original.
              guard
                (is_retryable original.status)
                (job_not_retryable "Original job is not in a retryable state")
              >> rest original)
            w
          ≡ (ok job, w')
        → (original : ResearchJob) × (get w.db job_id tenant_id ≡ some original)
          × IsRetry original tenant_id failed doc_types job
    by_original none h e = cc
    by_original (some original) h e =
        (original, h, by_status original (is_retryable original.status) refl e)
