-- ===== src/Consistency/Creation.antt =====
-- `create_job` and `retry_job` of backend/app/engine/service.py as sequences of writes, where what
-- other sessions commit meanwhile is one too.
use researchhub_engine.Prelude.{
  ℕ, String, ◌+◌, ◌≡◌, refl, Bool, true, false, not, ◌==◌, Option, none, some, List, [], ◌∷◌, map,
  arith, length, and_then-eq-some,
}
use researchhub_engine.Errors.{job_not_retryable}
use researchhub_engine.Models.{Uuid, Time, ResearchJob, ResearchDocument, OrderData}
use researchhub_engine.Repository.{
  Db, insert_job, insert_document, new_job, new_document, list_failed,
}
use researchhub_engine.World.{
  World, Task, M, pure, lift, gets, ◌>>=◌, ◌>>◌, modify_db, guard, ResearchService,
}
use researchhub_engine.DocTypes.{validate_doc_types}
use researchhub_engine.Service.{resolve_order, get_job, is_retryable}
use researchhub_engine.Service.Outcome.{HasBounds}
use researchhub_engine.Service.Creation.{
  answered, publish_by, publish, existing_job, return_winner, commit_or_return, insert_or_return,
  insert_rows, insert_documents, draw, key_or_draw, create_new, return_or_create, create_job,
  retry_types, retry_job,
}
use researchhub_engine.Consistency.{Writes, inserts_job, inserts_document, here, next}
use researchhub_engine.Consistency.Calls.{
  Writes-trans, IsWriting, or_raise-IsWriting, guard-IsWriting, >>=-IsWriting, get_job-IsWriting,
}

answered-IsWriting : (b : Bool) (task : Task) → IsWriting (answered b task)
answered-IsWriting true task w = here
answered-IsWriting false task w = here

publish_by-IsWriting :
    (send : Option (Task → Bool)) (task : Task) → IsWriting (publish_by send task)
publish_by-IsWriting none task w = here
publish_by-IsWriting (some send) task w = answered-IsWriting (send task) task w

new_job-HasBounds :
    (id order_id tenant_id actor_id key : Uuid) (types : List String) (url : Option String)
    (now : Time)
    → HasBounds (new_job id order_id tenant_id actor_id key types url now)
unfolding new_job
new_job-HasBounds id order_id tenant_id actor_id key types url now = record {
  uploaded_within = omega arith;
  within_total = omega arith;
}

Writes-eq : {db db' : Db} → db ≡ db' → Writes db db'
Writes-eq {db} {db'} e = rw (← e) here

module _ (service : ResearchService) (lower : String → String) (uuid4 : ℕ → Uuid) (race : Db → Db)
    (now : Time) where
  insert_documents-Writes :
      (n : ℕ) (db db' : Db) (job_id order_id : Uuid) (types : List String)
      → insert_documents service lower uuid4 race now n db job_id order_id types ≡ some db'
      → Writes db db'
  unfolding insert_documents
  insert_documents-Writes n db db' job_id order_id [] e = Writes-eq cc
  insert_documents-Writes n db db' job_id order_id (t ∷ ts) e =
      let doc = new_document (uuid4 n) job_id order_id t now in
      let (db1, inserted, rest) =
        and_then-eq-some (insert_document db doc)
          (λ d. insert_documents service lower uuid4 race now (n + 1) d job_id order_id ts) db' e in
      Writes-trans (next here (inserts_document doc inserted))
        (insert_documents-Writes (n + 1) db1 db' job_id order_id ts rest)

  insert_rows-Writes :
      (n : ℕ) (db db' : Db) (job : ResearchJob)
      → HasBounds job
      → insert_rows service lower uuid4 race now n db job ≡ some db'
      → Writes db db'
  unfolding insert_rows
  insert_rows-Writes n db db' job bounds e =
      let (db1, inserted, rest) =
        and_then-eq-some (insert_job db job)
          (λ d.
            insert_documents service lower uuid4 race now n d job.id job.order_id
              job.requested_doc_types)
          db' e in
      Writes-trans (next here (inserts_job job bounds inserted))
        (insert_documents-Writes n db1 db' job.id job.order_id job.requested_doc_types rest)

  key_or_draw-IsWriting :
      (key : Option Uuid) → IsWriting (key_or_draw service lower uuid4 race now key)
  unfolding key_or_draw draw
  key_or_draw-IsWriting none w = here
  key_or_draw-IsWriting (some key) w = here

  draw-IsWriting : IsWriting (draw service lower uuid4 race now)
  unfolding draw
  draw-IsWriting w = here

  -- What comes after the attempt to insert, by what it gave.
  commit_or_return-Writes :
      (tenant_id actor_id : Uuid) (key : Option Uuid) (job : ResearchJob) (o : Option Db)
      (w : World)
      → ((db' : Db) → o ≡ some db' → Writes w.db db')
      → Writes w.db
          (commit_or_return service lower uuid4 race now tenant_id actor_id key job o w).1.db
  unfolding commit_or_return return_winner publish
  commit_or_return-Writes tenant_id actor_id key job none w kept =
      or_raise-IsWriting (existing_job service lower uuid4 race now tenant_id key w.db) _ w
  commit_or_return-Writes tenant_id actor_id key job (some db') w kept =
      let task : Task = record { job_id = job.id; tenant_id = tenant_id; actor_id = actor_id } in
      Writes-trans (kept db' refl) (
        >>=-IsWriting (publish_by service.enqueue task) (λ _. pure job)
          (publish_by-IsWriting service.enqueue task) (λ _ v. here)
          (record w { db = db'; drawn = w.drawn + length job.requested_doc_types }))

  insert_or_return-IsWriting :
      (tenant_id actor_id : Uuid) (key : Option Uuid) (job : ResearchJob)
      → HasBounds job
      → IsWriting (insert_or_return service lower uuid4 race now tenant_id actor_id key job)
  unfolding insert_or_return
  insert_or_return-IsWriting tenant_id actor_id key job bounds w =
      commit_or_return-Writes tenant_id actor_id key job
        (insert_rows service lower uuid4 race now w.drawn w.db job) w
        (λ db'. insert_rows-Writes w.drawn w.db db' job bounds)

module _ (service : ResearchService) (lower : String → String) (uuid4 : ℕ → Uuid) (race : Db → Db)
    (now : Time) (races : (db : Db) → Writes db (race db)) where
  create_new-IsWriting :
      (tenant_id actor_id order_id : Uuid) (types : List String) (key : Option Uuid)
      (callback_url : Option String)
      → IsWriting (
          create_new service lower uuid4 race now tenant_id actor_id order_id types key
            callback_url)
  unfolding create_new
  create_new-IsWriting tenant_id actor_id order_id types key callback_url =
      let row : Uuid → Uuid → ResearchJob =
        λ job_key id. new_job id order_id tenant_id actor_id job_key types callback_url now in
      let insert : Uuid → Uuid → M ResearchJob = λ job_key id.
        insert_or_return service lower uuid4 race now tenant_id actor_id key (row job_key id) in
      let from : Uuid → M ResearchJob =
        λ job_key. draw service lower uuid4 race now >>= insert job_key in
      >>=-IsWriting (modify_db race) (λ _. key_or_draw service lower uuid4 race now key >>= from)
        (λ w. races w.db)
        (λ _.
          >>=-IsWriting (key_or_draw service lower uuid4 race now key) from
            (key_or_draw-IsWriting service lower uuid4 race now key)
            (λ job_key.
              >>=-IsWriting (draw service lower uuid4 race now) (insert job_key)
                (draw-IsWriting service lower uuid4 race now)
                (λ id.
                  insert_or_return-IsWriting service lower uuid4 race now tenant_id actor_id key
                    (row job_key id)
                    (new_job-HasBounds id order_id tenant_id actor_id job_key types callback_url
                      now))))

  return_or_create-IsWriting :
      (tenant_id actor_id order_id : Uuid) (types : List String) (key : Option Uuid)
      (callback_url : Option String) (existing : Option ResearchJob)
      → IsWriting (
          return_or_create service lower uuid4 race now tenant_id actor_id order_id types key
            callback_url existing)
  unfolding return_or_create
  return_or_create-IsWriting tenant_id actor_id order_id types key callback_url (some job) w = here
  return_or_create-IsWriting tenant_id actor_id order_id types key callback_url none w =
      create_new-IsWriting tenant_id actor_id order_id types key callback_url w

  pub create_job-IsWriting :
      (tenant_id actor_id order_id : Uuid) (doc_types : List String) (key : Option Uuid)
      (callback_url : Option String)
      → IsWriting (
          create_job service lower uuid4 race now tenant_id actor_id order_id doc_types key
            callback_url)
  unfolding create_job
  create_job-IsWriting tenant_id actor_id order_id doc_types key callback_url =
      let create : OrderData → List String → Option ResearchJob → M ResearchJob =
        λ order types existing.
          return_or_create service lower uuid4 race now tenant_id actor_id order.id types key
            callback_url existing in
      let look : M (Option ResearchJob) =
        gets (λ w. existing_job service lower uuid4 race now tenant_id key w.db) in
      >>=-IsWriting (lift (resolve_order service.order_provider tenant_id order_id))
        (λ order.
          lift (validate_doc_types lower doc_types) >>= λ types. look >>= create order types)
        (λ w. here)
        (λ order.
          >>=-IsWriting (lift (validate_doc_types lower doc_types))
            (λ types. look >>= create order types) (λ w. here)
            (λ types.
              >>=-IsWriting look (create order types) (λ w. here)
                (λ existing.
                  return_or_create-IsWriting tenant_id actor_id order.id types key callback_url
                    existing)))

  pub retry_job-IsWriting :
      (tenant_id actor_id job_id : Uuid) (doc_types : Option (List String))
      → IsWriting (retry_job service lower uuid4 race now tenant_id actor_id job_id doc_types)
  unfolding retry_job
  retry_job-IsWriting tenant_id actor_id job_id doc_types =
      let types : List ResearchDocument → List String =
        λ failed. retry_types doc_types (map (λ (d : ResearchDocument). d.doc_type) failed) in
      let create : ResearchJob → List ResearchDocument → M ResearchJob = λ original failed.
        create_job service lower uuid4 race now tenant_id actor_id original.order_id (types failed)
          none none in
      let some_types : List ResearchDocument → M (Unit {0}) = λ failed.
        guard (not (length (types failed) == 0))
          (job_not_retryable "No failed documents to retry") in
      let look : M (List ResearchDocument) = gets (λ w. list_failed w.db job_id) in
      let allowed : ResearchJob → M (Unit {0}) = λ original.
        guard (is_retryable original.status)
          (job_not_retryable "Original job is not in a retryable state") in
      >>=-IsWriting (get_job tenant_id job_id)
        (λ original.
          allowed original >> (look >>= λ failed. some_types failed >> create original failed))
        (get_job-IsWriting tenant_id job_id)
        (λ original.
          >>=-IsWriting (allowed original)
            (λ _. look >>= λ failed. some_types failed >> create original failed)
            (guard-IsWriting (is_retryable original.status) _)
            (λ _.
              >>=-IsWriting look (λ failed. some_types failed >> create original failed) (λ w. here)
                (λ failed.
                  >>=-IsWriting (some_types failed) (λ _. create original failed)
                    (guard-IsWriting (not (length (types failed) == 0)) _)
                    (λ _.
                      create_job-IsWriting tenant_id actor_id original.order_id (types failed) none
                        none))))
