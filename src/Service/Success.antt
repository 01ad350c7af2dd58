-- ===== src/Service/Success.antt =====
-- When `create_job` of backend/app/engine/service.py makes a new job, and what it then leaves.
use researchhub_engine.Prelude.{
  ℕ, String, ◌+◌, ◌≤◌, ◌≡◌, ◌≢◌, refl, ap, ◌∙◌, Bool, true, false, ◌&&◌, ◌||◌, Option, none, some,
  List, [], ◌∷◌, ◌++◌, arith, All, All-append, All-weaken, All-any_by-false, any_by, AreDistinct,
  length, ◌==◌, str_eq,
}
use mathlib.Core.List.{append-nil, append_assoc}
use researchhub_engine.Schemas.{ResearchJobStatus}
use researchhub_engine.Models.{Uuid, Time, ResearchJob, ResearchDocument, OrderData}
use researchhub_engine.Repository.{
  Db, document_conflicts, insert_document, insert_job, job_conflicts, new_document, new_job,
}
use researchhub_engine.World.{World, Task, ok, ResearchService}
use researchhub_engine.DocTypes.{validate_doc_types}
use researchhub_engine.DocTypes.Validation.{validate_doc_types_sound}
use researchhub_engine.Service.{resolve_order}
use researchhub_engine.Service.Creation.{
  publish, existing_job, commit_or_return, insert_or_return, insert_documents, insert_rows, draw,
  key_or_draw, create_new, return_or_create, create_job,
}

module _ (service : ResearchService) (lower : String → String) (uuid4 : ℕ → Uuid) (race : Db → Db)
    (now : Time) where
  -- the rows for the types, from the `n`-th UUID on
  abbrev pub rows : ℕ → Uuid → Uuid → List String → List ResearchDocument
  rows n job_id order_id [] = []
  rows n job_id order_id (t ∷ ts) =
      new_document (uuid4 n) job_id order_id t now ∷ rows (n + 1) job_id order_id ts

  -- A row that none of the rows for `ts` can conflict with.
  abbrev pub IsClear : ℕ → Uuid → List String → ResearchDocument → Type 0
  IsClear n job_id ts r =
      ((k : ℕ) → n ≤ k → r.id ≢ uuid4 k)
      × (r.job_id ≡ job_id → All (λ t. str_eq r.doc_type t ≡ false) ts)

  clear_of_conflict :
      (n : ℕ) (job_id order_id : Uuid) (t : String) (ts : List String) (r : ResearchDocument)
      → IsClear n job_id (t ∷ ts) r
      → document_conflicts (new_document (uuid4 n) job_id order_id t now) r ≡ false
  unfolding new_document
  clear_of_conflict n job_id order_id t ts r (fresh, apart) = go (r.job_id == job_id) refl
    where
      go :
          (b : Bool)
          → (r.job_id == job_id) ≡ b
          → ((r.id == uuid4 n) || (b && str_eq r.doc_type t)) ≡ false
      go true e = rw ((apart (ground (arith, e))).0) (ground (arith, fresh n (omega arith)))
      go false e = ground (arith, fresh n (omega arith))

  any-conflicts :
      (n : ℕ) (job_id order_id : Uuid) (t : String) (ts : List String) (rs : List ResearchDocument)
      → All (IsClear n job_id (t ∷ ts)) rs
      → any_by (document_conflicts (new_document (uuid4 n) job_id order_id t now)) rs ≡ false
  any-conflicts n job_id order_id t ts [] h = refl
  any-conflicts n job_id order_id t ts (r ∷ rs) h =
      rw
        (
          clear_of_conflict n job_id order_id t ts r h.0,
          any-conflicts n job_id order_id t ts rs h.1,
        )
        refl

  -- All rows are inserted where no row can conflict and the types are distinct.
  insert_documents_lem :
      ((i j : ℕ) → uuid4 i ≡ uuid4 j → i ≡ j)
      → (n : ℕ) (db : Db) (job_id order_id : Uuid) (ts : List String) → AreDistinct ts
      → All (IsClear n job_id ts) db.documents
      → insert_documents service lower uuid4 race now n db job_id order_id ts
        ≡ some (record db { documents = db.documents ++ rows n job_id order_id ts })
  unfolding insert_documents new_document
  insert_documents_lem inj n db job_id order_id [] distinct clear = rw (append-nil) refl
  insert_documents_lem inj n db job_id order_id (t ∷ ts) distinct clear = rw (inserted) (
      insert_documents_lem inj (n + 1) db1 job_id order_id ts distinct.1 clear'
      ∙ ap (λ ds. some (record db { documents = ds }))
          (append_assoc db.documents (doc ∷ []) (rows (n + 1) job_id order_id ts)))
    where
      doc : ResearchDocument
      doc = new_document (uuid4 n) job_id order_id t now

      db1 : Db
      db1 = record db { documents = db.documents ++ doc ∷ [] }

      inserted : insert_document db doc ≡ some db1
      inserted =
          unfold insert_document in
          rw (any-conflicts n job_id order_id t ts db.documents clear) refl

      clear' : All (IsClear (n + 1) job_id ts) (db.documents ++ doc ∷ [])
      clear' =
          All-append _ db.documents (doc ∷ [])
            (All-weaken db.documents (λ r h. ((λ k le. h.0 k (omega (arith, le))), λ e. (h.1 e).1))
              clear)
            (
              (
                (λ k le e. absurd (omega (arith, inj n k e))),
                λ e. All-any_by-false (str_eq t) ts distinct.0,
              ),
              tt,
            )

  -- No row of the database has a UUID that is drawn after the first `n`.
  pub record IsFresh (n : ℕ) (db : Db) : Type 0 where
    pub jobs :
        All (λ (j : ResearchJob). (j.id ≢ uuid4 (n + 1)) × (j.idempotency_key ≢ uuid4 n)) db.jobs
    pub documents :
        All
          (λ (d : ResearchDocument).
            ((k : ℕ) → n + 2 ≤ k → d.id ≢ uuid4 k) × (d.job_id ≢ uuid4 (n + 1)))
          db.documents

  -- the job that is created without a key
  abbrev pub created_job :
      ℕ → (tenant_id actor_id order_id : Uuid) → List String → Option String → ResearchJob
  created_job n tenant_id actor_id order_id types callback_url =
      new_job (uuid4 (n + 1)) order_id tenant_id actor_id (uuid4 n) types callback_url now

  no_job_conflict :
      (n : ℕ) (tenant_id actor_id order_id : Uuid) (types : List String)
      (callback_url : Option String) (js : List ResearchJob)
      → All (λ (j : ResearchJob). (j.id ≢ uuid4 (n + 1)) × (j.idempotency_key ≢ uuid4 n)) js
      → any_by (job_conflicts (created_job n tenant_id actor_id order_id types callback_url)) js
        ≡ false
  unfolding new_job
  no_job_conflict n tenant_id actor_id order_id types callback_url [] h = refl
  no_job_conflict n tenant_id actor_id order_id types callback_url (j ∷ js) h =
      ground (
        arith,
        h.0.0,
        h.0.1,
        no_job_conflict n tenant_id actor_id order_id types callback_url js h.1,
      )

  -- what the insertions leave of the database
  abbrev pub with_job : ℕ → ResearchJob → Db → Db
  with_job n job db = record {
    jobs = db.jobs ++ job ∷ [];
    documents = db.documents ++ rows n job.id job.order_id job.requested_doc_types;
  }

  insert_rows_lem :
      ((i j : ℕ) → uuid4 i ≡ uuid4 j → i ≡ j)
      → (n : ℕ) (tenant_id actor_id order_id : Uuid) (types : List String)
        (callback_url : Option String) (db : Db)
      → AreDistinct types
      → IsFresh n db
      → let job = created_job n tenant_id actor_id order_id types callback_url in
        insert_rows service lower uuid4 race now (n + 2) db job ≡ some (with_job (n + 2) job db)
  unfolding insert_rows new_job
  insert_rows_lem inj n tenant_id actor_id order_id types callback_url db distinct fresh =
      rw inserted (
        insert_documents_lem inj (n + 2) (record db { jobs = db.jobs ++ job ∷ [] }) (uuid4 (n + 1))
          order_id types distinct
          (All-weaken db.documents (λ d h. (h.0, λ e. absurd (h.1 e))) fresh.documents))
    where
      job : ResearchJob
      job = created_job n tenant_id actor_id order_id types callback_url

      inserted : insert_job db job ≡ some (record db { jobs = db.jobs ++ job ∷ [] })
      inserted =
          unfold insert_job in
          rw (no_job_conflict n tenant_id actor_id order_id types callback_url db.jobs fresh.jobs)
            refl

  insert_or_return_lem :
      (send : Task → Bool) (tenant_id actor_id : Uuid) (job : ResearchJob) (w : World) (db : Db)
      → service.enqueue ≡ some send
      → ((task : Task) → send task ≡ true)
      → insert_rows service lower uuid4 race now w.drawn w.db job ≡ some db
      → insert_or_return service lower uuid4 race now tenant_id actor_id none job w ≡ (
        ok job,
        record {
          db = db;
          queue =
              w.queue
              ++ record { job_id = job.id; tenant_id = tenant_id; actor_id = actor_id } ∷ [];
          drawn = w.drawn + length job.requested_doc_types;
        },
      )
  unfolding insert_or_return commit_or_return publish
  insert_or_return_lem send tenant_id actor_id job w db broker takes inserted =
      rw
        (
          inserted,
          broker,
          takes (record { job_id = job.id; tenant_id = tenant_id; actor_id = actor_id }),
        )
        refl

-- A job of the tenant and the order that waits to be started, with one document for each type.
pub record IsQueued (tenant_id order_id : Uuid) (types : List String) (job : ResearchJob)
    : Type 0 where
  pub status : job.status ≡ ResearchJobStatus.queued
  pub tenant : job.tenant_id ≡ tenant_id
  pub order : job.order_id ≡ order_id
  pub requested : job.requested_doc_types ≡ types
  pub total : job.total_documents ≡ length types
  pub unstarted : job.started_at ≡ none

-- With a broker that takes the task, an order that resolves, types that are valid and UUIDs that are
-- distinct and used by no row of the database, also after what other sessions committed, `create_job`
-- without a key succeeds: it adds one queued job, one document for each type in their order, and one
-- task for the job.
pub create_job_creates :
    (service : ResearchService) (lower : String → String) (uuid4 : ℕ → Uuid) (race : Db → Db)
    (now : Time) (send : Task → Bool) (tenant_id actor_id order_id : Uuid) (order : OrderData)
    (doc_types types : List String) (callback_url : Option String) (w : World)
    → ((i j : ℕ) → uuid4 i ≡ uuid4 j → i ≡ j)
    → service.enqueue ≡ some send
    → ((task : Task) → send task ≡ true)
    → resolve_order service.order_provider tenant_id order_id ≡ ok order
    → validate_doc_types lower doc_types ≡ ok types
    → IsFresh service lower uuid4 race now w.drawn (race w.db)
    → let job =
        created_job service lower uuid4 race now w.drawn tenant_id actor_id order.id types
          callback_url in
      (create_job service lower uuid4 race now tenant_id actor_id order_id doc_types none
          callback_url w
        ≡ (
          ok job,
          record {
            db = with_job service lower uuid4 race now (w.drawn + 2) job (race w.db);
            queue =
                w.queue
                ++ record {
                  job_id = uuid4 (w.drawn + 1);
                  tenant_id = tenant_id;
                  actor_id = actor_id;
                }
                  ∷ [];
            drawn = w.drawn + 2 + length types;
          },
        ))
      × IsQueued tenant_id order.id types job
unfolding create_job existing_job return_or_create create_new key_or_draw draw insert_or_return
    new_job commit_or_return publish
create_job_creates service lower uuid4 race now send tenant_id actor_id order_id order doc_types
      types callback_url w inj broker takes resolved valid fresh =
    let (_, distinct, _) = validate_doc_types_sound lower doc_types valid in
    let inserted =
      insert_rows_lem service lower uuid4 race now inj w.drawn tenant_id actor_id order.id types
        callback_url (race w.db) distinct fresh in
    let job =
      created_job service lower uuid4 race now w.drawn tenant_id actor_id order.id types
        callback_url in
    let two : w.drawn + 1 + 1 ≡ w.drawn + 2 = omega arith in
    (
      rw (resolved, valid)
          (insert_or_return_lem service lower uuid4 race now send tenant_id actor_id job
              (record { db = race w.db; queue = w.queue; drawn = w.drawn + 1 + 1 }) _ broker takes
              (ap (λ n. insert_rows service lower uuid4 race now n (race w.db) job) two ∙ inserted)
            ∙ ap
                (λ n. (
                  ok job,
                  record {
                    db = with_job service lower uuid4 race now (w.drawn + 2) job (race w.db);
                    queue =
                        w.queue
                        ++ record {
                          job_id = uuid4 (w.drawn + 1);
                          tenant_id = tenant_id;
                          actor_id = actor_id;
                        }
                          ∷ [];
                    drawn = n + length types;
                  },
                ))
                two),
      record {
        status = refl;
        tenant = refl;
        order = refl;
        requested = refl;
        total = refl;
        unstarted = refl;
      },
    )
