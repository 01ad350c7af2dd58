-- ===== src/Consistency/Invariant.antt =====
-- The constraints that every write keeps.
use researchhub_engine.Prelude.{
  ◌≡◌, ◌≢◌, ℕ, false, List, [], ◌∷◌, arith, All, All-append, All-map, All-update_by, AllPairs,
  AllPairs-concat, AllPairs-update_by, AllPairs-map, AllPairs-filter_by, All-any_by-false,
  filter_by, HasDistinctKeys, keys,
}
use researchhub_engine.Models.{Uuid, ResearchJob, ResearchDocument}
use researchhub_engine.Repository.{
  Db, job_conflicts, document_conflicts, update_job, save_document, write_columns, list_for_job,
  is_document_of,
}
use researchhub_engine.Repository.Queries.{
  KeepsIdentity, insert_job-eq-some, insert_document-eq-some,
}
use researchhub_engine.Service.Outcome.{HasBounds}
use researchhub_engine.Worker.Reaper.{fail_if_running, fail_running}
use researchhub_engine.Consistency.{
  Write, Writes, IsConsistent, inserts_job, inserts_document, assigns_job, assigns_document,
  fails_running, here, next,
}

-- An assignment does not change what a job conflicts with, on either side.
module _ (f : ResearchJob → ResearchJob) (keeps : KeepsIdentity f) where
  conflicts-left : (a b : ResearchJob) → job_conflicts b a ≡ false → job_conflicts b (f a) ≡ false
  conflicts-left a b h = rw (keeps.same_id a, keeps.same_tenant a, keeps.same_key a) h

  conflicts-right : (a b : ResearchJob) → job_conflicts b a ≡ false → job_conflicts (f b) a ≡ false
  conflicts-right a b h = rw (keeps.same_id b, keeps.same_tenant b, keeps.same_key b) h

pub fail_if_running-KeepsIdentity : KeepsIdentity fail_if_running
fail_if_running-KeepsIdentity = record {
  same_id = λ r. ground arith;
  same_tenant = λ r. ground arith;
  same_key = λ r. ground arith;
  same_deletion = λ r. ground arith;
}

fail_if_running-HasBounds : (r : ResearchJob) → HasBounds r → HasBounds (fail_if_running r)
fail_if_running-HasBounds r h = ground (arith, h)

-- Every write keeps the constraints.
Write-IsConsistent : {db db' : Db} → Write db db' → IsConsistent db → IsConsistent db'
Write-IsConsistent {db} {db'} (inserts_job job bounds e) c =
    let (apart, same) = insert_job-eq-some db db' job e in
    rw same (record {
      jobs_apart =
          AllPairs-concat _ db.jobs job c.jobs_apart
            (All-any_by-false (job_conflicts job) db.jobs apart);
      documents_apart = c.documents_apart;
      bounded = All-append HasBounds db.jobs (job ∷ []) c.bounded (bounds, tt);
    })
Write-IsConsistent {db} {db'} (inserts_document doc e) c =
    let (apart, same) = insert_document-eq-some db db' doc e in
    rw same (record {
      jobs_apart = c.jobs_apart;
      documents_apart =
          AllPairs-concat _ db.documents doc c.documents_apart
            (All-any_by-false (document_conflicts doc) db.documents apart);
      bounded = c.bounded;
    })
Write-IsConsistent {db} {db'} (assigns_job job_id f ok e) c = rw e (
    unfold update_job in
    record {
      jobs_apart =
          AllPairs-update_by (λ (j : ResearchJob). j.id) job_id f _ db.jobs
            (conflicts-left f ok.keeps) (conflicts-right f ok.keeps) c.jobs_apart;
      documents_apart = c.documents_apart;
      bounded =
          All-update_by (λ (j : ResearchJob). j.id) job_id f HasBounds db.jobs ok.bounds c.bounded;
    })
Write-IsConsistent {db} {db'} (assigns_document doc e) c = rw e (
    unfold save_document in
    record {
      jobs_apart = c.jobs_apart;
      documents_apart =
          AllPairs-update_by (λ (d : ResearchDocument). d.id) doc.id (write_columns doc) _
            db.documents (λ a b h. h) (λ a b h. h) c.documents_apart;
      bounded = c.bounded;
    })
Write-IsConsistent {db} {db'} (fails_running e) c = rw e (
    unfold fail_running in
    record {
      jobs_apart =
          AllPairs-map fail_if_running _ db.jobs
            (conflicts-left fail_if_running fail_if_running-KeepsIdentity)
            (conflicts-right fail_if_running fail_if_running-KeepsIdentity) c.jobs_apart;
      documents_apart = c.documents_apart;
      bounded = All-map fail_if_running HasBounds db.jobs fail_if_running-HasBounds c.bounded;
    })

pub Writes-IsConsistent : {db db' : Db} → Writes db db' → IsConsistent db → IsConsistent db'
Writes-IsConsistent here c = c
Writes-IsConsistent (next ws w) c = Write-IsConsistent w (Writes-IsConsistent ws c)

distinct_ids :
    (docs : List ResearchDocument)
    → AllPairs (λ a b. document_conflicts b a ≡ false) docs
    → HasDistinctKeys (λ (d : ResearchDocument). d.id) docs
distinct_ids [] h = tt
distinct_ids (d ∷ docs) h = (others docs h.0, distinct_ids docs h.1)
  where
    others :
        (ds : List ResearchDocument)
        → All (λ b. document_conflicts b d ≡ false) ds
        → All (λ (i : ℕ). i ≢ d.id) (keys (λ (e : ResearchDocument). e.id) ds)
    others [] h = tt
    others (e ∷ ds) h = (ground (arith, h.0), others ds h.1)

-- The documents of a job in a consistent database have distinct identifiers.
pub list_for_job-HasDistinctKeys :
    (db : Db) (job_id : Uuid)
    → IsConsistent db
    → HasDistinctKeys (λ (d : ResearchDocument). d.id) (list_for_job db job_id)
unfolding list_for_job
list_for_job-HasDistinctKeys db job_id c =
    distinct_ids (filter_by (is_document_of job_id) db.documents)
      (AllPairs-filter_by _ (is_document_of job_id) db.documents c.documents_apart)
