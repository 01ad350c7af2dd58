-- ===== src/Worker/Callback.antt =====
-- `_fire_callback` of backend/app/engine/worker.py. `post` is the HTTP client: for a payload and the
-- number of the attempt it gives the status code, or `none` where it raises. Delays are counted in
-- whole units of the configured backoff.
use researchhub_engine.Prelude.{
  ℕ, zero, suc, ◌+◌, ◌*◌, Bool, true, false, Option, none, some, List, [], ◌∷◌, if◌then◌else◌, ltb,
  length,
}
use researchhub_engine.Schemas.{ResearchJobStatus}
use researchhub_engine.Models.{Uuid, ResearchJob}
use researchhub_engine.Repository.{Db, update_job, list_for_job}

pub record CallbackPayload : Type 0 where
  pub job_id : Uuid
  pub order_id : Uuid
  pub status : ResearchJobStatus
  pub total : ℕ
  pub uploaded : ℕ
  pub failed : ℕ

unfoldable pub payload : Db → ResearchJob → CallbackPayload
payload db job = record {
  job_id = job.id;
  order_id = job.order_id;
  status = job.status;
  total = length (list_for_job db job.id);
  uploaded = job.uploaded_documents;
  failed = job.failed_documents;
}

-- whether an attempt delivered: no exception, and a status code below 400
abbrev pub is_delivered : Option ℕ → Bool
is_delivered none = false
is_delivered (some status_code) = ltb status_code 400

-- What the attempts did: whether one delivered, how many were made, and the sleeps between them.
pub record Delivery : Type 0 where
  pub delivered : Bool
  pub posts : ℕ
  pub sleeps : List ℕ

module _ (post : ℕ → Option ℕ) (sleep : Bool) where
  abbrev pub after_failure : ℕ → Delivery → Delivery
  after_failure delay rest = record {
    delivered = rest.delivered;
    posts = suc rest.posts;
    sleeps = if sleep then delay ∷ rest.sleeps else rest.sleeps;
  }

  -- The loop, with the attempts that are left; after the last failure there is no sleep.
  unfoldable pub attempts : (left attempt delay : ℕ) → Delivery
  attempts zero attempt delay = record { delivered = false; posts = 0; sleeps = [] }
  attempts (suc zero) attempt delay = record {
    delivered = is_delivered (post attempt);
    posts = 1;
    sleeps = [];
  }
  attempts (suc (suc left)) attempt delay =
      let rest = after_failure delay (attempts (suc left) (attempt + 1) (delay * 2)) in
      if is_delivered (post attempt)
      then record { delivered = true; posts = 1; sleeps = [] }
      else rest

-- the whole function: the attempts, then the flag on the job's row
unfoldable pub fire_callback :
    (CallbackPayload → ℕ → Option ℕ) → Bool → (retry_attempts backoff : ℕ) → ResearchJob → Db → Db
unfolding payload attempts
fire_callback post sleep retry_attempts backoff job db =
    let d = attempts (post (payload db job)) sleep retry_attempts 1 backoff in
    if d.delivered then update_job job.id (λ r. record r { callback_delivered = true }) db else db
