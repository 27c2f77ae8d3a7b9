-- ===== src/Exports/Claims.antt =====
-- Deliveries of `run_job` in app/services/export_service.py: which of them renders a job.
use third_party_vendor_risk.Base.{
  ℕ, ◌+◌, ◌<◌, ◌≡◌, refl, String, Bool, true, false, Option, none, some, ◌==◌, nat_eq, count_if,
  arith, ok, update_if, nat_beq_iff,
}
use third_party_vendor_risk.Tenancy.{Organization}
use third_party_vendor_risk.Exports.{
  ExportFormat, ExportJob, Exports, Settings, Rendered, stored, raised, create_job, mark_failed,
  claim_job, finish_job, purge, is_active_job, is_queued, is_queued_job, is_deleted, is_stuck,
  running, succeeded, failed, expired, timed_out, failure_message, content_type_of,
}
use third_party_vendor_risk.Base.{
  count_if-update_le, count_if-update_ge, count_if-update_none, count_if_mono,
}
use third_party_vendor_risk.Exports.Steps.{
  Step, Reach, step_create, step_fail, step_claim, step_finish, step_purge, reach_here, reach_step,
}

abbrev has_id : ℕ → ExportJob → Bool
has_id job_id j = j.id == job_id

-- The job is in the table, and is not queued.
record IsTaken (job_id : ℕ) (s : Exports) : Type 0 where
  there : 0 < count_if (has_id job_id) s.jobs
  left_queue : count_if (is_queued_job job_id) s.jobs ≡ 0

-- An update of some rows that keeps their keys and queues none keeps a job taken.
update-IsTaken :
    (job_id : ℕ) (s t : Exports) (q : ExportJob → Bool) (f : ExportJob → ExportJob)
    → t.jobs ≡ update_if q f s.jobs
    → ((j : ExportJob) → ((f j).id ≡ j.id) × (is_queued (f j).status ≡ false))
    → IsTaken job_id s
    → IsTaken job_id t
update-IsTaken job_id s t q f same keeps taken =
    let more =
      count_if-update_ge (has_id job_id) q f s.jobs (λ j hit found. ground (arith, keeps j)) in
    let fewer =
      count_if-update_le (is_queued_job job_id) q f s.jobs
        (λ j hit found. ground (arith, keeps j)) in
    record {
      there = rw same (omega (arith, more, taken.there));
      left_queue = rw same (omega (arith, fewer, taken.left_queue));
    }

create_job-IsTaken :
    (settings : Settings) (now id : ℕ) (s t : Exports) (org : Option Organization) (org_id : ℕ)
    (user_id : Option ℕ) (format : ExportFormat) (job : ExportJob) (job_id : ℕ)
    → create_job settings now id s org org_id user_id format ≡ ok (job, t)
    → count_if (has_id id) s.jobs ≡ 0
    → IsTaken job_id s
    → IsTaken job_id t
unfolding create_job
create_job-IsTaken settings now id s t org org_id user_id format job job_id done fresh taken =
    record {
      there = ground (arith, taken.there);
      left_queue = ground (arith, taken.left_queue, taken.there, nat_beq_iff id job_id);
    }

mark_failed-IsTaken :
    (now failing : ℕ) (message : String) (s : Exports) (job_id : ℕ)
    → IsTaken job_id s
    → IsTaken job_id (mark_failed now s failing message)
unfolding mark_failed
mark_failed-IsTaken now failing message s job_id =
    update-IsTaken job_id s (mark_failed now s failing message) (is_active_job failing)
      (λ j. record j { status = failed; error = some message; completed_at = some now }) refl
      (λ j. (refl, refl))

claim_job-IsTaken :
    (started claiming : ℕ) (s : Exports) (job_id : ℕ)
    → IsTaken job_id s
    → IsTaken job_id (claim_job started s claiming).1
unfolding claim_job
claim_job-IsTaken started claiming s job_id =
    update-IsTaken job_id s (claim_job started s claiming).1 (is_queued_job claiming)
      (λ j. record j { status = running; started_at = some started }) refl (λ j. (refl, refl))

finish_job-IsTaken :
    (settings : Settings) (now : ℕ) (key name : String) (rendered : Rendered) (job : ExportJob)
    (s : Exports) (job_id : ℕ)
    → IsTaken job_id s
    → IsTaken job_id (finish_job settings now key name rendered s job)
unfolding finish_job
finish_job-IsTaken settings now key name (raised missing) job s job_id =
    mark_failed-IsTaken now job.id (failure_message job.format missing) s job_id
finish_job-IsTaken settings now key name (stored size) job s job_id =
    update-IsTaken job_id s (finish_job settings now key name (stored size) s job)
      (λ j. j.id == job.id)
      (λ j. record j {
        status = succeeded;
        filename = some name;
        content_type = some (content_type_of job.format);
        object_key = some key;
        size_bytes = some size;
        completed_at = some now;
        expires_at = some (now + settings.retention);
      })
      refl (λ j. (refl, refl))

purge-IsTaken :
    (deletes : String → Bool) (settings : Settings) (now : ℕ) (s : Exports) (job_id : ℕ)
    → IsTaken job_id s
    → IsTaken job_id (purge deletes settings now s).1
unfolding purge
purge-IsTaken deletes settings now s job_id taken =
    let expire = λ (j : ExportJob).
      (let k : ExportJob = record j { status = expired; object_key = none } in k) in
    let kept : Exports = record s { jobs = update_if (is_deleted deletes now) expire s.jobs } in
    update-IsTaken job_id kept (purge deletes settings now s).1 (is_stuck deletes settings now)
      (λ j. record j { status = failed; error = some timed_out; completed_at = some now }) refl
      (λ j. (refl, refl))
      (update-IsTaken job_id s kept (is_deleted deletes now) expire refl (λ j. (refl, refl)) taken)

Step-IsTaken :
    (settings : Settings) (s t : Exports) (job_id : ℕ)
    → Step settings s t
    → IsTaken job_id s
    → IsTaken job_id t
Step-IsTaken settings s t job_id (step_create now id org org_id user_id format job fresh done)
      taken =
    create_job-IsTaken settings now id s t org org_id user_id format job job_id done fresh taken
Step-IsTaken settings s t job_id (step_fail now failing message) taken =
    mark_failed-IsTaken now failing message s job_id taken
Step-IsTaken settings s t job_id (step_claim started claiming) taken =
    claim_job-IsTaken started claiming s job_id taken
Step-IsTaken settings s t job_id (step_finish now key name rendered job) taken =
    finish_job-IsTaken settings now key name rendered job s job_id taken
Step-IsTaken settings s t job_id (step_purge deletes now) taken =
    purge-IsTaken deletes settings now s job_id taken

Reach-IsTaken :
    (settings : Settings) (s t : Exports) (job_id : ℕ)
    → Reach settings s t
    → IsTaken job_id s
    → IsTaken job_id t
Reach-IsTaken settings s t job_id reach_here taken = taken
Reach-IsTaken settings s t job_id (reach_step {t = u} step rest) taken =
    Reach-IsTaken settings u t job_id rest (Step-IsTaken settings s u job_id step taken)

claimed-IsTaken :
    (started : ℕ) (s : Exports) (job_id : ℕ)
    → (claim_job started s job_id).0 ≡ true
    → IsTaken job_id (claim_job started s job_id).1
unfolding claim_job
claimed-IsTaken started s job_id won =
    let claim = λ (j : ExportJob).
      (let k : ExportJob = record j { status = running; started_at = some started } in k) in
    let one : count_if (is_queued_job job_id) s.jobs ≡ 1 =
      ground (arith, nat_beq_iff (count_if (is_queued_job job_id) s.jobs) 1) in
    let found =
      count_if-update_ge (has_id job_id) (is_queued_job job_id) claim s.jobs (λ j hit same. same) in
    let queue =
      count_if_mono (is_queued_job job_id) (has_id job_id) s.jobs (λ j hit. ground arith) in
    record {
      there = omega (arith, one, found, queue);
      left_queue =
          count_if-update_none (is_queued_job job_id) (is_queued_job job_id) claim s.jobs
            (λ j hit. ground arith) (λ j miss. miss);
    }

-- Exactly one delivery renders a job: once a delivery has claimed it, every later delivery finds it
-- taken, whatever requests, workers and purges do in between.
pub claim_job_once :
    (settings : Settings) (started again : ℕ) (s t : Exports) (job_id : ℕ)
    → (claim_job started s job_id).0 ≡ true
    → Reach settings (claim_job started s job_id).1 t
    → (claim_job again t job_id).0 ≡ false
unfolding claim_job
claim_job_once settings started again s t job_id won later =
    let taken =
      Reach-IsTaken settings (claim_job started s job_id).1 t job_id later
        (claimed-IsTaken started s job_id won) in
    ground (arith, taken.left_queue)
