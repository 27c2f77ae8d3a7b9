-- ===== src/Exports/Cap.antt =====
-- The cap on an organization's active exports, which `create_job` of
-- app/services/export_service.py checks.
use third_party_vendor_risk.Base.{
  ℕ, ◌+◌, ◌≤◌, ◌≡◌, refl, String, Bool, true, ◌&&◌, Option, none, some, ◌==◌, nat_eq, arith, ok,
  update_if, nat_beq_iff,
}
use third_party_vendor_risk.Tenancy.{Organization}
use third_party_vendor_risk.Exports.{
  ExportFormat, ExportStatus, ExportJob, Exports, Settings, Rendered, stored, raised, active_count,
  create_job, mark_failed, claim_job, finish_job, purge, is_active, is_active_job, is_queued,
  is_queued_job, is_deleted, is_stuck, queued, running, succeeded, failed, expired, timed_out,
  failure_message, content_type_of,
}
use third_party_vendor_risk.Base.{count_if-update_le}
use third_party_vendor_risk.Exports.Steps.{
  Step, Reach, step_create, step_fail, step_claim, step_finish, step_purge, reach_here, reach_step,
}

create_job-cap :
    (settings : Settings) (now id : ℕ) (s t : Exports) (org : Option Organization) (org_id : ℕ)
    (user_id : Option ℕ) (format : ExportFormat) (job : ExportJob) (o : ℕ)
    → create_job settings now id s org org_id user_id format ≡ ok (job, t)
    → active_count s o ≤ settings.max_active_per_org
    → active_count t o ≤ settings.max_active_per_org
unfolding create_job active_count
create_job-cap settings now id s t org org_id user_id format job o done held =
    ground (arith, nat_beq_iff org_id o)

queued-active : (status : ExportStatus) → is_queued status ≡ true → is_active status ≡ true
queued-active queued h = refl
queued-active running h = cc
queued-active succeeded h = cc
queued-active failed h = cc
queued-active expired h = cc

-- The jobs of an organization that are active, as `active_count` counts them.
abbrev is_counted : ℕ → ExportJob → Bool
is_counted o j = j.org_id == o && is_active j.status

mark_failed-cap :
    (now job_id : ℕ) (message : String) (s : Exports) (o : ℕ)
    → active_count (mark_failed now s job_id message) o ≤ active_count s o
unfolding mark_failed active_count
mark_failed-cap now job_id message s o =
    count_if-update_le (is_counted o) (is_active_job job_id)
      (λ j. record j { status = failed; error = some message; completed_at = some now }) s.jobs
      (λ j hit counted. ground arith)

claim_job-cap :
    (started job_id : ℕ) (s : Exports) (o : ℕ)
    → active_count (claim_job started s job_id).1 o ≤ active_count s o
unfolding claim_job active_count
claim_job-cap started job_id s o =
    count_if-update_le (is_counted o) (is_queued_job job_id)
      (λ j. record j { status = running; started_at = some started }) s.jobs
      (λ j hit counted. ground (arith, queued-active j.status))

finish_job-cap :
    (settings : Settings) (now : ℕ) (key name : String) (rendered : Rendered) (job : ExportJob)
    (s : Exports) (o : ℕ)
    → active_count (finish_job settings now key name rendered s job) o ≤ active_count s o
unfolding finish_job active_count
finish_job-cap settings now key name (raised missing) job s o =
    mark_failed-cap now job.id (failure_message job.format missing) s o
finish_job-cap settings now key name (stored size) job s o =
    count_if-update_le (is_counted o) (λ j. j.id == job.id)
      (λ j. record j {
        status = succeeded;
        filename = some name;
        content_type = some (content_type_of job.format);
        object_key = some key;
        size_bytes = some size;
        completed_at = some now;
        expires_at = some (now + settings.retention);
      })
      s.jobs (λ j hit counted. ground arith)

purge-cap :
    (deletes : String → Bool) (settings : Settings) (now : ℕ) (s : Exports) (o : ℕ)
    → active_count (purge deletes settings now s).1 o ≤ active_count s o
unfolding purge active_count
purge-cap deletes settings now s o =
    let expire = λ (j : ExportJob).
      (let k : ExportJob = record j { status = expired; object_key = none } in k) in
    let first =
      count_if-update_le (is_counted o) (is_deleted deletes now) expire s.jobs
        (λ j hit counted. ground arith) in
    let second =
      count_if-update_le (is_counted o) (is_stuck deletes settings now)
        (λ j. record j { status = failed; error = some timed_out; completed_at = some now })
        (update_if (is_deleted deletes now) expire s.jobs) (λ j hit counted. ground arith) in
    omega (arith, first, second)

Step-cap :
    (settings : Settings) (s t : Exports) (o : ℕ)
    → Step settings s t
    → active_count s o ≤ settings.max_active_per_org
    → active_count t o ≤ settings.max_active_per_org
Step-cap settings s t o (step_create now id org org_id user_id format job fresh done) held =
    create_job-cap settings now id s t org org_id user_id format job o done held
Step-cap settings s t o (step_fail now job_id message) held =
    omega (arith, mark_failed-cap now job_id message s o)
Step-cap settings s t o (step_claim started job_id) held =
    omega (arith, claim_job-cap started job_id s o)
Step-cap settings s t o (step_finish now key name rendered job) held =
    omega (arith, finish_job-cap settings now key name rendered job s o)
Step-cap settings s t o (step_purge deletes now) held =
    omega (arith, purge-cap deletes settings now s o)

-- However requests, workers and purges follow each other, an organization that has at most the
-- allowed number of queued and running exports never gets more.
pub Reach-cap :
    (settings : Settings) (s t : Exports) (o : ℕ)
    → Reach settings s t
    → active_count s o ≤ settings.max_active_per_org
    → active_count t o ≤ settings.max_active_per_org
Reach-cap settings s t o reach_here held = held
Reach-cap settings s t o (reach_step {t = u} step rest) held =
    Reach-cap settings u t o rest (Step-cap settings s u o step held)
