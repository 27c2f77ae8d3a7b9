-- ===== src/Exports.antt =====
-- The export jobs of app/services/export_service.py, and their table in app/models/ops.py. The
-- file of a job is a key in `files`, the bucket of the object storage. `now` is a time in seconds.
-- Of rendering and storage, which other code does, only the outcome matters here.
pub mod Jobs
pub mod Steps
pub mod Cap
pub mod Claims
pub mod Downloads
pub mod Purges
mod Tests
unfoldable pub use Jobs.*
use third_party_vendor_risk.Base.{
  ℕ, ◌+◌, ◌*◌, String, Bool, true, false, ◌&&◌, ◌||◌, not, Option, none, some, List, [], ◌∷◌, ◌==◌,
  nat_eq, string_eq, nat_beq, ltb, leb, count_if, find_first, update_if, remove_if, if◌then◌else◌,
  any, Result, ok, err, ◌>>=◌, ◌>>◌, raise_if, or_raise, conflict, not_found, gone,
  too_many_requests,
}
use third_party_vendor_risk.Tenancy.{Organization}
use third_party_vendor_risk.Entitlements.{require_pdf_reports}

-- What rendering and storing came to: a file of some size, or an exception, of a missing library
-- (`ImportError`, `OSError`) or another.
pub data Rendered : Type 0 where
  stored : (size : ℕ) → Rendered
  raised : (missing_library : Bool) → Rendered

abbrev pub failure_message : ExportFormat → Bool → String
failure_message csv missing_library = render_failed
failure_message pdf missing_library = if missing_library then pdf_unavailable else render_failed

-- The rest of `run_job`, for the delivery that claimed the job. `key` and `name` are the file's
-- key and name. The row is written by its primary key, whatever its status is by then.
unfoldable pub finish_job :
    Settings → (now : ℕ) (key name : String) → Rendered → Exports → ExportJob → Exports
finish_job settings now key name (raised missing_library) s job =
    mark_failed now s job.id (failure_message job.format missing_library)
finish_job settings now key name (stored size) s job = record {
  jobs =
      update_if (λ j. j.id == job.id)
        (λ j. record j {
          status = succeeded;
          filename = some name;
          content_type = some (content_type_of job.format);
          object_key = some key;
          size_bytes = some size;
          completed_at = some now;
          expires_at = some (now + settings.retention);
        })
        s.jobs;
  files = key ∷ s.files;
}

-- A delivery of `run_job` that nothing interrupts.
unfoldable pub run_job :
    Settings
    → (started finished : ℕ) (key name : String) → Rendered
    → Exports
    → (job_id : ℕ) → Exports
unfolding claim_job
run_job settings started finished key name rendered s job_id =
    let (claimed, t) = claim_job started s job_id in
    elim (find_first (λ j. j.id == job_id) t.jobs) [
      | none ↦ t
      | some job ↦ if claimed then finish_job settings finished key name rendered t job else t
    ]

-- The status that `_view` reports.
unfoldable pub view_status : ExportJob → ℕ → ExportStatus
view_status job now =
    if is_succeeded job.status && is_past_retention job now then expired else job.status

abbrev pub is_job_of : (org_id job_id : ℕ) → ExportJob → Bool
is_job_of org_id job_id j = j.id == job_id && j.org_id == org_id

-- `get_job`: the job, and its status as shown.
unfoldable pub get_job : ℕ → Exports → (org_id job_id : ℕ) → Result (ExportJob × ExportStatus)
get_job now s org_id job_id = do
  job ← or_raise (find_first (is_job_of org_id job_id) s.jobs) not_found
  ok (job, view_status job now)

abbrev pub is_gone : ExportJob → ℕ → Bool
is_gone job now = elim job.status [
  | queued ↦ false
  | running ↦ false
  | succeeded ↦ is_past_retention job now
  | failed ↦ false
  | expired ↦ true
]

abbrev pub is_failed : ExportStatus → Bool
is_failed queued = false
is_failed running = false
is_failed succeeded = false
is_failed failed = true
is_failed expired = false

-- `job.object_key`, if it is there and not empty.
abbrev pub key_of : ExportJob → Option String
key_of job = elim job.object_key [ none ↦ none | some key ↦ if key == "" then none else some key ]

-- The key that `storage.signed_url` signs a link for.
unfoldable pub signed_download_url : ℕ → Exports → (org_id job_id : ℕ) → Result String
signed_download_url now s org_id job_id = do
  job ← or_raise (find_first (is_job_of org_id job_id) s.jobs) not_found
  raise_if (is_gone job now) gone
  raise_if (is_failed job.status) conflict
  raise_if (not (is_succeeded job.status)) conflict
  or_raise (key_of job) conflict

-- `deletes key` tells whether `storage.delete(key)` returns.
module _ (deletes : String → Bool) where
  -- `ExportJob.status == ExportStatus.succeeded, ExportJob.expires_at <= now`
  abbrev pub is_due : ℕ → ExportJob → Bool
  is_due now j = is_succeeded j.status && is_past_retention j now

  abbrev pub is_deleted : ℕ → ExportJob → Bool
  is_deleted now j = is_due now j && elim (key_of j) [ none ↦ true | some key ↦ deletes key ]

  -- `ExportJob.status.in_(_ACTIVE), ExportJob.created_at < cutoff`
  abbrev pub is_stuck : Settings → ℕ → ExportJob → Bool
  is_stuck settings now j = is_active j.status && ltb (j.created_at + settings.stale_after) now

  -- The counts of `expired` and `timed_out`, and the state after it.
  unfoldable pub purge : Settings → ℕ → Exports → (ℕ × ℕ) × Exports
  purge settings now s =
      let kept =
        update_if (is_deleted now) (λ j. record j { status = expired; object_key = none }) s.jobs in
      (
        (count_if (is_deleted now) s.jobs, count_if (is_stuck settings now) kept),
        record {
          jobs =
              update_if (is_stuck settings now)
                (λ j. record j { status = failed; error = some timed_out; completed_at = some now })
                kept;
          files =
              remove_if
                (λ key.
                  any
                    (λ j. is_deleted now j && elim (key_of j) [ none ↦ false | some k ↦ k == key ])
                    s.jobs)
                s.files;
        },
      )
