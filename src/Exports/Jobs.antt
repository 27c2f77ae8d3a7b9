-- ===== src/Exports/Jobs.antt =====
-- The table of app/models/ops.py, and the queueing, the claim and the failure of a job in
-- app/services/export_service.py.
use third_party_vendor_risk.Base.{
  ℕ, String, Bool, true, false, ◌&&◌, Option, none, some, List, ◌∷◌, ◌==◌, nat_eq, string_eq,
  nat_beq, leb, count_if, update_if, Result, ok, ◌>>◌, raise_if, too_many_requests,
}
use third_party_vendor_risk.Tenancy.{Organization}
use third_party_vendor_risk.Entitlements.{require_pdf_reports}

pub data ExportFormat : Type 0 where
  csv pdf : ExportFormat

pub data ExportStatus : Type 0 where
  queued running succeeded failed expired : ExportStatus

pub record ExportJob : Type 0 where
  pub id : ℕ
  pub org_id : ℕ
  pub requested_by : Option ℕ
  pub format : ExportFormat
  pub status : ExportStatus
  pub filename : Option String
  pub content_type : Option String
  pub object_key : Option String
  pub size_bytes : Option ℕ
  pub error : Option String
  pub created_at : ℕ
  pub started_at : Option ℕ
  pub completed_at : Option ℕ
  pub expires_at : Option ℕ

pub record Exports : Type 0 where
  pub jobs : List ExportJob
  pub files : List String

-- The settings `export_*`, in seconds.
pub record Settings : Type 0 where
  pub max_active_per_org : ℕ
  pub retention : ℕ
  pub stale_after : ℕ

abbrev pub is_queued : ExportStatus → Bool
is_queued queued = true
is_queued running = false
is_queued succeeded = false
is_queued failed = false
is_queued expired = false

-- `_ACTIVE`
abbrev pub is_active : ExportStatus → Bool
is_active queued = true
is_active running = true
is_active succeeded = false
is_active failed = false
is_active expired = false

abbrev pub is_succeeded : ExportStatus → Bool
is_succeeded queued = false
is_succeeded running = false
is_succeeded succeeded = true
is_succeeded failed = false
is_succeeded expired = false

-- `CONTENT_TYPES`
abbrev pub content_type_of : ExportFormat → String
content_type_of csv = "text/csv; charset=utf-8"
content_type_of pdf = "application/pdf"

abbrev pub pdf_unavailable : String
pdf_unavailable = "PDF rendering is not available on this server."

abbrev pub render_failed : String
render_failed = "The export could not be generated. Try again in a moment."

abbrev pub timed_out : String
timed_out = "The export did not finish in time. Try again."

unfoldable pub is_past_retention : ExportJob → ℕ → Bool
is_past_retention job now = elim job.expires_at [ none ↦ false | some t ↦ leb t now ]

-- The queued and running jobs of an organization.
unfoldable pub active_count : Exports → ℕ → ℕ
active_count s org_id = count_if (λ j. j.org_id == org_id && is_active j.status) s.jobs

-- `org = db.get(Organization, org_id); if org is not None: require_pdf_reports(org)`
unfoldable pub check_format : Option Organization → ExportFormat → Result (Unit {0})
check_format org csv = ok tt
check_format none pdf = ok tt
check_format (some org) pdf = require_pdf_reports org

-- `id` is the key that the database gives to the new row.
unfoldable pub create_job :
    Settings
    → (now id : ℕ) → Exports
    → (org : Option Organization) (org_id : ℕ) (user_id : Option ℕ) (format : ExportFormat)
    → Result (ExportJob × Exports)
create_job settings now id s org org_id user_id format = do
  check_format org format
  raise_if (leb settings.max_active_per_org (active_count s org_id)) too_many_requests
  let job : ExportJob = record {
    id = id;
    org_id = org_id;
    requested_by = user_id;
    format = format;
    status = queued;
    filename = none;
    content_type = none;
    object_key = none;
    size_bytes = none;
    error = none;
    created_at = now;
    started_at = none;
    completed_at = none;
    expires_at = none;
  }
  ok (job, record s { jobs = job ∷ s.jobs })

-- `ExportJob.id == job_id, ExportJob.status.in_(_ACTIVE)`
abbrev pub is_active_job : ℕ → ExportJob → Bool
is_active_job job_id j = j.id == job_id && is_active j.status

unfoldable pub mark_failed : ℕ → Exports → (job_id : ℕ) (message : String) → Exports
mark_failed now s job_id message = record s {
  jobs =
      update_if (is_active_job job_id)
        (λ j. record j { status = failed; error = some message; completed_at = some now }) s.jobs;
}

-- `ExportJob.id == job_id, ExportJob.status == ExportStatus.queued`
abbrev pub is_queued_job : ℕ → ExportJob → Bool
is_queued_job job_id j = j.id == job_id && is_queued j.status

-- The first transaction of `run_job`: whether this delivery claims the job, one row being updated.
unfoldable pub claim_job : (started : ℕ) → Exports → (job_id : ℕ) → Bool × Exports
claim_job started s job_id = (
  nat_beq (count_if (is_queued_job job_id) s.jobs) 1,
  record s {
    jobs =
        update_if (is_queued_job job_id)
          (λ j. record j { status = running; started_at = some started }) s.jobs;
  },
)
