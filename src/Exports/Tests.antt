-- ===== src/Exports/Tests.antt =====
-- Concrete runs of the export jobs of app/services/export_service.py.
use third_party_vendor_risk.Base.{
  ◌+◌, ◌*◌, ◌≤◌, ◌≡◌, refl, String, Bool, true, false, none, some, [], ◌∷◌, arith, ok,
}
use third_party_vendor_risk.Exports.{
  csv, queued, succeeded, ExportJob, Exports, Settings, stored, active_count, claim_job, finish_job,
  run_job, signed_download_url, purge, timed_out, is_past_retention,
}
use third_party_vendor_risk.Exports.Steps.{Reach, step_purge, reach_here, reach_step}
use third_party_vendor_risk.Exports.Cap.{Reach-cap}
use third_party_vendor_risk.Exports.Claims.{claim_job_once}

abbrev settings : Settings
settings = record { max_active_per_org = 3; retention = 7 * 86400; stale_after = 30 * 60 }

abbrev requested : ExportJob
requested = record {
  id = 1;
  org_id = 7;
  requested_by = some 5;
  format = csv;
  status = queued;
  filename = none;
  content_type = none;
  object_key = none;
  size_bytes = none;
  error = none;
  created_at = 1000;
  started_at = none;
  completed_at = none;
  expires_at = none;
}

abbrev start : Exports
start = record { jobs = requested ∷ []; files = [] }

abbrev works : String → Bool
works key = true

abbrev ready : Exports
ready = run_job settings 1010 1020 "exports/7/ab/report.csv" "report.csv" (stored 512) start 1

run_test : signed_download_url 2000 ready 7 1 ≡ ok "exports/7/ab/report.csv"
unfolding run_job claim_job finish_job signed_download_url is_past_retention
run_test = refl

expired_test : (purge works settings 700000 ready).0 ≡ (1, 0)
unfolding run_job claim_job finish_job purge is_past_retention
expired_test = refl

-- A worker that outlives the time limit: the purge fails its job, then the worker completes it.
-- The job has succeeded, and still carries the message that it did not finish.
abbrev late : Exports
late =
    let claimed = (claim_job 1010 start 1).1 in
    finish_job settings 4000 "exports/7/ab/report.csv" "report.csv" (stored 512)
      (purge works settings 3000 claimed).1 requested

late_test :
    late.jobs
    ≡ record requested {
      status = succeeded;
      filename = some "report.csv";
      content_type = some "text/csv; charset=utf-8";
      object_key = some "exports/7/ab/report.csv";
      size_bytes = some 512;
      error = some timed_out;
      started_at = some 1010;
      completed_at = some 4000;
      expires_at = some (4000 + 7 * 86400);
    }
      ∷ []
unfolding claim_job finish_job purge is_past_retention
late_test = refl

-- A claim, a purge and the end of the run.
abbrev claimed : Exports
claimed = (claim_job 1010 start 1).1

abbrev after : Exports
after = (purge works settings 1500 claimed).1

later : Reach settings claimed after
later = reach_step (step_purge works 1500) reach_here

Reach-cap_example : active_count after 7 ≤ 3
unfolding active_count claim_job
Reach-cap_example = Reach-cap settings claimed after 7 later (omega arith)

first_claims : (claim_job 1010 start 1).0 ≡ true
unfolding claim_job
first_claims = refl

claim_job_once_example : (claim_job 1600 after 1).0 ≡ false
claim_job_once_example = claim_job_once settings 1010 1600 start after 1 first_claims later
