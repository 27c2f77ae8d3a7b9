-- ===== src/Exports/Downloads.antt =====
-- Downloads of app/services/export_service.py: which jobs have a link.
use third_party_vendor_risk.Base.{
  ◌↔◌, ℕ, ◌≡◌, refl, String, not, some, nat_eq, string_eq, arith, find_first, find_first_sound, inl,
  inr, Option-cases, Result, ok, ◌>>◌, raise_if, or_raise, conflict, gone, nat_beq_iff,
}
use third_party_vendor_risk.Exports.{
  ExportJob, Exports, view_status, get_job, signed_download_url, is_job_of, is_gone, is_failed,
  key_of, is_succeeded, succeeded,
}

-- The job's own checks, as `signed_download_url` makes them.
job_url : ℕ → ExportJob → Result String
job_url now job = do
  raise_if (is_gone job now) gone
  raise_if (is_failed job.status) conflict
  raise_if (not (is_succeeded job.status)) conflict
  or_raise (key_of job) conflict

job_url_iff :
    (now : ℕ) (job : ExportJob) (key : String)
    → (job_url now job ≡ ok key) ↔ (view_status job now ≡ succeeded) × (key_of job ≡ some key)
unfolding job_url view_status
job_url_iff now job key = ground arith

-- The job that `get_job` reports is the one that it found.
ready_url :
    (now : ℕ) (s : Exports) (org_id job_id : ℕ) (key : String) (job : ExportJob)
    → get_job now s org_id job_id ≡ ok (job, view_status job now)
    → (j : ExportJob) × (get_job now s org_id job_id ≡ ok (j, succeeded))
      × (j.org_id ≡ org_id)
      × (key_of j ≡ some key)
    → (view_status job now ≡ succeeded) × (key_of job ≡ some key)
ready_url now s org_id job_id key job shown (j, e, mine, url) = ground arith

-- A link is given exactly for the jobs of the organization that are shown as ready and have a file:
-- `get_job` reports the job as succeeded, and the link is for the key of its file. So no link is
-- given for another organization's job, nor past the retention time.
pub signed_download_url_iff :
    (now : ℕ) (s : Exports) (org_id job_id : ℕ) (key : String)
    → (signed_download_url now s org_id job_id ≡ ok key) ↔ (
        (job : ExportJob) × (get_job now s org_id job_id ≡ ok (job, succeeded))
        × (job.org_id ≡ org_id)
        × (key_of job ≡ some key))
unfolding signed_download_url get_job job_url
signed_download_url_iff now s org_id job_id key =
    elim (Option-cases (find_first (is_job_of org_id job_id) s.jobs)) [
      | inl missing ↦ ground arith
      | inr (job, found) ↦
          let here : job.org_id ≡ org_id = ground (
            arith,
            find_first_sound (is_job_of org_id job_id) s.jobs job found,
            nat_beq_iff job.org_id org_id,
          ) in
          let same : signed_download_url now s org_id job_id ≡ job_url now job = rw found refl in
          let shown : get_job now s org_id job_id ≡ ok (job, view_status job now) = rw found refl in
          rw same (
            λ url.
                (let both = (job_url_iff now job key).0 url in
                  (job, rw both.0 at shown, here, both.1)),
            λ ready.
                (job_url_iff now job key).1 (ready_url now s org_id job_id key job shown ready),
          )
    ]
