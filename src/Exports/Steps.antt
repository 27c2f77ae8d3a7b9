-- ===== src/Exports/Steps.antt =====
-- Which transactions can change the export jobs of app/services/export_service.py, in any order
-- that requests, workers and the scheduled purge may take.
use third_party_vendor_risk.Base.{ℕ, String, Bool, ◌≡◌, Option, ◌==◌, nat_eq, count_if, ok}
use third_party_vendor_risk.Tenancy.{Organization}
use third_party_vendor_risk.Exports.{
  ExportFormat, ExportJob, Exports, Settings, Rendered, create_job, mark_failed, claim_job,
  finish_job, purge,
}

module _ (settings : Settings) where
  -- One transaction. A new row has a new key. A delivery that claimed a job finishes with whatever
  -- it rendered, at any later time.
  pub data Step : Exports → Exports → Type 0 where
    step_create :
        {s t : Exports}
        → (now id : ℕ) (org : Option Organization) (org_id : ℕ) (user_id : Option ℕ)
          (format : ExportFormat) (job : ExportJob)
        → count_if (λ (j : ExportJob). j.id == id) s.jobs ≡ 0
        → create_job settings now id s org org_id user_id format ≡ ok (job, t)
        → Step s t
    step_fail :
        {s : Exports}
        → (now job_id : ℕ) (message : String) → Step s (mark_failed now s job_id message)
    step_claim : {s : Exports} → (started job_id : ℕ) → Step s (claim_job started s job_id).1
    step_finish :
        {s : Exports}
        → (now : ℕ) (key name : String) (rendered : Rendered) (job : ExportJob)
        → Step s (finish_job settings now key name rendered s job)
    step_purge :
        {s : Exports}
        → (deletes : String → Bool) (now : ℕ) → Step s (purge deletes settings now s).1

  pub data Reach : Exports → Exports → Type 0 where
    reach_here : {s : Exports} → Reach s s
    reach_step : {s t u : Exports} → Step s t → Reach t u → Reach s u
