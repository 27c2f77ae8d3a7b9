-- ===== src/Ingest/Counts.antt =====
-- What a run of core/sync.py reports.
use third_party_vendor_risk.Scoring.{Cve}
use third_party_vendor_risk.Base.{
  ℕ, suc, ◌+◌, ◌≡◌, String, Option, some, List, [], ◌∷◌, length, count_if, is_some, arith, inl, inr,
  Option-cases, if◌then◌else◌,
}
use third_party_vendor_risk.Ingest.{
  Store, Job, IngestResult, fetch_all, ingest_vendor, ingest_from, ingest,
}

module _ (fetch : (query_type prefix : String) → Option (List Cve)) (org_id : ℕ) where
  -- The fetches that a run should count as successful.
  abbrev pub fetchable : List Job → ℕ
  fetchable jobs = count_if (λ job. is_some (fetch_all fetch org_id job)) jobs

  ingest_vendor_counts :
      (job : Job) (store after : Store) (result next : IngestResult)
      → ingest_vendor fetch org_id job (store, result) ≡ some (after, next)
      → (next.attempted ≡ suc result.attempted)
        × (next.succeeded
            ≡ result.succeeded + (if is_some (fetch_all fetch org_id job) then 1 else 0))
        × (next.succeeded + length next.errors ≡ suc (result.succeeded + length result.errors))
  unfolding ingest_vendor
  ingest_vendor_counts job store after result next h = ground arith

  ingest_from_counts :
      (jobs : List Job) (store after : Store) (result last : IngestResult)
      → ingest_from fetch org_id jobs (store, result) ≡ some (after, last)
      → (last.attempted ≡ result.attempted + length jobs)
        × (last.succeeded ≡ result.succeeded + fetchable jobs)
        × (last.succeeded + length last.errors
            ≡ result.succeeded + length result.errors + length jobs)
  unfolding ingest_from
  ingest_from_counts [] store after result last h = ground arith
  ingest_from_counts (job ∷ jobs) store after result last h =
      elim (Option-cases (ingest_vendor fetch org_id job (store, result))) [
        | inl broken ↦ absurd (ground arith)
        | inr ((mid, next), done) ↦
            let rest = ingest_from_counts jobs mid after next last (rw (ingest_from, done) at h) in
            omega (arith, ingest_vendor_counts job store mid result next done, rest)
      ]

-- One bad vendor never aborts a run: a run that ends has attempted every vendor, has succeeded with
-- exactly those whose queries all succeed, and has an error for each of the others.
pub ingest_counts :
    (fetch : (query_type prefix : String) → Option (List Cve)) (org_id : ℕ) (jobs : List Job)
    (store after : Store) (result : IngestResult)
    → ingest fetch org_id jobs store ≡ some (after, result)
    → (result.attempted ≡ length jobs)
      × (result.succeeded ≡ count_if (λ job. is_some (fetch_all fetch org_id job)) jobs)
      × (result.succeeded + length result.errors ≡ length jobs)
unfolding ingest
ingest_counts fetch org_id jobs store after result h =
    let c =
      ingest_from_counts fetch org_id jobs store after
        (record { attempted = 0; succeeded = 0; errors = []; cves_seen = [] }) result h in
    omega (arith, c)
