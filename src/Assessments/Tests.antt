-- ===== src/Assessments/Tests.antt =====
-- Runs of app/services/scoring_service.py on two vendors that share a CVE.
use third_party_vendor_risk.Base.{
  ℕ, ◌≡◌, ◌≤◌, refl, true, none, some, [], ◌∷◌, arith, string_eq, nat_eq, ◌==◌, count_if,
}
use third_party_vendor_risk.Scoring.{Cve}
use third_party_vendor_risk.Ingest.{Vendor, Store}
use third_party_vendor_risk.Assessments.{
  cves_for_vendors, fill_chunks, linked_rows, assess_vendor, assess_vendors,
}
use third_party_vendor_risk.Assessments.Batches.{assess_vendors-eq}

abbrev vendor : ℕ → Vendor
vendor id = record {
  id = id;
  org_id = 7;
  name = "Acme";
  cpe_prefix = none;
  match_method = none;
  is_mapped = true;
  annual_contract_value = none;
  data_sensitivity = some "High";
  business_criticality = none;
  contract_renewal_date = none;
  last_synced_at = none;
  next_sync_at = none;
}

abbrev log4shell : Cve
log4shell = record { cve_id = "CVE-2021-44228"; cvss_score = some 100; is_kev = true }

abbrev heartbleed : Cve
heartbleed = record { cve_id = "CVE-2014-0160"; cvss_score = some 75; is_kev = true }

abbrev store : Store
store = record {
  vendors = vendor 1 ∷ vendor 2 ∷ [];
  vulnerabilities = log4shell ∷ heartbleed ∷ [];
  links =
      (1, "CVE-2021-44228")
      ∷ (2, "CVE-2021-44228")
      ∷ (2, "CVE-2014-0160")
      ∷ (2, "CVE-0000-0000")
      ∷ [];
  seen = [];
  linked = [];
  pending = [];
}

-- A link to a CVE that is not stored gives no row.
cves_for_vendors_shared :
    cves_for_vendors store (1 ∷ 2 ∷ 3 ∷ [])
    ≡ (1, log4shell ∷ []) ∷ (2, log4shell ∷ heartbleed ∷ []) ∷ (3, []) ∷ []
unfolding cves_for_vendors fill_chunks linked_rows
cves_for_vendors_shared = refl

once : (id : ℕ) → count_if (λ (v : ℕ). v == id) (1 ∷ 2 ∷ []) ≤ 1
once id = ground (arith)

assess_vendors-eq_example :
    assess_vendors (λ s. s) (λ d. "2026-01-01") store (vendor 1 ∷ vendor 2 ∷ [])
    ≡ (1, assess_vendor (λ s. s) (λ d. "2026-01-01") store (vendor 1))
      ∷ (2, assess_vendor (λ s. s) (λ d. "2026-01-01") store (vendor 2))
      ∷ []
assess_vendors-eq_example =
    assess_vendors-eq (λ s. s) (λ d. "2026-01-01") store (vendor 1 ∷ vendor 2 ∷ []) once
