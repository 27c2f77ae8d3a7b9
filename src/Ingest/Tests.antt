-- ===== src/Ingest/Tests.antt =====
-- A concrete run of core/sync.py.
use third_party_vendor_risk.Scoring.{Cve}
use third_party_vendor_risk.Base.{
  ℕ, Bool, ◌≡◌, refl, String, true, false, Option, none, some, List, [], ◌∷◌, ◌==◌, string_eq,
  if◌then◌else◌,
}
use third_party_vendor_risk.Ingest.{
  Vendor, Store, Job, IngestResult, run_partial, status, vendor_is_mapped, record_unassessed,
  upsert_vendor, upsert_vulnerability, link_vendor_vulnerability, see_cves, store_records, commit,
  fetch_all, ingest_vendor, ingest_from, ingest,
}
use third_party_vendor_risk.Ingest.Mapped.{ingest-mapped}

-- A vendor that was never synced.
abbrev vendor : (id : ℕ) (name : String) (is_mapped : Bool) (match_method : Option String) → Vendor
vendor id name is_mapped match_method = record {
  id = id;
  org_id = 7;
  name = name;
  cpe_prefix = none;
  match_method = match_method;
  is_mapped = is_mapped;
  annual_contract_value = none;
  data_sensitivity = none;
  business_criticality = none;
  contract_renewal_date = none;
  last_synced_at = none;
  next_sync_at = none;
}

abbrev before : Store
before = record {
  vendors = vendor 1 "Acme" true (some "virtual_match") ∷ vendor 2 "Globex" false none ∷ [];
  vulnerabilities = [];
  links = [];
  seen = [];
  linked = [];
  pending = [];
}

abbrev jobs : List Job
jobs =
    record { name = "Acme"; prefix = "cpe:2.3:a:acme"; match_method = some "virtual_match" }
    ∷ record { name = "Globex"; prefix = "cpe:2.3:a:globex"; match_method = some "virtual_match" }
    ∷ []

abbrev log4shell : Cve
log4shell = record { cve_id = "CVE-2021-44228"; cvss_score = some 100; is_kev = true }

-- Every query for Acme fails; the other vendor's queries share a CVE.
abbrev nvd : (query_type prefix : String) → Option (List Cve)
nvd query_type prefix = if prefix == "cpe:2.3:a:acme" then none else some (log4shell ∷ [])

abbrev after : Store
after = record {
  vendors =
      vendor 1 "Acme" true (some "virtual_match")
      ∷ vendor 2 "Globex" true (some "virtual_match")
      ∷ [];
  vulnerabilities = log4shell ∷ [];
  links = (2, "CVE-2021-44228") ∷ [];
  seen = "CVE-2021-44228" ∷ [];
  linked = (2, "CVE-2021-44228") ∷ [];
  pending = [];
}

abbrev outcome : IngestResult
outcome = record {
  attempted = 2;
  succeeded = 1;
  errors = "Acme" ∷ [];
  cves_seen = "CVE-2021-44228" ∷ [];
}

ingest_test : ingest nvd 7 jobs before ≡ some (after, outcome)
unfolding ingest ingest_from ingest_vendor fetch_all record_unassessed vendor_is_mapped
    upsert_vendor store_records upsert_vulnerability link_vendor_vulnerability commit see_cves
ingest_test = refl

status_test : status outcome ≡ run_partial
unfolding status
status_test = refl

was_mapped : vendor_is_mapped 7 "Acme" before ≡ true
unfolding vendor_is_mapped
was_mapped = refl

ingest-mapped_example : vendor_is_mapped 7 "Acme" after ≡ true
ingest-mapped_example = ingest-mapped nvd 7 "Acme" jobs before after outcome ingest_test was_mapped
