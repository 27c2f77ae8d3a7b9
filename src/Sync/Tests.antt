-- ===== src/Sync/Tests.antt =====
-- A scheduled run over two organizations that share a CPE prefix.
use third_party_vendor_risk.Base.{
  List, ok, ℕ, ◌≡◌, ◌<◌, refl, String, true, false, none, some, [], ◌∷◌, arith, string_eq, nat_eq,
  ◌==◌, All, Option, if◌then◌else◌, inl, inr, Option-cases,
}
use third_party_vendor_risk.Scoring.{Cve}
use third_party_vendor_risk.Entitlements.{plan_for, find_plan}
use third_party_vendor_risk.Ingest.{
  Vendor, upsert_vendor, upsert_vulnerability, link_vendor_vulnerability, commit, store_records,
  fetch_all, ingest_vendor, ingest_from, ingest,
}
use third_party_vendor_risk.Integrations.{cadence_hours}
use third_party_vendor_risk.Sync.{
  Tables, SyncRun, PrefixWork, PrefixResult, is_due, group_vendors, plan_due_work,
  select_due_vendors, get_vendors, get_or_create_state,
}
use third_party_vendor_risk.Sync.Vendors.{
  Ports, resolve_api_key, finalize_vendor, finalize_vendors, schedule, snap,
}
use third_party_vendor_risk.Sync.Prefixes.{sync_group, sync_groups, sync_prefix, run_due_syncs}
use third_party_vendor_risk.Sync.Completes.{AreDistinct, run_due_syncs_completes}
use third_party_vendor_risk.Sync.Ends.{IsCaught}
use third_party_vendor_risk.Sync.Manual.{sync_vendor, sync_vendor_completes}
use third_party_vendor_risk.Sync.Due.{AllFollow, NotDue}
use third_party_vendor_risk.Sync.Owners.{is_there}
use third_party_vendor_risk.Sync.Watermarks.{watermark_of, sync_prefix-watermark}

abbrev vendor : (id org_id : ℕ) → Option ℕ → Vendor
vendor id org_id next_sync_at = record {
  id = id;
  org_id = org_id;
  name = "Acme";
  cpe_prefix = some "cpe:2.3:a:acme";
  match_method = none;
  is_mapped = false;
  annual_contract_value = none;
  data_sensitivity = none;
  business_criticality = none;
  contract_renewal_date = none;
  last_synced_at = none;
  next_sync_at = next_sync_at;
}

abbrev log4shell : Cve
log4shell = record { cve_id = "CVE-2021-44228"; cvss_score = some 100; is_kev = true }

abbrev tables : Tables
tables = record {
  store = record {
    vendors = vendor 1 7 none ∷ vendor 2 8 (some 50) ∷ vendor 3 9 (some 900) ∷ [];
    vulnerabilities = [];
    links = [];
    seen = [];
    linked = [];
    pending = [];
  };
  tenancy = record {
    organizations =
        record { id = 7; slug = "a"; plan = "team" }
        ∷ record { id = 8; slug = "b"; plan = "free" }
        ∷ [];
    users = [];
    identities = [];
    memberships = [];
    invitations = [];
    vendor_orgs = [];
  };
  integrations = [];
  states = [];
  snapshots = [];
  runs = [];
  alerts = record { rules = []; notifications = []; next_rule = 1; next_notification = 1 };
}

abbrev ports : Ports
ports = record {
  show = λ n. "1";
  iso = λ n. "2026-01-01";
  lower = λ s. s;
  vault = record { strip = λ s. s; encrypt = λ s. s; decrypt = λ s. s };
  default_hours = 24;
  system_key = none;
  fetch_prefix = λ prefix last_mod api_key. some (some (log4shell ∷ [], []));
}

-- Two vendors of different organizations are one piece of work.
planned :
    plan_due_work 100 tables
    ≡ record {
      prefix = "cpe:2.3:a:acme";
      vendors_by_org = (7, 1 ∷ []) ∷ (8, 2 ∷ []) ∷ [];
      backfill = true;
    }
      ∷ []
unfolding plan_due_work select_due_vendors group_vendors
planned = refl

paced : (org_id : ℕ) → 0 < cadence_hours 24 tables.tenancy [] org_id
unfolding cadence_hours plan_for find_plan
paced org_id = ground arith

abbrev work : PrefixWork
work = record {
  prefix = "cpe:2.3:a:acme";
  vendors_by_org = (7, 1 ∷ []) ∷ (8, 2 ∷ []) ∷ [];
  backfill = true;
}

caught : IsCaught ports
caught prefix last_mod api_key uncaught = absurd (cc)

distinct : AreDistinct tables.store.vendors
distinct = λ id. ground arith

run_due_syncs_completes_example :
    (after : Tables) × (run_due_syncs ports 100 0 tables ≡ some after)
    × All (λ v. is_due 100 v ≡ false) after.store.vendors
run_due_syncs_completes_example = run_due_syncs_completes ports 100 0 tables caught distinct paced

synced : (r : Tables × PrefixResult) × (sync_prefix ports 100 0 work tables ≡ some r)
unfolding sync_prefix get_or_create_state sync_groups sync_group get_vendors ingest ingest_from
    ingest_vendor fetch_all upsert_vendor store_records upsert_vulnerability
    link_vendor_vulnerability commit finalize_vendors finalize_vendor schedule snap
synced = elim (Option-cases (sync_prefix ports 100 0 work tables)) [
  | inl bad ↦ absurd (cc)
  | inr done ↦ done
]

sync_prefix-watermark_example :
    let after = synced.0.0 in
    (watermark_of "cpe:2.3:a:acme" after.states ≡ (if synced.0.1.fetched then some 100 else none))
    × ((other : String)
        → (other == "cpe:2.3:a:acme") ≡ false
        → watermark_of other after.states ≡ none)
    × (synced.0.1.fetched ≡ true
        → (records : List Cve × List Cve) × (ports.fetch_prefix "cpe:2.3:a:acme"
              (get_or_create_state "cpe:2.3:a:acme" []).0.last_mod_watermark
              (resolve_api_key ports [] work.vendors_by_org)
            ≡ some (some records)))
sync_prefix-watermark_example =
    sync_prefix-watermark ports 100 0 work tables synced.0.0 synced.0.1 synced.1

-- The first query of the vendor fails.
abbrev broken_fetch : String → String → Option (List Cve)
broken_fetch query_type prefix = if query_type == "recent" then none else some []

acme_there : is_there 7 "Acme" tables.store.vendors ≡ true
acme_there = refl

sync_vendor_completes_example :
    (run : SyncRun) × (after : Tables) × (sync_vendor ports broken_fetch 100 0 7
        (vendor 1 7 none)
        tables
      ≡ ok (some (run, after)))
    × NotDue 100 1 after.store.vendors
    × AllFollow 100 after.store.vendors tables.store.vendors
sync_vendor_completes_example =
    sync_vendor_completes ports broken_fetch 100 0 7 (vendor 1 7 none) "cpe:2.3:a:acme" tables refl
      refl acme_there paced
