-- ===== src/Sync/Vendors.antt =====
-- What a sync does for one vendor: app/services/sync_service.py, and the end of a round of
-- `sync_prefix` in app/services/scheduled_sync_service.py.
use third_party_vendor_risk.Base.{
  ℕ, ◌+◌, ◌*◌, String, Bool, Option, none, some, List, [], ◌∷◌, ◌==◌, nat_eq, string_eq, find_first,
  update_if, if◌then◌else◌,
}
use third_party_vendor_risk.Scoring.{Cve}
use third_party_vendor_risk.Ingest.{Vendor, Store}
use third_party_vendor_risk.Assessments.{assess_vendor}
use third_party_vendor_risk.Alerts.{RiskSnapshot, evaluate_on_sync}
use third_party_vendor_risk.Integrations.{OrgIntegration, Vault, resolve_nvd_api_key, cadence_hours}
use third_party_vendor_risk.Sync.{Tables, latest_snapshot}

-- What is taken from elsewhere: the texts of numbers and dates, `str.lower`, the cipher, two
-- settings, and the answer of the NVD for a prefix, as the records of its two queries, where `none`
-- is an exception that is not caught, such as a RateLimitBusy, and `some none` a VendorFetchError.
pub record Ports : Type 0 where
  pub show : ℕ → String
  pub iso : ℕ → String
  pub lower : String → String
  pub vault : Vault
  pub default_hours : ℕ
  pub system_key : Option String
  pub fetch_prefix :
      (prefix : String) (last_mod : Option ℕ) (api_key : Option String)
      → Option (Option (List Cve × List Cve))

module _ (p : Ports) where
  -- `_resolve_api_key`
  unfoldable pub resolve_api_key : List OrgIntegration → List (ℕ × List ℕ) → Option String
  resolve_api_key integrations [] = p.system_key
  resolve_api_key integrations (g ∷ groups) =
      let rest = resolve_api_key integrations groups in
      elim (resolve_nvd_api_key p.vault integrations g.0) [
        | none ↦ rest
        | some key ↦ if key == "" then rest else some key
      ]

  unfoldable pub build_snapshot : (now : ℕ) → Store → Vendor → RiskSnapshot
  build_snapshot now store vendor =
      let a = assess_vendor p.lower p.iso store vendor in
      record {
        vendor_id = vendor.id;
        tier = a.tier;
        threat_band = a.threat;
        exposure_band = a.exposure;
        max_cvss = a.max_score;
        cve_count = a.cve_count;
        kev_count = a.kev_count;
        captured_at = now;
      }

  -- `vendor.last_synced_at = now` and `schedule_next_sync`
  abbrev pub rescheduled : (now hours : ℕ) → Vendor → Vendor
  rescheduled now hours v = record v {
    last_synced_at = some now;
    next_sync_at = some (now + hours * 3600);
  }

  unfoldable pub schedule : (now : ℕ) → Tables → (org_id id : ℕ) → Tables
  schedule now t org_id id =
      let hours = cadence_hours p.default_hours t.tenancy t.integrations org_id in
      record t {
        store = record t.store {
          vendors = update_if (λ v. v.id == id) (rescheduled now hours) t.store.vendors;
        };
      }

  -- A snapshot of the vendor as it is now, and the alerts against the one before the run.
  unfoldable pub snap :
      (now today : ℕ) → Tables → (org_id : ℕ) → Vendor → Option RiskSnapshot → Tables
  unfolding build_snapshot evaluate_on_sync
  snap now today t org_id vendor prev =
      let snapshot = build_snapshot now t.store vendor in
      record t {
        snapshots = snapshot ∷ t.snapshots;
        alerts = (evaluate_on_sync p.show p.iso today t.alerts org_id vendor prev snapshot).1;
      }

  -- The round for one vendor, after the group was ingested.
  unfoldable pub finalize_vendor :
      (now today : ℕ) (fetched : Bool) (before : List RiskSnapshot)
      → Tables
      → (org_id id : ℕ) → Tables
  unfolding schedule snap latest_snapshot
  finalize_vendor now today fetched before t org_id id =
      let after = schedule now t org_id id in
      if fetched
      then (elim (find_first (λ v. v.id == id) after.store.vendors) [
        | none ↦ after
        | some v ↦ snap now today after org_id v (latest_snapshot before id)
      ])
      else after

  unfoldable pub finalize_vendors :
      (now today : ℕ) (fetched : Bool) (before : List RiskSnapshot)
      → Tables
      → (org_id : ℕ) → List Vendor
      → Tables
  unfolding finalize_vendor
  finalize_vendors now today fetched before t org_id [] = t
  finalize_vendors now today fetched before t org_id (v ∷ vendors) =
      finalize_vendors now today fetched before
        (finalize_vendor now today fetched before t org_id v.id) org_id vendors
