-- ===== src/Sync/Manual.antt =====
-- `sync_vendor` of app/services/sync_service.py: the sync of one vendor on demand.
use third_party_vendor_risk.Base.{
  ℕ, ◌<◌, ◌≡◌, refl, String, true, false, not, Option, none, some, List, [], ◌∷◌, ◌==◌, nat_eq,
  string_eq, leb, if◌then◌else◌, Result, ok, err, validation,
}
use third_party_vendor_risk.Scoring.{Cve}
use third_party_vendor_risk.Integrations.{cadence_hours}
use third_party_vendor_risk.Ingest.{Vendor, Job, IngestResult, ingest}
use third_party_vendor_risk.Sync.{Tables, SyncRun}
use third_party_vendor_risk.Sync.Vendors.{Ports, finalize_vendors}
use third_party_vendor_risk.Sync.Prefixes.{new_store, run_row}
use third_party_vendor_risk.Sync.Due.{AllFollow, AllFollow-trans, NotDue, ingest-AllFollow}
use third_party_vendor_risk.Sync.Handled.{kept-IsPaced, finalize_vendors-Advances}
use third_party_vendor_risk.Sync.Owners.{is_there, ingest_from_ends}

abbrev manual_job : Vendor → String → Job
manual_job vendor prefix = record {
  name = vendor.name;
  prefix = prefix;
  match_method = some "virtual_match";
}

module _ (p : Ports) (fetch : String → String → Option (List Cve)) (now today : ℕ) where
  -- `sync_vendor`; `none` is an exception of the ingest.
  unfoldable pub sync_vendor : (org_id : ℕ) → Vendor → Tables → Result (Option (SyncRun × Tables))
  unfolding ingest finalize_vendors
  sync_vendor org_id vendor t = elim vendor.cpe_prefix [
    | none ↦ err validation
    | some prefix ↦
        if prefix == ""
        then err validation
        else ok (elim (ingest fetch org_id (manual_job vendor prefix ∷ []) (new_store t.store)) [
          | none ↦ none
          | some (stored, result) ↦
              let run = run_row org_id "live" now result in
              let after =
                finalize_vendors p now today (not (leb result.succeeded 0)) t.snapshots
                  (record t { store = stored }) org_id (vendor ∷ []) in
              some (run, record after { runs = run ∷ after.runs })
        ])
  ]

  -- A sync on demand of a vendor that the organization has, with a CPE prefix, ends without an exception,
  -- whether the fetch of a query gives records or ends in a VendorFetchError, as its caller turns a busy
  -- throttle into one, when every organization's cadence is an hour or more; the vendor is then not due,
  -- and no other has become due.
  pub sync_vendor_completes :
      (org_id : ℕ) (vendor : Vendor) (prefix : String) (t : Tables)
      → vendor.cpe_prefix ≡ some prefix
      → (prefix == "") ≡ false
      → is_there org_id vendor.name t.store.vendors ≡ true
      → ((o : ℕ) → 0 < cadence_hours p.default_hours t.tenancy t.integrations o)
      → (run : SyncRun) × (after : Tables) × (sync_vendor org_id vendor t ≡ ok (some (run, after)))
        × NotDue now vendor.id after.store.vendors
        × AllFollow now after.store.vendors t.store.vendors
  unfolding sync_vendor ingest
  sync_vendor_completes org_id vendor prefix t mapped named there paced =
      let start : IngestResult = record {
        attempted = 0;
        succeeded = 0;
        errors = [];
        cves_seen = [];
      } in
      let ((stored, result), done) =
        ingest_from_ends fetch org_id (manual_job vendor prefix ∷ []) (new_store t.store) start
          (there, tt) in
      let ingested : Tables = record t { store = stored } in
      let follows =
        ingest-AllFollow now fetch org_id (manual_job vendor prefix ∷ []) (new_store t.store) stored
          result done in
      let run = run_row org_id "live" now result in
      let finished : Tables =
        finalize_vendors p now today (not (leb result.succeeded 0)) t.snapshots ingested org_id
          (vendor ∷ []) in
      let (step, handled) =
        finalize_vendors-Advances p now today (not (leb result.succeeded 0)) t.snapshots ingested
          org_id (vendor ∷ []) (kept-IsPaced p now today t ingested refl refl paced) in
      (
        run,
        record finished { runs = run ∷ finished.runs },
        rw (sync_vendor, mapped, named, done) refl,
        handled.0,
        AllFollow-trans now finished.store.vendors stored.vendors t.store.vendors step.follows
            follows,
      )
