-- ===== src/Sync.antt =====
-- app/services/scheduled_sync_service.py and app/services/sync_service.py: which vendors are due, the
-- plan that groups them by CPE prefix, the shared fetch of a prefix, and what is done for each vendor.
-- Times are seconds. Celery and the lock of a prefix are not part of it.
pub mod Vendors
pub mod Prefixes
pub mod Due
pub mod Handled
pub mod Rounds
pub mod Runs
pub mod Owners
pub mod Ends
pub mod Completes
pub mod Manual
pub mod Watermarks
mod Tests
use third_party_vendor_risk.Base.{
  length, ℕ, suc, ◌+◌, ◌*◌, String, Bool, true, false, ◌&&◌, ◌||◌, not, Option, none, some, List,
  [], ◌∷◌, ◌++◌, ◌==◌, nat_eq, string_eq, leb, any, count_if, find_first, keep_if, update_if,
  is_some, map, if◌then◌else◌, Result, ok, err, validation,
}
use third_party_vendor_risk.Scoring.{Cve, Assessment}
use third_party_vendor_risk.Tenancy.{Db}
use third_party_vendor_risk.Ingest.{
  Vendor, Store, Job, IngestResult, Status, run_failed, status, cves_upserted, ingest,
}
use third_party_vendor_risk.Assessments.{cves_for_vendor, vendor_to_dict, assess_vendor}
use third_party_vendor_risk.Alerts.{RiskSnapshot, Alerts, evaluate_on_sync}
use third_party_vendor_risk.Integrations.{OrgIntegration, Vault, resolve_nvd_api_key, cadence_hours}

pub record CpeSyncState : Type 0 where
  pub cpe_prefix : String
  pub last_mod_watermark : Option ℕ
  pub last_full_backfill_at : Option ℕ
  pub subscriber_count : ℕ

pub record SyncRun : Type 0 where
  pub org_id : ℕ
  pub mode : String
  pub status : Status
  pub completed_at : ℕ
  pub vendors_attempted : ℕ
  pub vendors_succeeded : ℕ
  pub cves_upserted : ℕ
  pub errors : List String

-- The tables that a sync reads and writes.
pub record Tables : Type 0 where
  pub store : Store
  pub tenancy : Db
  pub integrations : List OrgIntegration
  pub states : List CpeSyncState
  pub snapshots : List RiskSnapshot
  pub runs : List SyncRun
  pub alerts : Alerts

pub record PrefixWork : Type 0 where
  pub prefix : String
  pub vendors_by_org : List (ℕ × List ℕ)
  pub backfill : Bool

pub record PrefixResult : Type 0 where
  pub prefix : String
  pub fetched : Bool
  pub vendors_synced : ℕ
  pub vendors_failed : ℕ

-- The query of `select_due_vendors`; the rows are in the order of their ids.
abbrev pub is_due : ℕ → Vendor → Bool
is_due now v = is_some v.cpe_prefix && (elim v.next_sync_at [ none ↦ true | some t ↦ leb t now ])

unfoldable pub select_due_vendors : ℕ → Tables → List Vendor
select_due_vendors now t = keep_if (is_due now) t.store.vendors

-- `vendors_by_org.setdefault(org_id, []).append(id)`
abbrev pub add_to_org : ℕ → ℕ → List (ℕ × List ℕ) → List (ℕ × List ℕ)
add_to_org org_id id [] = (org_id, id ∷ []) ∷ []
add_to_org org_id id (g ∷ groups) =
    if g.0 == org_id then (g.0, g.1 ++ (id ∷ [])) ∷ groups else g ∷ add_to_org org_id id groups

-- `by_prefix.setdefault(...)`, with the vendor put into its group.
abbrev pub add_to_plan : String → ℕ → ℕ → List PrefixWork → List PrefixWork
add_to_plan prefix org_id id [] =
    record { prefix = prefix; vendors_by_org = add_to_org org_id id []; backfill = false } ∷ []
add_to_plan prefix org_id id (w ∷ works) =
    if w.prefix == prefix
    then record w { vendors_by_org = add_to_org org_id id w.vendors_by_org } ∷ works
    else w ∷ add_to_plan prefix org_id id works

-- The loop of `plan_due_work`.
unfoldable pub group_vendors : List Vendor → List PrefixWork → List PrefixWork
group_vendors [] by_prefix = by_prefix
group_vendors (v ∷ vendors) by_prefix = elim v.cpe_prefix [
  | none ↦ group_vendors vendors by_prefix
  | some prefix ↦ group_vendors vendors (add_to_plan prefix v.org_id v.id by_prefix)
]

-- A prefix that was synced has a watermark.
abbrev pub is_synced : List CpeSyncState → String → Bool
is_synced states prefix = any (λ s. s.cpe_prefix == prefix && is_some s.last_mod_watermark) states

abbrev pub mark : List CpeSyncState → PrefixWork → PrefixWork
mark states w = record w { backfill = not (is_synced states w.prefix) }

unfoldable pub plan_due_work : ℕ → Tables → List PrefixWork
unfolding select_due_vendors group_vendors
plan_due_work now t = map (mark t.states) (group_vendors (select_due_vendors now t) [])

abbrev pub is_state_of : String → CpeSyncState → Bool
is_state_of prefix s = s.cpe_prefix == prefix

unfoldable pub get_or_create_state : String → List CpeSyncState → CpeSyncState × List CpeSyncState
get_or_create_state prefix states =
    let new : CpeSyncState = record {
      cpe_prefix = prefix;
      last_mod_watermark = none;
      last_full_backfill_at = none;
      subscriber_count = 0;
    } in
    elim (find_first (is_state_of prefix) states) [
      | none ↦ (new, new ∷ states)
      | some s ↦ (s, states)
    ]

-- The later of two snapshots; of two of the same time, the first row.
abbrev pub later : RiskSnapshot → Option RiskSnapshot → RiskSnapshot
later s none = s
later s (some u) = if leb u.captured_at s.captured_at then s else u

unfoldable pub latest_snapshot : List RiskSnapshot → ℕ → Option RiskSnapshot
latest_snapshot [] vendor_id = none
latest_snapshot (s ∷ snapshots) vendor_id =
    let rest = latest_snapshot snapshots vendor_id in
    if s.vendor_id == vendor_id then some (later s rest) else rest

-- `db.get(Vendor, id)` for each id, without those that are gone.
unfoldable pub get_vendors : List Vendor → List ℕ → List Vendor
get_vendors vendors [] = []
get_vendors vendors (id ∷ ids) =
    let rest = get_vendors vendors ids in
    elim (find_first (λ v. v.id == id) vendors) [ none ↦ rest | some v ↦ v ∷ rest ]
