-- ===== src/Alerts.antt =====
-- app/services/alerts_service.py over the tables of app/models/alert.py, with the risk snapshots of
-- app/models/vendor.py. A rule's `config` is kept by the number under "days". `show` is the text of
-- a number and `iso` that of a date, which is a number of days.
pub mod Feed
pub mod Rules
pub mod Repeats
pub mod OptIn
mod Tests
unfoldable pub use Feed.*
use Prim.Native.String.{◌++◌ as ◌^◌}
use third_party_vendor_risk.Base.{
  ℕ, suc, ◌+◌, ◌-◌, String, Bool, true, false, ◌&&◌, not, Option, none, some, List, [], ◌∷◌, ◌++◌,
  ◌==◌, nat_eq, string_eq, nat_beq, leb, ltb, any, count_if, find_first, keep_if, update_if,
  remove_if, is_some, if◌then◌else◌, Result, ok, err, ◌>>=◌, ◌>>◌, raise_if, or_raise, not_found,
}
use third_party_vendor_risk.Scoring.{
  Tier, ThreatBand, ExposureBand, Assessment, not_assessed, low, medium, high, critical, tier_index,
}
use third_party_vendor_risk.Ingest.{Vendor, Store}
use third_party_vendor_risk.Assessments.{assess_vendors}

abbrev pub type_beq : AlertType → AlertType → Bool
type_beq new_kev new_kev = true
type_beq tier_change tier_change = true
type_beq renewal_due renewal_due = true
type_beq _ _ = false

-- An active rule of the organization, of a type.
abbrev pub is_active_rule : ℕ → AlertType → AlertRule → Bool
is_active_rule org_id type r = r.org_id == org_id && r.is_active && type_beq r.type type

-- `type in _active_types(db, org_id)`
abbrev pub is_active_type : List AlertRule → ℕ → AlertType → Bool
is_active_type rules org_id type = any (is_active_rule org_id type) rules

abbrev pub tier_text : Tier → String
tier_text not_assessed = "Not Assessed"
tier_text low = "Low"
tier_text medium = "Medium"
tier_text high = "High"
tier_text critical = "Critical"

-- `tier in WATCHLIST_TIERS`
abbrev pub is_watched : Tier → Bool
is_watched high = true
is_watched critical = true
is_watched _ = false

module _ (show iso : ℕ → String) where
  -- `f"{org_id}:{vendor.id}:..."`
  abbrev pub key_of : ℕ → ℕ → String → String
  key_of org_id vendor_id rest = show org_id ^ ":" ^ show vendor_id ^ ":" ^ rest

  -- The alert on a tier that changed.
  unfoldable pub tier_alert :
      (today org_id : ℕ) → Vendor → Option RiskSnapshot → RiskSnapshot → Option Draft
  tier_alert today org_id vendor none new = none
  tier_alert today org_id vendor (some prev) new =
      let rose = ltb (tier_index prev.tier) (tier_index new.tier) in
      let verb = if rose then "rose to" else "changed to" in
      if nat_beq (tier_index prev.tier) (tier_index new.tier)
      then none
      else some (record {
        org_id = org_id;
        vendor_id = vendor.id;
        type = tier_change;
        dedup_key =
            key_of org_id vendor.id
              ("tier_change:" ^ tier_text prev.tier ^ "->" ^ tier_text new.tier ^ ":" ^ iso today);
        title = vendor.name ^ ": risk tier " ^ verb ^ " " ^ tier_text new.tier;
        body = "Previous tier: " ^ tier_text prev.tier ^ ".";
      })

  -- The alert on newly exploited CVEs.
  unfoldable pub kev_alert :
      (today org_id : ℕ) → Vendor → Option RiskSnapshot → RiskSnapshot → Option Draft
  kev_alert today org_id vendor prev new =
      let prev_kev : ℕ = elim prev [ none ↦ 0 | some p ↦ p.kev_count ] in
      if ltb prev_kev new.kev_count
      then some (record {
        org_id = org_id;
        vendor_id = vendor.id;
        type = new_kev;
        dedup_key = key_of org_id vendor.id ("new_kev:" ^ show new.kev_count ^ ":" ^ iso today);
        title =
            vendor.name ^ ": " ^ show (new.kev_count - prev_kev) ^ " new known-exploited CVE(s)";
        body = "Now " ^ show new.kev_count ^ " known-exploited vulnerabilities.";
      })
      else none

  -- The alerts of a sync that an active rule asks for.
  abbrev pub wanted_tier_alert :
      (today org_id : ℕ)
      → Vendor
      → Option RiskSnapshot
      → RiskSnapshot
      → List AlertRule
      → Option Draft
  wanted_tier_alert today org_id vendor prev new rules =
      if is_active_type rules org_id tier_change
      then tier_alert today org_id vendor prev new
      else none

  abbrev pub wanted_kev_alert :
      (today org_id : ℕ)
      → Vendor
      → Option RiskSnapshot
      → RiskSnapshot
      → List AlertRule
      → Option Draft
  wanted_kev_alert today org_id vendor prev new rules =
      if is_active_type rules org_id new_kev then kev_alert today org_id vendor prev new else none

  -- `evaluate_on_sync`; the rules are read once, before anything is emitted.
  unfoldable pub evaluate_on_sync :
      (today : ℕ)
      → Alerts
      → (org_id : ℕ) → Vendor
      → Option RiskSnapshot
      → RiskSnapshot
      → List Notification × Alerts
  unfolding emit_some tier_alert kev_alert
  evaluate_on_sync today db org_id vendor prev new =
      emit_some (wanted_kev_alert today org_id vendor prev new db.rules)
        (emit_some (wanted_tier_alert today org_id vendor prev new db.rules) ([], db))

  -- `tiers[vendor.id]`
  abbrev pub tier_in : ℕ → List (ℕ × Assessment) → Tier
  tier_in id [] = not_assessed
  tier_in id (a ∷ tiers) = if a.0 == id then a.1.tier else tier_in id tiers

  -- The vendor's contract is renewed between `reference` and `window` days later.
  abbrev pub is_in_window : (reference window org_id : ℕ) → Vendor → Bool
  is_in_window reference window org_id v = v.org_id == org_id && (elim v.contract_renewal_date [
    | none ↦ false
    | some d ↦ leb reference d && leb (d - reference) window
  ])

  unfoldable pub renewal_alert : (reference org_id : ℕ) → Tier → Vendor → Option Draft
  renewal_alert reference org_id tier v = elim v.contract_renewal_date [
    | none ↦ none
    | some d ↦
        if is_watched tier
        then some (record {
          org_id = org_id;
          vendor_id = v.id;
          type = renewal_due;
          dedup_key = key_of org_id v.id ("renewal_due:" ^ iso d ^ ":" ^ iso reference);
          title =
              v.name
              ^ ": "
              ^ tier_text tier
              ^ " vendor renews in "
              ^ show (d - reference)
              ^ " day(s)";
          body = "Contract renewal on " ^ iso d ^ ".";
        })
        else none
  ]

  -- The loop over the vendors in the window.
  unfoldable pub emit_renewals :
      (reference org_id : ℕ)
      → List (ℕ × Assessment)
      → List Vendor
      → List Notification × Alerts
      → List Notification × Alerts
  unfolding emit_some renewal_alert
  emit_renewals reference org_id tiers [] so_far = so_far
  emit_renewals reference org_id tiers (v ∷ vendors) so_far =
      emit_renewals reference org_id tiers vendors
        (emit_some (renewal_alert reference org_id (tier_in v.id tiers) v) so_far)

  -- `evaluate_renewals`
  unfoldable pub evaluate_renewals :
      (lower : String → String) (reference : ℕ)
      → Store
      → Alerts
      → (org_id : ℕ) → List Notification × Alerts
  unfolding emit_renewals assess_vendors
  evaluate_renewals lower reference store db org_id =
      elim (find_first (is_active_rule org_id renewal_due) db.rules) [
        | none ↦ ([], db)
        | some rule ↦
            let window : ℕ = elim rule.days [ none ↦ 90 | some days ↦ days ] in
            let in_window = keep_if (is_in_window reference window org_id) store.vendors in
            emit_renewals reference org_id (assess_vendors lower iso store in_window) in_window
              ([], db)
      ]
