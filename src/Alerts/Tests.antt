-- ===== src/Alerts/Tests.antt =====
-- Runs of app/services/alerts_service.py on a vendor whose tier rises.
use third_party_vendor_risk.Base.{
  if◌then◌else◌, ℕ, ◌≡◌, refl, String, true, none, some, [], ◌∷◌, arith, string_eq, nat_eq, ◌==◌,
  All,
}
use third_party_vendor_risk.Scoring.{tier_index, medium, high, t3, e2, Tier}
use third_party_vendor_risk.Ingest.{Vendor, Store}
use third_party_vendor_risk.Alerts.{
  AlertType, RiskSnapshot, AlertRule, Alerts, emit, emit_some, tier_alert, kev_alert,
  evaluate_on_sync, evaluate_renewals, tier_change, new_kev, renewal_due, email, unread_count,
}
use third_party_vendor_risk.Alerts.Repeats.{evaluate_twice}
use third_party_vendor_risk.Alerts.Rules.{
  IsUniqueKeyed, Reach-IsUniqueKeyed, here, next, synced, scanned,
}
use third_party_vendor_risk.Alerts.OptIn.{evaluate-IsAskedFor, IsAskedFor}

abbrev show : ℕ → String
show n = if n == 1 then "1" else "7"

abbrev iso : ℕ → String
iso n = if n == 100 then "2026-04-10" else "2026-01-01"

abbrev same_text : String → String
same_text s = s

abbrev vendor : Vendor
vendor = record {
  id = 1;
  org_id = 7;
  name = "Acme";
  cpe_prefix = none;
  match_method = none;
  is_mapped = true;
  annual_contract_value = none;
  data_sensitivity = some "regulated";
  business_criticality = none;
  contract_renewal_date = some 100;
  last_synced_at = none;
  next_sync_at = none;
}

abbrev snapshot : Tier → ℕ → RiskSnapshot
snapshot tier kev_count = record {
  vendor_id = 1;
  tier = tier;
  threat_band = some t3;
  exposure_band = some e2;
  max_cvss = none;
  cve_count = kev_count;
  kev_count = kev_count;
  captured_at = 0;
}

abbrev rule_of : AlertType → AlertRule
rule_of type = record {
  id = 1;
  org_id = 7;
  type = type;
  channel = email;
  days = none;
  is_active = true;
}

abbrev db : Alerts
db = record {
  rules = rule_of tier_change ∷ rule_of new_kev ∷ rule_of renewal_due ∷ [];
  notifications = [];
  next_rule = 4;
  next_notification = 1;
}

abbrev store : Store
store = record {
  vendors = vendor ∷ [];
  vulnerabilities = [];
  links = [];
  seen = [];
  linked = [];
  pending = [];
}

abbrev synced_once : Alerts
synced_once =
    (evaluate_on_sync show iso 10 db 7 vendor (some (snapshot medium 0)) (snapshot high 1)).1

-- A tier that rises with a newly exploited CVE gives two alerts.
two_alerts : unread_count synced_once 7 ≡ 2
unfolding unread_count evaluate_on_sync emit_some emit tier_alert kev_alert tier_index
two_alerts = refl

evaluate_twice_example :
    (evaluate_on_sync show iso 10 synced_once 7 vendor (some (snapshot medium 0)) (snapshot high 1)
      ≡ ([], synced_once))
    × (evaluate_renewals show iso same_text 10 store
          (evaluate_renewals show iso same_text 10 store db 7).1
          7
        ≡ ([], (evaluate_renewals show iso same_text 10 store db 7).1))
evaluate_twice_example =
    evaluate_twice show iso same_text 10 7 db vendor (some (snapshot medium 0)) (snapshot high 1)
      store

db-IsUniqueKeyed : IsUniqueKeyed db
db-IsUniqueKeyed = record { keys = λ key. omega arith; ids = λ id. omega arith; fresh = tt }

Reach-IsUniqueKeyed_example :
    IsUniqueKeyed (evaluate_renewals show iso same_text 10 store synced_once 7).1
Reach-IsUniqueKeyed_example =
    Reach-IsUniqueKeyed show iso same_text db
      (evaluate_renewals show iso same_text 10 store synced_once 7).1
      (next (next here (synced db 10 7 vendor (some (snapshot medium 0)) (snapshot high 1)))
        (scanned synced_once 10 7 store))
      db-IsUniqueKeyed

evaluate-IsAskedFor_example :
    All
      (IsAskedFor db.rules 7)
      (evaluate_on_sync show iso 10 db 7 vendor (some (snapshot medium 0)) (snapshot high 1)).0
    × All (IsAskedFor db.rules 7) (evaluate_renewals show iso same_text 10 store db 7).0
evaluate-IsAskedFor_example =
    evaluate-IsAskedFor show iso same_text 10 7 db vendor (some (snapshot medium 0))
      (snapshot high 1) store
