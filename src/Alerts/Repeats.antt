-- ===== src/Alerts/Repeats.antt =====
-- Repeated evaluations in app/services/alerts_service.py, and the keys of alerts that were given.
use third_party_vendor_risk.Base.{
  ℕ, ◌≡◌, refl, sym, ◌∙◌, ap, String, Bool, true, Option, none, some, List, [], ◌∷◌, nat_eq,
  string_eq, str_eq_refl, any, find_first, arith, All, inl, inr, Option-cases, keep_if,
}
use third_party_vendor_risk.Scoring.{Assessment}
use third_party_vendor_risk.Ingest.{Vendor, Store}
use third_party_vendor_risk.Assessments.{assess_vendors}
use third_party_vendor_risk.Alerts.{
  RiskSnapshot, AlertRule, Alerts, Draft, Notification, has_key, emit, emit_some, is_active_rule,
  wanted_tier_alert, wanted_kev_alert, renewal_alert, tier_in, is_in_window, emit_renewals,
  evaluate_on_sync, evaluate_renewals, renewal_due,
}

-- An alert with this key was given.
abbrev pub was_given : String → Alerts → Bool
was_given key db = any (has_key key) db.notifications

-- The draft, if there is one, was given.
abbrev pub WasGiven : Option Draft → Alerts → Type 0
WasGiven none db = Unit
WasGiven (some d) db = was_given d.dedup_key db ≡ true

pub emit_some-WasGiven :
    (o : Option Draft) (s : List Notification × Alerts) → WasGiven o (emit_some o s).1
unfolding emit_some emit
emit_some-WasGiven none s = tt
emit_some-WasGiven (some d) (l, db) = ground (arith, str_eq_refl d.dedup_key)

pub emit_some-keeps :
    (o : Option Draft) (s : List Notification × Alerts) (key : String)
    → was_given key s.1 ≡ true
    → was_given key (emit_some o s).1 ≡ true
unfolding emit_some emit
emit_some-keeps none s key h = h
emit_some-keeps (some d) (l, db) key h = ground arith

WasGiven-keeps :
    (o p : Option Draft) (s : List Notification × Alerts)
    → WasGiven o s.1
    → WasGiven o (emit_some p s).1
WasGiven-keeps none p s h = tt
WasGiven-keeps (some d) p s h = emit_some-keeps p s d.dedup_key h

emit_some-again :
    (o : Option Draft) (l : List Notification) (db : Alerts)
    → WasGiven o db
    → emit_some o (l, db) ≡ (l, db)
unfolding emit_some emit
emit_some-again none l db h = refl
emit_some-again (some d) l db h = rw h refl

pub emit_some-rules :
    (o : Option Draft) (s : List Notification × Alerts) → (emit_some o s).1.rules ≡ s.1.rules
unfolding emit_some emit
emit_some-rules none s = refl
emit_some-rules (some d) (l, db) = ground arith

-- Two alerts, wanted again.
emit_two-again :
    (d e d2 e2 : Option Draft) (db : Alerts)
    → d2 ≡ d
    → e2 ≡ e
    → emit_some e2 (emit_some d2 ([], (emit_some e (emit_some d ([], db))).1))
      ≡ ([], (emit_some e (emit_some d ([], db))).1)
emit_two-again d e d2 e2 db same_d same_e =
    let first = emit_some d ([], db) in
    let after = emit_some e first in
    rw (same_d, same_e)
      (ap (λ s. emit_some e s)
          (emit_some-again d [] after.1 (WasGiven-keeps d e first (emit_some-WasGiven d ([], db))))
        ∙ emit_some-again e [] after.1 (emit_some-WasGiven e first))

module _ (show iso : ℕ → String) where
  on_sync-rules :
      (today org_id : ℕ) (db : Alerts) (vendor : Vendor) (prev : Option RiskSnapshot)
      (new : RiskSnapshot)
      → (evaluate_on_sync show iso today db org_id vendor prev new).1.rules ≡ db.rules
  unfolding evaluate_on_sync
  on_sync-rules today org_id db vendor prev new =
      let on_tier = wanted_tier_alert show iso today org_id vendor prev new db.rules in
      emit_some-rules (wanted_kev_alert show iso today org_id vendor prev new db.rules)
        (emit_some on_tier ([], db))
      ∙ emit_some-rules on_tier ([], db)

  on_sync-again :
      (today org_id : ℕ) (db : Alerts) (vendor : Vendor) (prev : Option RiskSnapshot)
      (new : RiskSnapshot)
      → evaluate_on_sync show iso today
          (evaluate_on_sync show iso today db org_id vendor prev new).1
          org_id
          vendor
          prev
          new
        ≡ ([], (evaluate_on_sync show iso today db org_id vendor prev new).1)
  unfolding evaluate_on_sync
  on_sync-again today org_id db vendor prev new =
      let on_tier = wanted_tier_alert show iso today org_id vendor prev new in
      let on_kev = wanted_kev_alert show iso today org_id vendor prev new in
      let same = on_sync-rules today org_id db vendor prev new in
      emit_two-again (on_tier db.rules) (on_kev db.rules)
        (on_tier (evaluate_on_sync show iso today db org_id vendor prev new).1.rules)
        (on_kev (evaluate_on_sync show iso today db org_id vendor prev new).1.rules) db
        (ap on_tier same) (ap on_kev same)

  module _ (reference org_id : ℕ) (tiers : List (ℕ × Assessment)) where
    abbrev alert_for : Vendor → Option Draft
    alert_for v = renewal_alert show iso reference org_id (tier_in show iso v.id tiers) v

    abbrev run : List Vendor → List Notification × Alerts → List Notification × Alerts
    run vendors s = emit_renewals show iso reference org_id tiers vendors s

    renewals-keep :
        (vendors : List Vendor) (o : Option Draft) (s : List Notification × Alerts)
        → WasGiven o s.1
        → WasGiven o (run vendors s).1
    unfolding emit_renewals
    renewals-keep [] o s h = h
    renewals-keep (v ∷ vendors) o s h =
        renewals-keep vendors o (emit_some (alert_for v) s) (WasGiven-keeps o (alert_for v) s h)

    renewals-WasGiven :
        (vendors : List Vendor) (s : List Notification × Alerts)
        → All (λ v. WasGiven (alert_for v) (run vendors s).1) vendors
    unfolding emit_renewals
    renewals-WasGiven [] s = tt
    renewals-WasGiven (v ∷ vendors) s =
        let next = emit_some (alert_for v) s in
        (
          renewals-keep vendors (alert_for v) next (emit_some-WasGiven (alert_for v) s),
          renewals-WasGiven vendors next,
        )

    renewals-given :
        (vendors : List Vendor) (l : List Notification) (db : Alerts)
        → All (λ v. WasGiven (alert_for v) db) vendors
        → run vendors (l, db) ≡ (l, db)
    unfolding emit_renewals
    renewals-given [] l db given = refl
    renewals-given (v ∷ vendors) l db given =
        ap (run vendors) (emit_some-again (alert_for v) l db given.0)
        ∙ renewals-given vendors l db given.1

    pub renewals-rules :
        (vendors : List Vendor) (s : List Notification × Alerts)
        → (run vendors s).1.rules ≡ s.1.rules
    unfolding emit_renewals
    renewals-rules [] s = refl
    renewals-rules (v ∷ vendors) s =
        renewals-rules vendors (emit_some (alert_for v) s) ∙ emit_some-rules (alert_for v) s

  abbrev window_of : AlertRule → ℕ
  window_of rule = elim rule.days [ none ↦ 90 | some days ↦ days ]

  module _ (lower : String → String) (reference org_id : ℕ) (store : Store) where
    abbrev evaluate : Alerts → List Notification × Alerts
    evaluate db = evaluate_renewals show iso lower reference store db org_id

    -- The vendors in the window of a rule, and the loop over them.
    abbrev run_by : AlertRule → Alerts → List Notification × Alerts
    run_by rule db =
        let vendors =
          keep_if (is_in_window show iso reference (window_of rule) org_id) store.vendors in
        run reference org_id (assess_vendors lower iso store vendors) vendors ([], db)

    renewals-off :
        (db : Alerts)
        → find_first (is_active_rule org_id renewal_due) db.rules ≡ none
        → evaluate db ≡ ([], db)
    unfolding evaluate_renewals
    renewals-off db absent = rw (evaluate_renewals, absent) refl

    renewals-on :
        (db : Alerts) (rule : AlertRule)
        → find_first (is_active_rule org_id renewal_due) db.rules ≡ some rule
        → evaluate db ≡ run_by rule db
    unfolding evaluate_renewals
    renewals-on db rule found = rw (evaluate_renewals, found) refl

    run_by-again :
        (db : Alerts) (rule : AlertRule) → run_by rule (run_by rule db).1 ≡ ([], (run_by rule db).1)
    run_by-again db rule =
        let vendors =
          keep_if (is_in_window show iso reference (window_of rule) org_id) store.vendors in
        let tiers = assess_vendors lower iso store vendors in
        renewals-given reference org_id tiers vendors [] (run_by rule db).1
          (renewals-WasGiven reference org_id tiers vendors ([], db))

    run_by-rules : (db : Alerts) (rule : AlertRule) → (run_by rule db).1.rules ≡ db.rules
    run_by-rules db rule =
        let vendors =
          keep_if (is_in_window show iso reference (window_of rule) org_id) store.vendors in
        renewals-rules reference org_id (assess_vendors lower iso store vendors) vendors ([], db)

    renewals-again : (db : Alerts) → evaluate (evaluate db).1 ≡ ([], (evaluate db).1)
    renewals-again db =
        elim (Option-cases (find_first (is_active_rule org_id renewal_due) db.rules)) [
          | inl absent ↦
              let off = renewals-off db absent in
              ap (λ (s : List Notification × Alerts). evaluate s.1) off
              ∙ off
              ∙ ap (λ (s : List Notification × Alerts). ([], s.1)) (sym off)
          | inr (rule, found) ↦
              let on = renewals-on db rule found in
              let still =
                ap (λ rules. find_first (is_active_rule org_id renewal_due) rules)
                  (run_by-rules db rule)
                ∙ found in
              ap (λ (s : List Notification × Alerts). evaluate s.1) on
              ∙ renewals-on (run_by rule db).1 rule still
              ∙ run_by-again db rule
              ∙ ap (λ (s : List Notification × Alerts). ([], s.1)) (sym on)
        ]

-- No alert is given twice: to evaluate a sync again on the same day for the same two snapshots, or
-- to scan the renewals again on the same day over the same vendors and CVEs, emits nothing and
-- changes no table.
pub evaluate_twice :
    (show iso : ℕ → String) (lower : String → String) (today org_id : ℕ) (db : Alerts)
    (vendor : Vendor) (prev : Option RiskSnapshot) (new : RiskSnapshot) (store : Store)
    → let synced = (evaluate_on_sync show iso today db org_id vendor prev new).1 in
      let scanned = (evaluate_renewals show iso lower today store db org_id).1 in
      (evaluate_on_sync show iso today synced org_id vendor prev new ≡ ([], synced))
      × (evaluate_renewals show iso lower today store scanned org_id ≡ ([], scanned))
evaluate_twice show iso lower today org_id db vendor prev new store = (
  on_sync-again show iso today org_id db vendor prev new,
  renewals-again show iso lower today org_id store db,
)
