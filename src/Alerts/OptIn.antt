-- ===== src/Alerts/OptIn.antt =====
-- Alerts and the rules that ask for them: app/services/alerts_service.py.
use third_party_vendor_risk.Base.{
  Bool, ◌&&◌, ◌==◌, sym, subst, ℕ, ◌≡◌, refl, String, true, Option, none, some, List, [], ◌∷◌, ◌++◌,
  nat_eq, string_eq, any, any-iff_count, count_if_pos, find_first, find_first_sound, arith, All,
  inl, inr, Bool-cases, Option-cases, keep_if,
}
use third_party_vendor_risk.Scoring.{Tier, Assessment}
use third_party_vendor_risk.Ingest.{Vendor, Store}
use third_party_vendor_risk.Assessments.{assess_vendors}
use third_party_vendor_risk.Alerts.{
  RiskSnapshot, AlertRule, AlertType, Alerts, Draft, Notification, has_key, notification, emit,
  emit_some, is_active_rule, is_active_type, type_beq, AlertType, wanted_tier_alert,
  wanted_kev_alert, tier_alert, kev_alert, renewal_alert, tier_in, is_in_window, emit_renewals,
  evaluate_on_sync, evaluate_renewals, tier_change, new_kev, renewal_due,
}

All-append {ℓ κ} :
    {A : Type ℓ} (P : A → Type κ) (xs ys : List A) → All P xs → All P ys → All P (xs ++ ys)
All-append P [] ys a b = b
All-append P (x ∷ xs) ys a b = (a.0, All-append P xs ys a.1 b)

emit_some-All :
    (P : Notification → Type 0) (o : Option Draft) (s : List Notification × Alerts)
    → ((d : Draft) (id : ℕ) → o ≡ some d → P (notification id d))
    → All P s.0
    → All P (emit_some o s).0
unfolding emit_some emit
emit_some-All P none s asked a = a
emit_some-All P (some d) (l, db) asked a =
    let added = l ++ (notification db.next_notification d ∷ []) in
    elim (Bool-cases (any (has_key d.dedup_key) db.notifications)) [
      | inl given ↦
          let same : (emit_some (some d) (l, db)).0 ≡ l = rw (emit_some, emit, given) refl in
          subst (All P) (sym same) a
      | inr new ↦
          let same : (emit_some (some d) (l, db)).0 ≡ added = rw (emit_some, emit, new) refl in
          subst (All P) (sym same) (
            All-append P l (notification db.next_notification d ∷ []) a
              (asked d db.next_notification refl, tt))
    ]

-- The rule is switched on, belongs to the organization and has the type.
abbrev pub asks : ℕ → AlertType → AlertRule → Bool
asks org_id type r = r.is_active && (type_beq r.type type && r.org_id == org_id)

any-asks :
    (rules : List AlertRule) (org_id : ℕ) (type : AlertType)
    → is_active_type rules org_id type ≡ true
    → any (asks org_id type) rules ≡ true
any-asks [] org_id type h = h
any-asks (r ∷ rules) org_id type h = ground (arith, any-asks rules org_id type)

-- An active rule of the organization asks for the notification.
pub record IsAskedFor (rules : List AlertRule) (org_id : ℕ) (n : Notification) : Type 0 where
  pub own : n.org_id ≡ org_id
  pub active : any (asks org_id n.type) rules ≡ true

module _ (show iso : ℕ → String) where
  tier_asked :
      (today org_id : ℕ) (vendor : Vendor) (prev : Option RiskSnapshot) (new : RiskSnapshot)
      (rules : List AlertRule) (d : Draft) (id : ℕ)
      → wanted_tier_alert show iso today org_id vendor prev new rules ≡ some d
      → IsAskedFor rules org_id (notification id d)
  unfolding tier_alert
  tier_asked today org_id vendor none new rules d id e = absurd (ground arith)
  tier_asked today org_id vendor (some prev) new rules d id e =
      let (own, type) : (d.org_id ≡ org_id) × (d.type ≡ tier_change) = ground arith in
      record { own = own; active = rw type (any-asks rules org_id tier_change (ground arith)) }

  kev_asked :
      (today org_id : ℕ) (vendor : Vendor) (prev : Option RiskSnapshot) (new : RiskSnapshot)
      (rules : List AlertRule) (d : Draft) (id : ℕ)
      → wanted_kev_alert show iso today org_id vendor prev new rules ≡ some d
      → IsAskedFor rules org_id (notification id d)
  unfolding kev_alert
  kev_asked today org_id vendor prev new rules d id e =
      let (own, type) : (d.org_id ≡ org_id) × (d.type ≡ new_kev) = ground arith in
      record { own = own; active = rw type (any-asks rules org_id new_kev (ground arith)) }

  renewal_asked :
      (reference org_id : ℕ) (tier : Tier) (v : Vendor) (rules : List AlertRule) (d : Draft)
      (id : ℕ)
      → is_active_type rules org_id renewal_due ≡ true
      → renewal_alert show iso reference org_id tier v ≡ some d
      → IsAskedFor rules org_id (notification id d)
  unfolding renewal_alert
  renewal_asked reference org_id tier v rules d id active e =
      let (own, type) : (d.org_id ≡ org_id) × (d.type ≡ renewal_due) = ground arith in
      record { own = own; active = rw type (any-asks rules org_id renewal_due active) }

  renewals_asked :
      (reference org_id : ℕ) (tiers : List (ℕ × Assessment)) (rules : List AlertRule)
      (vendors : List Vendor) (s : List Notification × Alerts)
      → is_active_type rules org_id renewal_due ≡ true
      → All (IsAskedFor rules org_id) s.0
      → All (IsAskedFor rules org_id) (emit_renewals show iso reference org_id tiers vendors s).0
  unfolding emit_renewals
  renewals_asked reference org_id tiers rules [] s active a = a
  renewals_asked reference org_id tiers rules (v ∷ vendors) s active a =
      let tier = tier_in show iso v.id tiers in
      let alert = renewal_alert show iso reference org_id tier v in
      renewals_asked reference org_id tiers rules vendors (emit_some alert s) active (
        emit_some-All (IsAskedFor rules org_id) alert s
          (λ d id e. renewal_asked reference org_id tier v rules d id active e) a)

  found_active :
      (rules : List AlertRule) (org_id : ℕ) (type : AlertType) (rule : AlertRule)
      → find_first (is_active_rule org_id type) rules ≡ some rule
      → is_active_type rules org_id type ≡ true
  found_active rules org_id type rule found =
      let mine = is_active_rule org_id type in
      (any-iff_count mine rules).1
        (count_if_pos mine mine rules rule found (find_first_sound mine rules rule found))

  scan_asked :
      (lower : String → String) (reference org_id : ℕ) (store : Store) (db : Alerts)
      → All
          (IsAskedFor db.rules org_id)
          (evaluate_renewals show iso lower reference store db org_id).0
  unfolding evaluate_renewals
  scan_asked lower reference org_id store db =
      elim (Option-cases (find_first (is_active_rule org_id renewal_due) db.rules)) [
        | inl absent ↦ rw (evaluate_renewals, absent) tt
        | inr (rule, found) ↦
            let window : ℕ = elim rule.days [ none ↦ 90 | some days ↦ days ] in
            let vendors = keep_if (is_in_window show iso reference window org_id) store.vendors in
            rw (evaluate_renewals, found)
              (renewals_asked reference org_id (assess_vendors lower iso store vendors) db.rules
                vendors ([], db) (found_active db.rules org_id renewal_due rule found) tt)
      ]

-- Alerts are opt-in: all that a sync or a scan of the renewals emits belongs to the organization it
-- is evaluated for, and an active rule of that organization has its type.
pub evaluate-IsAskedFor :
    (show iso : ℕ → String) (lower : String → String) (today org_id : ℕ) (db : Alerts)
    (vendor : Vendor) (prev : Option RiskSnapshot) (new : RiskSnapshot) (store : Store)
    → All (IsAskedFor db.rules org_id) (evaluate_on_sync show iso today db org_id vendor prev new).0
      × All (IsAskedFor db.rules org_id) (evaluate_renewals show iso lower today store db org_id).0
unfolding evaluate_on_sync
evaluate-IsAskedFor show iso lower today org_id db vendor prev new store =
    let P = IsAskedFor db.rules org_id in
    let on_tier = wanted_tier_alert show iso today org_id vendor prev new db.rules in
    let on_kev = wanted_kev_alert show iso today org_id vendor prev new db.rules in
    (
      emit_some-All P on_kev (emit_some on_tier ([], db))
          (kev_asked show iso today org_id vendor prev new db.rules)
          (emit_some-All P on_tier ([], db)
            (tier_asked show iso today org_id vendor prev new db.rules) tt),
      scan_asked show iso lower today org_id store db,
    )
