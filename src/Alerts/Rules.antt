-- ===== src/Alerts/Rules.antt =====
-- Sequences of the operations of app/services/alerts_service.py, and the keys in the tables.
use third_party_vendor_risk.Base.{
  ℕ, suc, ◌≤◌, ◌<◌, ◌≡◌, refl, sym, subst, String, Bool, Option, none, some, List, [], ◌∷◌, ◌==◌,
  nat_eq, nat_beq_iff, string_eq, str_eq_iff, any, count_if, any-iff_count, find_first, arith, All,
  inl, inr, Bool-cases, Option-cases, is_some, keep_if, ok, count_if-update_le, All-update,
  update_if,
}
use third_party_vendor_risk.Scoring.{Assessment}
use third_party_vendor_risk.Ingest.{Vendor, Store}
use third_party_vendor_risk.Assessments.{assess_vendors}
use third_party_vendor_risk.Alerts.{
  RiskSnapshot, AlertRule, AlertType, AlertChannel, Alerts, Draft, Notification, has_key, emit,
  emit_some, is_active_rule, wanted_tier_alert, wanted_kev_alert, renewal_alert, tier_in,
  is_in_window, emit_renewals, evaluate_on_sync, evaluate_renewals, renewal_due, create_rule,
  update_rule, delete_rule, mark_read, mark_all_read, is_notification, read_now, is_unread,
}

-- No two notifications have the same key, nor the same id, and no id is one that is still to come.
pub record IsUniqueKeyed (db : Alerts) : Type 0 where
  pub keys : (key : String) → count_if (has_key key) db.notifications ≤ 1
  pub ids : (id : ℕ) → count_if (λ n. n.id == id) db.notifications ≤ 1
  pub fresh : All (λ n. n.id < db.next_notification) db.notifications

fresh_id :
    (l : List Notification) (next : ℕ)
    → All (λ n. n.id < next) l
    → count_if (λ n. n.id == next) l ≡ 0
fresh_id [] next below = refl
fresh_id (n ∷ l) next below =
    ground (arith, nat_beq_iff n.id next, fresh_id l next below.1, below.0)

fresh_later :
    (l : List Notification) (next : ℕ) → All (λ n. n.id < next) l → All (λ n. n.id < suc next) l
fresh_later [] next below = tt
fresh_later (n ∷ l) next below = (omega (arith, below.0), fresh_later l next below.1)

emit_some-IsUniqueKeyed :
    (o : Option Draft) (s : List Notification × Alerts)
    → IsUniqueKeyed s.1
    → IsUniqueKeyed (emit_some o s).1
unfolding emit_some emit
emit_some-IsUniqueKeyed none s u = u
emit_some-IsUniqueKeyed (some d) (l, db) u =
    elim (Bool-cases (any (has_key d.dedup_key) db.notifications)) [
      | inl given ↦ rw given u
      | inr new ↦
          let absent = any-iff_count (has_key d.dedup_key) db.notifications in
          let next = fresh_id db.notifications db.next_notification u.fresh in
          rw new (record {
            keys = λ key. ground (arith, u.keys key, absent, str_eq_iff d.dedup_key key);
            ids = λ id. ground (arith, u.ids id, next, nat_beq_iff db.next_notification id);
            fresh = (omega arith, fresh_later db.notifications db.next_notification u.fresh);
          })
    ]

update-IsUniqueKeyed :
    (q : Notification → Bool) (now : ℕ) (db : Alerts)
    → IsUniqueKeyed db
    → IsUniqueKeyed (record db { notifications = update_if q (read_now now) db.notifications })
update-IsUniqueKeyed q now db u = record {
  keys = λ key. omega (
    arith,
    u.keys key,
    count_if-update_le (has_key key) q (read_now now) db.notifications (λ n hit counted. counted),
  );
  ids = λ id. omega (
    arith,
    u.ids id,
    count_if-update_le (λ n. n.id == id) q (read_now now) db.notifications
        (λ n hit counted. counted),
  );
  fresh =
      All-update (λ n. n.id < db.next_notification) q (read_now now) db.notifications
        (λ n hit below. below) u.fresh;
}

-- The operations on the tables; what a call refuses leaves them as they are.
pub data Step (show iso : ℕ → String) (lower : String → String) : Alerts → Alerts → Type 0 where
  created :
      (db : Alerts) (org_id : ℕ) (type : AlertType) (channel : AlertChannel) (days : Option ℕ)
      → Step show iso lower db (create_rule db org_id type channel days).1
  updated :
      (db : Alerts) (org_id rule_id : ℕ) (is_active : Option Bool) (config : Option (Option ℕ))
      (rule : AlertRule) (after : Alerts)
      → update_rule db org_id rule_id is_active config ≡ ok (rule, after)
      → Step show iso lower db after
  deleted :
      (db : Alerts) (org_id rule_id : ℕ) (after : Alerts)
      → delete_rule db org_id rule_id ≡ ok after
      → Step show iso lower db after
  read :
      (db : Alerts) (now org_id notification_id : ℕ) (n : Notification) (after : Alerts)
      → mark_read now db org_id notification_id ≡ ok (n, after)
      → Step show iso lower db after
  read_all : (db : Alerts) (now org_id : ℕ) → Step show iso lower db (mark_all_read now db org_id).1
  synced :
      (db : Alerts) (today org_id : ℕ) (vendor : Vendor) (prev : Option RiskSnapshot)
      (new : RiskSnapshot)
      → Step show iso lower db (evaluate_on_sync show iso today db org_id vendor prev new).1
  scanned :
      (db : Alerts) (reference org_id : ℕ) (store : Store)
      → Step show iso lower db (evaluate_renewals show iso lower reference store db org_id).1

module _ (show iso : ℕ → String) where
  renewals-IsUniqueKeyed :
      (reference org_id : ℕ) (tiers : List (ℕ × Assessment)) (vendors : List Vendor)
      (s : List Notification × Alerts)
      → IsUniqueKeyed s.1
      → IsUniqueKeyed (emit_renewals show iso reference org_id tiers vendors s).1
  unfolding emit_renewals
  renewals-IsUniqueKeyed reference org_id tiers [] s u = u
  renewals-IsUniqueKeyed reference org_id tiers (v ∷ vendors) s u =
      let alert = renewal_alert show iso reference org_id (tier_in show iso v.id tiers) v in
      renewals-IsUniqueKeyed reference org_id tiers vendors (emit_some alert s)
        (emit_some-IsUniqueKeyed alert s u)

  scan-IsUniqueKeyed :
      (lower : String → String) (reference org_id : ℕ) (store : Store) (db : Alerts)
      → IsUniqueKeyed db
      → IsUniqueKeyed (evaluate_renewals show iso lower reference store db org_id).1
  unfolding evaluate_renewals
  scan-IsUniqueKeyed lower reference org_id store db u =
      elim (Option-cases (find_first (is_active_rule org_id renewal_due) db.rules)) [
        | inl absent ↦ rw (evaluate_renewals, absent) u
        | inr (rule, found) ↦
            let window : ℕ = elim rule.days [ none ↦ 90 | some days ↦ days ] in
            let vendors = keep_if (is_in_window show iso reference window org_id) store.vendors in
            rw (evaluate_renewals, found)
              (renewals-IsUniqueKeyed reference org_id (assess_vendors lower iso store vendors)
                vendors ([], db) u)
      ]

-- What an operation that changes only the rules leaves.
rules-IsUniqueKeyed :
    (db after : Alerts)
    → after.notifications ≡ db.notifications
    → after.next_notification ≡ db.next_notification
    → IsUniqueKeyed db
    → IsUniqueKeyed after
rules-IsUniqueKeyed db after same next u = record {
  keys = λ key. ground (arith, u.keys key, same);
  ids = λ id. ground (arith, u.ids id, same);
  fresh = rw (same, next) u.fresh;
}

updated_rows :
    (db : Alerts) (org_id rule_id : ℕ) (is_active : Option Bool) (config : Option (Option ℕ))
    (rule : AlertRule) (after : Alerts)
    → update_rule db org_id rule_id is_active config ≡ ok (rule, after)
    → (after.notifications ≡ db.notifications) × (after.next_notification ≡ db.next_notification)
unfolding update_rule
updated_rows db org_id rule_id is_active config rule after e = ground arith

deleted_rows :
    (db : Alerts) (org_id rule_id : ℕ) (after : Alerts)
    → delete_rule db org_id rule_id ≡ ok after
    → (after.notifications ≡ db.notifications) × (after.next_notification ≡ db.next_notification)
unfolding delete_rule
deleted_rows db org_id rule_id after e = ground arith

read-IsUniqueKeyed :
    (db : Alerts) (now org_id notification_id : ℕ) (n : Notification) (after : Alerts)
    → mark_read now db org_id notification_id ≡ ok (n, after)
    → IsUniqueKeyed db
    → IsUniqueKeyed after
unfolding mark_read
read-IsUniqueKeyed db now org_id notification_id n after e u =
    let mine = is_notification org_id notification_id in
    elim (Option-cases (find_first mine db.notifications)) [
      | inl absent ↦ absurd (ground arith)
      | inr (found, f) ↦ elim (Bool-cases (is_some found.read_at)) [
        | inl already ↦ let same : after ≡ db = ground arith in subst IsUniqueKeyed (sym same) u
        | inr unread ↦
            let same : after
                ≡ (record db { notifications = update_if mine (read_now now) db.notifications }) =
              ground arith in
            subst IsUniqueKeyed (sym same) (update-IsUniqueKeyed mine now db u)
      ]
    ]

Step-IsUniqueKeyed :
    (show iso : ℕ → String) (lower : String → String) (db after : Alerts)
    → Step show iso lower db after
    → IsUniqueKeyed db
    → IsUniqueKeyed after
unfolding create_rule mark_all_read evaluate_on_sync
Step-IsUniqueKeyed show iso lower db _ (created _ org_id type channel days) u =
    rules-IsUniqueKeyed db (create_rule db org_id type channel days).1 refl refl u
Step-IsUniqueKeyed show iso lower db _ (updated _ org_id rule_id is_active config rule after e) u =
    let (rows, next) = updated_rows db org_id rule_id is_active config rule after e in
    rules-IsUniqueKeyed db after rows next u
Step-IsUniqueKeyed show iso lower db _ (deleted _ org_id rule_id after e) u =
    let (rows, next) = deleted_rows db org_id rule_id after e in
    rules-IsUniqueKeyed db after rows next u
Step-IsUniqueKeyed show iso lower db _ (read _ now org_id notification_id n after e) u =
    read-IsUniqueKeyed db now org_id notification_id n after e u
Step-IsUniqueKeyed show iso lower db _ (read_all _ now org_id) u =
    update-IsUniqueKeyed (is_unread org_id) now db u
Step-IsUniqueKeyed show iso lower db _ (synced _ today org_id vendor prev new) u =
    let on_tier = wanted_tier_alert show iso today org_id vendor prev new db.rules in
    let on_kev = wanted_kev_alert show iso today org_id vendor prev new db.rules in
    emit_some-IsUniqueKeyed on_kev (emit_some on_tier ([], db))
      (emit_some-IsUniqueKeyed on_tier ([], db) u)
Step-IsUniqueKeyed show iso lower db _ (scanned _ reference org_id store) u =
    scan-IsUniqueKeyed show iso lower reference org_id store db u

-- A sequence of operations.
pub data Reach (show iso : ℕ → String) (lower : String → String) (start : Alerts)
    : Alerts → Type 0 where
  here : Reach show iso lower start start
  next :
      {db after : Alerts}
      → Reach show iso lower start db
      → Step show iso lower db after
      → Reach show iso lower start after

-- Whatever is done to the rules and the feed, and however syncs and scans are evaluated, no two
-- notifications have the same deduplication key or the same id, if none had at the start and ids
-- come from a sequence: the UNIQUE constraint on the keys never fails a commit.
pub Reach-IsUniqueKeyed :
    (show iso : ℕ → String) (lower : String → String) (start db : Alerts)
    → Reach show iso lower start db
    → IsUniqueKeyed start
    → IsUniqueKeyed db
Reach-IsUniqueKeyed show iso lower start _ here u = u
Reach-IsUniqueKeyed show iso lower start _ (next {db = before} {after = db} run step) u =
    Step-IsUniqueKeyed show iso lower before db step
      (Reach-IsUniqueKeyed show iso lower start before run u)
