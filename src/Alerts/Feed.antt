-- ===== src/Alerts/Feed.antt =====
-- The rules and the feed of app/services/alerts_service.py, over the tables of app/models/alert.py, and
-- `_emit`.
use third_party_vendor_risk.Base.{
  ℕ, suc, String, Bool, true, ◌&&◌, not, Option, none, some, List, [], ◌∷◌, ◌++◌, ◌==◌, nat_eq,
  string_eq, any, count_if, find_first, update_if, remove_if, is_some, if◌then◌else◌, Result, ok,
  ◌>>=◌, ◌>>◌, raise_if, or_raise, not_found,
}
use third_party_vendor_risk.Scoring.{Tier, ThreatBand, ExposureBand}

pub record RiskSnapshot : Type 0 where
  pub vendor_id : ℕ
  pub tier : Tier
  pub threat_band : Option ThreatBand
  pub exposure_band : Option ExposureBand
  pub max_cvss : Option ℕ
  pub cve_count : ℕ
  pub kev_count : ℕ
  pub captured_at : ℕ

pub data AlertType : Type 0 where
  new_kev tier_change renewal_due : AlertType

pub data AlertChannel : Type 0 where
  email slack : AlertChannel

pub record AlertRule : Type 0 where
  pub id : ℕ
  pub org_id : ℕ
  pub type : AlertType
  pub channel : AlertChannel
  pub days : Option ℕ
  pub is_active : Bool

pub data NotificationStatus : Type 0 where
  pending sent failed : NotificationStatus

pub record Notification : Type 0 where
  pub id : ℕ
  pub org_id : ℕ
  pub vendor_id : ℕ
  pub type : AlertType
  pub dedup_key : String
  pub title : String
  pub body : String
  pub status : NotificationStatus
  pub read_at : Option ℕ

-- The two tables, and the keys that their next rows get.
pub record Alerts : Type 0 where
  pub rules : List AlertRule
  pub notifications : List Notification
  pub next_rule : ℕ
  pub next_notification : ℕ

abbrev pub is_rule : ℕ → ℕ → AlertRule → Bool
is_rule org_id rule_id r = r.id == rule_id && r.org_id == org_id

unfoldable pub create_rule : Alerts → ℕ → AlertType → AlertChannel → Option ℕ → AlertRule × Alerts
create_rule db org_id type channel days =
    let rule : AlertRule = record {
      id = db.next_rule;
      org_id = org_id;
      type = type;
      channel = channel;
      days = days;
      is_active = true;
    } in
    (rule, record db { rules = rule ∷ db.rules; next_rule = suc db.next_rule })

-- The fields of a rule that `update_rule` is given.
abbrev pub change_rule : Option Bool → Option (Option ℕ) → AlertRule → AlertRule
change_rule is_active config r = record r {
  is_active = elim is_active [ none ↦ r.is_active | some active ↦ active ];
  days = elim config [ none ↦ r.days | some days ↦ days ];
}

unfoldable pub update_rule :
    Alerts → ℕ → ℕ → Option Bool → Option (Option ℕ) → Result (AlertRule × Alerts)
update_rule db org_id rule_id is_active config = do
  rule ← or_raise (find_first (is_rule org_id rule_id) db.rules) not_found
  ok (
    change_rule is_active config rule,
    record db {
      rules = update_if (is_rule org_id rule_id) (change_rule is_active config) db.rules;
    },
  )

unfoldable pub delete_rule : Alerts → ℕ → ℕ → Result Alerts
delete_rule db org_id rule_id = do
  raise_if (not (is_some (find_first (is_rule org_id rule_id) db.rules))) not_found
  ok (record db { rules = remove_if (is_rule org_id rule_id) db.rules })

-- `Notification.org_id == org_id, Notification.read_at.is_(None)`
abbrev pub is_unread : ℕ → Notification → Bool
is_unread org_id n = n.org_id == org_id && not (is_some n.read_at)

unfoldable pub unread_count : Alerts → ℕ → ℕ
unread_count db org_id = count_if (is_unread org_id) db.notifications

abbrev pub is_notification : ℕ → ℕ → Notification → Bool
is_notification org_id notification_id n = n.id == notification_id && n.org_id == org_id

abbrev pub read_now : ℕ → Notification → Notification
read_now now n = record n { read_at = some now }

unfoldable pub mark_read : (now : ℕ) → Alerts → ℕ → ℕ → Result (Notification × Alerts)
mark_read now db org_id notification_id = do
  n ← or_raise (find_first (is_notification org_id notification_id) db.notifications) not_found
  ok (
      if is_some n.read_at then (n, db) else (
        read_now now n,
        record db {
          notifications =
              update_if (is_notification org_id notification_id) (read_now now) db.notifications;
        },
      ))

unfoldable pub mark_all_read : (now : ℕ) → Alerts → ℕ → ℕ × Alerts
mark_all_read now db org_id = (
  count_if (is_unread org_id) db.notifications,
  record db { notifications = update_if (is_unread org_id) (read_now now) db.notifications },
)

-- What `_emit` is given.
pub record Draft : Type 0 where
  pub org_id : ℕ
  pub vendor_id : ℕ
  pub type : AlertType
  pub dedup_key : String
  pub title : String
  pub body : String

abbrev pub has_key : String → Notification → Bool
has_key key n = n.dedup_key == key

abbrev pub notification : ℕ → Draft → Notification
notification id d = record {
  id = id;
  org_id = d.org_id;
  vendor_id = d.vendor_id;
  type = d.type;
  dedup_key = d.dedup_key;
  title = d.title;
  body = d.body;
  status = pending;
  read_at = none;
}

-- `_emit`
unfoldable pub emit : Draft → Alerts → Option Notification × Alerts
emit d db =
    let n = notification db.next_notification d in
    if any (has_key d.dedup_key) db.notifications then (none, db) else (
      some n,
      record db {
        notifications = n ∷ db.notifications;
        next_notification = suc db.next_notification;
      },
    )

-- `n = _emit(...)`, `if n: emitted.append(n)`, where the code emits at all.
unfoldable pub emit_some : Option Draft → List Notification × Alerts → List Notification × Alerts
unfolding emit
emit_some none so_far = so_far
emit_some (some d) (emitted, db) =
    let (n, after) = emit d db in
    (elim n [ none ↦ emitted | some told ↦ emitted ++ (told ∷ []) ], after)
