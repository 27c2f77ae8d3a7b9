-- ===== src/Billing/Rows.antt =====
-- The billing tables of app/models/billing.py, and the helpers of app/services/billing_service.py
-- that find an event's organization and read a subscription.
use third_party_vendor_risk.Base.{
  ℕ, String, Bool, true, false, not, Option, none, some, List, ◌∷◌, ◌==◌, nat_eq, string_eq,
  find_first, update_if, if◌then◌else◌,
}
use third_party_vendor_risk.Tenancy.{Organization}
use third_party_vendor_risk.Json.{
  Json, null, Items, nil, cons, Fields, end, obj, get, truthy, or_else, as_dict, dict_or_empty,
  list_or_empty, as_text, to_text, to_int, ◌>>=◌,
}

pub record OrgBilling : Type 0 where
  pub org_id : ℕ
  pub stripe_customer_id : Option String
  pub stripe_subscription_id : Option String
  pub plan : String
  pub status : Option String
  pub current_period_end : Option ℕ
  pub cancel_at_period_end : Bool
  pub last_event_at : Option ℕ

pub data Outcome : Type 0 where
  applied stale ignored unmatched duplicate : Outcome

pub record BillingEvent : Type 0 where
  pub event_id : String
  pub type : String
  pub org_id : Option ℕ
  pub processed_at : ℕ
  pub outcome : Outcome

-- The rows of the audit log that billing writes, as the system.
pub data Audit : Type 0 where
  plan_changed : (org_id : ℕ) (from to status : String) → Audit
  payment_failed : (org_id : ℕ) (attempt : Json) → Audit

pub record Store : Type 0 where
  pub organizations : List Organization
  pub rows : List OrgBilling
  pub events : List BillingEvent
  pub audit : List Audit

-- `if text:`
abbrev pub has_text : Option String → Bool
has_text none = false
has_text (some s) = not (s == "")

-- `row.column == value`
abbrev pub is_text : String → Option String → Bool
is_text s none = false
is_text s (some t) = t == s

abbrev pub find_org : ℕ → List Organization → Option Organization
find_org org_id orgs = find_first (λ o. o.id == org_id) orgs

-- `get_billing_row`
abbrev pub find_row : ℕ → List OrgBilling → Option OrgBilling
find_row org_id rows = find_first (λ r. r.org_id == org_id) rows

abbrev pub new_row : ℕ → OrgBilling
new_row org_id = record {
  org_id = org_id;
  stripe_customer_id = none;
  stripe_subscription_id = none;
  plan = "free";
  status = none;
  current_period_end = none;
  cancel_at_period_end = false;
  last_event_at = none;
}

-- `_get_or_create`: the row, and the store that holds it.
unfoldable pub get_or_create : ℕ → Store → OrgBilling × Store
get_or_create org_id db = elim (find_row org_id db.rows) [
  | some row ↦ (row, db)
  | none ↦ (new_row org_id, record db { rows = new_row org_id ∷ db.rows })
]

-- The assignments to the row of an organization; there is one row for each.
abbrev pub write_row : OrgBilling → Store → Store
write_row row db = record db { rows = update_if (λ r. r.org_id == row.org_id) (λ r. row) db.rows }

-- `((sub.get("items") or {}).get("data")) or []`
unfoldable pub items_of : Fields → Option Items
items_of sub = do items ← dict_or_empty (get "items" sub); list_or_empty (get "data" items)

-- `_subscription_price`
unfoldable pub subscription_price : Fields → Option Json
unfolding items_of
subscription_price sub = do
  items ← items_of sub
  elim items [
    | nil ↦ some null
    | cons item _ ↦ do
      first ← as_dict item
      some (elim (or_else (get "price" first) (obj end)) [ obj price ↦ get "id" price | _ ↦ null ])
  ]

-- `db.get(Organization, int(raw))`, if `raw` is a number.
abbrev pub org_of_id : List Organization → Option ℕ → Option Organization
org_of_id orgs none = none
org_of_id orgs (some id) = find_org id orgs

-- `show` is `str` of a value that is no text, `int_of` is `int` of a text, and `digits` is
-- `int(s)` for a text of digits and nothing for another.
module _ (show : Json → String) (int_of digits : String → Option ℕ) where
  -- `_ts`
  unfoldable pub timestamp : Json → Option ℕ
  timestamp value = if truthy value then to_int int_of value else none

  -- One step of the loop over `reference` and the metadata's `org_id`.
  unfoldable pub org_named : List Organization → Json → Option Organization
  org_named orgs null = none
  org_named orgs raw = org_of_id orgs (digits (to_text show raw))

  -- By an already linked customer id.
  unfoldable pub org_of_customer : Store → Json → Option Organization
  org_of_customer db customer =
      if truthy customer
      then elim (as_text customer) [
        | none ↦ none
        | some c ↦ elim (find_first (λ r. is_text c r.stripe_customer_id) db.rows) [
          | none ↦ none
          | some row ↦ find_org row.org_id db.organizations
        ]
      ]
      else none

  -- `_org_for`
  unfoldable pub org_for :
      Store → (reference metadata customer : Json) → Option (Option Organization)
  org_for db reference metadata customer = do
    tags ← dict_or_empty metadata
    some (elim (org_named db.organizations reference) [
      | some org ↦ some org
      | none ↦ elim (org_named db.organizations (get "org_id" tags)) [
        | some org ↦ some org
        | none ↦ org_of_customer db customer
      ]
    ])

  -- `_period_end`
  unfoldable pub period_end : Fields → Option (Option ℕ)
  unfolding items_of timestamp
  period_end sub = do
    items ← items_of sub
    elim (truthy (get "current_period_end" sub)) [
      | true ↦ some (timestamp (get "current_period_end" sub))
      | false ↦ elim items [
        | nil ↦ some none
        | cons item _ ↦ do first ← as_dict item; some (timestamp (get "current_period_end" first))
      ]
    ]
