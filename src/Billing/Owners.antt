-- ===== src/Billing/Owners.antt =====
-- The owner actions of app/services/billing_service.py: checkout, portal and summary.
use Prim.Native.String.{◌++◌}
use third_party_vendor_risk.Base.{
  ℕ, ◌+◌, String, Bool, true, false, ◌&&◌, ◌||◌, not, Option, none, some, List, ◌==◌, string_eq,
  if◌then◌else◌, Result, err, ◌>>◌, raise_if, validation, conflict,
}
use third_party_vendor_risk.Tenancy.{Organization, User, Db}
use third_party_vendor_risk.Entitlements.{
  Plan, is_paid_plan, plan_for, vendor_count, member_count, pending_invite_count,
}
use third_party_vendor_risk.Billing.Rows.{OrgBilling, has_text, find_row}
use third_party_vendor_risk.Billing.Webhooks.{entitled}
use third_party_vendor_risk.Billing.Providers.{Kind, dev_stand_in, BillingProvider, starts_with}

-- `has_active_subscription`
unfoldable pub has_active_subscription : Option OrgBilling → Bool
has_active_subscription none = false
has_active_subscription (some row) =
    has_text row.stripe_subscription_id
    && elim row.status [ none ↦ false | some status ↦ entitled status ]

-- `"_dev_" in i`
unfoldable pub is_dev_id : String → Bool
unfolding starts_with
is_dev_id String.[] = false
is_dev_id (String.◌∷◌ c s) =
    let rest = is_dev_id s in if starts_with "_dev_" (String.◌∷◌ c s) then true else rest

abbrev pub is_dev : Kind → Bool
is_dev dev_stand_in = true
is_dev _ = false

-- An id that is there is one of the provider's.
abbrev pub fits : Kind → Option String → Bool
fits kind id = elim id [
  | none ↦ true
  | some i ↦ i == "" || (if is_dev_id i then is_dev kind else not (is_dev kind))
]

-- `owned_row`
unfoldable pub owned_row : Option OrgBilling → Option BillingProvider → Option OrgBilling
unfolding is_dev_id
owned_row none provider = none
owned_row (some row) none = none
owned_row (some row) (some p) =
    if fits p.kind row.stripe_customer_id && fits p.kind row.stripe_subscription_id
    then some row
    else none

abbrev pub customer_of : Option OrgBilling → Option String
customer_of none = none
customer_of (some row) = row.stripe_customer_id

module _ (base : String) where
  unfoldable pub start_checkout :
      List OrgBilling → Organization → User → String → BillingProvider → Result String
  unfolding owned_row has_active_subscription
  start_checkout rows org user plan provider = do
    raise_if (not (is_paid_plan plan)) validation
    let row = owned_row (find_row org.id rows) (some provider)
    raise_if (has_active_subscription row) conflict
    provider.create_checkout org.id plan (customer_of row) user.email
        (base ++ "/settings?billing=success#billing")
        (base ++ "/settings?billing=cancelled#billing")

  unfoldable pub open_portal : List OrgBilling → Organization → BillingProvider → Result String
  unfolding owned_row
  open_portal rows org provider =
      elim (customer_of (owned_row (find_row org.id rows) (some provider))) [
        | none ↦ err conflict
        | some customer ↦
            if customer == ""
            then err conflict
            else provider.create_portal org.id customer (base ++ "/settings#billing")
      ]

pub record Summary : Type 0 where
  pub plan : Plan
  pub status : Option String
  pub cancel_at_period_end : Bool
  pub current_period_end : Option ℕ
  pub has_subscription : Bool
  pub has_billing_account : Bool
  pub vendors_used : ℕ
  pub members_used : ℕ
  pub members_pending : ℕ
  pub provider : Option Kind

-- `summary`
unfoldable pub summary :
    (now : ℕ) → Db → List OrgBilling → Organization → Option BillingProvider → Summary
unfolding owned_row has_active_subscription plan_for vendor_count member_count pending_invite_count
summary now db rows org provider =
    let row = owned_row (find_row org.id rows) provider in
    let pending = pending_invite_count db org.id now in
    record {
      plan = plan_for org;
      status = elim row [ none ↦ none | some r ↦ r.status ];
      cancel_at_period_end = elim row [ none ↦ false | some r ↦ r.cancel_at_period_end ];
      current_period_end = elim row [ none ↦ none | some r ↦ r.current_period_end ];
      has_subscription = has_active_subscription row;
      has_billing_account = has_text (customer_of row);
      vendors_used = vendor_count db org.id;
      members_used = member_count db org.id + pending;
      members_pending = pending;
      provider = elim provider [ none ↦ none | some p ↦ some p.kind ];
    }
