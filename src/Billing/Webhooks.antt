-- ===== src/Billing/Webhooks.antt =====
-- The webhook handlers of app/services/billing_service.py. `none` is an exception other than the
-- ones named: the transaction is rolled back. The provider is its list of prices by plan, and
-- `now` is the time of the delivery.
use third_party_vendor_risk.Base.{
  ℕ, String, Bool, true, false, ◌&&◌, ◌||◌, not, Option, none, some, List, [], ◌∷◌, ◌==◌, nat_eq,
  string_eq, option_beq, ltb, any, update_if, if◌then◌else◌,
}
use third_party_vendor_risk.Tenancy.{Organization}
use third_party_vendor_risk.Entitlements.{is_paid_plan}
use third_party_vendor_risk.Json.{
  Json, null, Fields, get, truthy, or_else, dict_or_empty, as_text, column, take_chars, to_text,
  ◌>>=◌,
}
use third_party_vendor_risk.Billing.Rows.{
  OrgBilling, Outcome, applied, stale, ignored, unmatched, duplicate, BillingEvent, plan_changed,
  payment_failed, Store, has_text, get_or_create, write_row, timestamp, org_for, subscription_price,
  period_end,
}

-- `ENTITLED_STATUSES`
abbrev pub entitled : String → Bool
entitled status = status == "active" || (status == "trialing" || status == "past_due")

-- The plan that a subscription's plan and status give.
unfoldable pub effective : String → String → String
effective plan status = if entitled status then plan else "free"

-- `provider.plan_for_price(price)`
unfoldable pub plan_for_price : List (String × String) → Option String → Option String
plan_for_price prices none = none
plan_for_price [] (some price) = none
plan_for_price ((plan, p) ∷ prices) (some price) =
    if p == price then some plan else plan_for_price prices (some price)

-- What a handler gives: the outcome, the organization that it recorded, and the store.
abbrev pub Handled : Type 0
Handled = Outcome × Option ℕ × Store

-- `if org.plan != effective: ...`
unfoldable pub set_plan : Organization → String → String → Store → Store
set_plan org to status db = if org.plan == to then db else record db {
  organizations = update_if (λ o. o.id == org.id) (λ o. record o { plan = to }) db.organizations;
  audit = plan_changed org.id org.plan to status ∷ db.audit;
}

-- An older state arriving late, or an earlier subscription ending.
unfoldable pub is_stale :
    OrgBilling → (created : ℕ) (sub_id : Option String) (deleted : Bool) → Bool
is_stale row created sub_id deleted =
    elim row.last_event_at [ none ↦ false | some last ↦ ltb created last ]
    || (deleted
        && (has_text row.stripe_subscription_id
            && not (option_beq (λ a b. a == b) sub_id row.stripe_subscription_id)))

-- The plan by the price, else by the metadata.
unfoldable pub subscribed_plan : List (String × String) → Fields → Option (Option String)
unfolding plan_for_price
subscribed_plan prices sub = do
  price ← subscription_price sub
  elim (plan_for_price prices (as_text price)) [
    | some plan ↦ some (some plan)
    | none ↦ do
      tags ← dict_or_empty (get "metadata" sub)
      some (elim (as_text (get "plan" tags)) [
        | none ↦ none
        | some plan ↦ if is_paid_plan plan then some plan else none
      ])
  ]

-- The row after a subscription event.
abbrev pub subscribed_row :
    OrgBilling
    → (sub_id customer : Option String) (plan status : String) (cancel : Bool) (until : Option ℕ)
      (created : ℕ)
    → OrgBilling
subscribed_row row sub_id customer plan status cancel until created = record row {
  stripe_subscription_id = if has_text sub_id then sub_id else row.stripe_subscription_id;
  stripe_customer_id =
      if has_text customer && not (has_text row.stripe_customer_id)
      then customer
      else row.stripe_customer_id;
  plan = plan;
  status = some status;
  cancel_at_period_end = cancel;
  current_period_end = until;
  last_event_at = some created;
}

-- The row after a checkout.
abbrev pub linked_row : OrgBilling → (customer subscription : Option String) → OrgBilling
linked_row row customer subscription = record row {
  stripe_customer_id = if has_text customer then customer else row.stripe_customer_id;
  stripe_subscription_id =
      if has_text subscription then subscription else row.stripe_subscription_id;
}

module _ (show : Json → String) (int_of digits : String → Option ℕ) where
  -- `_subscription_changed`, once the organization is known.
  unfoldable pub change_subscription :
      List (String × String) → Store → Organization → Fields → ℕ → Bool → Option Handled
  change_subscription prices db org sub created deleted = do
    let (row, held) = get_or_create org.id db
    sub_id ← column (get "id" sub)
    elim (is_stale row created sub_id deleted) [
      | true ↦ some (stale, some org.id, held)
      | false ↦ do
        found ← subscribed_plan prices sub
        elim found [
          | none ↦ some (ignored, some org.id, held)
          | some plan ↦ do
            customer ← column (get "customer" sub)
            until ← period_end show int_of digits sub
            let status =
                if deleted
                then "canceled"
                else to_text show (or_else (get "status" sub) (Json.str ""))
            let cancel = truthy (get "cancel_at_period_end" sub)
            let written =
                write_row (subscribed_row row sub_id customer plan status cancel until created) held
            some (applied, some org.id, set_plan org (effective plan status) status written)
        ]
    ]

  -- `_subscription_changed`
  unfoldable pub subscription_changed :
      List (String × String) → Store → Fields → ℕ → Bool → Option Handled
  subscription_changed prices db sub created deleted = do
    found ← org_for show int_of digits db null (get "metadata" sub) (get "customer" sub)
    elim found [
      | none ↦ some (unmatched, none, db)
      | some org ↦ change_subscription prices db org sub created deleted
    ]

  -- `_checkout_completed`
  unfoldable pub checkout_completed : Store → Fields → Option Handled
  checkout_completed db session = do
    found ←
        org_for show int_of digits db (get "client_reference_id" session) (get "metadata" session)
          (get "customer" session)
    elim found [
      | none ↦ some (unmatched, none, db)
      | some org ↦ do
        let (row, held) = get_or_create org.id db
        customer ← column (get "customer" session)
        subscription ← column (get "subscription" session)
        some (applied, some org.id, write_row (linked_row row customer subscription) held)
    ]

  -- `_payment_failed`
  unfoldable pub payment_failed_event : Store → Fields → Option Handled
  payment_failed_event db invoice = do
    parent ← dict_or_empty (get "parent" invoice)
    details ← dict_or_empty (get "subscription_details" parent)
    found ← org_for show int_of digits db null (get "metadata" details) (get "customer" invoice)
    some (elim found [
      | none ↦ (unmatched, none, db)
      | some org ↦ (
        applied,
        some org.id,
        record db { audit = payment_failed org.id (get "attempt_count" invoice) ∷ db.audit },
      )
    ])

  -- The dispatch of `apply_event` on the type.
  unfoldable pub dispatch :
      List (String × String) → Store → (type : String) → Fields → ℕ → Option Handled
  dispatch prices db type object created =
      if type == "checkout.session.completed"
      then checkout_completed db object
      else if type == "customer.subscription.created" || type == "customer.subscription.updated"
      then subscription_changed prices db object created false
      else if type == "customer.subscription.deleted"
      then subscription_changed prices db object created true
      else if type == "invoice.payment_failed"
      then payment_failed_event db object
      else some (ignored, none, db)

  -- `event["id"]`, as it is stored.
  abbrev pub event_key : Fields → String
  event_key event = take_chars 255 (to_text show (get "id" event))

  -- `apply_event`: the outcome and the store. The event's row is written once, when its outcome
  -- is known; the handlers do not read it.
  unfoldable pub apply_event :
      List (String × String) → (now : ℕ) → Store → Fields → Option (Outcome × Store)
  apply_event prices now db event =
      let key = event_key event in
      let type = take_chars 100 (to_text show (get "type" event)) in
      if any (λ e. e.event_id == key) db.events then some (duplicate, db) else do
        body ← dict_or_empty (get "data" event)
        object ← dict_or_empty (get "object" body)
        let created : ℕ = elim (timestamp show int_of digits (get "created" event)) [
          | none ↦ now
          | some t ↦ t
        ]
        (outcome, org_id, after) ← dispatch prices db type object created
        let row : BillingEvent = record {
          event_id = key;
          type = type;
          org_id = org_id;
          processed_at = now;
          outcome = outcome;
        }
        some (outcome, record after { events = row ∷ after.events })
