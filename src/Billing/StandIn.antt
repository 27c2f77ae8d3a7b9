-- ===== src/Billing/StandIn.antt =====
-- The actions of app/api/billing.py on the pages of the development stand-in: the end of a checkout and
-- those of the portal. Each builds the events of Stripe and delivers them to the webhook. Signing, JSON
-- and session tokens are parameters, and so are the new ids.
use third_party_vendor_risk.Base.{
  ℕ, ◌+◌, String, Bool, true, false, not, Option, none, some, List, [], ◌∷◌, ◌==◌, nat_eq,
  string_eq, any, if◌then◌else◌,
}
use third_party_vendor_risk.Json.{
  Json, int, str, obj, Fields, end, field, get, or_else, as_text, to_int,
}
use third_party_vendor_risk.Billing.Rows.{OrgBilling, Store, find_row}
use third_party_vendor_risk.Billing.Endpoint.{done, process_webhook}
use third_party_vendor_risk.Billing.Providers.{tags, dev_prices, dev_event, dev_subscription}
use third_party_vendor_risk.Oidc.Dev.{optional_text}
use third_party_vendor_risk.Billing.Owners.{has_active_subscription}

-- What the stand-in takes from libraries, and its secret.
pub record Effects : Type 0 where
  pub show : Json → String
  pub show_id : ℕ → String
  pub int_of : String → Option ℕ
  pub digits : String → Option ℕ
  pub verified : String → Option String → String → Bool
  pub loads : String → Option Json
  pub dumps : Fields → String
  pub sign : (payload secret : String) (timestamp : ℕ) → String
  pub read : ℕ → String → Option Fields
  pub secret : String

-- The ids of `new_id`, in the order in which they may be asked for.
pub record NewIds : Type 0 where
  pub customer : String
  pub subscription : String
  pub object : String
  pub first : String
  pub second : String

pub data PageReply : Type 0 where
  bad_link unknown_action broken : PageReply
  redirect : String → PageReply

-- `_PORTAL_ACTIONS`
abbrev pub portal_actions : List String
portal_actions =
    "switch_team" ∷ "switch_business" ∷ "cancel_at_period_end" ∷ "resume" ∷ "cancel_now"
    ∷ "fail_payment" ∷ "recover_payment" ∷ []

-- The object of a checkout that was paid.
abbrev pub paid_session :
    (show_id : ℕ → String) → NewIds → (org_id : ℕ) (plan : String) → Json → Fields
paid_session show_id ids org_id plan customer = field "id" (str ids.object) (
    field "object" (str "checkout.session") (
      field "mode" (str "subscription") (
        field "status" (str "complete") (
          field "client_reference_id" (str (show_id org_id)) (
            field "customer" customer (
              field "subscription" (str ids.subscription)
                (field "metadata" (tags show_id org_id plan) end)))))))

-- The object of a renewal that was not paid.
abbrev pub failed_invoice : (show_id : ℕ → String) → NewIds → (org_id : ℕ) → OrgBilling → Fields
failed_invoice show_id ids org_id row = field "id" (str ids.object) (
    field "object" (str "invoice") (
      field "customer" (optional_text row.stripe_customer_id) (
        field "attempt_count" (int 1) (
          field "parent"
            (obj (
              field "subscription_details"
                (obj (
                  field "subscription" (optional_text row.stripe_subscription_id)
                    (field "metadata" (tags show_id org_id row.plan) end)))
                end))
            end))))

-- `x or y`, for a text.
abbrev pub text_or : Option String → String → String
text_or none other = other
text_or (some s) other = if s == "" then other else s

-- What an action makes of the plan, the status and the cancellation of a subscription.
abbrev pub plan_after : String → OrgBilling → String
plan_after action row =
    if action == "switch_team"
    then "team"
    else if action == "switch_business"
    then "business"
    else row.plan

abbrev pub status_after : String → OrgBilling → String
status_after action row =
    if action == "cancel_now"
    then "canceled"
    else if action == "fail_payment"
    then "past_due"
    else if action == "recover_payment"
    then "active"
    else text_or row.status "active"

abbrev pub cancels_after : String → OrgBilling → Bool
cancels_after action row =
    if action == "cancel_at_period_end"
    then true
    else if action == "resume"
    then false
    else row.cancel_at_period_end

abbrev pub type_after : String → String
type_after action =
    if action == "cancel_now"
    then "customer.subscription.deleted"
    else "customer.subscription.updated"

module _ (d : Effects) (now : ℕ) (ids : NewIds) where
  -- `_claims`
  unfoldable pub link_claims : (token kind : String) → Option Fields
  link_claims token kind = elim (d.read now token) [
    | none ↦ none
    | some claims ↦ elim (as_text (get "type" claims)) [
      | none ↦ none
      | some type ↦ if type == kind then some claims else none
    ]
  ]

  -- `_send`; `none` is an exception of the webhook.
  unfoldable pub deliver : Store → Fields → Option Store
  unfolding process_webhook
  deliver db event =
      let payload = d.dumps event in
      let (answer, after) =
        process_webhook d.show d.int_of d.digits d.verified d.loads dev_prices d.secret db (record {
          payload = payload;
          signature = some (d.sign payload d.secret now);
          now = now;
        }) in
      elim answer [ done outcome ↦ some after | _ ↦ none ]

  -- The second event of a checkout or the last of an action; a plan without a price is a KeyError.
  unfoldable pub deliver_subscription : (type : String) → Option Fields → Store → Option Store
  unfolding deliver
  deliver_subscription type none db = none
  deliver_subscription type (some sub) db = deliver db (dev_event ids.second type now sub)

  -- The two events of a checkout that was paid.
  unfoldable pub subscribe : (org_id : ℕ) (plan : String) → Json → Store → Bool × Store
  unfolding deliver deliver_subscription dev_subscription
  subscribe org_id plan customer db =
      elim (deliver db (
        dev_event ids.first "checkout.session.completed" now
          (paid_session d.show_id ids org_id plan customer))) [
            | none ↦ (false, db)
            | some paid ↦
                elim (deliver_subscription "customer.subscription.created"
                  (dev_subscription d.show_id ids.subscription customer org_id plan "active"
                    (now + 2592000) false)
                  paid) [ none ↦ (false, paid) | some after ↦ (true, after) ]
          ]

  -- A redirect to a URL of the claims, which a link always has.
  abbrev pub to_url : Json → PageReply
  to_url (str url) = redirect url
  to_url _ = broken

  -- `dev_checkout_complete`; the plan of a link is a text.
  unfoldable pub dev_checkout_complete : (token action : String) → Store → PageReply × Store
  unfolding link_claims has_active_subscription subscribe
  dev_checkout_complete token action db = elim (link_claims token "dev_checkout") [
    | none ↦ (bad_link, db)
    | some claims ↦
        if not (action == "pay")
        then (to_url (get "cancel_url" claims), db)
        else elim (to_int d.int_of (get "org_id" claims)) [
          | none ↦ (broken, db)
          | some org_id ↦
              if has_active_subscription (find_row org_id db.rows)
              then (to_url (get "success_url" claims), db)
              else elim (as_text (get "plan" claims)) [
                | none ↦ (broken, db)
                | some plan ↦
                    let (paid, after) =
                      subscribe org_id plan (or_else (get "customer_id" claims) (str ids.customer))
                        db in
                    (if paid then to_url (get "success_url" claims) else broken, after)
              ]
        ]
  ]

  -- The events of an action on a subscription; what was delivered before an exception stays.
  unfoldable pub act : (action : String) (org_id : ℕ) → OrgBilling → Store → Bool × Store
  unfolding deliver deliver_subscription dev_subscription
  act action org_id row db =
      let period_end : ℕ = elim row.current_period_end [ none ↦ now | some t ↦ t ] in
      let sub =
        dev_subscription d.show_id (text_or row.stripe_subscription_id ids.subscription)
          (str (text_or row.stripe_customer_id ids.customer)) org_id (plan_after action row)
          (status_after action row) period_end (cancels_after action row) in
      let noted =
        if action == "fail_payment"
        then deliver db (
            dev_event ids.first "invoice.payment_failed" now
              (failed_invoice d.show_id ids org_id row))
        else some db in
      elim noted [
        | none ↦ (false, db)
        | some first ↦ elim (deliver_subscription (type_after action) sub first) [
          | none ↦ (false, first)
          | some after ↦ (true, after)
        ]
      ]

  -- `dev_portal_action`; the target is the page of the portal, with the action that was done.
  unfoldable pub dev_portal_action : (token action : String) → Store → PageReply × Store
  unfolding link_claims has_active_subscription act
  dev_portal_action token action db = elim (link_claims token "dev_portal") [
    | none ↦ (bad_link, db)
    | some claims ↦
        if not (any (λ a. a == action) portal_actions)
        then (unknown_action, db)
        else elim (to_int d.int_of (get "org_id" claims)) [
          | none ↦ (broken, db)
          | some org_id ↦ elim (find_row org_id db.rows) [
            | none ↦ (redirect action, db)
            | some row ↦
                let (acted, after) = act action org_id row db in
                if has_active_subscription (some row)
                then (if acted then redirect action else broken, after)
                else (redirect action, db)
          ]
        ]
  ]
