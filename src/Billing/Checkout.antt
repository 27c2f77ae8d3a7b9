-- ===== src/Billing/Checkout.antt =====
-- `dev_checkout_complete` of app/api/billing.py, through the webhook, to the plan of the organization.
use third_party_vendor_risk.Base.{
  ℕ, ◌≤◌, ◌≡◌, refl, sym, subst, String, true, false, some, ◌==◌, nat_eq, string_eq, str_eq_iff,
  any, if◌then◌else◌, arith, inl, inr, Bool-cases,
}
use third_party_vendor_risk.Tenancy.{Organization}
use third_party_vendor_risk.Entitlements.{is_paid_plan}
use third_party_vendor_risk.Json.{int, str, obj, Fields, get, or_else, take_chars}
use third_party_vendor_risk.Billing.Rows.{OrgBilling, Store, find_row, find_org, applied}
use third_party_vendor_risk.Billing.Webhooks.{plan_for_price}
use third_party_vendor_risk.Billing.Providers.{dev_prices, price_of}
use third_party_vendor_risk.Billing.Owners.{has_active_subscription}
use third_party_vendor_risk.Billing.StandIn.{
  redirect, link_claims, Effects, NewIds, paid_session, dev_checkout_complete,
}
use third_party_vendor_risk.Billing.Heard.{
  first_event, second_event, deliver-heard, paid, checkout-heard, active, subscription-heard,
  created_sub,
}
use third_party_vendor_risk.Billing.Settled.{
  paid-org, paid-current, paid-fresh, active-plan, active-subscribed, subscribe-active,
}

-- The price of a plan that can be bought.
abbrev pub paid_price : String → String
paid_price plan = if plan == "team" then "price_dev_team" else "price_dev_business"

paid_price-listed :
    (plan : String)
    → is_paid_plan plan ≡ true
    → (price_of plan dev_prices ≡ some (plan, paid_price plan))
      × (plan_for_price dev_prices (some (paid_price plan)) ≡ some plan)
unfolding plan_for_price
paid_price-listed plan paying = elim (Bool-cases (plan == "team")) [
  | inl team ↦
      let chosen : plan ≡ "team" = (str_eq_iff plan "team").0 team in
      subst
        (λ p.
          (price_of p dev_prices ≡ some (p, paid_price p))
          × (plan_for_price dev_prices (some (paid_price p)) ≡ some p))
        (sym chosen) (refl, refl)
  | inr other ↦
      let chosen : plan ≡ "business" = (str_eq_iff plan "business").0 (ground arith) in
      subst
        (λ p.
          (price_of p dev_prices ≡ some (p, paid_price p))
          × (plan_for_price dev_prices (some (paid_price p)) ≡ some p))
        (sym chosen) (refl, refl)
]

-- A checkout that is paid on the page of the stand-in ends with the plan that was chosen: its two events
-- pass the webhook, the organization then has the plan and an active subscription, and the browser
-- returns to the app. To pay again by the same link changes nothing. The link is one that the stand-in
-- has signed, for a plan that can be bought and an organization that is there and has no active
-- subscription; the ids are new and not
-- blank, the last event of the organization is no later than now, the secret is not blank, and the
-- signing, JSON and the text of a number are read back.
pub dev_checkout_complete-subscribes :
    (d : Effects) (now : ℕ) (ids again : NewIds) (db : Store) (org : Organization)
    (token url plan c : String) (claims : Fields)
    → d.read now token ≡ some claims
    → get "type" claims ≡ str "dev_checkout"
    → get "org_id" claims ≡ int org.id
    → get "plan" claims ≡ str plan
    → get "success_url" claims ≡ str url
    → or_else (get "customer_id" claims) (str ids.customer) ≡ str c
    → is_paid_plan plan ≡ true
    → find_org org.id db.organizations ≡ some org
    → has_active_subscription (find_row org.id db.rows) ≡ false
    → ((r : OrgBilling) (last : ℕ)
        → find_row org.id db.rows ≡ some r
        → r.last_event_at ≡ some last
        → last ≤ now)
    → ((ids.first == "") ≡ false)
      × ((ids.second == "") ≡ false)
      × ((ids.subscription == "") ≡ false)
    → (any (λ e. e.event_id == take_chars 255 ids.first) db.events ≡ false)
      × (any (λ e. e.event_id == take_chars 255 ids.second) db.events ≡ false)
      × ((take_chars 255 ids.first == take_chars 255 ids.second) ≡ false)
    → (d.secret == "") ≡ false
    → ((payload : String) → d.verified payload (some (d.sign payload d.secret now)) d.secret ≡ true)
    → d.loads (d.dumps (first_event d now ids db org plan c))
      ≡ some (obj (first_event d now ids db org plan c))
    → d.loads (d.dumps (second_event d now ids db org plan c (paid_price plan)))
      ≡ some (obj (second_event d now ids db org plan c (paid_price plan)))
    → d.digits (d.show_id org.id) ≡ some org.id
    → (after : Store) × (dev_checkout_complete d now ids token "pay" db ≡ (redirect url, after))
      × (find_org org.id after.organizations ≡ some (record org { plan = plan }))
      × (has_active_subscription (find_row org.id after.rows) ≡ true)
      × (dev_checkout_complete d now again token "pay" after ≡ (redirect url, after))
unfolding dev_checkout_complete link_claims
dev_checkout_complete-subscribes d now ids again db org token url plan c claims link typed org_id
      chosen back customer paying found unpaid late (first, second, subscription)
      (new_first, new_second, differ) secret verified read_first read_second named =
    let price = paid_price plan in
    let (listed, priced) = paid_price-listed plan paying in
    let stored = paid d now ids db org plan c in
    let after = active d now ids db org plan c in
    let one =
      deliver-heard d now ids db stored ids.first "checkout.session.completed"
        (paid_session d.show_id ids org.id plan (str c)) applied secret first refl
        (verified (d.dumps (first_event d now ids db org plan c))) read_first
        (checkout-heard d now ids db org plan c new_first named found) in
    let two =
      deliver-heard d now ids stored after ids.second "customer.subscription.created"
        (created_sub d now ids db org plan c price) applied secret second refl
        (verified (d.dumps (second_event d now ids db org plan c (paid_price plan)))) read_second
        (subscription-heard d now ids db org plan c price priced
          (paid-fresh d now ids db org plan c new_second differ) named
          (paid-org d now ids db org plan c found) (paid-current d now ids db org plan c late)) in
    let both = subscribe-active d now ids db org plan c price listed priced one two in
    let subscribed = active-subscribed d now ids db org plan c subscription in
    (
      after,
      rw
          (
            dev_checkout_complete, link_claims, link, typed, org_id, unpaid, chosen, customer, both,
            back,
          )
          refl,
      active-plan d now ids db org plan c found,
      subscribed,
      rw (dev_checkout_complete, link_claims, link, typed, org_id, subscribed, back) refl,
    )
