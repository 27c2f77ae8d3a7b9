-- ===== src/Billing/Heard.antt =====
-- The two events of a paid checkout of app/api/billing.py, as app/services/billing_service.py handles
-- them: the rows after each.
use third_party_vendor_risk.Base.{
  ℕ, ◌+◌, ◌≡◌, refl, ◌∙◌, ap, String, true, false, Option, none, some, ◌∷◌, ◌==◌, nat_eq, string_eq,
  any, arith,
}
use third_party_vendor_risk.Tenancy.{Organization}
use third_party_vendor_risk.Json.{
  int, str, obj, Fields, get, dict_or_empty, ◌>>=◌, list_or_empty, take_chars,
}
use third_party_vendor_risk.Billing.Rows.{
  OrgBilling, Store, BillingEvent, find_org, Outcome, applied, get_or_create, write_row, org_for,
  org_named, timestamp, items_of, subscription_price, period_end,
}
use third_party_vendor_risk.Billing.Webhooks.{
  effective, set_plan, is_stale, plan_for_price, subscribed_plan, subscribed_row, linked_row,
  change_subscription, subscription_changed, checkout_completed, dispatch, apply_event,
}
use third_party_vendor_risk.Billing.Endpoint.{Request, done, process_webhook}
use third_party_vendor_risk.Billing.Providers.{dev_prices, dev_event, subscription_object}
use third_party_vendor_risk.Billing.StandIn.{Effects, NewIds, paid_session, deliver}

module _ (d : Effects) (now : ℕ) (ids : NewIds) where
  -- The time of an event is that of its delivery.
  created_now :
      ◌≡◌ {A = ℕ}
        (elim (timestamp d.show d.int_of d.digits (int now)) [ none ↦ now | some t ↦ t ])
        now
  unfolding timestamp
  created_now = ground arith

  -- What the webhook makes of an event that it can read.
  abbrev heard : Store → Fields → Option (Outcome × Store)
  heard db event = apply_event d.show d.int_of d.digits dev_prices now db event

  pub deliver-heard :
      (db after : Store) (id type : String) (object : Fields) (outcome : Outcome)
      → let event = dev_event id type now object in
        (d.secret == "") ≡ false
        → (id == "") ≡ false
        → (type == "") ≡ false
        → d.verified (d.dumps event) (some (d.sign (d.dumps event) d.secret now)) d.secret ≡ true
        → d.loads (d.dumps event) ≡ some (obj event)
        → heard db event ≡ some (outcome, after)
        → deliver d now ids db event ≡ some after
  unfolding deliver process_webhook get
  deliver-heard db after id type object outcome secret named typed verified loaded e =
      let event = dev_event id type now object in
      let payload = d.dumps event in
      let request : Request = record {
        payload = payload;
        signature = some (d.sign payload d.secret now);
        now = now;
      } in
      let answered : process_webhook d.show d.int_of d.digits d.verified d.loads dev_prices d.secret
            db request
          ≡ (done outcome, after) =
        rw (process_webhook, secret, verified, loaded, named, typed, e) refl in
      rw (deliver, answered) (ap (λ r. some r.1) answered)

  module _ (db : Store) (org : Organization) (plan c : String) where
    abbrev pub row : OrgBilling
    row = (get_or_create org.id db).0

    abbrev pub paid : Store
    paid =
        let after =
          write_row (linked_row row (some c) (some ids.subscription)) (get_or_create org.id db).1 in
        let log : BillingEvent = record {
          event_id = take_chars 255 ids.first;
          type = "checkout.session.completed";
          org_id = some org.id;
          processed_at = now;
          outcome = applied;
        } in
        record after { events = log ∷ after.events }

    abbrev pub first_event : Fields
    first_event =
        dev_event ids.first "checkout.session.completed" now
          (paid_session d.show_id ids org.id plan (str c))

    pub checkout-heard :
        any (λ e. e.event_id == take_chars 255 ids.first) db.events ≡ false
        → d.digits (d.show_id org.id) ≡ some org.id
        → find_org org.id db.organizations ≡ some org
        → heard db (
            dev_event ids.first "checkout.session.completed" now
              (paid_session d.show_id ids org.id plan (str c)))
          ≡ some (applied, paid)
    unfolding apply_event get dict_or_empty timestamp dispatch checkout_completed org_for org_named
        take_chars
    checkout-heard fresh named found = rw (apply_event, fresh, org_for, named, found) refl

    -- The row and the store after the second event.
    abbrev pub active_row : OrgBilling
    active_row =
        subscribed_row (get_or_create org.id paid).0 (some ids.subscription) (some c) plan "active"
          false (some (now + 2592000)) now

    abbrev pub active : Store
    active =
        let after =
          set_plan org (effective plan "active") "active"
            (write_row active_row (get_or_create org.id paid).1) in
        let log : BillingEvent = record {
          event_id = take_chars 255 ids.second;
          type = "customer.subscription.created";
          org_id = some org.id;
          processed_at = now;
          outcome = applied;
        } in
        record after { events = log ∷ after.events }

    -- The object of the second event.
    abbrev pub created_sub : String → Fields
    created_sub price =
        subscription_object d.show_id ids.subscription (str c) org.id plan "active" (now + 2592000)
          false price

    abbrev pub second_event : String → Fields
    second_event price =
        dev_event ids.second "customer.subscription.created" now (created_sub price)

    period_end-sub :
        (price : String)
        → period_end d.show d.int_of d.digits (created_sub price) ≡ some (some (now + 2592000))
    unfolding period_end items_of timestamp get dict_or_empty list_or_empty
    period_end-sub price = ground arith

    subscribed_plan-sub :
        (price : String)
        → plan_for_price dev_prices (some price) ≡ some plan
        → subscribed_plan dev_prices (created_sub price) ≡ some (some plan)
    unfolding subscribed_plan subscription_price items_of get dict_or_empty list_or_empty
    subscribed_plan-sub price priced = ground (arith, priced)

    change_subscription-sub :
        (price : String)
        → plan_for_price dev_prices (some price) ≡ some plan
        → is_stale (get_or_create org.id paid).0 now (some ids.subscription) false ≡ false
        → change_subscription d.show d.int_of d.digits dev_prices paid org
            (created_sub price)
            now
            false
          ≡ some (
            applied,
            some org.id,
            set_plan org
                (effective plan "active")
                "active"
                (write_row active_row (get_or_create org.id paid).1),
          )
    unfolding change_subscription get is_stale set_plan
    change_subscription-sub price priced current =
        rw (change_subscription, current, subscribed_plan-sub price priced, period_end-sub price)
          refl

    pub subscription-heard :
        (price : String)
        → plan_for_price dev_prices (some price) ≡ some plan
        → any (λ e. e.event_id == take_chars 255 ids.second) paid.events ≡ false
        → d.digits (d.show_id org.id) ≡ some org.id
        → find_org org.id paid.organizations ≡ some org
        → is_stale (get_or_create org.id paid).0 now (some ids.subscription) false ≡ false
        → heard paid (dev_event ids.second "customer.subscription.created" now (created_sub price))
          ≡ some (applied, active)
    unfolding apply_event get dict_or_empty timestamp dispatch subscription_changed org_for
        org_named take_chars
    subscription-heard price priced fresh named found current =
        let go : ℕ → Option (Outcome × Store) = λ t.
          dispatch d.show d.int_of d.digits dev_prices paid "customer.subscription.created"
            (created_sub price) t
          >>= λ x. some (
            x.0,
            record x.2 {
              events =
                  record {
                    event_id = take_chars 255 ids.second;
                    type = "customer.subscription.created";
                    org_id = x.1;
                    processed_at = now;
                    outcome = x.0;
                  }
                  ∷ x.2.events;
            },
          ) in
        let at_now : go now ≡ some (applied, active) =
          rw (org_for, named, found, change_subscription-sub price priced current) refl in
        rw (apply_event, fresh) (ap go created_now ∙ at_now)
