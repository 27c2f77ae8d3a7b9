-- ===== src/Billing/CheckoutTests.antt =====
-- A checkout that is paid on the page of the stand-in.
use third_party_vendor_risk.Base.{
  ℕ, ◌≤◌, ◌≡◌, refl, true, none, some, [], ◌∷◌, ◌==◌, nat_eq, string_eq, if◌then◌else◌,
}
use third_party_vendor_risk.Tenancy.{Organization}
use third_party_vendor_risk.Json.{null, int, str, obj, Fields, end, field, get, as_text, take_chars}
use third_party_vendor_risk.Billing.Rows.{Store, OrgBilling, find_row, find_org}
use third_party_vendor_risk.Billing.Owners.{has_active_subscription}
use third_party_vendor_risk.Billing.StandIn.{Effects, NewIds, redirect, dev_checkout_complete}
use third_party_vendor_risk.Billing.Heard.{first_event, second_event}
use third_party_vendor_risk.Billing.Checkout.{dev_checkout_complete-subscribes}

abbrev link : Fields
link = field "type" (str "dev_checkout") (
    field "org_id" (int 7) (
      field "plan" (str "team") (
        field "customer_id" null (
          field "success_url" (str "/settings?billing=success")
            (field "cancel_url" (str "/settings") end)))))

abbrev acme : Organization
acme = record { id = 7; slug = "acme"; plan = "free" }

abbrev free_store : Store
free_store = record { organizations = acme ∷ []; rows = []; events = []; audit = [] }

abbrev ids : NewIds
ids = record {
  customer = "cus_dev_1";
  subscription = "sub_dev_1";
  object = "cs_dev_1";
  first = "evt_dev_1";
  second = "evt_dev_2";
}

-- Payloads are the ids of their events.
abbrev deaf : Effects
deaf = record {
  show = λ v. "?";
  show_id = λ n. "7";
  int_of = λ s. none;
  digits = λ s. some 7;
  verified = λ payload signature secret. true;
  loads = λ payload. none;
  dumps = λ event. elim (as_text (get "id" event)) [ none ↦ "" | some id ↦ id ];
  sign = λ payload secret timestamp. "signed";
  read = λ now token. some link;
  secret = "whsec";
}

abbrev effects : Effects
effects = record deaf {
  loads = λ payload.
      if payload == "evt_dev_1"
      then some (obj (first_event deaf 100 ids free_store acme "team" "cus_dev_1"))
      else some
          (obj (second_event deaf 100 ids free_store acme "team" "cus_dev_1" "price_dev_team"));
}

no_row :
    (r : OrgBilling) (last : ℕ)
    → find_row 7 free_store.rows ≡ some r
    → r.last_event_at ≡ some last
    → last ≤ 100
no_row r last found at = absurd (cc)

dev_checkout_complete-subscribes_example :
    (after : Store) × (dev_checkout_complete effects 100 ids "token" "pay" free_store
      ≡ (redirect "/settings?billing=success", after))
    × (find_org 7 after.organizations ≡ some (record acme { plan = "team" }))
    × (has_active_subscription (find_row 7 after.rows) ≡ true)
    × (dev_checkout_complete effects 100 ids "token" "pay" after
        ≡ (redirect "/settings?billing=success", after))
unfolding get take_chars has_active_subscription
dev_checkout_complete-subscribes_example =
    dev_checkout_complete-subscribes effects 100 ids ids free_store acme "token"
      "/settings?billing=success" "team" "cus_dev_1" link refl refl refl refl refl refl refl refl
      refl no_row (refl, refl, refl) (refl, refl, refl) refl (λ payload. refl) refl refl refl
