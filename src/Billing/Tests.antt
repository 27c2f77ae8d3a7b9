-- ===== src/Billing/Tests.antt =====
-- A subscription event for one organization, and the theorems about deliveries at it.
use third_party_vendor_risk.Base.{
  ℕ, ◌≤◌, ◌≡◌, refl, String, true, Option, none, some, [], ◌∷◌, ◌==◌, arith, nat_eq, string_eq,
  if◌then◌else◌, Bool,
}
use third_party_vendor_risk.Tenancy.{Organization}
use third_party_vendor_risk.Json.{
  Json, str, int, obj, Fields, end, field, get, dict_or_empty, list_or_empty, take_chars,
}
use third_party_vendor_risk.Billing.Rows.{
  applied, duplicate, Store, plan_changed, get_or_create, timestamp, org_named, org_of_customer,
  org_for, items_of, subscription_price, period_end,
}
use third_party_vendor_risk.Billing.Webhooks.{
  effective, plan_for_price, set_plan, is_stale, subscribed_plan, change_subscription,
  subscription_changed, dispatch, apply_event,
}
use third_party_vendor_risk.Billing.Endpoint.{Request, process_webhook, done}
use third_party_vendor_risk.Billing.Plans.{IsInForce}
use third_party_vendor_risk.Billing.Events.{event_clock}
use third_party_vendor_risk.Billing.Delivery.{
  receive, receive-IsInForce, receive-clock, redelivery-duplicate,
}
use third_party_vendor_risk.Billing.Audits.{IsAudited, apply_event-IsAudited}

abbrev no_text : Json → String
no_text v = ""

abbrev one : String → Option ℕ
one s = if s == "1" then some 1 else none

abbrev subscription : Fields
subscription = field "id" (str "sub_1") (
    field "customer" (str "cus_1") (
      field "status" (str "active")
        (field "metadata" (obj (field "org_id" (str "1") (field "plan" (str "team") end))) end)))

abbrev event : Fields
event = field "id" (str "evt_1") (
    field "type" (str "customer.subscription.updated")
      (field "created" (int 500) (field "data" (obj (field "object" (obj subscription) end)) end)))

abbrev acme : Organization
acme = record { id = 1; slug = "acme"; plan = "free" }

abbrev db : Store
db = record { organizations = acme ∷ []; rows = []; events = []; audit = [] }

abbrev any_signature : String → Option String → String → Bool
any_signature payload signature secret = true

abbrev load_event : String → Option Json
load_event payload = if payload == "evt" then some (obj event) else none

abbrev delivery : Request
delivery = record { payload = "evt"; signature = none; now = 600 }

abbrev again : Request
again = record { payload = "evt"; signature = some "t=900"; now = 900 }

program : Unit {0}
unfolding process_webhook apply_event dispatch subscription_changed change_subscription
    subscribed_plan plan_for_price is_stale set_plan effective get_or_create timestamp org_named
    org_of_customer org_for items_of subscription_price period_end dict_or_empty list_or_empty get
    take_chars receive
program = tt

abbrev after : Store
after = (process_webhook no_text one one any_signature load_event [] "whsec" db delivery).1

upgraded :
    (after.organizations ≡ record acme { plan = "team" } ∷ [])
    × (after.audit ≡ plan_changed 1 "free" "team" "active" ∷ [])
unfolding program
upgraded = (refl, refl)

db-IsInForce : IsInForce db
db-IsInForce a row status org in_row has_status in_org = absurd (ground arith)

receive-IsInForce_example :
    IsInForce
      (receive no_text one one any_signature load_event [] "whsec" db (delivery ∷ again ∷ []))
receive-IsInForce_example =
    receive-IsInForce no_text one one any_signature load_event [] "whsec" db (delivery ∷ again ∷ [])
      db-IsInForce

receive-clock_example :
    event_clock 1 db
    ≤ event_clock 1 (receive no_text one one any_signature load_event [] "whsec" db (delivery ∷ []))
receive-clock_example =
    receive-clock no_text one one any_signature load_event [] "whsec" db (delivery ∷ []) 1

redelivery-duplicate_example :
    process_webhook no_text one one any_signature load_event [] "whsec"
      (receive no_text one one any_signature load_event [] "whsec" after [])
      again
    ≡ (done duplicate, receive no_text one one any_signature load_event [] "whsec" after [])
unfolding program
redelivery-duplicate_example =
    redelivery-duplicate no_text one one any_signature load_event [] "whsec" db delivery again []
      applied refl refl refl

apply_event-IsAudited_example : IsAudited 1 acme db after
unfolding program
apply_event-IsAudited_example =
    apply_event-IsAudited no_text one one [] 600 db after event applied 1 acme refl refl
