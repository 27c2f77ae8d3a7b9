-- ===== src/Billing/Providers.antt =====
-- The billing providers of app/services/billing.py: the choice between them, the hosted pages that they
-- open and the events of the stand-in. Stripe's client and session tokens are parameters; a random id is
-- an argument.
use Prim.Native.Char.{code}
use Prim.Native.String.{◌++◌}
use third_party_vendor_risk.Base.{
  nat_beq, ℕ, String, Bool, true, false, ◌&&◌, ◌||◌, not, Option, none, some, List, [], ◌∷◌, ◌==◌,
  nat_eq, string_eq, find_first, if◌then◌else◌, Result, ok, err, unavailable,
}
use third_party_vendor_risk.Json.{Json, bool, int, str, arr, obj, nil, cons, Fields, end, field}
use third_party_vendor_risk.Oidc.Dev.{Tokens, create_token, optional_text}

pub data Kind : Type 0 where
  stripe_test stripe_live dev_stand_in : Kind

-- `BillingProvider`; the arguments of a checkout are the organization, the plan, the customer, the
-- address and the two URLs, those of a portal the organization, the customer and the URL.
pub record BillingProvider : Type 0 where
  pub kind : Kind
  pub prices : List (String × String)
  pub webhook_secret : String
  pub create_checkout :
      (org_id : ℕ) (plan : String) (customer_id : Option String)
      (email success_url cancel_url : String)
      → Result String
  pub create_portal : (org_id : ℕ) (customer_id return_url : String) → Result String

-- `s.startswith(p)`
unfoldable pub starts_with : (p s : String) → Bool
starts_with String.[] s = true
starts_with (String.◌∷◌ c p) String.[] = false
starts_with (String.◌∷◌ c p) (String.◌∷◌ d s) =
    let rest = starts_with p s in if nat_beq (code c) (code d) then rest else false

abbrev pub is_live_key : String → Bool
is_live_key key = starts_with "sk_live_" key || starts_with "rk_live_" key

-- What `build_billing` reads of the settings, and the provider that it makes.
pub record BillingSettings : Type 0 where
  pub stripe_secret_key : Option String
  pub stripe_allow_live : Bool
  pub billing_dev_provider : Bool
  pub is_production : Bool

unfoldable pub build_billing : BillingSettings → Option Kind
unfolding starts_with
build_billing settings =
    let stand_in =
      if settings.billing_dev_provider && not settings.is_production
      then some dev_stand_in
      else none in
    elim settings.stripe_secret_key [
      | none ↦ stand_in
      | some key ↦
          if key == ""
          then stand_in
          else if is_live_key key
          then (if settings.stripe_allow_live then some stripe_live else none)
          else some stripe_test
    ]

-- `_price`; the list holds the prices that are configured.
abbrev pub price_of : String → List (String × String) → Option (String × String)
price_of plan prices = find_first (λ p. p.0 == plan) prices

-- The tags of a checkout and of its subscription.
abbrev pub tags : (org_id : ℕ → String) → ℕ → String → Json
tags show_id org_id plan = obj (field "org_id" (str (show_id org_id)) (field "plan" (str plan) end))

abbrev pub ends_with_customer : Option String → String → Fields
ends_with_customer customer_id email = elim customer_id [
  | none ↦ if email == "" then end else field "customer_email" (str email) end
  | some c ↦
      if not (c == "")
      then field "customer" (str c) end
      else if email == ""
      then end
      else field "customer_email" (str email) end
]

abbrev pub checkout_params :
    (show_id : ℕ → String) (org_id : ℕ) (plan price : String) (customer_id : Option String)
    (email success_url cancel_url : String)
    → Fields
checkout_params show_id org_id plan price customer_id email success_url cancel_url =
    field "mode" (str "subscription") (
      field "line_items"
        (arr (cons (obj (field "price" (str price) (field "quantity" (int 1) end))) nil))
        (field "client_reference_id" (str (show_id org_id)) (
          field "metadata" (tags show_id org_id plan) (
            field "subscription_data" (obj (field "metadata" (tags show_id org_id plan) end)) (
              field "success_url" (str success_url)
                (field "cancel_url" (str cancel_url) (ends_with_customer customer_id email)))))))

abbrev pub answer_of : Option String → Result String
answer_of none = err unavailable
answer_of (some url) = ok url

-- `StripeBilling`; `checkout` and `portal` are the calls of its client, which give the session's URL
-- or raise. `show_id` is `str` of a number.
module _ (checkout portal : Fields → Option String) (show_id : ℕ → String) where
  unfoldable pub stripe_checkout :
      List (String × String)
      → (org_id : ℕ) (plan : String) (customer_id : Option String)
        (email success_url cancel_url : String)
      → Result String
  stripe_checkout prices org_id plan customer_id email success_url cancel_url =
      elim (price_of plan prices) [
        | none ↦ err unavailable
        | some price ↦ answer_of (
            checkout (
              checkout_params show_id org_id plan price.1 customer_id email success_url cancel_url))
      ]

  unfoldable pub stripe_portal :
      (configuration : Option String) (org_id : ℕ) (customer_id return_url : String) → Result String
  stripe_portal configuration org_id customer_id return_url = answer_of (
      portal (
        field "customer" (str customer_id) (
          field "return_url" (str return_url) (elim configuration [
            | none ↦ end
            | some c ↦ if c == "" then end else field "configuration" (str c) end
          ]))))

  abbrev pub stripe_billing :
      Bool → List (String × String) → (webhook_secret : String) → Option String → BillingProvider
  stripe_billing is_live prices webhook_secret configuration = record {
    kind = if is_live then stripe_live else stripe_test;
    prices = prices;
    webhook_secret = webhook_secret;
    create_checkout = stripe_checkout prices;
    create_portal = stripe_portal configuration;
  }

abbrev pub dev_prices : List (String × String)
dev_prices = ("team", "price_dev_team") ∷ ("business", "price_dev_business") ∷ []

-- `DevBilling.event`
abbrev pub dev_event : (id type : String) (created : ℕ) → Fields → Fields
dev_event id type created object = field "id" (str id) (
    field "object" (str "event") (
      field "type" (str type) (
        field "created" (int created) (
          field "livemode" (bool false)
            (field "data" (obj (field "object" (obj object) end)) end)))))

-- `DevBilling.subscription`, with the price of its plan.
abbrev pub subscription_object :
    (show_id : ℕ → String) (subscription_id : String) (customer : Json) (org_id : ℕ)
    (plan status : String) (period_end : ℕ) (cancel_at_period_end : Bool) (price : String)
    → Fields
subscription_object show_id subscription_id customer org_id plan status period_end
      cancel_at_period_end price =
    let item = obj (
      field "price" (obj (field "id" (str price) end))
        (field "current_period_end" (int period_end) end)) in
    field "id" (str subscription_id) (
      field "object" (str "subscription") (
        field "customer" customer (
          field "status" (str status) (
            field "cancel_at_period_end" (bool cancel_at_period_end) (
              field "metadata" (tags show_id org_id plan) (
                field "items"
                  (obj (field "object" (str "list") (field "data" (arr (cons item nil)) end)))
                  end))))))

-- `none` is the KeyError of a plan without a price.
unfoldable pub dev_subscription :
    (show_id : ℕ → String) (subscription_id : String) (customer : Json) (org_id : ℕ)
    (plan status : String) (period_end : ℕ) (cancel_at_period_end : Bool)
    → Option Fields
dev_subscription show_id subscription_id customer org_id plan status period_end
      cancel_at_period_end =
    elim (price_of plan dev_prices) [
      | none ↦ none
      | some price ↦ some (
          subscription_object show_id subscription_id customer org_id plan status period_end
            cancel_at_period_end price.1)
    ]

-- `DevBilling.create_checkout` and `create_portal`: a signed link to the page of the stand-in.
module _ (k : Tokens) (base : String) (now : ℕ) where
  abbrev pub page : String → Option String → Result String
  page path none = err unavailable
  page path (some token) = ok (base ++ (path ++ k.urlencode (("token", token) ∷ [])))

  unfoldable pub dev_checkout :
      (org_id : ℕ) (plan : String) (customer_id : Option String)
      (email success_url cancel_url : String)
      → Result String
  unfolding create_token
  dev_checkout org_id plan customer_id email success_url cancel_url =
      page "/api/v1/billing/dev/checkout?" (
        create_token k now
          (field "type" (str "dev_checkout") (
            field "org_id" (int org_id) (
              field "plan" (str plan) (
                field "customer_id" (optional_text customer_id) (
                  field "email" (str email) (
                    field "success_url" (str success_url)
                      (field "cancel_url" (str cancel_url) end)))))))
          1800)

  unfoldable pub dev_portal : (org_id : ℕ) (customer_id return_url : String) → Result String
  unfolding create_token
  dev_portal org_id customer_id return_url = page "/api/v1/billing/dev/portal?" (
      create_token k now
        (field "type" (str "dev_portal") (
          field "org_id" (int org_id)
            (field "customer_id" (str customer_id) (field "return_url" (str return_url) end))))
        1800)

  abbrev pub dev_billing : (webhook_secret : String) → BillingProvider
  dev_billing webhook_secret = record {
    kind = dev_stand_in;
    prices = dev_prices;
    webhook_secret = webhook_secret;
    create_checkout = dev_checkout;
    create_portal = dev_portal;
  }
