-- ===== src/Billing/Effects.antt =====
-- The effects that an event handled by app/services/billing_service.py can have on the store.
use mathlib.Core.Option.{none-ne-some, some-injective}
use third_party_vendor_risk.Base.{
  ℕ, ◌≡◌, sym, subst, String, Bool, true, false, ◌||◌, Option, none, some, List, ◌∷◌, ◌==◌, arith,
  nat_eq, string_eq, find_first, find_first_sound, if◌then◌else◌, Option-cases, Bool-cases, inl,
  inr,
}
use third_party_vendor_risk.Tenancy.{Organization}
use third_party_vendor_risk.Json.{
  Json, null, Fields, get, truthy, or_else, dict_or_empty, as_text, column, to_text,
}
use third_party_vendor_risk.Billing.Rows.{
  OrgBilling, Outcome, applied, stale, ignored, unmatched, payment_failed, Store, find_org, is_text,
  get_or_create, write_row, org_named, org_of_id, org_of_customer, org_for, period_end,
}
use third_party_vendor_risk.Billing.Webhooks.{
  Handled, effective, set_plan, is_stale, subscribed_plan, subscribed_row, linked_row,
  change_subscription, subscription_changed, checkout_completed, payment_failed_event, dispatch,
}

-- What a handler can do to the store.
pub data Change (db : Store) : Handled → Type 0 where
  kept : (o : Outcome) → Change db (o, none, db)
  held :
      (o : Outcome) (org : Organization)
      → find_org org.id db.organizations ≡ some org
      → Change db (o, some org.id, (get_or_create org.id db).1)
  linked :
      (org : Organization) (customer subscription : Option String)
      → find_org org.id db.organizations ≡ some org
      → Change db (
        applied,
        some org.id,
        write_row
            (linked_row (get_or_create org.id db).0 customer subscription)
            (get_or_create org.id db).1,
      )
  subscribed :
      (org : Organization) (sub_id customer : Option String) (plan status : String) (cancel : Bool)
      (until : Option ℕ) (created : ℕ) (deleted : Bool)
      → find_org org.id db.organizations ≡ some org
      → is_stale (get_or_create org.id db).0 created sub_id deleted ≡ false
      → Change db (
        applied,
        some org.id,
        set_plan org (effective plan status) status (
            write_row
              (subscribed_row
                (get_or_create org.id db).0
                sub_id
                customer
                plan
                status
                cancel
                until
                created)
              (get_or_create org.id db).1),
      )
  unpaid :
      (org : Organization) (attempt : Json)
      → Change db
          (applied, some org.id, record db { audit = payment_failed org.id attempt ∷ db.audit })

find_org-found :
    (id : ℕ) (orgs : List Organization) (org : Organization)
    → find_org id orgs ≡ some org
    → find_org org.id orgs ≡ some org
find_org-found id orgs org found =
    let own : org.id ≡ id =
      ground (arith, find_first_sound (λ (o : Organization). o.id == id) orgs org found) in
    subst (λ k. find_org k orgs ≡ some org) (sym own) found

org_of_id-found :
    (orgs : List Organization) (id : Option ℕ) (org : Organization)
    → org_of_id orgs id ≡ some org
    → find_org org.id orgs ≡ some org
org_of_id-found orgs none org e = absurd (none-ne-some org e)
org_of_id-found orgs (some id) org e = find_org-found id orgs org e

module _ (show : Json → String) (int_of digits : String → Option ℕ) where
  org_named-found :
      (orgs : List Organization) (raw : Json) (org : Organization)
      → org_named show int_of digits orgs raw ≡ some org
      → find_org org.id orgs ≡ some org
  unfolding org_named
  org_named-found orgs null org e = absurd (none-ne-some org e)
  org_named-found orgs raw org e = org_of_id-found orgs _ org e

  org_of_customer-found :
      (db : Store) (customer : Json) (org : Organization)
      → org_of_customer show int_of digits db customer ≡ some org
      → find_org org.id db.organizations ≡ some org
  unfolding org_of_customer
  org_of_customer-found db customer org e = elim (Option-cases (as_text customer)) [
    | inl other ↦ absurd (ground arith)
    | inr (c, text) ↦
        elim (Option-cases
          (find_first (λ (r : OrgBilling). is_text c r.stripe_customer_id) db.rows)) [
            | inl absent ↦ absurd (ground arith)
            | inr (row, found) ↦ find_org-found row.org_id db.organizations org (ground arith)
          ]
  ]

  -- The organization that an event is matched to is one that is stored.
  org_for-found :
      (db : Store) (reference metadata customer : Json) (org : Organization)
      → org_for show int_of digits db reference metadata customer ≡ some (some org)
      → find_org org.id db.organizations ≡ some org
  unfolding org_for
  org_for-found db reference metadata customer org e =
      elim (Option-cases (dict_or_empty metadata)) [
        | inl raised ↦ absurd (ground arith)
        | inr (tags, read) ↦ ground (
          arith,
          org_named-found db.organizations reference org,
          org_named-found db.organizations (get "org_id" tags) org,
          org_of_customer-found db customer org,
        )
      ]

  as_handled : (db : Store) (x h : Handled) → Change db x → some x ≡ some h → Change db h
  as_handled db x h c e = subst (Change db) (some-injective x h e) c

  change_subscription-Change :
      (prices : List (String × String)) (db : Store) (org : Organization) (sub : Fields)
      (created : ℕ) (deleted : Bool) (h : Handled)
      → find_org org.id db.organizations ≡ some org
      → change_subscription show int_of digits prices db org sub created deleted ≡ some h
      → Change db h
  unfolding change_subscription
  change_subscription-Change prices db org sub created deleted h known e =
      elim (Option-cases (column (get "id" sub))) [
        | inl bad ↦ absurd (ground arith)
        | inr (sub_id, id_read) ↦
            elim (Bool-cases (is_stale (get_or_create org.id db).0 created sub_id deleted)) [
              | inl old ↦ as_handled db _ h (held stale org known) (ground arith)
              | inr fresh ↦ elim (Option-cases (subscribed_plan prices sub)) [
                | inl raised ↦ absurd (ground arith)
                | inr (none, unknown) ↦ as_handled db _ h (held ignored org known) (ground arith)
                | inr (some plan, priced) ↦ elim (Option-cases (column (get "customer" sub))) [
                  | inl raised ↦ absurd (ground arith)
                  | inr (customer, read) ↦ elim (Option-cases (period_end show int_of digits sub)) [
                    | inl raised ↦ absurd (ground arith)
                    | inr (until, dated) ↦
                        as_handled db _ h
                          (subscribed org sub_id customer plan
                            (if deleted
                              then "canceled"
                              else to_text show (or_else (get "status" sub) (Json.str "")))
                            (truthy (get "cancel_at_period_end" sub)) until created deleted known
                            fresh)
                          (ground arith)
                  ]
                ]
              ]
            ]
      ]

  subscription_changed-Change :
      (prices : List (String × String)) (db : Store) (sub : Fields) (created : ℕ) (deleted : Bool)
      (h : Handled)
      → subscription_changed show int_of digits prices db sub created deleted ≡ some h
      → Change db h
  unfolding subscription_changed
  subscription_changed-Change prices db sub created deleted h e =
      elim (Option-cases
        (org_for show int_of digits db null (get "metadata" sub) (get "customer" sub))) [
          | inl raised ↦ absurd (ground arith)
          | inr (none, unknown) ↦ as_handled db _ h (kept unmatched) (ground arith)
          | inr (some org, found) ↦
              change_subscription-Change prices db org sub created deleted h
                (org_for-found db null (get "metadata" sub) (get "customer" sub) org found)
                (ground arith)
        ]

  checkout_completed-Change :
      (db : Store) (session : Fields) (h : Handled)
      → checkout_completed show int_of digits db session ≡ some h
      → Change db h
  unfolding checkout_completed
  checkout_completed-Change db session h e =
      let ref = get "client_reference_id" session in
      let meta = get "metadata" session in
      let cus = get "customer" session in
      elim (Option-cases (org_for show int_of digits db ref meta cus)) [
        | inl raised ↦ absurd (ground arith)
        | inr (none, unknown) ↦ as_handled db _ h (kept unmatched) (ground arith)
        | inr (some org, found) ↦ elim (Option-cases (column cus)) [
          | inl raised ↦ absurd (ground arith)
          | inr (customer, read) ↦ elim (Option-cases (column (get "subscription" session))) [
            | inl raised ↦ absurd (ground arith)
            | inr (subscription, read_too) ↦
                as_handled db _ h
                  (linked org customer subscription (org_for-found db ref meta cus org found))
                  (ground arith)
          ]
        ]
      ]

  payment_failed_event-Change :
      (db : Store) (invoice : Fields) (h : Handled)
      → payment_failed_event show int_of digits db invoice ≡ some h
      → Change db h
  unfolding payment_failed_event
  payment_failed_event-Change db invoice h e =
      elim (Option-cases (dict_or_empty (get "parent" invoice))) [
        | inl raised ↦ absurd (ground arith)
        | inr (parent, read) ↦
            elim (Option-cases (dict_or_empty (get "subscription_details" parent))) [
              | inl raised ↦ absurd (ground arith)
              | inr (details, read_too) ↦
                  elim (Option-cases (
                    org_for show int_of digits db null (get "metadata" details)
                      (get "customer" invoice))) [
                        | inl raised ↦ absurd (ground arith)
                        | inr (none, unknown) ↦ as_handled db _ h (kept unmatched) (ground arith)
                        | inr (some org, found) ↦
                            as_handled db _ h (unpaid org (get "attempt_count" invoice))
                              (ground arith)
                      ]
            ]
      ]

  -- Every event that is handled has one of these effects.
  pub dispatch-Change :
      (prices : List (String × String)) (db : Store) (type : String) (object : Fields) (created : ℕ)
      (h : Handled)
      → dispatch show int_of digits prices db type object created ≡ some h
      → Change db h
  unfolding dispatch
  dispatch-Change prices db type object created h e =
      elim (Bool-cases (type == "checkout.session.completed")) [
        | inl checkout ↦ checkout_completed-Change db object h (ground arith)
        | inr no_checkout ↦
            elim (Bool-cases (
              type == "customer.subscription.created" || type == "customer.subscription.updated")) [
                | inl changed ↦
                    subscription_changed-Change prices db object created false h (ground arith)
                | inr not_changed ↦ elim (Bool-cases (type == "customer.subscription.deleted")) [
                  | inl gone ↦
                      subscription_changed-Change prices db object created true h (ground arith)
                  | inr not_gone ↦ elim (Bool-cases (type == "invoice.payment_failed")) [
                    | inl failed ↦ payment_failed_event-Change db object h (ground arith)
                    | inr other ↦ as_handled db _ h (kept ignored) (ground arith)
                  ]
                ]
              ]
      ]
