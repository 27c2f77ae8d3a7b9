-- ===== src/Billing/Plans.antt =====
-- The plan of an organization against the last subscription state of its billing row, and the
-- order in which those states are applied, for one event of app/services/billing_service.py.
use third_party_vendor_risk.Base.{ℕ, ◌≡◌, String, Option, some, arith, nat_eq, string_eq}
use third_party_vendor_risk.Tenancy.{Organization}
use third_party_vendor_risk.Billing.Rows.{
  OrgBilling, Store, find_row, find_org, get_or_create, write_row,
}
use third_party_vendor_risk.Billing.Webhooks.{
  Handled, effective, set_plan, subscribed_row, linked_row,
}
use third_party_vendor_risk.Billing.Tables.{
  find_row-get_or_create, get_or_create-cases, find_row-written, find_org-set_plan,
}
use third_party_vendor_risk.Billing.Effects.{Change, kept, held, linked, subscribed, unpaid}

-- Where a subscription state is known, the organization has the plan that it entitles to.
abbrev pub IsInForce : Store → Type 0
IsInForce db =
    (a : ℕ) (row : OrgBilling) (status : String) (org : Organization)
    → find_row a db.rows ≡ some row
    → row.status ≡ some status
    → find_org a db.organizations ≡ some org
    → org.plan ≡ effective row.plan status

pub set_plan-rows :
    (org : Organization) (to status : String) (db : Store)
    → (set_plan org to status db).rows ≡ db.rows
unfolding set_plan
set_plan-rows org to status db = ground arith

module _ (db : Store) (inv : IsInForce db) where
  held-IsInForce : (org_id : ℕ) → IsInForce (get_or_create org_id db).1
  held-IsInForce org_id a row status org in_row has_status in_org = ground (
    arith,
    get_or_create-cases org_id db,
    find_row-get_or_create a org_id db,
    inv a row status org,
  )

  linked-IsInForce :
      (org_id : ℕ) (customer subscription : Option String)
      → IsInForce (
          write_row
            (linked_row (get_or_create org_id db).0 customer subscription)
            (get_or_create org_id db).1)
  linked-IsInForce org_id customer subscription a row status org in_row has_status in_org = ground (
    arith,
    get_or_create-cases org_id db,
    find_row-written a org_id (linked_row (get_or_create org_id db).0 customer subscription) db,
    inv a (get_or_create org_id db).0 status org,
    inv a row status org,
  )

  -- A handled event keeps the plans in force.
  pub Change-IsInForce : {h : Handled} → Change db h → IsInForce h.2
  Change-IsInForce (kept o) = inv
  Change-IsInForce (held o org found) = held-IsInForce org.id
  Change-IsInForce (linked org customer subscription found) =
      linked-IsInForce org.id customer subscription
  Change-IsInForce
        (subscribed org sub_id customer plan status cancel until created deleted found fresh) =
      λ a row st o in_row has_status in_org.
        let written =
          subscribed_row (get_or_create org.id db).0 sub_id customer plan status cancel until
            created in
        let stored = write_row written (get_or_create org.id db).1 in
        ground (
          arith,
          get_or_create-cases org.id db,
          set_plan-rows org (effective plan status) status stored,
          find_row-written a org.id written db,
          find_org-set_plan a org (effective plan status) status stored,
          inv a row st o,
        )
  Change-IsInForce (unpaid org attempt) = inv
