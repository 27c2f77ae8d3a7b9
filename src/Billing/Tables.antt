-- ===== src/Billing/Tables.antt =====
-- Reads after writes in the billing tables of app/services/billing_service.py.
use third_party_vendor_risk.Base.{
  ℕ, ◌≡◌, String, none, some, List, [], ◌∷◌, ◌==◌, arith, nat_eq, string_eq, find_first_sound,
  update_if, if◌then◌else◌, Option-cases, ◌⊎◌, inl, inr, str_eq_iff,
}
use third_party_vendor_risk.Tenancy.{Organization}
use third_party_vendor_risk.Billing.Rows.{
  OrgBilling, Store, find_row, find_org, get_or_create, write_row,
}
use third_party_vendor_risk.Billing.Webhooks.{set_plan}

find_row-update :
    (a : ℕ) (row : OrgBilling) (rows : List OrgBilling)
    → find_row a (update_if (λ r. r.org_id == row.org_id) (λ r. row) rows) ≡ (
        if a == row.org_id
        then elim (find_row a rows) [ none ↦ none | some _ ↦ some row ]
        else find_row a rows)
find_row-update a row [] = ground arith
find_row-update a row (r ∷ rows) = ground (arith, find_row-update a row rows)

find_org-update :
    (a b : ℕ) (to : String) (orgs : List Organization)
    → find_org a (update_if (λ o. o.id == b) (λ o. record o { plan = to }) orgs) ≡ (
        if a == b
        then elim (find_org a orgs) [ none ↦ none | some o ↦ some (record o { plan = to }) ]
        else find_org a orgs)
find_org-update a b to [] = ground arith
find_org-update a b to (o ∷ orgs) = ground (arith, find_org-update a b to orgs)

-- A row is there after `get_or_create`, the one that was there before or a fresh one, and the
-- rows of the others are as they were.
pub find_row-get_or_create :
    (a org_id : ℕ) (db : Store)
    → find_row a (get_or_create org_id db).1.rows
      ≡ (if a == org_id then some (get_or_create org_id db).0 else find_row a db.rows)
unfolding get_or_create
find_row-get_or_create a org_id db = ground arith

pub get_or_create-cases :
    (org_id : ℕ) (db : Store)
    → ((get_or_create org_id db).0.org_id ≡ org_id)
      × ((get_or_create org_id db).1.organizations ≡ db.organizations)
      × ((get_or_create org_id db).1.events ≡ db.events)
      × (((get_or_create org_id db).0.status ≡ none)
            × ((get_or_create org_id db).0.last_event_at ≡ none)
            × (find_row org_id db.rows ≡ none)
          ⊎ (find_row org_id db.rows ≡ some (get_or_create org_id db).0))
unfolding get_or_create
get_or_create-cases org_id db = elim (Option-cases (find_row org_id db.rows)) [
  | inl fresh ↦ ground arith
  | inr (r, old) ↦
      ground (arith, find_first_sound (λ (r : OrgBilling). r.org_id == org_id) db.rows r old)
]

pub get_or_create-audit : (org_id : ℕ) (db : Store) → (get_or_create org_id db).1.audit ≡ db.audit
unfolding get_or_create
get_or_create-audit org_id db = ground arith

-- The row of an organization after it has been created or found, and written.
pub find_row-written :
    (a org_id : ℕ) (row : OrgBilling) (db : Store)
    → row.org_id ≡ org_id
    → find_row a (write_row row (get_or_create org_id db).1).rows
      ≡ (if a == org_id then some row else find_row a db.rows)
find_row-written a org_id row db own = ground (
  arith,
  find_row-update a row (get_or_create org_id db).1.rows,
  find_row-get_or_create a org_id db,
)

-- The plan of an organization after `set_plan`, which is given the row that is stored.
pub find_org-set_plan :
    (a : ℕ) (org : Organization) (to status : String) (db : Store)
    → find_org org.id db.organizations ≡ some org
    → find_org a (set_plan org to status db).organizations
      ≡ (if a == org.id then some (record org { plan = to }) else find_org a db.organizations)
unfolding set_plan
find_org-set_plan a org to status db found =
    ground (arith, str_eq_iff org.plan to, find_org-update a org.id to db.organizations)
