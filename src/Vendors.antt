-- ===== src/Vendors.antt =====
-- app/services/vendor_service.py: the vendors of an organization. `strip` is `str.strip`. In a change
-- `none` stands for a field that is absent.
pub mod Cpe
pub mod Imports
pub mod Names
pub mod Reach
pub mod Seats
mod Tests
use third_party_vendor_risk.Base.{
  ℕ, suc, ◌+◌, String, Bool, true, false, ◌&&◌, not, Option, none, some, List, [], ◌∷◌, ◌==◌,
  nat_eq, string_eq, any, find_first, update_if, remove_if, is_some, map, if◌then◌else◌, Result, ok,
  err, ◌>>=◌, ◌>>◌, raise_if, or_raise, conflict, not_found,
}
use third_party_vendor_risk.Tenancy.{Organization, Db, get_org}
use third_party_vendor_risk.Entitlements.{require_vendor_capacity}
use third_party_vendor_risk.Ingest.{Vendor, is_named}

-- The table, and the key of its next row.
pub record VendorTable : Type 0 where
  pub vendors : List Vendor
  pub next_id : ℕ

-- What a new vendor is given.
pub record VendorData : Type 0 where
  pub name : String
  pub cpe_prefix : Option String
  pub annual_contract_value : Option ℕ
  pub data_sensitivity : Option String
  pub business_criticality : Option String
  pub contract_renewal_date : Option ℕ

pub record VendorChanges : Type 0 where
  pub name : Option String
  pub cpe_prefix : Option (Option String)
  pub annual_contract_value : Option (Option ℕ)
  pub data_sensitivity : Option (Option String)
  pub business_criticality : Option (Option String)
  pub contract_renewal_date : Option (Option ℕ)

-- The tables as the check of the plan counts them.
abbrev pub counted : Db → List Vendor → Db
counted db vendors = record db { vendor_orgs = map (λ v. v.org_id) vendors }

-- A plan check, where the organization is there.
abbrev pub check_vendors : Db → List Vendor → ℕ → ℕ → Result (Unit {0})
check_vendors db vendors org_id adding = elim (get_org db org_id) [
  | none ↦ ok tt
  | some org ↦ require_vendor_capacity (counted db vendors) org adding
]

abbrev pub new_vendor : (id org_id : ℕ) → VendorData → Vendor
new_vendor id org_id given = record {
  id = id;
  org_id = org_id;
  name = given.name;
  cpe_prefix = given.cpe_prefix;
  match_method = none;
  is_mapped = false;
  annual_contract_value = given.annual_contract_value;
  data_sensitivity = given.data_sensitivity;
  business_criticality = given.business_criticality;
  contract_renewal_date = given.contract_renewal_date;
  last_synced_at = none;
  next_sync_at = none;
}

-- `Vendor.id == vendor_id, Vendor.org_id == org_id`
abbrev pub is_vendor : ℕ → ℕ → Vendor → Bool
is_vendor org_id vendor_id v = v.id == vendor_id && v.org_id == org_id

unfoldable pub get_vendor : VendorTable → ℕ → ℕ → Result Vendor
get_vendor t org_id vendor_id =
    or_raise (find_first (is_vendor org_id vendor_id) t.vendors) not_found

-- A field of a change.
abbrev pub or_kept {ℓ} : {A : Type ℓ} → Option A → A → A
or_kept none kept = kept
or_kept (some value) kept = value

module _ (strip : String → String) where
  unfoldable pub create_vendor : Db → VendorTable → ℕ → VendorData → Result (Vendor × VendorTable)
  create_vendor db t org_id given = do
    raise_if (any (is_named org_id (strip given.name)) t.vendors) conflict
    check_vendors db t.vendors org_id 1
    let v = new_vendor t.next_id org_id (record given { name = strip given.name })
    ok (v, record { vendors = v ∷ t.vendors; next_id = suc t.next_id })

  abbrev pub changed : VendorChanges → Vendor → Vendor
  changed c v = record v {
    name = elim c.name [ none ↦ v.name | some name ↦ strip name ];
    cpe_prefix = or_kept c.cpe_prefix v.cpe_prefix;
    annual_contract_value = or_kept c.annual_contract_value v.annual_contract_value;
    data_sensitivity = or_kept c.data_sensitivity v.data_sensitivity;
    business_criticality = or_kept c.business_criticality v.business_criticality;
    contract_renewal_date = or_kept c.contract_renewal_date v.contract_renewal_date;
  }

  -- The new name is another one, and taken.
  abbrev pub is_clash : VendorTable → ℕ → Vendor → Option String → Bool
  is_clash t org_id v none = false
  is_clash t org_id v (some name) =
      not (strip name == v.name) && any (is_named org_id (strip name)) t.vendors

  unfoldable pub update_vendor : VendorTable → ℕ → ℕ → VendorChanges → Result (Vendor × VendorTable)
  unfolding get_vendor
  update_vendor t org_id vendor_id c = do
    v ← get_vendor t org_id vendor_id
    raise_if (is_clash t org_id v c.name) conflict
    ok (
      changed c v,
      record t { vendors = update_if (is_vendor org_id vendor_id) (changed c) t.vendors },
    )

unfoldable pub delete_vendor : VendorTable → ℕ → ℕ → Result VendorTable
unfolding get_vendor
delete_vendor t org_id vendor_id = do
  v ← get_vendor t org_id vendor_id
  ok (record t { vendors = remove_if (is_vendor org_id vendor_id) t.vendors })
