-- ===== src/Vendors/Tests.antt =====
-- Runs of app/services/vendor_service.py and of an SBOM import.
use third_party_vendor_risk.Base.{
  ◌+◌, ◌≡◌, ◌≤◌, ◌<◌, refl, String, none, some, List, [], ◌∷◌, arith, string_eq, nat_eq, length,
  inl, inr, Result-cases, ok,
}
use third_party_vendor_risk.Tenancy.{Organization, Db}
use third_party_vendor_risk.Entitlements.{
  plan_for, find_plan, require_vendor_capacity, vendor_count,
}
use third_party_vendor_risk.Ingest.{Vendor}
use third_party_vendor_risk.Vendors.{VendorTable, VendorData, counted, create_vendor}
use third_party_vendor_risk.Vendors.Cpe.{
  cpe_prefix, cpe_fields, split_unescaped, split_colons, starts_with, drop_text, take_text, escape,
}
use third_party_vendor_risk.Vendors.Imports.{
  Item, Importing, Texts, import_vendors, import_items, import_item, start_import,
  existing_prefixes,
}
use third_party_vendor_risk.Vendors.Names.{IsValid}
use third_party_vendor_risk.Vendors.Reach.{here, next, imported_rows, Reach-IsValid}
use third_party_vendor_risk.Vendors.Seats.{import_vendors-seats}

abbrev as_is : String → String
as_is s = s

abbrev texts : Texts
texts = record { strip = as_is; lower = as_is; unquote = as_is; casefold = as_is }

-- An escaped colon belongs to its field.
prefix_23 :
    cpe_prefix as_is as_is as_is "cpe:2.3:a:ac\\:me:log4j:1.0" ≡ some "cpe:2.3:a:ac\\:me:log4j"
unfolding cpe_prefix cpe_fields split_unescaped split_colons starts_with drop_text escape
prefix_23 = refl

prefix_22 : cpe_prefix as_is as_is as_is "cpe:/a:acme:log+j:1.0" ≡ some "cpe:2.3:a:acme:log\\+j"
unfolding cpe_prefix cpe_fields split_unescaped split_colons starts_with drop_text escape
prefix_22 = refl

any_product : cpe_prefix as_is as_is as_is "cpe:2.3:a:acme:*:1.0" ≡ none
unfolding cpe_prefix cpe_fields split_unescaped split_colons starts_with drop_text escape
any_product = refl

abbrev org : Organization
org = record { id = 7; slug = "acme"; plan = "free" }

abbrev db : Db
db = record {
  organizations = org ∷ [];
  users = [];
  identities = [];
  memberships = [];
  invitations = [];
  vendor_orgs = [];
}

abbrev empty : VendorTable
empty = record { vendors = []; next_id = 1 }

abbrev acme : VendorData
acme = record {
  name = "Acme";
  cpe_prefix = some "cpe:2.3:a:acme:log4j";
  annual_contract_value = none;
  data_sensitivity = none;
  business_criticality = none;
  contract_renewal_date = none;
}

added : (r : Vendor × VendorTable) × (create_vendor as_is db empty 7 acme ≡ ok r)
unfolding create_vendor require_vendor_capacity plan_for find_plan vendor_count
added = elim (Result-cases (create_vendor as_is db empty 7 acme)) [
  | inl bad ↦ absurd (cc)
  | inr done ↦ done
]

abbrev items : List Item
items =
    record { name = some "Globex"; cpe_prefix = none }
    ∷ record { name = some "Globex"; cpe_prefix = none }
    ∷ record { name = none; cpe_prefix = none }
    ∷ record { name = some "Initech"; cpe_prefix = some "no cpe" }
    ∷ []

imports : (r : Importing × VendorTable) × (import_vendors texts db empty 7 items ≡ ok r)
unfolding import_vendors import_items import_item start_import existing_prefixes take_text
    cpe_prefix cpe_fields split_unescaped split_colons starts_with drop_text escape
    require_vendor_capacity plan_for find_plan vendor_count
imports = elim (Result-cases (import_vendors texts db empty 7 items)) [
  | inl bad ↦ absurd (cc)
  | inr done ↦ done
]

-- A second row of a name, a row without a name and a row with a bad CPE are skipped.
skipped_rows : length (import_items texts 7 items (start_import texts empty 7)).skipped ≡ 3
unfolding import_items import_item start_import existing_prefixes take_text cpe_prefix cpe_fields
    split_unescaped split_colons starts_with drop_text escape
skipped_rows = refl

empty-IsValid : IsValid empty
empty-IsValid = record { names = λ o n. omega arith; ids = λ id. omega arith; fresh = tt }

Reach-IsValid_example : IsValid imports.0.1
Reach-IsValid_example =
    Reach-IsValid texts empty imports.0.1
      (next here (imported_rows empty imports.0.1 db 7 items imports.0.0 imports.1)) empty-IsValid

import_vendors-seats_example :
    (length imports.0.0.new + length imports.0.0.skipped ≡ 4)
    × (0 < length imports.0.0.new → vendor_count (counted db imports.0.1.vendors) 7 ≤ 10)
unfolding plan_for find_plan
import_vendors-seats_example =
    import_vendors-seats texts db empty imports.0.1 7 items imports.0.0 org 10 refl refl refl
      imports.1
