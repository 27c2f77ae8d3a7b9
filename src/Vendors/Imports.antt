-- ===== src/Vendors/Imports.antt =====
-- The import of an SBOM's rows: `import_vendors` of app/services/sbom_service.py. `casefold` is
-- `str.casefold`.
use third_party_vendor_risk.Base.{
  ℕ, suc, String, Bool, false, ◌&&◌, ◌||◌, not, Option, none, some, List, [], ◌∷◌, ◌++◌, ◌==◌,
  nat_eq, string_eq, any, keep_if, is_some, map, length, ltb, if◌then◌else◌, Result, ok, ◌>>◌,
  raise_if, validation,
}
use third_party_vendor_risk.Tenancy.{Db}
use third_party_vendor_risk.Ingest.{Vendor}
use third_party_vendor_risk.Vendors.{VendorTable, new_vendor, check_vendors}
use third_party_vendor_risk.Vendors.Cpe.{cpe_prefix, take_text}

pub record Item : Type 0 where
  pub name : Option String
  pub cpe_prefix : Option String

-- Why a row is skipped.
pub data Reason : Type 0 where
  empty_name invalid_cpe exists : Reason

abbrev pub max_import : ℕ
max_import = 500

abbrev pub has : String → List String → Bool
has s l = any (λ t. t == s) l

-- What the loop carries: the names and prefixes that are taken, the new rows and the skipped ones.
pub record Importing : Type 0 where
  pub names : List String
  pub prefixes : List String
  pub next_id : ℕ
  pub new : List Vendor
  pub skipped : List (String × Reason)

pub record Texts : Type 0 where
  pub strip : String → String
  pub lower : String → String
  pub unquote : String → String
  pub casefold : String → String

abbrev pub is_taken_prefix : Option String → List String → Bool
is_taken_prefix none prefixes = false
is_taken_prefix (some p) prefixes = has p prefixes

abbrev pub add_prefix : Option String → List String → List String
add_prefix none prefixes = prefixes
add_prefix (some p) prefixes = p ∷ prefixes

module _ (texts : Texts) where
  -- `sbom.cpe_prefix(p)`
  abbrev pub normalized : String → Option String
  normalized p = cpe_prefix texts.strip texts.lower texts.unquote p

  -- The second set of `_existing`, from the prefixes that are not empty.
  unfoldable pub existing_prefixes : List Vendor → List String
  existing_prefixes [] = []
  existing_prefixes (v ∷ vendors) = elim v.cpe_prefix [
    | none ↦ existing_prefixes vendors
    | some p ↦
        if p == ""
        then existing_prefixes vendors
        else (elim (normalized p) [ none ↦ p | some q ↦ q ]) ∷ existing_prefixes vendors
  ]

  -- A vendor's name as the import compares it.
  abbrev pub folded : Vendor → String
  folded v = texts.casefold v.name

  -- The name of a row, cut to 200 characters.
  abbrev pub item_name : Item → String
  item_name item = take_text 200 (texts.strip (elim item.name [ none ↦ "" | some n ↦ n ]))

  -- The prefix that a row gives, `none` if it gives none or an empty one.
  abbrev pub given_prefix : Item → Option String
  given_prefix item = elim item.cpe_prefix [
    | none ↦ none
    | some p ↦ if p == "" then none else some p
  ]

  abbrev pub item_prefix : Item → Option String
  item_prefix item = elim (given_prefix item) [ none ↦ none | some p ↦ normalized p ]

  abbrev pub skip : String → Reason → Importing → Importing
  skip name reason s = record s { skipped = s.skipped ++ ((name, reason) ∷ []) }

  abbrev pub imported : (id org_id : ℕ) → String → Option String → Vendor
  imported id org_id name prefix = new_vendor id org_id (record {
    name = name;
    cpe_prefix = prefix;
    annual_contract_value = none;
    data_sensitivity = none;
    business_criticality = none;
    contract_renewal_date = none;
  })

  -- The round for a row.
  unfoldable pub import_item : (org_id : ℕ) → Item → Importing → Importing
  import_item org_id item s =
      let name = item_name item in
      let prefix = item_prefix item in
      if name == ""
      then skip name empty_name s
      else if is_some (given_prefix item) && not (is_some prefix)
      then skip name invalid_cpe s
      else if has (texts.casefold name) s.names || is_taken_prefix prefix s.prefixes
      then skip name exists s
      else record s {
        names = texts.casefold name ∷ s.names;
        prefixes = add_prefix prefix s.prefixes;
        next_id = suc s.next_id;
        new = imported s.next_id org_id name prefix ∷ s.new;
      }

  unfoldable pub import_items : (org_id : ℕ) → List Item → Importing → Importing
  unfolding import_item
  import_items org_id [] s = s
  import_items org_id (item ∷ items) s = import_items org_id items (import_item org_id item s)

  -- `_existing`, and nothing imported yet.
  unfoldable pub start_import : VendorTable → ℕ → Importing
  unfolding existing_prefixes
  start_import t org_id =
      let own = keep_if (λ v. v.org_id == org_id) t.vendors in
      record {
        names = map folded own;
        prefixes = existing_prefixes own;
        next_id = t.next_id;
        new = [];
        skipped = [];
      }

  -- `import_vendors`
  unfoldable pub import_vendors :
      Db → VendorTable → (org_id : ℕ) → List Item → Result (Importing × VendorTable)
  unfolding import_items start_import
  import_vendors db t org_id items = do
    raise_if (ltb max_import (length items)) validation
    let s = import_items org_id items (start_import t org_id)
    check_vendors db t.vendors org_id (length s.new)
    ok (s, record { vendors = s.new ++ t.vendors; next_id = s.next_id })
