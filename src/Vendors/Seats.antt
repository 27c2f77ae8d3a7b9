-- ===== src/Vendors/Seats.antt =====
-- The rows of an import and the seats of the plan: `import_vendors` of app/services/sbom_service.py.
use third_party_vendor_risk.Base.{
  ℕ, suc, ◌+◌, ◌≤◌, ◌<◌, ◌≡◌, refl, subst, ap, String, ◌&&◌, ◌||◌, not, some, List, [], ◌∷◌, ◌++◌,
  ◌==◌, nat_eq, nat_beq_iff, string_eq, count_if, is_some, map, length, length-append, arith, inl,
  inr, Bool-cases, Result-cases, ok,
}
use third_party_vendor_risk.Tenancy.{Organization, Db, get_org}
use third_party_vendor_risk.Entitlements.{plan_for, vendor_count, require_vendor_capacity}
use third_party_vendor_risk.Ingest.{Vendor}
use third_party_vendor_risk.Vendors.{VendorTable, check_vendors, counted}
use third_party_vendor_risk.Vendors.Imports.{
  Item, Importing, Reason, Texts, has, item_name, item_prefix, given_prefix, import_item,
  import_items, start_import, import_vendors, is_taken_prefix,
}

abbrev pub vendors_of : ℕ → List Vendor → ℕ
vendors_of org_id vs = count_if (λ (o : ℕ). o == org_id) (map (λ (v : Vendor). v.org_id) vs)

vendors_of-append :
    (org_id : ℕ) (xs ys : List Vendor)
    → vendors_of org_id (xs ++ ys) ≡ vendors_of org_id xs + vendors_of org_id ys
vendors_of-append org_id [] ys = omega arith
vendors_of-append org_id (x ∷ xs) ys = omega (arith, vendors_of-append org_id xs ys)

module _ (texts : Texts) (org_id : ℕ) where
  -- How many rows were handled, and all new ones are the organization's.
  record Accounts (handled : ℕ) (s : Importing) : Type 0 where
    pub rows : length s.new + length s.skipped ≡ handled
    pub own : vendors_of org_id s.new ≡ length s.new

  skipped-Accounts :
      (handled : ℕ) (row : String × Reason) (s after : Importing)
      → after.new ≡ s.new
      → after.skipped ≡ s.skipped ++ (row ∷ [])
      → Accounts handled s
      → Accounts (suc handled) after
  skipped-Accounts handled row s after new skipped a = record {
    rows = ground (arith, a.rows, new, skipped, length-append s.skipped (row ∷ []));
    own = rw new a.own;
  }

  import_item-Accounts :
      (handled : ℕ) (item : Item) (s : Importing)
      → Accounts handled s
      → Accounts (suc handled) (import_item texts org_id item s)
  unfolding import_item
  import_item-Accounts handled item s a =
      let name = item_name texts item in
      let prefix = item_prefix texts item in
      elim (Bool-cases (name == "")) [
        | inl empty ↦ rw empty (skipped-Accounts handled (name, _) s _ refl refl a)
        | inr filled ↦
            elim (Bool-cases (is_some (given_prefix texts item) && not (is_some prefix))) [
              | inl bad ↦ rw (filled, bad) (skipped-Accounts handled (name, _) s _ refl refl a)
              | inr fine ↦
                  elim (Bool-cases
                    (has (texts.casefold name) s.names || is_taken_prefix prefix s.prefixes)) [
                      | inl taken ↦
                          rw (filled, fine, taken)
                            (skipped-Accounts handled (name, _) s _ refl refl a)
                      | inr free ↦
                          rw (filled, fine, free)
                            (record {
                              rows = omega (arith, a.rows);
                              own = ground (arith, a.own, nat_beq_iff org_id org_id);
                            })
                    ]
            ]
      ]

  import_items-Accounts :
      (handled : ℕ) (items : List Item) (s : Importing)
      → Accounts handled s
      → Accounts (handled + length items) (import_items texts org_id items s)
  unfolding import_items
  import_items-Accounts handled [] s a = record { rows = omega (arith, a.rows); own = a.own }
  import_items-Accounts handled (item ∷ items) s a =
      let rest =
        import_items-Accounts (suc handled) items (import_item texts org_id item s)
          (import_item-Accounts handled item s a) in
      record { rows = omega (arith, rest.rows); own = rest.own }

-- What the check of the plan says.
capacity_fits :
    (db : Db) (vendors : List Vendor) (org_id adding : ℕ) (org : Organization) (seats : ℕ)
    → get_org db org_id ≡ some org
    → (plan_for org).max_vendors ≡ some seats
    → org.id ≡ org_id
    → check_vendors db vendors org_id adding ≡ ok tt
    → 0 < adding
    → vendors_of org_id vendors + adding ≤ seats
unfolding require_vendor_capacity vendor_count
capacity_fits db vendors org_id adding org seats known plan own checked some_new =
    let count : vendors_of org.id vendors ≡ vendors_of org_id vendors =
      ap (λ o. vendors_of o vendors) own in
    ground (arith, known, plan, count)

checked_import :
    (texts : Texts) (db : Db) (t after : VendorTable) (org_id : ℕ) (items : List Item)
    (s : Importing)
    → import_vendors texts db t org_id items ≡ ok (s, after)
    → check_vendors db t.vendors org_id
        (length (import_items texts org_id items (start_import texts t org_id)).new)
      ≡ ok tt
unfolding import_vendors
checked_import texts db t after org_id items s e =
    let adding = length (import_items texts org_id items (start_import texts t org_id)).new in
    elim (Result-cases (check_vendors db t.vendors org_id adding)) [
      | inl (raised, bad) ↦ absurd (ground arith)
      | inr (u, fine) ↦ fine
    ]

-- When `import_vendors` succeeds, every row of the request was either created or reported as
-- skipped, and if any was created, the organization has no more vendors than its plan allows.
pub import_vendors-seats :
    (texts : Texts) (db : Db) (t after : VendorTable) (org_id : ℕ) (items : List Item)
    (s : Importing) (org : Organization) (seats : ℕ)
    → get_org db org_id ≡ some org
    → (plan_for org).max_vendors ≡ some seats
    → org.id ≡ org_id
    → import_vendors texts db t org_id items ≡ ok (s, after)
    → (length s.new + length s.skipped ≡ length items)
      × (0 < length s.new → vendor_count (counted db after.vendors) org_id ≤ seats)
unfolding import_vendors start_import require_vendor_capacity vendor_count
import_vendors-seats texts db t after org_id items s org seats known plan own e =
    let end = import_items texts org_id items (start_import texts t org_id) in
    let same : (s ≡ end) × (after.vendors ≡ end.new ++ t.vendors) = ground arith in
    let a =
      import_items-Accounts texts org_id 0 items (start_import texts t org_id)
        (record { rows = refl; own = refl }) in
    (
      ground (arith, a.rows, same.0),
      λ some_new.
          let positive : 0 < length end.new =
            subst (λ (x : Importing). 0 < length x.new) same.0 some_new in
          let checked : check_vendors db t.vendors org_id (length end.new) ≡ ok tt =
            checked_import texts db t after org_id items s e in
          let fits =
            capacity_fits db t.vendors org_id (length end.new) org seats known plan own checked
              positive in
          let split = vendors_of-append org_id end.new t.vendors in
          let rows : vendors_of org_id after.vendors ≡ vendors_of org_id (end.new ++ t.vendors) =
            ap (vendors_of org_id) same.1 in
          omega (arith, rows, split, a.own, fits),
    )
