-- ===== src/Vendors/Reach.antt =====
-- Sequences of the operations on vendors in app/services/vendor_service.py and
-- app/services/sbom_service.py.
use third_party_vendor_risk.Base.{
  ℕ, ◌<◌, ◌≡◌, refl, sym, ap, subst, String, true, ◌&&◌, ◌||◌, not, List, [], ◌∷◌, ◌++◌, ◌==◌,
  nat_eq, string_eq, str_eq_iff, count_if, keep_if, is_some, map, arith, inl, inr, Bool-cases, ok,
}
use third_party_vendor_risk.Tenancy.{Db}
use third_party_vendor_risk.Ingest.{Vendor, is_named}
use third_party_vendor_risk.Vendors.{
  VendorTable, VendorData, VendorChanges, create_vendor, update_vendor, delete_vendor,
}
use third_party_vendor_risk.Vendors.Imports.{
  Item, Importing, Texts, has, folded, item_name, item_prefix, given_prefix, imported, import_item,
  import_items, start_import, import_vendors, is_taken_prefix,
}
use third_party_vendor_risk.Vendors.Names.{
  IsValid, added-IsValid, create_vendor-IsValid, update_vendor-IsValid, delete_vendor-IsValid,
}

module _ (texts : Texts) (org_id : ℕ) (t : VendorTable) where
  -- The table with what is imported so far.
  abbrev so_far : Importing → VendorTable
  so_far s = record { vendors = s.new ++ t.vendors; next_id = s.next_id }

  -- The table is valid, and the loop knows every name in it.
  record IsKnown (s : Importing) : Type 0 where
    pub valid : IsValid (so_far s)
    pub known :
        (name : String)
        → 0 < count_if (is_named org_id name) (s.new ++ t.vendors)
        → has (texts.casefold name) s.names ≡ true

  import_item-IsKnown :
      (item : Item) (s : Importing) → IsKnown s → IsKnown (import_item texts org_id item s)
  unfolding import_item
  import_item-IsKnown item s inv =
      let name = item_name texts item in
      let prefix = item_prefix texts item in
      elim (Bool-cases (name == "")) [
        | inl empty ↦ rw empty (record { valid = inv.valid; known = inv.known })
        | inr filled ↦
            elim (Bool-cases (is_some (given_prefix texts item) && not (is_some prefix))) [
              | inl bad ↦ rw (filled, bad) (record { valid = inv.valid; known = inv.known })
              | inr fine ↦
                  elim (Bool-cases
                    (has (texts.casefold name) s.names || is_taken_prefix prefix s.prefixes)) [
                      | inl taken ↦
                          rw (filled, fine, taken) (record { valid = inv.valid; known = inv.known })
                      | inr free ↦
                          let new = imported texts s.next_id org_id name prefix in
                          let absent : count_if (is_named org_id name) (s.new ++ t.vendors) ≡ 0 =
                            (let k = inv.known name in ground arith) in
                          rw (filled, fine, free)
                            (record {
                              valid = added-IsValid new (so_far s) refl absent inv.valid;
                              known = λ other there. elim (Bool-cases (name == other)) [
                                | inl same ↦
                                    let alike =
                                      ap texts.casefold ((str_eq_iff name other).0 same) in
                                    ground (
                                      arith,
                                      str_eq_iff (texts.casefold name) (texts.casefold other),
                                      alike,
                                    )
                                | inr differ ↦ ground (arith, inv.known other)
                              ];
                            })
                    ]
            ]
      ]

  import_items-IsKnown :
      (items : List Item) (s : Importing) → IsKnown s → IsKnown (import_items texts org_id items s)
  unfolding import_items
  import_items-IsKnown [] s inv = inv
  import_items-IsKnown (item ∷ items) s inv =
      import_items-IsKnown items (import_item texts org_id item s) (import_item-IsKnown item s inv)

  names-known :
      (name : String) (vs : List Vendor)
      → 0 < count_if (is_named org_id name) vs
      → has (texts.casefold name) (map (folded texts) (keep_if (λ v. v.org_id == org_id) vs)) ≡ true
  names-known name [] there = absurd (omega arith)
  names-known name (v ∷ vs) there = elim (Bool-cases (is_named org_id name v)) [
    | inl named ↦
        let same : v.name ≡ name = (str_eq_iff v.name name).0 (ground arith) in
        let alike = ap texts.casefold same in
        ground (arith, str_eq_iff (texts.casefold v.name) (texts.casefold name), alike)
    | inr other ↦ ground (arith, names-known name vs)
  ]

  pub import_vendors-IsValid :
      (db : Db) (items : List Item) (s : Importing) (after : VendorTable)
      → import_vendors texts db t org_id items ≡ ok (s, after)
      → IsValid t
      → IsValid after
  unfolding import_vendors start_import
  import_vendors-IsValid db items s after e valid =
      let end = import_items texts org_id items (start_import texts t org_id) in
      let same : after ≡ so_far end = ground arith in
      let inv =
        import_items-IsKnown items (start_import texts t org_id)
          (record { valid = valid; known = λ name there. names-known name t.vendors there }) in
      subst IsValid (sym same) inv.valid

-- The operations that succeed; what a call refuses leaves the table as it is.
pub data Step (texts : Texts) : VendorTable → VendorTable → Type 0 where
  created :
      (t after : VendorTable) (db : Db) (org_id : ℕ) (given : VendorData) (v : Vendor)
      → create_vendor texts.strip db t org_id given ≡ ok (v, after)
      → Step texts t after
  updated :
      (t after : VendorTable) (org_id vendor_id : ℕ) (c : VendorChanges) (v : Vendor)
      → update_vendor texts.strip t org_id vendor_id c ≡ ok (v, after)
      → Step texts t after
  deleted :
      (t after : VendorTable) (org_id vendor_id : ℕ)
      → delete_vendor t org_id vendor_id ≡ ok after
      → Step texts t after
  imported_rows :
      (t after : VendorTable) (db : Db) (org_id : ℕ) (items : List Item) (s : Importing)
      → import_vendors texts db t org_id items ≡ ok (s, after)
      → Step texts t after

Step-IsValid :
    (texts : Texts) (t after : VendorTable) → Step texts t after → IsValid t → IsValid after
Step-IsValid texts t after (created _ _ db org_id given v e) valid =
    create_vendor-IsValid texts.strip db t after org_id given v e valid
Step-IsValid texts t after (updated _ _ org_id vendor_id c v e) valid =
    update_vendor-IsValid texts.strip t after org_id vendor_id c v e valid
Step-IsValid texts t after (deleted _ _ org_id vendor_id e) valid =
    delete_vendor-IsValid t after org_id vendor_id e valid
Step-IsValid texts t after (imported_rows _ _ db org_id items s e) valid =
    import_vendors-IsValid texts org_id t db items s after e valid

pub data Reach (texts : Texts) (start : VendorTable) : VendorTable → Type 0 where
  here : Reach texts start start
  next :
      {t after : VendorTable} → Reach texts start t → Step texts t after → Reach texts start after

-- However vendors are created, renamed, deleted and imported from SBOMs, two vendors of one
-- organization never have the same name, and no two vendors have the same id, if this held at the
-- start and ids come from a sequence: the UNIQUE constraint on the names never fails a commit.
pub Reach-IsValid :
    (texts : Texts) (start t : VendorTable) → Reach texts start t → IsValid start → IsValid t
Reach-IsValid texts start _ here valid = valid
Reach-IsValid texts start _ (next {t = before} {after = t} run step) valid =
    Step-IsValid texts before t step (Reach-IsValid texts start before run valid)
