-- ===== src/Assessments.antt =====
-- app/services/scoring_service.py: the stored CVEs of a vendor, one by one and in batches, and their
-- assessment. `iso` is `date.isoformat`.
pub mod Batches
mod Tests
use third_party_vendor_risk.Base.{
  ℕ, zero, suc, ◌-◌, String, Bool, true, false, ◌&&◌, Option, none, some, List, [], ◌∷◌, ◌++◌, ◌==◌,
  nat_eq, string_eq, any, find_first, map, if◌then◌else◌, leb, ltb, length,
}
use third_party_vendor_risk.Scoring.{Cve, VendorRow, Assessment}
use third_party_vendor_risk.Scoring
use third_party_vendor_risk.Ingest.{Vendor, Store}

-- The join of the links and the cache: a row for each link whose CVE is stored.
unfoldable pub linked_rows : List (ℕ × String) → List Cve → List (ℕ × Cve)
linked_rows [] cves = []
linked_rows (k ∷ links) cves =
    let rest = linked_rows links cves in
    elim (find_first (λ c. c.cve_id == k.1) cves) [ none ↦ rest | some c ↦ (k.0, c) ∷ rest ]

-- The CVEs of the rows of one vendor.
abbrev pub rows_of : ℕ → List (ℕ × Cve) → List Cve
rows_of vendor_id [] = []
rows_of vendor_id (r ∷ rows) =
    if r.0 == vendor_id then r.1 ∷ rows_of vendor_id rows else rows_of vendor_id rows

abbrev pub holds : ℕ → List ℕ → Bool
holds id ids = any (λ v. v == id) ids

-- The rows that a query selects for a chunk of vendors.
abbrev pub select_in : List ℕ → List (ℕ × Cve) → List (ℕ × Cve)
select_in chunk [] = []
select_in chunk (r ∷ rows) =
    if holds r.0 chunk then r ∷ select_in chunk rows else select_in chunk rows

-- `grouped[vendor_id].append(...)`
abbrev pub add_row : ℕ × Cve → List (ℕ × List Cve) → List (ℕ × List Cve)
add_row r [] = []
add_row r (g ∷ grouped) = (if g.0 == r.0 then (g.0, g.1 ++ (r.1 ∷ [])) else g) ∷ add_row r grouped

abbrev pub add_rows : List (ℕ × Cve) → List (ℕ × List Cve) → List (ℕ × List Cve)
add_rows [] grouped = grouped
add_rows (r ∷ rows) grouped = add_rows rows (add_row r grouped)

abbrev pub take : ℕ → List ℕ → List ℕ
take zero ids = []
take (suc n) [] = []
take (suc n) (v ∷ ids) = v ∷ take n ids

abbrev pub drop : ℕ → List ℕ → List ℕ
drop zero ids = ids
drop (suc n) [] = []
drop (suc n) (v ∷ ids) = drop n ids

-- The loop over the chunks, of `size` vendors each.
unfoldable pub fill_chunks :
    (fuel size : ℕ) → List ℕ → List (ℕ × Cve) → List (ℕ × List Cve) → List (ℕ × List Cve)
fill_chunks zero size ids rows grouped = grouped
fill_chunks (suc fuel) size [] rows grouped = grouped
fill_chunks (suc fuel) size (v ∷ ids) rows grouped =
    fill_chunks fuel size (drop size (v ∷ ids)) rows
      (add_rows (select_in (take size (v ∷ ids)) rows) grouped)

-- `_IN_CHUNK`
abbrev pub in_chunk : ℕ
in_chunk = 500

-- `cves_for_vendors`; there are no more chunks than vendors.
unfoldable pub cves_for_vendors : Store → List ℕ → List (ℕ × List Cve)
unfolding fill_chunks
cves_for_vendors store ids =
    fill_chunks (length ids) in_chunk ids (linked_rows store.links store.vulnerabilities)
      (map (λ v. (v, [])) ids)

-- `grouped[vendor_id]`
abbrev pub group_of : ℕ → List (ℕ × List Cve) → List Cve
group_of id [] = []
group_of id (g ∷ grouped) = if g.0 == id then g.1 else group_of id grouped

unfoldable pub cves_for_vendor : Store → ℕ → List Cve
unfolding cves_for_vendors
cves_for_vendor store id = group_of id (cves_for_vendors store (id ∷ []))

module _ (lower : String → String) (iso : ℕ → String) where
  unfoldable pub vendor_to_dict : Vendor → VendorRow
  vendor_to_dict v = record {
    vendor_name = v.name;
    is_mapped = v.is_mapped;
    annual_contract_value = v.annual_contract_value;
    data_sensitivity = v.data_sensitivity;
    business_criticality = v.business_criticality;
    contract_renewal_date = elim v.contract_renewal_date [ none ↦ none | some d ↦ some (iso d) ];
    match_method = v.match_method;
  }

  unfoldable pub assess_vendor : Store → Vendor → Assessment
  unfolding vendor_to_dict cves_for_vendor
  assess_vendor store v = Scoring.assess lower (vendor_to_dict v) (cves_for_vendor store v.id)

  unfoldable pub assess_vendors : Store → List Vendor → List (ℕ × Assessment)
  unfolding vendor_to_dict cves_for_vendors
  assess_vendors store vendors =
      let cves = cves_for_vendors store (map (λ v. v.id) vendors) in
      map (λ v. (v.id, Scoring.assess lower (vendor_to_dict v) (group_of v.id cves))) vendors
