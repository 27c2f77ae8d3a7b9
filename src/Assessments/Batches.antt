-- ===== src/Assessments/Batches.antt =====
-- Batches and single vendors in app/services/scoring_service.py.
use mathlib.Core.List.{append-nil, append_assoc}
use third_party_vendor_risk.Base.{
  ℕ, zero, suc, ◌+◌, ◌≤◌, ◌<◌, ◌≡◌, refl, sym, ◌∙◌, ap, String, Bool, true, false, List, [], ◌∷◌,
  ◌++◌, ◌==◌, nat_eq, nat_beq_iff, count_if, any-iff_count, map, arith, if◌then◌else◌, length, inl,
  inr, Bool-cases, All,
}
use third_party_vendor_risk.Scoring.{Cve, VendorRow, Assessment}
use third_party_vendor_risk.Scoring
use third_party_vendor_risk.Ingest.{Vendor, Store}
use third_party_vendor_risk.Assessments.{
  linked_rows, rows_of, holds, select_in, add_row, add_rows, take, drop, fill_chunks, in_chunk,
  cves_for_vendors, group_of, cves_for_vendor, vendor_to_dict, assess_vendor, assess_vendors,
}

abbrev is_id : ℕ → ℕ → Bool
is_id id v = v == id

-- A group of the id is there.
abbrev has_group : ℕ → List (ℕ × List Cve) → Bool
has_group id [] = false
has_group id (g ∷ grouped) = if g.0 == id then true else has_group id grouped

group_of-add_row :
    (id : ℕ) (r : ℕ × Cve) (grouped : List (ℕ × List Cve))
    → has_group id grouped ≡ true
    → (group_of id (add_row r grouped)
        ≡ (if r.0 == id then group_of id grouped ++ (r.1 ∷ []) else group_of id grouped))
      × (has_group id (add_row r grouped) ≡ true)
group_of-add_row id r [] h = absurd (cc)
group_of-add_row id r (g ∷ grouped) h = ground (
  arith,
  group_of-add_row id r grouped,
  nat_beq_iff g.0 r.0,
  nat_beq_iff g.0 id,
  nat_beq_iff r.0 id,
)

group_of-add_rows :
    (id : ℕ) (rows : List (ℕ × Cve)) (grouped : List (ℕ × List Cve))
    → has_group id grouped ≡ true
    → (group_of id (add_rows rows grouped) ≡ group_of id grouped ++ rows_of id rows)
      × (has_group id (add_rows rows grouped) ≡ true)
group_of-add_rows id [] grouped h = (sym (append-nil (group_of id grouped)), h)
group_of-add_rows id (r ∷ rows) grouped h =
    let (one, there) = group_of-add_row id r grouped h in
    let (rest, still) = group_of-add_rows id rows (add_row r grouped) there in
    elim (Bool-cases (r.0 == id)) [
      | inl mine ↦ (
        rest ∙ rw (one, mine) (append_assoc (group_of id grouped) (r.1 ∷ []) (rows_of id rows)),
        still,
      )
      | inr other ↦ (rest ∙ rw (one, other) refl, still)
    ]

rows_of-select_in :
    (id : ℕ) (chunk : List ℕ) (rows : List (ℕ × Cve))
    → rows_of id (select_in chunk rows) ≡ (if holds id chunk then rows_of id rows else [])
rows_of-select_in id chunk [] = ground arith
rows_of-select_in id chunk (r ∷ rows) = elim (Bool-cases (r.0 == id)) [
  | inl mine ↦
      let same : r.0 ≡ id = (nat_beq_iff r.0 id).0 mine in
      let alike : holds r.0 chunk ≡ holds id chunk = ap (λ k. holds k chunk) same in
      ground (arith, rows_of-select_in id chunk rows)
  | inr other ↦ ground (arith, rows_of-select_in id chunk rows)
]

count-chunks :
    (id n : ℕ) (ids : List ℕ)
    → count_if (is_id id) (take n ids) + count_if (is_id id) (drop n ids) ≡ count_if (is_id id) ids
count-chunks id zero ids = omega arith
count-chunks id (suc n) [] = omega arith
count-chunks id (suc n) (v ∷ ids) = omega (arith, count-chunks id n ids)

length-drop_le : (n : ℕ) (ids : List ℕ) → length (drop n ids) ≤ length ids
length-drop_le zero ids = omega arith
length-drop_le (suc n) [] = omega arith
length-drop_le (suc n) (v ∷ ids) = omega (arith, length-drop_le n ids)

length-drop_lt : (n v : ℕ) (ids : List ℕ) → 0 < n → length (drop n (v ∷ ids)) ≤ length ids
length-drop_lt zero v ids pos = absurd (omega arith)
length-drop_lt (suc n) v ids pos = length-drop_le n ids

-- The rows that belong to an id, if it is asked for.
abbrev rows_for : ℕ → List ℕ → List (ℕ × Cve) → List Cve
rows_for id ids rows = if holds id ids then rows_of id rows else []

rows_for-chunks :
    (id n : ℕ) (ids : List ℕ) (rows : List (ℕ × Cve)) (before : List Cve)
    → count_if (is_id id) ids ≤ 1
    → (before ++ rows_for id (take n ids) rows) ++ rows_for id (drop n ids) rows
      ≡ before ++ rows_for id ids rows
rows_for-chunks id n ids rows before once =
    let split = count-chunks id n ids in
    let whole = any-iff_count (is_id id) ids in
    let first = any-iff_count (is_id id) (take n ids) in
    let rest = any-iff_count (is_id id) (drop n ids) in
    elim (Bool-cases (holds id (take n ids))) [
      | inl here ↦
          let not_there : holds id (drop n ids) ≡ false = ground (arith, split, first, rest) in
          let asked : holds id ids ≡ true = ground (arith, split, first, whole) in
          rw (here, not_there, asked) (append-nil (before ++ rows_of id rows))
      | inr not_here ↦ elim (Bool-cases (holds id (drop n ids))) [
        | inl there ↦
            let asked : holds id ids ≡ true = ground (arith, split, rest, whole) in
            rw (not_here, there, asked)
              (ap (λ (l : List Cve). l ++ rows_of id rows) (append-nil before))
        | inr not_there ↦
            let unasked : holds id ids ≡ false = ground (arith, split, first, rest, whole) in
            rw (not_here, not_there, unasked) (append-nil (before ++ []))
      ]
    ]

fill_chunks-group :
    (fuel size id : ℕ) (ids : List ℕ) (rows : List (ℕ × Cve)) (grouped : List (ℕ × List Cve))
    → 0 < size
    → length ids ≤ fuel
    → count_if (is_id id) ids ≤ 1
    → has_group id grouped ≡ true
    → group_of id (fill_chunks fuel size ids rows grouped)
      ≡ group_of id grouped ++ rows_for id ids rows
unfolding fill_chunks
fill_chunks-group zero size id [] rows grouped pos enough once there =
    sym (append-nil (group_of id grouped))
fill_chunks-group zero size id (v ∷ ids) rows grouped pos enough once there = absurd (omega arith)
fill_chunks-group (suc fuel) size id [] rows grouped pos enough once there =
    sym (append-nil (group_of id grouped))
fill_chunks-group (suc fuel) size id (v ∷ ids) rows grouped pos enough once there =
    let chunk = take size (v ∷ ids) in
    let rest = drop size (v ∷ ids) in
    let (added, still) = group_of-add_rows id (select_in chunk rows) grouped there in
    let shorter = length-drop_lt size v ids pos in
    let fewer = count-chunks id size (v ∷ ids) in
    let ih =
      fill_chunks-group fuel size id rest rows (add_rows (select_in chunk rows) grouped) pos
        (omega arith) (omega arith) still in
    ih
    ∙ (ap (λ (l : List Cve). l ++ rows_for id rest rows)
          (added
            ∙ ap (λ (l : List Cve). group_of id grouped ++ l) (rows_of-select_in id chunk rows))
        ∙ rows_for-chunks id size (v ∷ ids) rows (group_of id grouped) once)

empty_groups :
    (id : ℕ) (ids : List ℕ)
    → holds id ids ≡ true
    → (has_group id (map (λ v. (v, [])) ids) ≡ true) × (group_of id (map (λ v. (v, [])) ids) ≡ [])
empty_groups id [] h = cc
empty_groups id (v ∷ ids) h = ground (arith, empty_groups id ids)

cves_for_vendors-rows :
    (store : Store) (ids : List ℕ) (id : ℕ)
    → holds id ids ≡ true
    → count_if (is_id id) ids ≤ 1
    → group_of id (cves_for_vendors store ids)
      ≡ rows_of id (linked_rows store.links store.vulnerabilities)
unfolding cves_for_vendors
cves_for_vendors-rows store ids id asked once =
    let rows = linked_rows store.links store.vulnerabilities in
    let (there, none_yet) = empty_groups id ids asked in
    fill_chunks-group (length ids) in_chunk id ids rows (map (λ v. (v, [])) ids) (omega arith)
      (omega arith) once there
    ∙ rw (none_yet, asked) refl

map-All {ℓ κ} :
    {A : Type ℓ} {B : Type κ} (f g : A → B) (xs : List A)
    → All (λ x. f x ≡ g x) xs
    → map f xs ≡ map g xs
map-All f g [] same = refl
map-All f g (x ∷ xs) same = cc (same.0, map-All f g xs same.1)

abbrev ids_of : List Vendor → List ℕ
ids_of vendors = map (λ v. v.id) vendors

All-asked :
    (vendors : List Vendor) (ids : List ℕ)
    → ((id : ℕ) → holds id (ids_of vendors) ≡ true → holds id ids ≡ true)
    → All (λ v. holds v.id ids ≡ true) vendors
All-asked [] ids included = tt
All-asked (v ∷ vendors) ids included = (
  included v.id (ground (arith, nat_beq_iff v.id v.id)),
  All-asked vendors ids (λ id h. included id (ground arith)),
)

module _ (lower : String → String) (iso : ℕ → String) (store : Store) where
  -- One vendor, with the CVEs that a batch loaded.
  abbrev assess_in : List (ℕ × List Cve) → Vendor → ℕ × Assessment
  assess_in cves v = (v.id, Scoring.assess lower (vendor_to_dict lower iso v) (group_of v.id cves))

  abbrev assess_alone : Vendor → ℕ × Assessment
  assess_alone v = (v.id, assess_vendor lower iso store v)

  group_of-alone :
      (ids : List ℕ) (id : ℕ)
      → holds id ids ≡ true
      → count_if (is_id id) ids ≤ 1
      → group_of id (cves_for_vendors store ids) ≡ group_of id (cves_for_vendors store (id ∷ []))
  group_of-alone ids id asked once =
      cves_for_vendors-rows store ids id asked once
      ∙ sym (
          cves_for_vendors-rows store (id ∷ []) id (ground (arith, nat_beq_iff id id))
            (ground arith))

  assess_in-alone :
      (ids : List ℕ) (v : Vendor)
      → holds v.id ids ≡ true
      → count_if (is_id v.id) ids ≤ 1
      → assess_in (cves_for_vendors store ids) v ≡ assess_alone v
  unfolding assess_vendor cves_for_vendor
  assess_in-alone ids v asked once =
      ap (λ cves. (v.id, Scoring.assess lower (vendor_to_dict lower iso v) cves))
        (group_of-alone ids v.id asked once)

  All-alone :
      (ids : List ℕ) (vendors : List Vendor)
      → ((id : ℕ) → count_if (is_id id) ids ≤ 1)
      → All (λ v. holds v.id ids ≡ true) vendors
      → All (λ v. assess_in (cves_for_vendors store ids) v ≡ assess_alone v) vendors
  All-alone ids [] once asked = tt
  All-alone ids (v ∷ vendors) once asked =
      (assess_in-alone ids v asked.0 (once v.id), All-alone ids vendors once asked.1)

-- Assessing vendors in a batch gives for each what assessing it alone gives, however many chunks of
-- 500 the batch takes, provided that no vendor is in the batch twice.
pub assess_vendors-eq :
    (lower : String → String) (iso : ℕ → String) (store : Store) (vendors : List Vendor)
    → ((id : ℕ) → count_if (is_id id) (ids_of vendors) ≤ 1)
    → assess_vendors lower iso store vendors
      ≡ map (λ (v : Vendor). (v.id, assess_vendor lower iso store v)) vendors
unfolding assess_vendors assess_vendor cves_for_vendor
assess_vendors-eq lower iso store vendors once =
    let ids = ids_of vendors in
    map-All (assess_in lower iso store (cves_for_vendors store ids)) (assess_alone lower iso store)
      vendors (All-alone lower iso store ids vendors once (All-asked vendors ids (λ id h. h)))
