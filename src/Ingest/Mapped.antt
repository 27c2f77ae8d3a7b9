-- ===== src/Ingest/Mapped.antt =====
-- Vendors that were mapped before a run of core/sync.py.
use third_party_vendor_risk.Scoring.{Cve}
use third_party_vendor_risk.Base.{
  ℕ, ◌≡◌, refl, String, Bool, true, false, Option, none, some, List, [], ◌∷◌, nat_eq, string_eq,
  str_eq_iff, update_if, find_first, arith, inl, inr, Option-cases, Bool-cases,
}
use third_party_vendor_risk.Ingest.{
  Vendor, Store, Job, IngestResult, is_named, vendor_is_mapped, record_unassessed, upsert_vendor,
  upsert_vulnerability, link_vendor_vulnerability, store_records, commit, fetch_all, ingest_vendor,
  ingest_from, ingest,
}

-- The flag of the vendor of a name.
abbrev flag : ℕ → String → List Vendor → Bool
flag org_id name vendors = elim (find_first (is_named org_id name) vendors) [
  | none ↦ false
  | some v ↦ v.is_mapped
]

set-true :
    (org_id : ℕ) (name other : String) (method : Option String) (vendors : List Vendor)
    → flag org_id name vendors ≡ true
    → flag org_id name (
        update_if
          (is_named org_id other)
          (λ w. record w { is_mapped = true; match_method = method })
          vendors)
      ≡ true
set-true org_id name other method [] h = cc
set-true org_id name other method (v ∷ vs) h = ground (arith, set-true org_id name other method vs)

set-false :
    (org_id : ℕ) (name other : String) (vendors : List Vendor)
    → (name ≡ other → ⊥)
    → flag org_id name vendors ≡ true
    → flag org_id name (
        update_if
          (is_named org_id other)
          (λ w. record w { is_mapped = false; match_method = none })
          vendors)
      ≡ true
set-false org_id name other [] differ h = cc
set-false org_id name other (v ∷ vs) differ h =
    ground (
      arith,
      set-false org_id name other vs differ,
      str_eq_iff v.name name,
      str_eq_iff v.name other,
    )

store_records-vendors :
    (vendor_id : ℕ) (cves : List Cve) (store : Store)
    → (store_records vendor_id cves store).vendors ≡ store.vendors
unfolding store_records upsert_vulnerability link_vendor_vulnerability
store_records-vendors vendor_id [] store = refl
store_records-vendors vendor_id (cve ∷ cves) store = ground (
  arith,
  store_records-vendors vendor_id cves
      (link_vendor_vulnerability vendor_id cve.cve_id (upsert_vulnerability cve store)),
)

commit-vendors : (store : Store) → (commit store).vendors ≡ store.vendors
unfolding commit
commit-vendors store = refl

upsert_vendor-mapped :
    (org_id id : ℕ) (name other : String) (method : Option String) (store after : Store)
    → upsert_vendor org_id other true method store ≡ some (id, after)
    → flag org_id name store.vendors ≡ true
    → flag org_id name after.vendors ≡ true
unfolding upsert_vendor
upsert_vendor-mapped org_id id name other method store after done h =
    ground (arith, set-true org_id name other method store.vendors h)

record_unassessed-mapped :
    (org_id : ℕ) (name other : String) (store after : Store)
    → record_unassessed org_id other store ≡ some after
    → flag org_id name store.vendors ≡ true
    → flag org_id name after.vendors ≡ true
unfolding record_unassessed upsert_vendor vendor_is_mapped commit
record_unassessed-mapped org_id name other store after done h =
    elim (Bool-cases (flag org_id other store.vendors)) [
      | inl kept ↦ ground arith
      | inr bad ↦
          let differ : name ≡ other → ⊥ = λ same.
            (let no_way : flag org_id name store.vendors ≡ false = rw same bad in absurd (cc)) in
          ground (arith, set-false org_id name other store.vendors differ h)
    ]

ingest_vendor-mapped :
    (fetch : (query_type prefix : String) → Option (List Cve)) (org_id : ℕ) (name : String)
    (job : Job) (store after : Store) (result next : IngestResult)
    → ingest_vendor fetch org_id job (store, result) ≡ some (after, next)
    → flag org_id name store.vendors ≡ true
    → flag org_id name after.vendors ≡ true
unfolding ingest_vendor
ingest_vendor-mapped fetch org_id name job store after result next done h =
    elim (Option-cases (fetch_all fetch org_id job)) [
      | inl down ↦ elim (Option-cases (record_unassessed org_id job.name store)) [
        | inl broken ↦ absurd (ground arith)
        | inr (left, recorded) ↦
            ground (arith, record_unassessed-mapped org_id name job.name store left recorded h)
      ]
      | inr (cves, got) ↦
          elim (Option-cases (upsert_vendor org_id job.name true job.match_method store)) [
            | inl broken ↦ absurd (ground arith)
            | inr ((id, mapped), upserted) ↦ ground (
              arith,
              upsert_vendor-mapped org_id id name job.name job.match_method store mapped upserted h,
              store_records-vendors id cves mapped,
              commit-vendors (store_records id cves mapped),
            )
          ]
    ]

ingest_from-mapped :
    (fetch : (query_type prefix : String) → Option (List Cve)) (org_id : ℕ) (name : String)
    (jobs : List Job) (store after : Store) (result last : IngestResult)
    → ingest_from fetch org_id jobs (store, result) ≡ some (after, last)
    → flag org_id name store.vendors ≡ true
    → flag org_id name after.vendors ≡ true
unfolding ingest_from
ingest_from-mapped fetch org_id name [] store after result last done h = ground arith
ingest_from-mapped fetch org_id name (job ∷ jobs) store after result last done h =
    elim (Option-cases (ingest_vendor fetch org_id job (store, result))) [
      | inl broken ↦ absurd (ground arith)
      | inr ((mid, next), one) ↦
          ingest_from-mapped fetch org_id name jobs mid after next last
            (rw (ingest_from, one) at done)
            (ingest_vendor-mapped fetch org_id name job store mid result next one h)
    ]

-- A run never downgrades a vendor: whichever fetches fail, a vendor that was mapped before the run
-- is mapped after it.
pub ingest-mapped :
    (fetch : (query_type prefix : String) → Option (List Cve)) (org_id : ℕ) (name : String)
    (jobs : List Job) (store after : Store) (result : IngestResult)
    → ingest fetch org_id jobs store ≡ some (after, result)
    → vendor_is_mapped org_id name store ≡ true
    → vendor_is_mapped org_id name after ≡ true
unfolding ingest vendor_is_mapped
ingest-mapped fetch org_id name jobs store after result done h =
    ingest_from-mapped fetch org_id name jobs store after
      (record { attempted = 0; succeeded = 0; errors = []; cves_seen = [] }) result done h
