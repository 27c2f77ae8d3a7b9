-- ===== src/Ingest.antt =====
-- core/sync.py: one run over an organization's vendors, on the store of app/services/store.py. The
-- answers of the NVD are a parameter, by the query and the vendor's prefix, as parsed records, of
-- which the columns that scoring reads are kept.
pub mod Counts
pub mod Mapped
mod Tests
use third_party_vendor_risk.Scoring.{Cve}
use third_party_vendor_risk.Base.{
  ℕ, zero, suc, ◌+◌, String, Bool, true, false, ◌&&◌, not, Option, none, some, List, [], ◌∷◌, ◌++◌,
  ◌==◌, nat_eq, string_eq, nat_beq, ltb, length, any, find_first, update_if, if◌then◌else◌,
}

-- app/models/vendor.py. `annual_contract_value` is in cents, a date a number of days, a time one of
-- seconds.
pub record Vendor : Type 0 where
  pub id : ℕ
  pub org_id : ℕ
  pub name : String
  pub cpe_prefix : Option String
  pub match_method : Option String
  pub is_mapped : Bool
  pub annual_contract_value : Option ℕ
  pub data_sensitivity : Option String
  pub business_criticality : Option String
  pub contract_renewal_date : Option ℕ
  pub last_synced_at : Option ℕ
  pub next_sync_at : Option ℕ

-- The tables, and what `SqlAlchemyVulnStore` buffers.
pub record Store : Type 0 where
  pub vendors : List Vendor
  pub vulnerabilities : List Cve
  pub links : List (ℕ × String)
  pub seen : List String
  pub linked : List (ℕ × String)
  pub pending : List (ℕ × String)

abbrev pub is_named : ℕ → String → Vendor → Bool
is_named org_id name v = v.org_id == org_id && v.name == name

-- `_vendor`
abbrev pub find_vendor : ℕ → String → Store → Option Vendor
find_vendor org_id name store = find_first (is_named org_id name) store.vendors

abbrev pub has_text : String → List String → Bool
has_text s l = any (λ t. t == s) l

abbrev pub has_link : ℕ × String → List (ℕ × String) → Bool
has_link (vendor, cve) l = any (λ k. k.0 == vendor && k.1 == cve) l

-- `merge` of a row by its primary key.
abbrev pub merge_cve : Cve → List Cve → List Cve
merge_cve c l =
    if any (λ d. d.cve_id == c.cve_id) l
    then update_if (λ d. d.cve_id == c.cve_id) (λ d. c) l
    else c ∷ l

abbrev pub merge_link : ℕ × String → List (ℕ × String) → List (ℕ × String)
merge_link k l = if has_link k l then l else k ∷ l

-- `upsert_vendor`; `none` is the NotFoundError. A name is unique in its organization.
unfoldable pub upsert_vendor : ℕ → String → Bool → Option String → Store → Option (ℕ × Store)
upsert_vendor org_id name is_mapped method store = elim (find_vendor org_id name store) [
  | none ↦ none
  | some v ↦ some (
    v.id,
    record store {
      vendors =
          update_if (is_named org_id name)
            (λ w. record w { is_mapped = is_mapped; match_method = method }) store.vendors;
    },
  )
]

unfoldable pub upsert_vulnerability : Cve → Store → Store
upsert_vulnerability cve store = if has_text cve.cve_id store.seen then store else record store {
  seen = cve.cve_id ∷ store.seen;
  vulnerabilities = merge_cve cve store.vulnerabilities;
}

unfoldable pub link_vendor_vulnerability : ℕ → String → Store → Store
link_vendor_vulnerability vendor_id cve_id store =
    if has_link (vendor_id, cve_id) store.linked then store else record store {
      linked = (vendor_id, cve_id) ∷ store.linked;
      pending = (vendor_id, cve_id) ∷ store.pending;
    }

abbrev pub merge_links : List (ℕ × String) → List (ℕ × String) → List (ℕ × String)
merge_links [] links = links
merge_links (k ∷ ks) links = merge_link k (merge_links ks links)

unfoldable pub commit : Store → Store
commit store = record store { links = merge_links store.pending store.links; pending = [] }

unfoldable pub vendor_is_mapped : ℕ → String → Store → Bool
vendor_is_mapped org_id name store = elim (find_vendor org_id name store) [
  | none ↦ false
  | some v ↦ v.is_mapped
]

-- `_record_unassessed`
unfoldable pub record_unassessed : ℕ → String → Store → Option Store
unfolding vendor_is_mapped upsert_vendor commit
record_unassessed org_id name store =
    if vendor_is_mapped org_id name store
    then some store
    else elim (upsert_vendor org_id name false none store) [
      | none ↦ none
      | some (id, after) ↦ some (commit after)
    ]

-- The loop over a vendor's records.
unfoldable pub store_records : ℕ → List Cve → Store → Store
store_records vendor_id [] store = store
store_records vendor_id (cve ∷ cves) store =
    store_records vendor_id cves
      (link_vendor_vulnerability vendor_id cve.cve_id (upsert_vulnerability cve store))

pub record Job : Type 0 where
  pub name : String
  pub prefix : String
  pub match_method : Option String

pub record IngestResult : Type 0 where
  pub attempted : ℕ
  pub succeeded : ℕ
  pub errors : List String
  pub cves_seen : List String

-- `cves_seen.add(...)` for each record; `cves_upserted` is the size of the set.
unfoldable pub see_cves : List Cve → List String → List String
see_cves [] seen = seen
see_cves (c ∷ cves) seen =
    let rest = see_cves cves seen in if has_text c.cve_id rest then rest else c.cve_id ∷ rest

abbrev pub cves_upserted : IngestResult → ℕ
cves_upserted result = length result.cves_seen

pub data Status : Type 0 where
  run_failed run_partial run_success : Status

unfoldable pub status : IngestResult → Status
status result =
    if nat_beq result.succeeded 0
    then run_failed
    else if ltb result.succeeded result.attempted
    then run_partial
    else run_success

-- `fetch` gives the records of a query for a prefix, or `none`, a VendorFetchError.
module _ (fetch : (query_type prefix : String) → Option (List Cve)) (org_id : ℕ) where
  -- `{qt: fetch(vendor, qt) for qt in query_types}`, and the records of all payloads.
  unfoldable pub fetch_all : Job → Option (List Cve)
  fetch_all job = elim (fetch "recent" job.prefix) [
    | none ↦ none
    | some recent ↦ elim (fetch "kev" job.prefix) [ none ↦ none | some kev ↦ some (recent ++ kev) ]
  ]

  -- One round of the loop of `ingest`.
  unfoldable pub ingest_vendor : Job → Store × IngestResult → Option (Store × IngestResult)
  ingest_vendor job (store, result) = elim (fetch_all job) [
    | none ↦ elim (record_unassessed org_id job.name store) [
      | none ↦ none
      | some after ↦ some (
        after,
        record result { attempted = suc result.attempted; errors = job.name ∷ result.errors },
      )
    ]
    | some cves ↦ elim (upsert_vendor org_id job.name true job.match_method store) [
      | none ↦ none
      | some (vendor_id, mapped) ↦ some (
        commit (store_records vendor_id cves mapped),
        record result {
          attempted = suc result.attempted;
          succeeded = suc result.succeeded;
          cves_seen = see_cves cves result.cves_seen;
        },
      )
    ]
  ]

  unfoldable pub ingest_from : List Job → Store × IngestResult → Option (Store × IngestResult)
  ingest_from [] so_far = some so_far
  ingest_from (job ∷ jobs) so_far = elim (ingest_vendor job so_far) [
    | none ↦ none
    | some next ↦ ingest_from jobs next
  ]

  unfoldable pub ingest : List Job → Store → Option (Store × IngestResult)
  unfolding ingest_from
  ingest jobs store =
      ingest_from jobs (store, record { attempted = 0; succeeded = 0; errors = []; cves_seen = [] })
