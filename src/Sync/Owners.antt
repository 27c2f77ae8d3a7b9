-- ===== src/Sync/Owners.antt =====
-- The ingest of core/sync.py finds the vendors that app/services/scheduled_sync_service.py asks it for:
-- by the organization and the name of a row that is there.
use third_party_vendor_risk.Base.{
  ℕ, ◌≡◌, refl, sym, ◌∙◌, ap, subst, String, Bool, true, Option, none, some, List, [], ◌∷◌, ◌==◌,
  nat_eq, nat_beq_iff, string_eq, str_eq_refl, count_if_pos, find_first, find_first-none, is_some,
  arith, All, inl, inr, Option-cases,
}
use third_party_vendor_risk.Scoring.{Cve}
use third_party_vendor_risk.Ingest.{
  Vendor, Store, Job, IngestResult, is_named, upsert_vendor, record_unassessed, ingest_vendor,
  ingest_from,
}
use third_party_vendor_risk.Sync.{get_vendors}
use third_party_vendor_risk.Sync.Due.{AllFollow, ingest_vendor-AllFollow}

-- The organization has a vendor of the name.
abbrev pub is_there : ℕ → String → List Vendor → Bool
is_there org_id name vs = is_some (find_first (is_named org_id name) vs)

-- The organization of the vendor with an id.
abbrev pub org_at : ℕ → List Vendor → Option ℕ
org_at id vs = elim (find_first (λ v. v.id == id) vs) [ none ↦ none | some v ↦ some v.org_id ]

module _ (now : ℕ) where
  pub AllFollow-is_there :
      (org_id : ℕ) (name : String) (ws vs : List Vendor)
      → AllFollow now ws vs
      → is_there org_id name ws ≡ is_there org_id name vs
  AllFollow-is_there org_id name [] [] f = refl
  AllFollow-is_there org_id name [] (v ∷ vs) f = absurd f
  AllFollow-is_there org_id name (w ∷ ws) [] f = absurd f
  AllFollow-is_there org_id name (w ∷ ws) (v ∷ vs) f =
      let same : is_named org_id name w ≡ is_named org_id name v =
        ap (λ o. is_named org_id name (record w { org_id = o })) f.0.org
        ∙ ap (λ n. is_named org_id name (record v { name = n })) f.0.name in
      ground (arith, same, AllFollow-is_there org_id name ws vs f.1)

  pub AllFollow-org_at :
      (id : ℕ) (ws vs : List Vendor) → AllFollow now ws vs → org_at id ws ≡ org_at id vs
  AllFollow-org_at id [] [] f = refl
  AllFollow-org_at id [] (v ∷ vs) f = absurd f
  AllFollow-org_at id (w ∷ ws) [] f = absurd f
  AllFollow-org_at id (w ∷ ws) (v ∷ vs) f =
      ground (arith, f.0.id, f.0.org, AllFollow-org_at id ws vs f.1)

found-is_some :
    (p q : Vendor → Bool) (vs : List Vendor) (v : Vendor)
    → find_first p vs ≡ some v
    → q v ≡ true
    → is_some (find_first q vs) ≡ true
found-is_some p q vs v found holds =
    ground (arith, count_if_pos p q vs v found holds, find_first-none q vs)

-- The vendors with ids of an organization are found by name.
pub get_vendors-is_there :
    (org_id : ℕ) (vs : List Vendor) (ids : List ℕ)
    → All (λ id. org_at id vs ≡ some org_id) ids
    → All (λ w. is_there org_id w.name vs ≡ true) (get_vendors vs ids)
unfolding get_vendors
get_vendors-is_there org_id vs [] owned = tt
get_vendors-is_there org_id vs (id ∷ ids) owned =
    elim (Option-cases (find_first (λ v. v.id == id) vs)) [
      | inl absent ↦ absurd (let o = owned.0 in ground arith)
      | inr (v, found) ↦
          let o = owned.0 in
          let org : v.org_id ≡ org_id = ground arith in
          let row : get_vendors vs (id ∷ ids) ≡ v ∷ get_vendors vs ids =
            rw (get_vendors, found) refl in
          let named : is_named org_id v.name v ≡ true =
            ground (arith, nat_beq_iff v.org_id org_id, str_eq_refl v.name) in
          subst (All (λ w. is_there org_id w.name vs ≡ true)) (sym row) (
            found-is_some (λ v. v.id == id) (is_named org_id v.name) vs v found named,
            get_vendors-is_there org_id vs ids owned.1,
          )
    ]

jobs-is_there :
    (org_id : ℕ) (jobs : List Job) (ws vs : List Vendor)
    → AllFollow 0 ws vs
    → All (λ job. is_there org_id job.name vs ≡ true) jobs
    → All (λ job. is_there org_id job.name ws ≡ true) jobs
jobs-is_there org_id [] ws vs f a = tt
jobs-is_there org_id (job ∷ jobs) ws vs f a =
    (AllFollow-is_there 0 org_id job.name ws vs f ∙ a.0, jobs-is_there org_id jobs ws vs f a.1)

module _ (fetch : String → String → Option (List Cve)) (org_id : ℕ) where
  ingest_vendor_ends :
      (job : Job) (store : Store) (r : IngestResult)
      → is_there org_id job.name store.vendors ≡ true
      → (next : Store × IngestResult) × (ingest_vendor fetch org_id job (store, r) ≡ some next)
  unfolding ingest_vendor record_unassessed upsert_vendor
  ingest_vendor_ends job store r there =
      elim (Option-cases (ingest_vendor fetch org_id job (store, r))) [
        | inr done ↦ done
        | inl broken ↦ absurd (ground arith)
      ]

  pub ingest_from_ends :
      (jobs : List Job) (store : Store) (r : IngestResult)
      → All (λ job. is_there org_id job.name store.vendors ≡ true) jobs
      → (last : Store × IngestResult) × (ingest_from fetch org_id jobs (store, r) ≡ some last)
  unfolding ingest_from
  ingest_from_ends [] store r there = ((store, r), refl)
  ingest_from_ends (job ∷ jobs) store r there =
      let (next, done) = ingest_vendor_ends job store r there.0 in
      let follows = ingest_vendor-AllFollow 0 fetch org_id job store next.0 r next.1 done in
      let (last, rest) =
        ingest_from_ends jobs next.0 next.1
          (jobs-is_there org_id jobs next.0.vendors store.vendors follows there.1) in
      (last, rw (ingest_from, done) rest)
