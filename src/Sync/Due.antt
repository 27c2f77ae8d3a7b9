-- ===== src/Sync/Due.antt =====
-- Rows of vendors before and after a step of app/services/scheduled_sync_service.py, and which of them
-- are due; the ingest of core/sync.py as such a step.
use third_party_vendor_risk.Base.{
  ℕ, ◌≡◌, refl, sym, ◌∙◌, String, Bool, true, false, Option, none, some, List, [], ◌∷◌, nat_eq,
  string_eq, update_if, arith, All, inl, inr, Bool-cases, Option-cases,
}
use third_party_vendor_risk.Scoring.{Cve}
use third_party_vendor_risk.Ingest.{
  Vendor, Store, Job, IngestResult, is_named, upsert_vendor, upsert_vulnerability,
  link_vendor_vulnerability, commit, record_unassessed, vendor_is_mapped, store_records, fetch_all,
  ingest_vendor, ingest_from, ingest,
}
use third_party_vendor_risk.Sync.{is_due}

module _ (now : ℕ) where
  -- The row after a step, and the row before: no vendor becomes due, and none changes its id.
  pub record Follows (w v : Vendor) : Type 0 where
    pub id : w.id ≡ v.id
    pub org : w.org_id ≡ v.org_id
    pub name : w.name ≡ v.name
    pub due : is_due now w ≡ true → is_due now v ≡ true

  abbrev pub AllFollow : List Vendor → List Vendor → Type 0
  AllFollow [] [] = Unit
  AllFollow [] (v ∷ vs) = ⊥
  AllFollow (w ∷ ws) [] = ⊥
  AllFollow (w ∷ ws) (v ∷ vs) = Follows w v × AllFollow ws vs

  pub AllFollow-refl : (vs : List Vendor) → AllFollow vs vs
  AllFollow-refl [] = tt
  AllFollow-refl (v ∷ vs) =
      (record { id = refl; org = refl; name = refl; due = λ d. d }, AllFollow-refl vs)

  pub AllFollow-trans :
      (us ws vs : List Vendor) → AllFollow us ws → AllFollow ws vs → AllFollow us vs
  AllFollow-trans [] [] [] a b = tt
  AllFollow-trans [] [] (v ∷ vs) a b = absurd b
  AllFollow-trans [] (w ∷ ws) vs a b = absurd a
  AllFollow-trans (u ∷ us) [] vs a b = absurd a
  AllFollow-trans (u ∷ us) (w ∷ ws) [] a b = absurd b
  AllFollow-trans (u ∷ us) (w ∷ ws) (v ∷ vs) a b = (
    record {
      id = a.0.id ∙ b.0.id;
      org = a.0.org ∙ b.0.org;
      name = a.0.name ∙ b.0.name;
      due = λ d. b.0.due (a.0.due d);
    },
    AllFollow-trans us ws vs a.1 b.1,
  )

  -- An update of rows that makes none due and keeps the ids.
  pub AllFollow-update :
      (q : Vendor → Bool) (f : Vendor → Vendor) (vs : List Vendor)
      → ((v : Vendor) → Follows (f v) v)
      → AllFollow (update_if q f vs) vs
  AllFollow-update q f [] keeps = tt
  AllFollow-update q f (v ∷ vs) keeps = elim (Bool-cases (q v)) [
    | inl hit ↦ rw hit (keeps v, AllFollow-update q f vs keeps)
    | inr miss ↦
        rw miss (
          record { id = refl; org = refl; name = refl; due = λ d. d },
          AllFollow-update q f vs keeps,
        )
  ]

  -- No vendor of this id is due.
  abbrev pub NotDue : ℕ → List Vendor → Type 0
  NotDue id vs = All (λ v. v.id ≡ id → is_due now v ≡ true → ⊥) vs

  pub NotDue-keeps : (id : ℕ) (ws vs : List Vendor) → AllFollow ws vs → NotDue id vs → NotDue id ws
  NotDue-keeps id [] [] f n = tt
  NotDue-keeps id [] (v ∷ vs) f n = absurd f
  NotDue-keeps id (w ∷ ws) [] f n = absurd f
  NotDue-keeps id (w ∷ ws) (v ∷ vs) f n =
      (λ own due. n.0 (sym f.0.id ∙ own) (f.0.due due), NotDue-keeps id ws vs f.1 n.1)

  -- What the ingest does to the vendors.
  upsert-AllFollow :
      (org_id : ℕ) (name : String) (is_mapped : Bool) (method : Option String) (store after : Store)
      (id : ℕ)
      → upsert_vendor org_id name is_mapped method store ≡ some (id, after)
      → AllFollow after.vendors store.vendors
  unfolding upsert_vendor
  upsert-AllFollow org_id name is_mapped method store after id e =
      let f = λ (w : Vendor).
        (let u : Vendor = record w { is_mapped = is_mapped; match_method = method } in u) in
      let same : after.vendors ≡ update_if (is_named org_id name) f store.vendors = ground arith in
      rw same (
        AllFollow-update (is_named org_id name) f store.vendors
          (λ v. record { id = refl; org = refl; name = refl; due = λ d. d }))

  store_records-vendors :
      (vendor_id : ℕ) (cves : List Cve) (store : Store)
      → (store_records vendor_id cves store).vendors ≡ store.vendors
  unfolding store_records upsert_vulnerability link_vendor_vulnerability
  store_records-vendors vendor_id [] store = refl
  store_records-vendors vendor_id (c ∷ cves) store =
      store_records-vendors vendor_id cves
        (link_vendor_vulnerability vendor_id c.cve_id (upsert_vulnerability c store))
      ∙ ground arith

  unassessed-AllFollow :
      (org_id : ℕ) (name : String) (store after : Store)
      → record_unassessed org_id name store ≡ some after
      → AllFollow after.vendors store.vendors
  unfolding record_unassessed commit
  unassessed-AllFollow org_id name store after e =
      elim (Bool-cases (vendor_is_mapped org_id name store)) [
        | inl mapped ↦
            let same : after.vendors ≡ store.vendors = ground arith in
            rw same (AllFollow-refl store.vendors)
        | inr unmapped ↦ elim (Option-cases (upsert_vendor org_id name false none store)) [
          | inl missing ↦ absurd (ground arith)
          | inr ((id, put), e2) ↦
              let same : after.vendors ≡ put.vendors = ground arith in
              rw same (upsert-AllFollow org_id name false none store put id e2)
        ]
      ]

  module _ (fetch : String → String → Option (List Cve)) (org_id : ℕ) where
    pub ingest_vendor-AllFollow :
        (job : Job) (store after : Store) (r r2 : IngestResult)
        → ingest_vendor fetch org_id job (store, r) ≡ some (after, r2)
        → AllFollow after.vendors store.vendors
    unfolding ingest_vendor commit
    ingest_vendor-AllFollow job store after r r2 e =
        elim (Option-cases (fetch_all fetch org_id job)) [
          | inl failed ↦ elim (Option-cases (record_unassessed org_id job.name store)) [
            | inl missing ↦ absurd (ground arith)
            | inr (put, e2) ↦
                let same : after.vendors ≡ put.vendors = ground arith in
                rw same (unassessed-AllFollow org_id job.name store put e2)
          ]
          | inr (cves, fetched) ↦
              elim (Option-cases (upsert_vendor org_id job.name true job.match_method store)) [
                | inl missing ↦ absurd (ground arith)
                | inr ((id, put), e2) ↦
                    let same : after.vendors ≡ (store_records id cves put).vendors = ground arith in
                    rw (same, store_records-vendors id cves put)
                      (upsert-AllFollow org_id job.name true job.match_method store put id e2)
              ]
        ]

    ingest_from-AllFollow :
        (jobs : List Job) (store after : Store) (r r2 : IngestResult)
        → ingest_from fetch org_id jobs (store, r) ≡ some (after, r2)
        → AllFollow after.vendors store.vendors
    unfolding ingest_from
    ingest_from-AllFollow [] store after r r2 e =
        let same : after ≡ store = ground arith in rw same (AllFollow-refl store.vendors)
    ingest_from-AllFollow (job ∷ jobs) store after r r2 e =
        elim (Option-cases (ingest_vendor fetch org_id job (store, r))) [
          | inl missing ↦ absurd (ground arith)
          | inr ((mid, rm), e2) ↦
              let rest : ingest_from fetch org_id jobs (mid, rm) ≡ some (after, r2) =
                ground arith in
              AllFollow-trans after.vendors mid.vendors store.vendors
                (ingest_from-AllFollow jobs mid after rm r2 rest)
                (ingest_vendor-AllFollow job store mid r rm e2)
        ]

    pub ingest-AllFollow :
        (jobs : List Job) (store after : Store) (r2 : IngestResult)
        → ingest fetch org_id jobs store ≡ some (after, r2)
        → AllFollow after.vendors store.vendors
    unfolding ingest
    ingest-AllFollow jobs store after r2 e =
        ingest_from-AllFollow jobs store after
          (record { attempted = 0; succeeded = 0; errors = []; cves_seen = [] }) r2 e
