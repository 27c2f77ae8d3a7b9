-- ===== src/Sync/Ends.antt =====
-- A whole run of `run_due_syncs` in app/services/scheduled_sync_service.py: its vendors are found, so
-- it ends.
use third_party_vendor_risk.Base.{
  none, ◌≢◌, All-map, ℕ, ◌+◌, ◌≡◌, refl, ◌∙◌, subst, String, true, Option, some, List, [], ◌∷◌,
  nat_eq, string_eq, map, arith, All, inl, inr, Option-cases,
}
use third_party_vendor_risk.Scoring.{Cve}
use third_party_vendor_risk.Ingest.{Vendor, Job, ingest}
use third_party_vendor_risk.Sync.{
  Tables, PrefixWork, PrefixResult, get_vendors, get_or_create_state,
}
use third_party_vendor_risk.Sync.Vendors.{Ports, resolve_api_key}
use third_party_vendor_risk.Sync.Prefixes.{
  new_store, prepared, replay, sync_group, sync_groups, sync_prefix, run_works,
}
use third_party_vendor_risk.Sync.Due.{AllFollow}
use third_party_vendor_risk.Sync.Handled.{IsPaced}
use third_party_vendor_risk.Sync.Rounds.{List-cases, sync_group-Advances, sync_prefix-Advances}
use third_party_vendor_risk.Sync.Owners.{
  is_there, org_at, AllFollow-org_at, get_vendors-is_there, ingest_from_ends,
}

-- The vendors of a group belong to its organization, as far as they are there.
abbrev pub AreOwned : List Vendor → List (ℕ × List ℕ) → Type 0
AreOwned vs groups = All (λ g. All (λ id. org_at id vs ≡ some g.0) g.1) groups

abbrev pub AreWorksOwned : List Vendor → List PrefixWork → Type 0
AreWorksOwned vs works = All (λ w. AreOwned vs w.vendors_by_org) works

AreOwned-keeps :
    (now : ℕ) (ws vs : List Vendor) (groups : List (ℕ × List ℕ))
    → AllFollow now ws vs
    → AreOwned vs groups
    → AreOwned ws groups
AreOwned-keeps now ws vs groups f a =
    All-map (λ g. All (λ id. org_at id vs ≡ some g.0) g.1)
      (λ g. All (λ id. org_at id ws ≡ some g.0) g.1) groups
      (λ g b.
        All-map (λ id. org_at id vs ≡ some g.0) (λ id. org_at id ws ≡ some g.0) g.1
          (λ id o. AllFollow-org_at now id ws vs f ∙ o) b)
      a

AreWorksOwned-keeps :
    (now : ℕ) (ws vs : List Vendor) (works : List PrefixWork)
    → AllFollow now ws vs
    → AreWorksOwned vs works
    → AreWorksOwned ws works
AreWorksOwned-keeps now ws vs works f a =
    All-map (λ w. AreOwned vs w.vendors_by_org) (λ w. AreOwned ws w.vendors_by_org) works
      (λ w b. AreOwned-keeps now ws vs w.vendors_by_org f b) a

-- The jobs of vendors that are there.
prepared-is_there :
    (org_id : ℕ) (prefix : String) (vs ws : List Vendor)
    → All (λ w. is_there org_id w.name vs ≡ true) ws
    → All (λ (job : Job). is_there org_id job.name vs ≡ true) (map (prepared prefix) ws)
prepared-is_there org_id prefix vs [] a = tt
prepared-is_there org_id prefix vs (w ∷ ws) a = (a.0, prepared-is_there org_id prefix vs ws a.1)

-- No fetch ends in another exception than a VendorFetchError.
abbrev pub IsCaught : Ports → Type 0
IsCaught p =
    (prefix : String) (last_mod : Option ℕ) (api_key : Option String)
    → p.fetch_prefix prefix last_mod api_key ≢ none

module _ (p : Ports) (now today : ℕ) where
  sync_group_ends :
      (work : PrefixWork) (answer : Option (List Cve × List Cve)) (g : ℕ × List ℕ) (t : Tables)
      → All (λ id. org_at id t.store.vendors ≡ some g.0) g.1
      → (next : Tables × ℕ) × (sync_group p now today work (some answer) g t ≡ some next)
  unfolding sync_group ingest
  sync_group_ends work answer (org_id, ids) t owned =
      elim (List-cases (get_vendors t.store.vendors ids)) [
        | inl gone ↦ ((t, 0), rw (sync_group, gone) refl)
        | inr (v, vs, found) ↦
            let there = prepared-is_there org_id work.prefix t.store.vendors (v ∷ vs) (
              subst (All (λ w. is_there org_id w.name t.store.vendors ≡ true)) found
                (get_vendors-is_there org_id t.store.vendors ids owned)) in
            let (last, done) =
              ingest_from_ends (replay answer) org_id (map (prepared work.prefix) (v ∷ vs))
                (new_store t.store)
                (record { attempted = 0; succeeded = 0; errors = []; cves_seen = [] }) there in
            elim (Option-cases (sync_group p now today work (some answer) (org_id, ids) t)) [
              | inr ends ↦ ends
              | inl broken ↦ absurd (ground (arith, found, done))
            ]
      ]

  sync_groups_ends :
      (work : PrefixWork) (answer : Option (List Cve × List Cve)) (groups : List (ℕ × List ℕ))
      (t : Tables) (n : ℕ)
      → IsPaced p t
      → AreOwned t.store.vendors groups
      → (last : Tables × ℕ) × (sync_groups p now today work (some answer) groups (t, n) ≡ some last)
  unfolding sync_groups
  sync_groups_ends work answer [] t n paced owned = ((t, n), refl)
  sync_groups_ends work answer (g ∷ groups) t n paced owned =
      let (next, done) = sync_group_ends work answer g t owned.0 in
      let step =
        (sync_group-Advances p now today work (some answer) g t next.0 next.1 paced done).0 in
      let (last, rest) =
        sync_groups_ends work answer groups next.0 (n + next.1) step.paced
          (AreOwned-keeps now next.0.store.vendors t.store.vendors groups step.follows owned.1) in
      (last, rw (sync_groups, done) rest)

  sync_prefix_ends :
      (work : PrefixWork) (t : Tables)
      → IsCaught p
      → IsPaced p t
      → AreOwned t.store.vendors work.vendors_by_org
      → (r : Tables × PrefixResult) × (sync_prefix p now today work t ≡ some r)
  unfolding sync_prefix
  sync_prefix_ends work t caught paced owned =
      let (state, states) = get_or_create_state work.prefix t.states in
      let api_key = resolve_api_key p t.integrations work.vendors_by_org in
      elim (Option-cases (p.fetch_prefix work.prefix state.last_mod_watermark api_key)) [
        | inl uncaught ↦ absurd (caught work.prefix state.last_mod_watermark api_key uncaught)
        | inr (answer, given) ↦
            let (last, done) =
              sync_groups_ends work answer work.vendors_by_org (record t { states = states }) 0
                paced owned in
            elim (Option-cases (sync_prefix p now today work t)) [
              | inr ends ↦ ends
              | inl broken ↦ absurd (ground (arith, given, done))
            ]
      ]

  pub run_works_ends :
      (works : List PrefixWork) (t : Tables)
      → IsCaught p
      → IsPaced p t
      → AreWorksOwned t.store.vendors works
      → (last : Tables) × (run_works p now today works t ≡ some last)
  unfolding run_works
  run_works_ends [] t caught paced owned = (t, refl)
  run_works_ends (w ∷ works) t caught paced owned =
      let (r, done) = sync_prefix_ends w t caught paced owned.0 in
      let step = (sync_prefix-Advances p now today w t r.0 r.1 paced done).0 in
      let (last, rest) =
        run_works_ends works r.0 caught step.paced
          (AreWorksOwned-keeps now r.0.store.vendors t.store.vendors works step.follows owned.1) in
      (last, rw (run_works, done) rest)
