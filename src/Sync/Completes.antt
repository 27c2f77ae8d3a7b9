-- ===== src/Sync/Completes.antt =====
-- `plan_due_work` and `run_due_syncs` of app/services/scheduled_sync_service.py: the organizations of
-- the vendors of a plan, and the end of a run.
use third_party_vendor_risk.Base.{
  All-map, All-keep_if, ℕ, ◌≤◌, ◌<◌, ◌≡◌, refl, sym, subst, String, false, some, List, [], ◌∷◌,
  ◌++◌, ◌==◌, nat_eq, nat_beq_iff, string_eq, count_if, count_if_pos, keep_if, find_first,
  find_first_sound, map, arith, All, inl, inr, Bool-cases, Option-cases,
}
use third_party_vendor_risk.Integrations.{cadence_hours}
use third_party_vendor_risk.Ingest.{Vendor}
use third_party_vendor_risk.Sync.{
  Tables, PrefixWork, CpeSyncState, is_due, add_to_org, add_to_plan, group_vendors, mark,
  plan_due_work, select_due_vendors,
}
use third_party_vendor_risk.Sync.Vendors.{Ports}
use third_party_vendor_risk.Sync.Prefixes.{run_due_syncs}
use third_party_vendor_risk.Sync.Owners.{org_at}
use third_party_vendor_risk.Sync.Ends.{AreOwned, AreWorksOwned, run_works_ends, IsCaught}
use third_party_vendor_risk.Sync.Runs.{run_due_syncs_none_due}

-- The ids of the vendors are distinct.
abbrev pub AreDistinct : List Vendor → Type 0
AreDistinct vs = (id : ℕ) → count_if (λ v. v.id == id) vs ≤ 1

org_at_later :
    (w v : Vendor) (ws : List Vendor)
    → AreDistinct (w ∷ ws)
    → org_at v.id ws ≡ some v.org_id
    → org_at v.id (w ∷ ws) ≡ some v.org_id
org_at_later w v ws distinct e = elim (Bool-cases (w.id == v.id)) [
  | inr other ↦ ground arith
  | inl same ↦ elim (Option-cases (find_first (λ u. u.id == v.id) ws)) [
    | inl absent ↦ absurd (ground arith)
    | inr (u, found) ↦
        let at_most = distinct v.id in
        absurd (
          ground (
            arith,
            count_if_pos (λ x. x.id == v.id) (λ x. x.id == v.id) ws u found
                (find_first_sound (λ x. x.id == v.id) ws u found),
          ))
  ]
]

-- With distinct ids, the organization found by a vendor's id is the vendor's own.
own_org : (vs : List Vendor) → AreDistinct vs → All (λ v. org_at v.id vs ≡ some v.org_id) vs
own_org [] distinct = tt
own_org (v ∷ vs) distinct = (
  ground (arith, nat_beq_iff v.id v.id),
  All-map (λ w. org_at w.id vs ≡ some w.org_id) (λ w. org_at w.id (v ∷ vs) ≡ some w.org_id) vs
      (λ w e. org_at_later v w vs distinct e)
      (own_org vs (λ id. let d = distinct id in ground arith)),
)

-- What holds of all members still does when a member of which it holds is added, or some are dropped.
All-snoc : (P : ℕ → Type 0) → (xs : List ℕ) (y : ℕ) → All P xs → P y → All P (xs ++ (y ∷ []))
All-snoc P [] y a b = (b, tt)
All-snoc P (x ∷ xs) y a b = (a.0, All-snoc P xs y a.1 b)

-- What is put into a plan belongs to the organization it is put under.
module _ (rows : List Vendor) where
  add_to_org-AreOwned :
      (org_id id : ℕ) (groups : List (ℕ × List ℕ))
      → org_at id rows ≡ some org_id
      → AreOwned rows groups
      → AreOwned rows (add_to_org org_id id groups)
  add_to_org-AreOwned org_id id [] own a = ((own, tt), tt)
  add_to_org-AreOwned org_id id (g ∷ groups) own a = elim (Bool-cases (g.0 == org_id)) [
    | inl mine ↦
        let row : add_to_org org_id id (g ∷ groups) ≡ (g.0, g.1 ++ (id ∷ [])) ∷ groups =
          rw mine refl in
        let here : org_at id rows ≡ some g.0 = ground (arith, nat_beq_iff g.0 org_id) in
        subst (AreOwned rows) (sym row)
          (All-snoc (λ i. org_at i rows ≡ some g.0) g.1 id a.0 here, a.1)
    | inr other ↦
        let row : add_to_org org_id id (g ∷ groups) ≡ g ∷ add_to_org org_id id groups =
          rw other refl in
        subst (AreOwned rows) (sym row) (a.0, add_to_org-AreOwned org_id id groups own a.1)
  ]

  add_to_plan-AreWorksOwned :
      (prefix : String) (org_id id : ℕ) (works : List PrefixWork)
      → org_at id rows ≡ some org_id
      → AreWorksOwned rows works
      → AreWorksOwned rows (add_to_plan prefix org_id id works)
  add_to_plan-AreWorksOwned prefix org_id id [] own a = (((own, tt), tt), tt)
  add_to_plan-AreWorksOwned prefix org_id id (w ∷ works) own a =
      elim (Bool-cases (w.prefix == prefix)) [
        | inl mine ↦
            let row : add_to_plan prefix org_id id (w ∷ works)
                ≡ record w { vendors_by_org = add_to_org org_id id w.vendors_by_org } ∷ works =
              rw mine refl in
            subst (AreWorksOwned rows) (sym row)
              (add_to_org-AreOwned org_id id w.vendors_by_org own a.0, a.1)
        | inr other ↦
            let row : add_to_plan prefix org_id id (w ∷ works)
                ≡ w ∷ add_to_plan prefix org_id id works =
              rw other refl in
            subst (AreWorksOwned rows) (sym row)
              (a.0, add_to_plan-AreWorksOwned prefix org_id id works own a.1)
      ]

  group_vendors-AreWorksOwned :
      (vs : List Vendor) (works : List PrefixWork)
      → All (λ v. org_at v.id rows ≡ some v.org_id) vs
      → AreWorksOwned rows works
      → AreWorksOwned rows (group_vendors vs works)
  unfolding group_vendors
  group_vendors-AreWorksOwned [] works own a = a
  group_vendors-AreWorksOwned (v ∷ vs) works own a = elim (Option-cases v.cpe_prefix) [
    | inl unmapped ↦
        let row : group_vendors (v ∷ vs) works ≡ group_vendors vs works =
          rw (group_vendors, unmapped) refl in
        subst (AreWorksOwned rows) (sym row) (group_vendors-AreWorksOwned vs works own.1 a)
    | inr (prefix, mapped) ↦
        let next = add_to_plan prefix v.org_id v.id works in
        let row : group_vendors (v ∷ vs) works ≡ group_vendors vs next =
          rw (group_vendors, mapped) refl in
        subst (AreWorksOwned rows) (sym row) (
          group_vendors-AreWorksOwned vs next own.1
            (add_to_plan-AreWorksOwned prefix v.org_id v.id works own.0 a))
  ]

  mark-AreWorksOwned :
      (states : List CpeSyncState) (works : List PrefixWork)
      → AreWorksOwned rows works
      → AreWorksOwned rows (map (mark states) works)
  mark-AreWorksOwned states [] a = tt
  mark-AreWorksOwned states (w ∷ works) a = (a.0, mark-AreWorksOwned states works a.1)

plan_due_work-AreWorksOwned :
    (now : ℕ) (t : Tables)
    → AreDistinct t.store.vendors
    → AreWorksOwned t.store.vendors (plan_due_work now t)
unfolding plan_due_work select_due_vendors
plan_due_work-AreWorksOwned now t distinct =
    let rows = t.store.vendors in
    mark-AreWorksOwned rows t.states (group_vendors (keep_if (is_due now) rows) []) (
      group_vendors-AreWorksOwned rows (keep_if (is_due now) rows) []
        (All-keep_if (λ v. org_at v.id rows ≡ some v.org_id) (is_due now) rows
          (own_org rows distinct))
        tt)

-- When the ids of the vendors are distinct, every organization's cadence is an hour or more, and no
-- fetch ends in another exception than a VendorFetchError, as it would where the throttle of the
-- live fetch gives up, a run over all that is due ends without an exception, and after it no vendor is due: each vendor
-- that was due has been rescheduled to a later time, whether its fetch succeeded or failed, and no
-- other has become due.
pub run_due_syncs_completes :
    (p : Ports) (now today : ℕ) (t : Tables)
    → IsCaught p
    → AreDistinct t.store.vendors
    → ((org_id : ℕ) → 0 < cadence_hours p.default_hours t.tenancy t.integrations org_id)
    → (after : Tables) × (run_due_syncs p now today t ≡ some after)
      × All (λ v. is_due now v ≡ false) after.store.vendors
unfolding run_due_syncs
run_due_syncs_completes p now today t caught distinct paced =
    let (after, ends) =
      run_works_ends p now today (plan_due_work now t) t caught paced
        (plan_due_work-AreWorksOwned now t distinct) in
    (after, ends, run_due_syncs_none_due p now today t after paced ends)
