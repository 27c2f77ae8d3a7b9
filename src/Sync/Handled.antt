-- ===== src/Sync/Handled.antt =====
-- The end of a round of `sync_prefix` in app/services/scheduled_sync_service.py, and the schedules of
-- the vendors in it.
use third_party_vendor_risk.Base.{
  ℕ, ◌<◌, ◌≡◌, refl, sym, ap, subst, Bool, true, false, none, List, [], ◌∷◌, ◌==◌, nat_eq,
  nat_beq_iff, find_first, find_first_sound, update_if, arith, All, inl, inr, Bool-cases,
  Option-cases,
}
use third_party_vendor_risk.Integrations.{cadence_hours}
use third_party_vendor_risk.Alerts.{RiskSnapshot}
use third_party_vendor_risk.Ingest.{Vendor, Store}
use third_party_vendor_risk.Sync.{Tables, get_vendors}
use third_party_vendor_risk.Sync.Vendors.{
  Ports, rescheduled, schedule, snap, finalize_vendor, finalize_vendors,
}
use third_party_vendor_risk.Sync.Due.{
  Follows, AllFollow, AllFollow-refl, AllFollow-trans, AllFollow-update, NotDue, NotDue-keeps,
}

-- Every organization has a cadence of an hour or more.
abbrev pub IsPaced : Ports → Tables → Type 0
IsPaced p t = (org_id : ℕ) → 0 < cadence_hours p.default_hours t.tenancy t.integrations org_id

module _ (p : Ports) (now today : ℕ) where
  -- After a step no further vendor is due, and the cadences still are what they were.
  pub record Advances (t after : Tables) : Type 0 where
    pub follows : AllFollow now after.store.vendors t.store.vendors
    pub paced : IsPaced p after

  pub Advances-trans : (t u after : Tables) → Advances t u → Advances u after → Advances t after
  Advances-trans t u after a b = record {
    follows =
        AllFollow-trans now after.store.vendors u.store.vendors t.store.vendors b.follows a.follows;
    paced = b.paced;
  }

  update-NotDue :
      (hours id : ℕ) (vs : List Vendor)
      → 0 < hours
      → NotDue now id (update_if (λ v. v.id == id) (rescheduled p now hours) vs)
  update-NotDue hours id [] pos = tt
  update-NotDue hours id (v ∷ vs) pos = elim (Bool-cases (v.id == id)) [
    | inl mine ↦ rw mine (λ own due. ground arith, update-NotDue hours id vs pos)
    | inr other ↦
        rw other (λ own due. ground (arith, nat_beq_iff v.id id), update-NotDue hours id vs pos)
  ]

  rescheduled-Follows :
      (hours : ℕ) (v : Vendor) → 0 < hours → Follows now (rescheduled p now hours v) v
  rescheduled-Follows hours v pos = record {
    id = refl;
    org = refl;
    name = refl;
    due = λ d. absurd (ground arith);
  }

  schedule-Advances :
      (t : Tables) (org_id id : ℕ)
      → IsPaced p t
      → Advances t (schedule p now t org_id id)
        × NotDue now id (schedule p now t org_id id).store.vendors
  unfolding schedule
  schedule-Advances t org_id id paced =
      let hours = cadence_hours p.default_hours t.tenancy t.integrations org_id in
      (
        record {
          follows =
              AllFollow-update now (λ v. v.id == id) (rescheduled p now hours) t.store.vendors
                (λ v. rescheduled-Follows hours v (paced org_id));
          paced = paced;
        },
        update-NotDue hours id t.store.vendors (paced org_id),
      )

  finalize_vendor-rows :
      (fetched : Bool) (before : List RiskSnapshot) (t : Tables) (org_id id : ℕ)
      → ((finalize_vendor p now today fetched before t org_id id).store
          ≡ (schedule p now t org_id id).store)
        × ((finalize_vendor p now today fetched before t org_id id).tenancy ≡ t.tenancy)
        × ((finalize_vendor p now today fetched before t org_id id).integrations ≡ t.integrations)
  unfolding finalize_vendor snap
  finalize_vendor-rows false before t org_id id = (refl, refl, refl)
  finalize_vendor-rows true before t org_id id =
      elim (Option-cases
        (find_first (λ v. v.id == id) (schedule p now t org_id id).store.vendors)) [
          | inl gone ↦ rw (finalize_vendor, gone) (refl, refl, refl)
          | inr (v, found) ↦ rw (finalize_vendor, found) (refl, refl, refl)
        ]

  -- What keeps the cadences.
  pub kept-IsPaced :
      (t after : Tables)
      → after.tenancy ≡ t.tenancy
      → after.integrations ≡ t.integrations
      → IsPaced p t
      → IsPaced p after
  kept-IsPaced t after tenancy integrations paced =
      λ org_id. rw (tenancy, integrations) (paced org_id)

  finalize_vendor-Advances :
      (fetched : Bool) (before : List RiskSnapshot) (t : Tables) (org_id id : ℕ)
      → IsPaced p t
      → Advances t (finalize_vendor p now today fetched before t org_id id)
        × NotDue now id (finalize_vendor p now today fetched before t org_id id).store.vendors
  finalize_vendor-Advances fetched before t org_id id paced =
      let after = finalize_vendor p now today fetched before t org_id id in
      let (store, tenancy, integrations) = finalize_vendor-rows fetched before t org_id id in
      let (step, done) = schedule-Advances t org_id id paced in
      let rows : after.store.vendors ≡ (schedule p now t org_id id).store.vendors =
        ap (λ (s : Store). s.vendors) store in
      (
        record {
          follows = subst (λ vs. AllFollow now vs t.store.vendors) (sym rows) step.follows;
          paced = kept-IsPaced t after tenancy integrations paced;
        },
        subst (NotDue now id) (sym rows) done,
      )

  pub finalize_vendors-Advances :
      (fetched : Bool) (before : List RiskSnapshot) (t : Tables) (org_id : ℕ) (vs : List Vendor)
      → IsPaced p t
      → Advances t (finalize_vendors p now today fetched before t org_id vs)
        × All
            (λ v.
              NotDue now v.id
                (finalize_vendors p now today fetched before t org_id vs).store.vendors)
            vs
  unfolding finalize_vendors
  finalize_vendors-Advances fetched before t org_id [] paced =
      (record { follows = AllFollow-refl now t.store.vendors; paced = paced }, tt)
  finalize_vendors-Advances fetched before t org_id (v ∷ vs) paced =
      let next = finalize_vendor p now today fetched before t org_id v.id in
      let after = finalize_vendors p now today fetched before next org_id vs in
      let (step, done) = finalize_vendor-Advances fetched before t org_id v.id paced in
      let (rest, others) = finalize_vendors-Advances fetched before next org_id vs step.paced in
      (
        Advances-trans t next after step rest,
        (NotDue-keeps now v.id after.store.vendors next.store.vendors rest.follows done, others),
      )

  -- The ids of a group, of which some may be gone.
  missing-NotDue :
      (id : ℕ) (vs : List Vendor) → find_first (λ v. v.id == id) vs ≡ none → NotDue now id vs
  missing-NotDue id [] absent = tt
  missing-NotDue id (v ∷ vs) absent =
      (λ own due. ground (arith, nat_beq_iff v.id id), missing-NotDue id vs (ground (arith)))

  pub get_vendors-NotDue :
      (vs after : List Vendor) (ids : List ℕ)
      → AllFollow now after vs
      → All (λ v. NotDue now v.id after) (get_vendors vs ids)
      → All (λ id. NotDue now id after) ids
  unfolding get_vendors
  get_vendors-NotDue vs after [] follows done = tt
  get_vendors-NotDue vs after (id ∷ ids) follows done =
      elim (Option-cases (find_first (λ v. v.id == id) vs)) [
        | inl absent ↦ (
          NotDue-keeps now id after vs follows (missing-NotDue id vs absent),
          get_vendors-NotDue vs after ids follows
              (subst (All (λ v. NotDue now v.id after)) (rw (get_vendors, absent) refl) done),
        )
        | inr (v, found) ↦
            let same = (nat_beq_iff v.id id).0 (find_first_sound (λ v. v.id == id) vs v found) in
            let row : get_vendors vs (id ∷ ids) ≡ v ∷ get_vendors vs ids =
              rw (get_vendors, found) refl in
            let both = subst (All (λ v. NotDue now v.id after)) row done in
            (
              subst (λ i. NotDue now i after) same both.0,
              get_vendors-NotDue vs after ids follows both.1,
            )
      ]
