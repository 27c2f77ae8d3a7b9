-- ===== src/Sync/Rounds.antt =====
-- The loops of `sync_prefix` in app/services/scheduled_sync_service.py, and the schedules of the
-- vendors of a piece of work.
use third_party_vendor_risk.Base.{
  none, All-map, ℕ, ◌+◌, ◌≡◌, refl, sym, ap, subst, Option, some, List, [], ◌∷◌, nat_eq, string_eq,
  is_some, arith, All, inl, inr, ◌⊎◌, Option-cases, map,
}
use third_party_vendor_risk.Scoring.{Cve}
use third_party_vendor_risk.Ingest.{Vendor, Store, ingest}
use third_party_vendor_risk.Sync.{
  Tables, PrefixWork, PrefixResult, get_vendors, get_or_create_state,
}
use third_party_vendor_risk.Sync.Vendors.{Ports, finalize_vendors, resolve_api_key}
use third_party_vendor_risk.Sync.Prefixes.{
  new_store, prepared, replay, sync_group, sync_groups, sync_prefix,
}
use third_party_vendor_risk.Sync.Due.{
  AllFollow, AllFollow-refl, NotDue, NotDue-keeps, ingest-AllFollow,
}
use third_party_vendor_risk.Sync.Handled.{
  IsPaced, Advances, Advances-trans, kept-IsPaced, finalize_vendors-Advances, get_vendors-NotDue,
}

pub List-cases {ℓ} : {A : Type ℓ} (l : List A) → (l ≡ []) ⊎ ((x : A) × (xs : List A) × (l ≡ x ∷ xs))
List-cases [] = inl refl
List-cases (x ∷ xs) = inr (x, xs, refl)

-- What holds of every id of a group, of the groups of a piece of work, of a plan.
abbrev pub AllIds : (ℕ → Type 0) → List (ℕ × List ℕ) → Type 0
AllIds P groups = All (λ g. All P g.1) groups

abbrev pub AllWorks : (ℕ → Type 0) → List PrefixWork → Type 0
AllWorks P works = All (λ w. AllIds P w.vendors_by_org) works

module _ (p : Ports) (now today : ℕ) where
  pub Advances-none : (t : Tables) → IsPaced p t → Advances p now today t t
  Advances-none t paced = record { follows = AllFollow-refl now t.store.vendors; paced = paced }

  -- The group after it was ingested, when there is a vendor.
  ingested-Advances :
      (work : PrefixWork) (answer : Option (Option (List Cve × List Cve))) (org_id : ℕ)
      (ids : List ℕ) (v : Vendor) (vs : List Vendor) (t after : Tables) (n : ℕ)
      → IsPaced p t
      → get_vendors t.store.vendors ids ≡ v ∷ vs
      → sync_group p now today work answer (org_id, ids) t ≡ some (after, n)
      → Advances p now today t after × All (λ id. NotDue now id after.store.vendors) ids
  unfolding sync_group
  ingested-Advances work none org_id ids v vs t after n paced found e = absurd (ground arith)
  ingested-Advances work (some answer) org_id ids v vs t after n paced found e =
      let jobs = map (prepared work.prefix) (v ∷ vs) in
      elim (Option-cases (ingest (replay answer) org_id jobs (new_store t.store))) [
        | inl broken ↦ absurd (ground arith)
        | inr ((stored, result), done) ↦
            let mid : Tables = record t { store = stored } in
            let final =
              finalize_vendors p now today (is_some answer) t.snapshots mid org_id (v ∷ vs) in
            let rows : (final.store ≡ after.store)
                × (after.tenancy ≡ final.tenancy)
                × (after.integrations ≡ final.integrations) =
              ground arith in
            let same = ap (λ (s : Store). s.vendors) rows.0 in
            let ingested : Advances p now today t mid = record {
              follows =
                  ingest-AllFollow now (replay answer) org_id jobs (new_store t.store) stored result
                    done;
              paced = paced;
            } in
            let (ended, all_done) =
              finalize_vendors-Advances p now today (is_some answer) t.snapshots mid org_id (v ∷ vs)
                paced in
            let whole = Advances-trans p now today t mid final ingested ended in
            let follows = subst (λ vs. AllFollow now vs t.store.vendors) same whole.follows in
            (
              record {
                follows = follows;
                paced = kept-IsPaced p now today final after rows.1 rows.2 whole.paced;
              },
              get_vendors-NotDue p now today t.store.vendors after.store.vendors ids follows (
                  subst (λ l. All (λ v. NotDue now v.id after.store.vendors) l) (sym found)
                    (subst (λ rows. All (λ v. NotDue now v.id rows) (v ∷ vs)) same all_done)),
            )
      ]

  pub sync_group-Advances :
      (work : PrefixWork) (answer : Option (Option (List Cve × List Cve))) (g : ℕ × List ℕ)
      (t after : Tables) (n : ℕ)
      → IsPaced p t
      → sync_group p now today work answer g t ≡ some (after, n)
      → Advances p now today t after × All (λ id. NotDue now id after.store.vendors) g.1
  unfolding sync_group
  sync_group-Advances work answer (org_id, ids) t after n paced e =
      elim (List-cases (get_vendors t.store.vendors ids)) [
        | inl gone ↦
            let same : t ≡ after = ground arith in
            (
              subst (Advances p now today t) same (Advances-none t paced),
              subst (λ u. All (λ id. NotDue now id u.store.vendors) ids) same
                  (get_vendors-NotDue p now today t.store.vendors t.store.vendors ids
                    (AllFollow-refl now t.store.vendors)
                    (subst (All (λ v. NotDue now v.id t.store.vendors)) (sym gone) tt)),
            )
        | inr (v, vs, found) ↦ ingested-Advances work answer org_id ids v vs t after n paced found e
      ]

  -- What is not due stays so.
  pub AllIds-keeps :
      (t after : Tables) (groups : List (ℕ × List ℕ))
      → Advances p now today t after
      → AllIds (λ id. NotDue now id t.store.vendors) groups
      → AllIds (λ id. NotDue now id after.store.vendors) groups
  AllIds-keeps t after groups step a =
      All-map (λ g. All (λ id. NotDue now id t.store.vendors) g.1)
        (λ g. All (λ id. NotDue now id after.store.vendors) g.1) groups
        (λ g b.
          All-map (λ id. NotDue now id t.store.vendors) (λ id. NotDue now id after.store.vendors)
            g.1 (λ id n. NotDue-keeps now id after.store.vendors t.store.vendors step.follows n) b)
        a

  sync_groups-Advances :
      (work : PrefixWork) (answer : Option (Option (List Cve × List Cve)))
      (groups : List (ℕ × List ℕ)) (t after : Tables) (handled n : ℕ)
      → IsPaced p t
      → sync_groups p now today work answer groups (t, handled) ≡ some (after, n)
      → Advances p now today t after × AllIds (λ id. NotDue now id after.store.vendors) groups
  unfolding sync_groups
  sync_groups-Advances work answer [] t after handled n paced e =
      let same : t ≡ after = ground arith in
      (subst (Advances p now today t) same (Advances-none t paced), tt)
  sync_groups-Advances work answer (g ∷ groups) t after handled n paced e =
      elim (Option-cases (sync_group p now today work answer g t)) [
        | inl broken ↦ absurd (ground arith)
        | inr ((mid, more), done) ↦
            let rest : sync_groups p now today work answer groups (mid, handled + more)
                ≡ some (after, n) =
              ground arith in
            let (first, ids) = sync_group-Advances work answer g t mid more paced done in
            let (later, others) =
              sync_groups-Advances work answer groups mid after (handled + more) n first.paced
                rest in
            (
              Advances-trans p now today t mid after first later,
              (
                All-map (λ id. NotDue now id mid.store.vendors)
                    (λ id. NotDue now id after.store.vendors) g.1
                    (λ id m.
                      NotDue-keeps now id after.store.vendors mid.store.vendors later.follows m)
                    ids,
                others,
              ),
            )
      ]

  pub sync_prefix-Advances :
      (work : PrefixWork) (t after : Tables) (result : PrefixResult)
      → IsPaced p t
      → sync_prefix p now today work t ≡ some (after, result)
      → Advances p now today t after
        × AllIds (λ id. NotDue now id after.store.vendors) work.vendors_by_org
  unfolding sync_prefix
  sync_prefix-Advances work t after result paced e =
      let state = (get_or_create_state work.prefix t.states).0 in
      let start : Tables = record t { states = (get_or_create_state work.prefix t.states).1 } in
      let answer =
        p.fetch_prefix work.prefix state.last_mod_watermark
          (resolve_api_key p t.integrations work.vendors_by_org) in
      elim (Option-cases (sync_groups p now today work answer work.vendors_by_org (start, 0))) [
        | inl broken ↦ absurd (ground arith)
        | inr ((mid, handled), done) ↦
            let rows : (mid.store ≡ after.store)
                × (after.tenancy ≡ mid.tenancy)
                × (after.integrations ≡ mid.integrations) =
              ground arith in
            let same = ap (λ (s : Store). s.vendors) rows.0 in
            let (steps, ids) =
              sync_groups-Advances work answer work.vendors_by_org start mid 0 handled paced done in
            (
              record {
                follows = subst (λ vs. AllFollow now vs t.store.vendors) same steps.follows;
                paced = kept-IsPaced p now today mid after rows.1 rows.2 steps.paced;
              },
              subst (λ vs. AllIds (λ id. NotDue now id vs) work.vendors_by_org) same ids,
            )
      ]
