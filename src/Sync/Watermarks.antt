-- ===== src/Sync/Watermarks.antt =====
-- The watermarks of the prefixes in app/services/scheduled_sync_service.py.
use third_party_vendor_risk.Base.{
  ℕ, ◌+◌, ◌≡◌, refl, ◌∙◌, subst, String, Bool, true, false, ◌&&◌, not, Option, none, some, List, [],
  ◌∷◌, ◌==◌, string_eq, nat_eq, str_eq_iff, str_eq_refl, leb, find_first, update_if, is_some,
  if◌then◌else◌, arith, inl, inr, Bool-cases, Option-cases, map,
}
use third_party_vendor_risk.Scoring.{Cve}
use third_party_vendor_risk.Alerts.{RiskSnapshot}
use third_party_vendor_risk.Ingest.{Vendor, ingest}
use third_party_vendor_risk.Sync.{
  Tables, PrefixWork, PrefixResult, CpeSyncState, is_state_of, get_vendors, get_or_create_state,
}
use third_party_vendor_risk.Sync.Vendors.{
  Ports, schedule, snap, finalize_vendor, finalize_vendors, resolve_api_key,
}
use third_party_vendor_risk.Sync.Prefixes.{
  is_clean, new_store, prepared, replay, sync_group, sync_groups, sync_prefix, synced_state,
  subscriber_count,
}
use third_party_vendor_risk.Sync.Rounds.{List-cases}

-- The watermark of a prefix, absent also where the prefix has no row.
abbrev pub watermark_of : String → List CpeSyncState → Option ℕ
watermark_of prefix states = elim (find_first (is_state_of prefix) states) [
  | none ↦ none
  | some s ↦ s.last_mod_watermark
]

module _ (p : Ports) (now today : ℕ) where
  finalize_vendors-states :
      (fetched : Bool) (before : List RiskSnapshot) (t : Tables) (org_id : ℕ) (vs : List Vendor)
      → (finalize_vendors p now today fetched before t org_id vs).states ≡ t.states
  unfolding finalize_vendors finalize_vendor schedule snap
  finalize_vendors-states fetched before t org_id [] = refl
  finalize_vendors-states false before t org_id (v ∷ vs) =
      finalize_vendors-states false before (schedule p now t org_id v.id) org_id vs
  finalize_vendors-states true before t org_id (v ∷ vs) =
      let next = finalize_vendor p now today true before t org_id v.id in
      finalize_vendors-states true before next org_id vs
      ∙ (elim (Option-cases
          (find_first (λ v2. v2.id == v.id) (schedule p now t org_id v.id).store.vendors)) [
            | inl gone ↦ rw (finalize_vendor, gone) refl
            | inr (w, found) ↦ rw (finalize_vendor, found) refl
          ])

  sync_group-states :
      (work : PrefixWork) (answer : Option (Option (List Cve × List Cve))) (g : ℕ × List ℕ)
      (t after : Tables) (n : ℕ)
      → sync_group p now today work answer g t ≡ some (after, n)
      → after.states ≡ t.states
  unfolding sync_group
  sync_group-states work none (org_id, ids) t after n e =
      elim (List-cases (get_vendors t.store.vendors ids)) [
        | inl gone ↦ ground arith
        | inr (v, vs, found) ↦ absurd (ground arith)
      ]
  sync_group-states work (some answer) (org_id, ids) t after n e =
      elim (List-cases (get_vendors t.store.vendors ids)) [
        | inl gone ↦ ground arith
        | inr (v, vs, found) ↦
            let jobs = map (prepared work.prefix) (v ∷ vs) in
            elim (Option-cases (ingest (replay answer) org_id jobs (new_store t.store))) [
              | inl broken ↦ absurd (ground arith)
              | inr ((stored, result), done) ↦
                  let mid : Tables = record t { store = stored } in
                  let final =
                    finalize_vendors p now today (is_some answer) t.snapshots mid org_id (v ∷ vs) in
                  let same : after.states ≡ final.states = ground arith in
                  same ∙ finalize_vendors-states (is_some answer) t.snapshots mid org_id (v ∷ vs)
            ]
      ]

  sync_groups-states :
      (work : PrefixWork) (answer : Option (Option (List Cve × List Cve)))
      (groups : List (ℕ × List ℕ)) (t after : Tables) (handled n : ℕ)
      → sync_groups p now today work answer groups (t, handled) ≡ some (after, n)
      → after.states ≡ t.states
  unfolding sync_groups
  sync_groups-states work answer [] t after handled n e = ground arith
  sync_groups-states work answer (g ∷ groups) t after handled n e =
      elim (Option-cases (sync_group p now today work answer g t)) [
        | inl broken ↦ absurd (ground arith)
        | inr ((mid, more), done) ↦
            let rest : sync_groups p now today work answer groups (mid, handled + more)
                ≡ some (after, n) =
              ground arith in
            sync_groups-states work answer groups mid after (handled + more) n rest
            ∙ sync_group-states work answer g t mid more done
      ]

clean-answered :
    (answer : Option (Option (List Cve × List Cve)))
    → is_clean answer ≡ true
    → (records : List Cve × List Cve) × (answer ≡ some (some records))
clean-answered none clean = absurd (cc)
clean-answered (some none) clean = absurd (cc)
clean-answered (some (some records)) clean = (records, refl)

-- A row without a watermark, for a prefix that had no row.
fresh_row-watermark :
    (row : CpeSyncState) (other : String) (states : List CpeSyncState)
    → row.last_mod_watermark ≡ none
    → find_first (is_state_of row.cpe_prefix) states ≡ none
    → watermark_of other (row ∷ states) ≡ watermark_of other states
fresh_row-watermark row other states fresh absent = elim (Bool-cases (row.cpe_prefix == other)) [
  | inl same ↦
      let alike = (str_eq_iff row.cpe_prefix other).0 same in
      let gone = subst (λ o. find_first (is_state_of o) states ≡ none) alike absent in ground arith
  | inr differ ↦ ground arith
]

get_or_create_state-watermark :
    (prefix other : String) (states : List CpeSyncState)
    → (watermark_of other (get_or_create_state prefix states).1 ≡ watermark_of other states)
      × (is_some (find_first (is_state_of prefix) (get_or_create_state prefix states).1) ≡ true)
unfolding get_or_create_state
get_or_create_state-watermark prefix other states =
    elim (Option-cases (find_first (is_state_of prefix) states)) [
      | inr (s, found) ↦ rw (get_or_create_state, found) (refl, rw found refl)
      | inl absent ↦
          let row : CpeSyncState = record {
            cpe_prefix = prefix;
            last_mod_watermark = none;
            last_full_backfill_at = none;
            subscriber_count = 0;
          } in
          rw (get_or_create_state, absent)
            (fresh_row-watermark row other states refl absent, rw (str_eq_refl prefix) refl)
    ]

update-watermark_other :
    (prefix other : String) (now subscribers : ℕ) (states : List CpeSyncState)
    → (other == prefix) ≡ false
    → watermark_of other (update_if (is_state_of prefix) (synced_state now subscribers) states)
      ≡ watermark_of other states
update-watermark_other prefix other now subscribers [] differ = refl
update-watermark_other prefix other now subscribers (s ∷ states) differ =
    let rest = update-watermark_other prefix other now subscribers states differ in
    ground (
      arith,
      rest,
      str_eq_iff s.cpe_prefix prefix,
      str_eq_iff s.cpe_prefix other,
      str_eq_iff other prefix,
    )

update-watermark_own :
    (prefix : String) (now subscribers : ℕ) (states : List CpeSyncState)
    → is_some (find_first (is_state_of prefix) states) ≡ true
    → watermark_of prefix (update_if (is_state_of prefix) (synced_state now subscribers) states)
      ≡ some now
update-watermark_own prefix now subscribers [] there = absurd (cc)
update-watermark_own prefix now subscribers (s ∷ states) there =
    ground (arith, update-watermark_own prefix now subscribers states)

-- The watermark of a prefix says up to when its changes were seen. When `sync_prefix` returns, the
-- watermark of its prefix is the time of the run if the result says that the fetch succeeded, in
-- which case the NVD did answer, and is what it was if not; the watermark of any other prefix is
-- what it was.
pub sync_prefix-watermark :
    (p : Ports) (now today : ℕ) (work : PrefixWork) (t after : Tables) (result : PrefixResult)
    → sync_prefix p now today work t ≡ some (after, result)
    → (watermark_of work.prefix after.states
        ≡ (if result.fetched then some now else watermark_of work.prefix t.states))
      × ((other : String)
          → (other == work.prefix) ≡ false
          → watermark_of other after.states ≡ watermark_of other t.states)
      × (result.fetched ≡ true
          → (records : List Cve × List Cve) × (p.fetch_prefix work.prefix
                (get_or_create_state work.prefix t.states).0.last_mod_watermark
                (resolve_api_key p t.integrations work.vendors_by_org)
              ≡ some (some records)))
unfolding sync_prefix
sync_prefix-watermark p now today work t after result e =
    let state = (get_or_create_state work.prefix t.states).0 in
    let states = (get_or_create_state work.prefix t.states).1 in
    let start : Tables = record t { states = states } in
    let answer =
      p.fetch_prefix work.prefix state.last_mod_watermark
        (resolve_api_key p t.integrations work.vendors_by_org) in
    elim (Option-cases (sync_groups p now today work answer work.vendors_by_org (start, 0))) [
      | inl broken ↦ absurd (ground arith)
      | inr ((mid, handled), done) ↦
          let same =
            sync_groups-states p now today work answer work.vendors_by_org start mid 0 handled
              done in
          let made = get_or_create_state-watermark work.prefix in
          let subscribers = subscriber_count work.prefix mid.store.vendors in
          elim (Bool-cases (is_clean answer && not (leb handled 0))) [
            | inl clean ↦
                let rows : (after.states
                      ≡ update_if (is_state_of work.prefix) (synced_state now subscribers)
                          mid.states)
                    × (result.fetched ≡ true)
                    × (is_clean answer ≡ true) =
                  ground arith in
                (
                  rw (rows.0, rows.1, same)
                      (update-watermark_own work.prefix now subscribers states
                        ((made work.prefix t.states).1)),
                  λ other differ.
                      rw (rows.0, same)
                        (update-watermark_other work.prefix other now subscribers states differ
                          ∙ (made other t.states).0),
                  λ fetched. clean-answered answer rows.2,
                )
            | inr starved ↦
                let rows : (after.states ≡ mid.states) × (result.fetched ≡ false) = ground arith in
                (
                  rw (rows.0, rows.1, same) ((made work.prefix t.states).0),
                  λ other differ. rw (rows.0, same) ((made other t.states).0),
                  λ fetched. absurd (ground (arith, rows.1)),
                )
          ]
    ]
