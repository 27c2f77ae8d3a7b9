-- ===== src/Sync/Prefixes.antt =====
-- `sync_prefix` and `run_due_syncs` of app/services/scheduled_sync_service.py.
use third_party_vendor_risk.Base.{
  length, ℕ, ◌+◌, String, Bool, false, ◌&&◌, not, Option, none, some, List, [], ◌∷◌, ◌==◌, nat_eq,
  string_eq, leb, count_if, update_if, is_some, map, if◌then◌else◌,
}
use third_party_vendor_risk.Scoring.{Cve}
use third_party_vendor_risk.Ingest.{Vendor, Store, Job, IngestResult, status, cves_upserted, ingest}
use third_party_vendor_risk.Sync.{
  CpeSyncState, SyncRun, Tables, PrefixWork, PrefixResult, is_state_of, get_or_create_state,
  get_vendors, plan_due_work,
}
use third_party_vendor_risk.Sync.Vendors.{Ports, finalize_vendors, resolve_api_key}

-- A new `SqlAlchemyVulnStore` on the same tables.
abbrev pub new_store : Store → Store
new_store store = record store { seen = []; linked = []; pending = [] }

abbrev pub prepared : String → Vendor → Job
prepared prefix v = record {
  name = v.name;
  prefix = prefix;
  match_method = some (elim v.match_method [ none ↦ "virtual_match" | some m ↦ m ]);
}

-- `_MemoFetch`: the answer of the one call, replayed for each vendor and query.
abbrev pub replay : Option (List Cve × List Cve) → (query_type prefix : String) → Option (List Cve)
replay none query_type prefix = none
replay (some (recent, kev)) query_type prefix =
    if query_type == "recent" then some recent else some kev

-- `memo.ok`, after the call.
abbrev pub is_clean : Option (Option (List Cve × List Cve)) → Bool
is_clean none = false
is_clean (some answer) = is_some answer

abbrev pub run_row : (org_id : ℕ) (mode : String) (now : ℕ) → IngestResult → SyncRun
run_row org_id mode now result = record {
  org_id = org_id;
  mode = mode;
  status = status result;
  completed_at = now;
  vendors_attempted = result.attempted;
  vendors_succeeded = result.succeeded;
  cves_upserted = cves_upserted result;
  errors = result.errors;
}

abbrev pub subscriber_count : String → List Vendor → ℕ
subscriber_count prefix vendors =
    count_if (λ v. elim v.cpe_prefix [ none ↦ false | some s ↦ s == prefix ]) vendors

-- The state of a prefix after a clean fetch.
abbrev pub synced_state : (now subscribers : ℕ) → CpeSyncState → CpeSyncState
synced_state now subscribers s = record s {
  last_mod_watermark = some now;
  last_full_backfill_at =
      if is_some s.last_mod_watermark then s.last_full_backfill_at else some now;
  subscriber_count = subscribers;
}

module _ (p : Ports) where
  -- The round of `sync_prefix` for an organization; `none` is an exception, of the fetch or of
  -- the ingest. The last part says how many vendors were handled.
  unfoldable pub sync_group :
      (now today : ℕ)
      → PrefixWork
      → Option (Option (List Cve × List Cve))
      → ℕ × List ℕ
      → Tables
      → Option (Tables × ℕ)
  unfolding get_vendors ingest finalize_vendors
  sync_group now today work fetch (org_id, ids) t = elim (get_vendors t.store.vendors ids) [
    | [] ↦ some (t, 0)
    | v ∷ vs ↦ elim fetch [
      | none ↦ none
      | some answer ↦
          elim (ingest (replay answer) org_id (map (prepared work.prefix) (v ∷ vs))
            (new_store t.store)) [
              | none ↦ none
              | some (stored, result) ↦
                  let after =
                    finalize_vendors p now today (is_some answer) t.snapshots
                      (record t { store = stored }) org_id (v ∷ vs) in
                  some (
                    record after { runs = run_row org_id "scheduled" now result ∷ after.runs },
                    length (v ∷ vs),
                  )
            ]
    ]
  ]

  unfoldable pub sync_groups :
      (now today : ℕ)
      → PrefixWork
      → Option (Option (List Cve × List Cve))
      → List (ℕ × List ℕ)
      → Tables × ℕ
      → Option (Tables × ℕ)
  unfolding sync_group
  sync_groups now today work answer [] so_far = some so_far
  sync_groups now today work answer (g ∷ groups) (t, handled) =
      elim (sync_group now today work answer g t) [
        | none ↦ none
        | some (after, more) ↦ sync_groups now today work answer groups (after, handled + more)
      ]

  -- `sync_prefix`. The fetch is called for the first vendor there is; without one, nothing is
  -- fetched.
  unfoldable pub sync_prefix :
      (now today : ℕ) → PrefixWork → Tables → Option (Tables × PrefixResult)
  unfolding get_or_create_state resolve_api_key sync_groups
  sync_prefix now today work t =
      let (state, states) = get_or_create_state work.prefix t.states in
      let answer =
        p.fetch_prefix work.prefix state.last_mod_watermark
          (resolve_api_key p t.integrations work.vendors_by_org) in
      elim (sync_groups now today work answer work.vendors_by_org
        (record t { states = states }, 0)) [
          | none ↦ none
          | some (after, handled) ↦
              let fetched = is_clean answer && not (leb handled 0) in
              some (
                (if fetched
                    then (record after {
                      states =
                          update_if (is_state_of work.prefix)
                            (synced_state now (subscriber_count work.prefix after.store.vendors))
                            after.states;
                    })
                    else after),
                record {
                  prefix = work.prefix;
                  fetched = fetched;
                  vendors_synced = if fetched then handled else 0;
                  vendors_failed = if fetched then 0 else handled;
                },
              )
        ]

  -- `run_due_syncs`, over the works of a plan.
  unfoldable pub run_works : (now today : ℕ) → List PrefixWork → Tables → Option Tables
  unfolding sync_prefix
  run_works now today [] t = some t
  run_works now today (w ∷ works) t = elim (sync_prefix now today w t) [
    | none ↦ none
    | some (after, result) ↦ run_works now today works after
  ]

  unfoldable pub run_due_syncs : (now today : ℕ) → Tables → Option Tables
  unfolding plan_due_work run_works
  run_due_syncs now today t = run_works now today (plan_due_work now t) t
