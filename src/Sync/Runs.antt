-- ===== src/Sync/Runs.antt =====
-- `plan_due_work` and `run_due_syncs` of app/services/scheduled_sync_service.py: the vendors of a plan,
-- and the schedules after a run.
use third_party_vendor_risk.Base.{
  ℕ, ◌<◌, ◌≡◌, refl, subst, String, true, false, some, List, [], ◌∷◌, ◌++◌, ◌==◌, nat_eq, string_eq,
  keep_if, is_some, arith, All, inl, inr, Bool-cases, Option-cases, map,
}
use third_party_vendor_risk.Integrations.{cadence_hours}
use third_party_vendor_risk.Ingest.{Vendor}
use third_party_vendor_risk.Sync.{
  Tables, PrefixWork, CpeSyncState, is_due, add_to_org, add_to_plan, group_vendors, mark,
  plan_due_work, select_due_vendors,
}
use third_party_vendor_risk.Sync.Vendors.{Ports}
use third_party_vendor_risk.Sync.Prefixes.{sync_prefix, run_works, run_due_syncs}
use third_party_vendor_risk.Sync.Due.{AllFollow, NotDue}
use third_party_vendor_risk.Sync.Handled.{IsPaced, Advances, Advances-trans}
use third_party_vendor_risk.Sync.Rounds.{
  AllIds, AllWorks, AllIds-keeps, Advances-none, sync_prefix-Advances,
}

-- What holds of all ids of a plan holds of the vendors that were put into it.
module _ (P : ℕ → Type 0) where
  All-append_inv : (xs ys : List ℕ) → All P (xs ++ ys) → All P xs × All P ys
  All-append_inv [] ys a = (tt, a)
  All-append_inv (x ∷ xs) ys a = let (b, c) = All-append_inv xs ys a.1 in ((a.0, b), c)

  AllIds-add :
      (org_id id : ℕ) (groups : List (ℕ × List ℕ))
      → AllIds P (add_to_org org_id id groups)
      → P id × AllIds P groups
  AllIds-add org_id id [] a = (a.0.0, tt)
  AllIds-add org_id id (g ∷ groups) a = elim (Bool-cases (g.0 == org_id)) [
    | inl mine ↦
        let row : add_to_org org_id id (g ∷ groups) ≡ (g.0, g.1 ++ (id ∷ [])) ∷ groups =
          rw mine refl in
        let both = subst (AllIds P) row a in
        let (old, new) = All-append_inv g.1 (id ∷ []) both.0 in (new.0, (old, both.1))
    | inr other ↦
        let row : add_to_org org_id id (g ∷ groups) ≡ g ∷ add_to_org org_id id groups =
          rw other refl in
        let both = subst (AllIds P) row a in
        let (new, old) = AllIds-add org_id id groups both.1 in (new, (both.0, old))
  ]

  AllWorks-add :
      (prefix : String) (org_id id : ℕ) (works : List PrefixWork)
      → AllWorks P (add_to_plan prefix org_id id works)
      → P id × AllWorks P works
  AllWorks-add prefix org_id id [] a = (a.0.0.0, tt)
  AllWorks-add prefix org_id id (w ∷ works) a = elim (Bool-cases (w.prefix == prefix)) [
    | inl mine ↦
        let row : add_to_plan prefix org_id id (w ∷ works)
            ≡ record w { vendors_by_org = add_to_org org_id id w.vendors_by_org } ∷ works =
          rw mine refl in
        let both = subst (AllWorks P) row a in
        let (new, old) = AllIds-add org_id id w.vendors_by_org both.0 in (new, (old, both.1))
    | inr other ↦
        let row : add_to_plan prefix org_id id (w ∷ works)
            ≡ w ∷ add_to_plan prefix org_id id works =
          rw other refl in
        let both = subst (AllWorks P) row a in
        let (new, old) = AllWorks-add prefix org_id id works both.1 in (new, (both.0, old))
  ]

  AllWorks-group :
      (vs : List Vendor) (works : List PrefixWork)
      → AllWorks P (group_vendors vs works)
      → All (λ v. is_some v.cpe_prefix ≡ true → P v.id) vs × AllWorks P works
  unfolding group_vendors
  AllWorks-group [] works a = (tt, a)
  AllWorks-group (v ∷ vs) works a = elim (Option-cases v.cpe_prefix) [
    | inl unmapped ↦
        let row : group_vendors (v ∷ vs) works ≡ group_vendors vs works =
          rw (group_vendors, unmapped) refl in
        let (rest, old) = AllWorks-group vs works (subst (AllWorks P) row a) in
        ((λ mapped. absurd (ground arith), rest), old)
    | inr (prefix, mapped) ↦
        let next = add_to_plan prefix v.org_id v.id works in
        let row : group_vendors (v ∷ vs) works ≡ group_vendors vs next =
          rw (group_vendors, mapped) refl in
        let (rest, both) = AllWorks-group vs next (subst (AllWorks P) row a) in
        let (new, old) = AllWorks-add prefix v.org_id v.id works both in ((λ _. new, rest), old)
  ]

  AllWorks-mark :
      (states : List CpeSyncState) (works : List PrefixWork)
      → AllWorks P (map (mark states) works)
      → AllWorks P works
  AllWorks-mark states [] a = tt
  AllWorks-mark states (w ∷ works) a = (a.0, AllWorks-mark states works a.1)

  All-selected :
      (now : ℕ) (vs : List Vendor)
      → All (λ v. is_some v.cpe_prefix ≡ true → P v.id) (keep_if (is_due now) vs)
      → All (λ v. is_due now v ≡ true → P v.id) vs
  All-selected now [] a = tt
  All-selected now (v ∷ vs) a = elim (Bool-cases (is_due now v)) [
    | inl due ↦
        let row : keep_if (is_due now) (v ∷ vs) ≡ v ∷ keep_if (is_due now) vs = rw due refl in
        let both = subst (All (λ v. is_some v.cpe_prefix ≡ true → P v.id)) row a in
        (λ _. both.0 (ground arith), All-selected now vs both.1)
    | inr later ↦
        let row : keep_if (is_due now) (v ∷ vs) ≡ keep_if (is_due now) vs = rw later refl in
        let rest = subst (All (λ v. is_some v.cpe_prefix ≡ true → P v.id)) row a in
        (λ due. absurd (cc), All-selected now vs rest)
  ]

  -- Every due vendor is in the plan.
  plan_due_work-covers :
      (now : ℕ) (t : Tables)
      → AllWorks P (plan_due_work now t)
      → All (λ v. is_due now v ≡ true → P v.id) t.store.vendors
  unfolding plan_due_work select_due_vendors
  plan_due_work-covers now t a =
      let due = keep_if (is_due now) t.store.vendors in
      All-selected now t.store.vendors
        ((AllWorks-group due [] (AllWorks-mark t.states (group_vendors due []) a)).0)

module _ (p : Ports) (now today : ℕ) where
  run_works-Advances :
      (works : List PrefixWork) (t after : Tables)
      → IsPaced p t
      → run_works p now today works t ≡ some after
      → Advances p now today t after × AllWorks (λ id. NotDue now id after.store.vendors) works
  unfolding run_works
  run_works-Advances [] t after paced e =
      let same : t ≡ after = ground arith in
      (subst (Advances p now today t) same (Advances-none p now today t paced), tt)
  run_works-Advances (w ∷ works) t after paced e =
      elim (Option-cases (sync_prefix p now today w t)) [
        | inl broken ↦ absurd (ground arith)
        | inr ((mid, result), done) ↦
            let rest : run_works p now today works mid ≡ some after = ground arith in
            let (first, ids) = sync_prefix-Advances p now today w t mid result paced done in
            let (later, others) = run_works-Advances works mid after first.paced rest in
            (
              Advances-trans p now today t mid after first later,
              (AllIds-keeps p now today mid after w.vendors_by_org later ids, others),
            )
      ]

-- Of rows that follow others, none is due if no id of a row that was due is.
none_due :
    (now : ℕ) (whole ws vs : List Vendor)
    → AllFollow now ws vs
    → All (λ v. is_due now v ≡ true → NotDue now v.id whole) vs
    → ((id : ℕ) → NotDue now id whole → NotDue now id ws)
    → All (λ w. is_due now w ≡ false) ws
none_due now whole [] vs follows handled down = tt
none_due now whole (w ∷ ws) [] follows handled down = absurd follows
none_due now whole (w ∷ ws) (v ∷ vs) follows handled down = (
  elim (Bool-cases (is_due now w)) [
    | inr later ↦ later
    | inl due ↦ absurd ((down v.id (handled.0 (follows.0.due due))).0 follows.0.id due)
  ],
  none_due now whole ws vs follows.1 handled.1 (λ id n. (down id n).1),
)

-- After a run over all that is due, no vendor is due: when every organization's cadence is an hour
-- or more and the run ends without an exception, each vendor that was due has been rescheduled to a
-- later time, whether its fetch succeeded or failed, and no other has become due.
pub run_due_syncs_none_due :
    (p : Ports) (now today : ℕ) (t after : Tables)
    → ((org_id : ℕ) → 0 < cadence_hours p.default_hours t.tenancy t.integrations org_id)
    → run_due_syncs p now today t ≡ some after
    → All (λ v. is_due now v ≡ false) after.store.vendors
unfolding run_due_syncs
run_due_syncs_none_due p now today t after paced e =
    let (steps, handled) = run_works-Advances p now today (plan_due_work now t) t after paced e in
    none_due now after.store.vendors after.store.vendors t.store.vendors steps.follows
      (plan_due_work-covers (λ id. NotDue now id after.store.vendors) now t handled) (λ id n. n)
