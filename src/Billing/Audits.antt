-- ===== src/Billing/Audits.antt =====
-- Every change of a plan by `apply_event` of app/services/billing_service.py is audited.
use mathlib.Core.Option.{some-injective}
use third_party_vendor_risk.Base.{
  ℕ, ◌≡◌, sym, ◌∙◌, String, Option, some, List, ◌∷◌, ◌==◌, arith, nat_eq, string_eq, Bool-cases,
  ◌⊎◌, inl, inr,
}
use third_party_vendor_risk.Tenancy.{Organization}
use third_party_vendor_risk.Json.{Json, Fields}
use third_party_vendor_risk.Billing.Rows.{
  Outcome, Store, plan_changed, find_org, get_or_create, write_row,
}
use third_party_vendor_risk.Billing.Webhooks.{
  Handled, effective, set_plan, subscribed_row, apply_event,
}
use third_party_vendor_risk.Billing.Tables.{
  get_or_create-cases, get_or_create-audit, find_org-set_plan,
}
use third_party_vendor_risk.Billing.Effects.{Change, kept, held, linked, subscribed, unpaid}
use third_party_vendor_risk.Billing.Events.{apply_event-cases}

-- The organization is as it was, or its plan has changed and the audit log has one more entry,
-- with the plan before and the plan after.
abbrev pub IsAudited : ℕ → Organization → Store → Store → Type 0
IsAudited a org db db' =
    (find_org a db'.organizations ≡ some org)
    ⊎ (to : String) × (status : String) × (find_org a db'.organizations
        ≡ some (record org { plan = to }))
      × (db'.audit ≡ plan_changed a org.plan to status ∷ db.audit)

set_plan-IsAudited :
    (a : ℕ) (old org : Organization) (to status : String) (db stored : Store)
    → stored.organizations ≡ db.organizations
    → stored.audit ≡ db.audit
    → find_org org.id db.organizations ≡ some org
    → find_org a db.organizations ≡ some old
    → IsAudited a old db (set_plan org to status stored)
unfolding set_plan
set_plan-IsAudited a old org to status db stored same_orgs same_audit found at_a =
    let after = find_org-set_plan a org to status stored (rw same_orgs found) in
    elim (Bool-cases (a == org.id)) [
      | inr other ↦ inl (ground (arith, after))
      | inl own ↦
          let same : a ≡ org.id = ground arith in
          let one : old ≡ org = some-injective old org (sym at_a ∙ (rw same found)) in
          elim (Bool-cases (org.plan == to)) [
            | inl unchanged ↦ inl (ground arith)
            | inr changed ↦ inr (to, status, ground (arith, after), ground arith)
          ]
    ]

Change-IsAudited :
    {db : Store} {h : Handled} (a : ℕ) (org : Organization)
    → Change db h
    → find_org a db.organizations ≡ some org
    → IsAudited a org db h.2
Change-IsAudited a org (kept o) at_a = inl at_a
Change-IsAudited {db} a org (held o owner found) at_a =
    inl (ground (arith, get_or_create-cases owner.id db))
Change-IsAudited {db} a org (linked owner customer subscription found) at_a =
    inl (ground (arith, get_or_create-cases owner.id db))
Change-IsAudited {db} a org
      (subscribed owner sub_id customer plan status cancel until created deleted found fresh) at_a =
    let (own, orgs, events, old) = get_or_create-cases owner.id db in
    set_plan-IsAudited a org owner (effective plan status) status db
      (write_row
        (subscribed_row (get_or_create owner.id db).0 sub_id customer plan status cancel until
          created)
        (get_or_create owner.id db).1)
      orgs (get_or_create-audit owner.id db) found at_a
Change-IsAudited a org (unpaid owner attempt) at_a = inl at_a

-- An event changes the plan of an organization only with an entry in the audit log that holds the
-- plan before and the plan after, and removes no organization and renames none.
pub apply_event-IsAudited :
    (show : Json → String) (int_of digits : String → Option ℕ) (prices : List (String × String))
    (now : ℕ) (db db' : Store) (event : Fields) (o : Outcome) (a : ℕ) (org : Organization)
    → apply_event show int_of digits prices now db event ≡ some (o, db')
    → find_org a db.organizations ≡ some org
    → IsAudited a org db db'
apply_event-IsAudited show int_of digits prices now db db' event o a org e at_a =
    elim (apply_event-cases show int_of digits prices now db db' event o e) [
      | inl (old, skipped, same) ↦ inl (rw same at_a)
      | inr h ↦ rw h.after (Change-IsAudited a org h.change at_a)
    ]
