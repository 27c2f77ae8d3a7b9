-- ===== src/Entitlements/Limits.antt =====
-- The limits of app/services/entitlements.py across plans, and for a batch of vendors.
use mathlib.Core.Option.{some-injective}
use third_party_vendor_risk.Base.{
  ℕ, ◌≡◌, refl, sym, ◌∙◌, ◌⊎◌, inl, inr, Bool, none, some, arith, nat_eq, string_eq, ok,
}
use third_party_vendor_risk.Tenancy.{Organization, Db}
use third_party_vendor_risk.Entitlements.{
  free, team, business, plan_for, next_plan, require_vendor_capacity, require_member_capacity,
  require_sync_interval, require_pdf_reports,
}

-- Every organization is on one of the three plans; an unknown stored value is Free.
plan_for-cases :
    (org : Organization)
    → (plan_for org ≡ free) ⊎ ((plan_for org ≡ team) ⊎ (plan_for org ≡ business))
unfolding plan_for
plan_for-cases org = ground arith

next-free : next_plan free ≡ some team
unfolding next_plan
next-free = refl

next-team : next_plan team ≡ some business
unfolding next_plan
next-team = refl

next-business : next_plan business ≡ none
unfolding next_plan
next-business = refl

-- The two upgrades that there are.
upgrades :
    (org upgraded : Organization)
    → next_plan (plan_for org) ≡ some (plan_for upgraded)
    → (plan_for org ≡ free) × (plan_for upgraded ≡ team)
      ⊎ (plan_for org ≡ team) × (plan_for upgraded ≡ business)
upgrades org upgraded next = elim (plan_for-cases org) [
  | inl e ↦ inl (e, some-injective _ _ (sym next ∙ (rw e next-free)))
  | inr (inl e) ↦ inr (e, some-injective _ _ (sym next ∙ (rw e next-team)))
  | inr (inr e) ↦ cc (next-business)
]

-- An upgrade to the next plan takes nothing away: of two organizations with the same id, where
-- the second is on the plan after the first one's, whatever check the first passes (any number of
-- vendors, a seat for an invitation or an acceptance, a sync interval, PDF reports) the second
-- passes too.
pub require_upgrade :
    (now : ℕ) (db : Db) (org upgraded : Organization) (adding hours : ℕ) (accepting : Bool)
    → org.id ≡ upgraded.id
    → next_plan (plan_for org) ≡ some (plan_for upgraded)
    → (require_vendor_capacity db org adding ≡ ok tt
        → require_vendor_capacity db upgraded adding ≡ ok tt)
      × (require_member_capacity now db org accepting ≡ ok tt
          → require_member_capacity now db upgraded accepting ≡ ok tt)
      × (require_sync_interval org hours ≡ ok tt → require_sync_interval upgraded hours ≡ ok tt)
      × (require_pdf_reports org ≡ ok tt → require_pdf_reports upgraded ≡ ok tt)
unfolding require_vendor_capacity require_member_capacity require_sync_interval require_pdf_reports
require_upgrade now db org upgraded adding hours accepting same next =
    elim (upgrades org upgraded next) [
      | inl (e, f) ↦ rw (e, f, same) (ground arith)
      | inr (e, f) ↦ rw (e, f, same) (ground arith)
    ]
