-- ===== src/Entitlements.antt =====
-- app/services/entitlements.py: the plans and the checks that raise `PlanLimitError`. The texts
-- of the upgrade hints are left out; which plan they offer is `next_plan`.
pub mod Limits
mod Tests
use third_party_vendor_risk.Base.{
  ℕ, ◌+◌, ◌-◌, String, Bool, true, false, ◌&&◌, not, Option, none, some, List, [], ◌∷◌, ◌==◌,
  nat_eq, string_eq, ltb, leb, count_if, if◌then◌else◌, is_some, Result, ok, err, plan_limit,
}
use third_party_vendor_risk.Tenancy.{Organization, Invitation, Db, members_of}

pub record Plan : Type 0 where
  pub id : String
  pub price_cents : ℕ
  pub max_vendors : Option ℕ
  pub max_members : Option ℕ
  pub min_sync_hours : ℕ
  pub pdf_reports : Bool

-- `PLANS`
abbrev pub free : Plan
free = record {
  id = "free";
  price_cents = 0;
  max_vendors = some 10;
  max_members = some 3;
  min_sync_hours = 24;
  pdf_reports = false;
}

abbrev pub team : Plan
team = record {
  id = "team";
  price_cents = 4999;
  max_vendors = some 100;
  max_members = some 10;
  min_sync_hours = 6;
  pdf_reports = true;
}

abbrev pub business : Plan
business = record {
  id = "business";
  price_cents = 19999;
  max_vendors = some 1000;
  max_members = none;
  min_sync_hours = 1;
  pdf_reports = true;
}

-- `PLANS.get(plan)`
unfoldable pub find_plan : String → Option Plan
find_plan id =
    if id == "free"
    then some free
    else if id == "team"
    then some team
    else if id == "business"
    then some business
    else none

abbrev pub plan_order : List String
plan_order = "free" ∷ "team" ∷ "business" ∷ []

abbrev pub is_paid_plan : String → Bool
is_paid_plan id = if id == "team" then true else id == "business"

unfoldable pub plan_for : Organization → Plan
unfolding find_plan
plan_for org = elim (find_plan org.plan) [ none ↦ free | some plan ↦ plan ]

-- `order[order.index(id) + 1]`, if there is such an element.
abbrev pub successor : String → List String → Option String
successor id [] = none
successor id (a ∷ rest) =
    if a == id then elim rest [ [] ↦ none | b ∷ _ ↦ some b ] else successor id rest

unfoldable pub next_plan : Plan → Option Plan
unfolding find_plan
next_plan plan = elim (successor plan.id plan_order) [ none ↦ none | some id ↦ find_plan id ]

unfoldable pub vendor_count : Db → ℕ → ℕ
vendor_count db org_id = count_if (λ v. v == org_id) db.vendor_orgs

unfoldable pub member_count : Db → ℕ → ℕ
member_count db org_id = members_of org_id db.memberships

-- A pending invitation holds a seat until it is accepted or expires.
abbrev pub is_pending : ℕ → ℕ → Invitation → Bool
is_pending org_id now i =
    i.org_id == org_id && (not (is_some i.accepted_at) && ltb now i.expires_at)

unfoldable pub pending_invite_count : Db → ℕ → ℕ → ℕ
pending_invite_count db org_id now = count_if (is_pending org_id now) db.invitations

-- `adding` may be any number; below 1 there is nothing to check.
unfoldable pub require_vendor_capacity : Db → Organization → ℕ → Result (Unit {0})
require_vendor_capacity db org adding = elim ((plan_for org).max_vendors) [
  | none ↦ ok tt
  | some max_vendors ↦
      if leb adding 0
      then ok tt
      else if leb (vendor_count db org.id + adding) max_vendors
      then ok tt
      else err plan_limit
]

unfoldable pub require_member_capacity : ℕ → Db → Organization → Bool → Result (Unit {0})
require_member_capacity now db org accepting = elim ((plan_for org).max_members) [
  | none ↦ ok tt
  | some max_members ↦
      let members = member_count db org.id in
      if accepting
      then if ltb members max_members then ok tt else err plan_limit
      else if ltb (members + pending_invite_count db org.id now) max_members
      then ok tt
      else err plan_limit
]

unfoldable pub require_sync_interval : Organization → ℕ → Result (Unit {0})
require_sync_interval org hours =
    if leb (plan_for org).min_sync_hours hours then ok tt else err plan_limit

unfoldable pub require_pdf_reports : Organization → Result (Unit {0})
require_pdf_reports org = if (plan_for org).pdf_reports then ok tt else err plan_limit
