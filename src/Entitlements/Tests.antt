-- ===== src/Entitlements/Tests.antt =====
-- Organizations on the plans, and the theorems about the limits at them.
use third_party_vendor_risk.Base.{◌≡◌, refl, true, [], ◌∷◌, ok, err, plan_limit, nat_eq, string_eq}
use third_party_vendor_risk.Tenancy.{Organization, Db}
use third_party_vendor_risk.Entitlements.{
  plan_for, next_plan, vendor_count, require_vendor_capacity, require_member_capacity,
  require_sync_interval, require_pdf_reports,
}
use third_party_vendor_risk.Entitlements.Limits.{require_upgrade}

abbrev on_free : Organization
on_free = record { id = 1; slug = "acme"; plan = "gold" }

abbrev on_team : Organization
on_team = record { id = 1; slug = "acme"; plan = "team" }

abbrev db : Db
db = record {
  organizations = on_free ∷ [];
  users = [];
  identities = [];
  memberships = [];
  invitations = [];
  vendor_orgs = 1 ∷ 2 ∷ 1 ∷ [];
}

-- A plan that is not known is Free, with room for ten vendors.
fills_up :
    (require_vendor_capacity db on_free 8 ≡ ok tt)
    × (require_vendor_capacity db on_free 9 ≡ err plan_limit)
unfolding require_vendor_capacity plan_for vendor_count
fills_up = (refl, refl)

require_upgrade_example :
    (require_vendor_capacity db on_free 8 ≡ ok tt → require_vendor_capacity db on_team 8 ≡ ok tt)
    × (require_member_capacity 0 db on_free true ≡ ok tt
        → require_member_capacity 0 db on_team true ≡ ok tt)
    × (require_sync_interval on_free 24 ≡ ok tt → require_sync_interval on_team 24 ≡ ok tt)
    × (require_pdf_reports on_free ≡ ok tt → require_pdf_reports on_team ≡ ok tt)
unfolding next_plan plan_for
require_upgrade_example = require_upgrade 0 db on_free on_team 8 24 true refl refl
