-- ===== src/Access/Tests.antt =====
-- Concrete requests.
use third_party_vendor_risk.Base.{
  ℕ, ◌≡◌, refl, ◌↔◌, String, true, Option, none, some, [], ◌∷◌, ◌==◌, string_eq, if◌then◌else◌,
}
use third_party_vendor_risk.Json.{str, int, Fields, end, field, get}
use third_party_vendor_risk.Tenancy.{admin, member, viewer, Organization, Membership, Db}
use third_party_vendor_risk.Access.{
  granted, denied, forbidden, unauthorized, not_found, OrgContext, role_rank, get_current_user,
  get_org_context, require_role,
}
use third_party_vendor_risk.Access.Grants.{Granted, require_role_iff}

abbrev session : Fields
session = field "sub" (int 1) (field "type" (str "access") end)

abbrev refresh : Fields
refresh = field "sub" (int 1) (field "type" (str "refresh") end)

abbrev decode : String → Option Fields
decode token =
    if token == "good" then some session else if token == "long" then some refresh else none

abbrev int_of : String → Option ℕ
int_of s = none

abbrev acme : Organization
acme = record { id = 7; slug = "acme"; plan = "free" }

abbrev ann : Membership
ann = record { org_id = 7; user_id = 1; role = member; employee_id = none; team = none }

abbrev db : Db
db = record {
  organizations = acme ∷ [];
  users =
      record {
        id = 1;
        email = "ann@acme.test";
        password_hash = none;
        name = none;
        is_active = true;
      }
      ∷ [];
  identities = [];
  memberships = ann ∷ [];
  invitations = [];
  vendor_orgs = [];
}

abbrev context : OrgContext
context = record { organization = acme; membership = ann; role = member }

requests_test :
    (require_role decode int_of viewer (some "good") db 7 ≡ granted context)
    × (require_role decode int_of admin (some "good") db 7 ≡ denied forbidden)
    × (require_role decode int_of viewer (some "long") db 7 ≡ denied unauthorized)
    × (require_role decode int_of viewer (some "good") db 8 ≡ denied not_found)
unfolding require_role get_org_context get_current_user role_rank get
requests_test = (refl, refl, refl, refl)

require_role_iff_example :
    (require_role decode int_of viewer (some "good") db 7 ≡ granted context)
    ↔ Granted decode int_of viewer (some "good") db 7 context
require_role_iff_example = require_role_iff decode int_of viewer (some "good") db 7 context
