-- ===== src/Orgs/Employees.antt =====
-- Employee IDs of app/services/org_service.py: no two members of an organization share one, in
-- whatever case they are written.
use third_party_vendor_risk.Base.{
  ℕ, ◌≤◌, String, Bool, false, ◌&&◌, none, some, List, ◌==◌, nat_eq, string_eq, count_if,
}
use third_party_vendor_risk.Tenancy.{Membership}

module _ (lower : String → String) where
  -- The member of the organization has the employee ID that is `key` in lower case.
  abbrev pub has_id : ℕ → String → Membership → Bool
  has_id org_id key m =
      m.org_id == org_id && elim m.employee_id [ none ↦ false | some e ↦ lower e == key ]

  abbrev pub DistinctIds : List Membership → Type 0
  DistinctIds ms = (org_id : ℕ) (key : String) → count_if (has_id org_id key) ms ≤ 1
