-- ===== src/Tenancy.antt =====
-- app/models/org.py, app/models/user.py and the Role of app/models/base.py: the tables that
-- organizations, members and invitations are kept in. Columns that only record display data or
-- server timestamps are left out; a time is a number of seconds.
use third_party_vendor_risk.Base.{
  ℕ, ◌≤◌, String, Bool, true, false, ◌&&◌, Option, List, ◌==◌, nat_eq, string_eq, find_first,
  count_if,
}

pub data Role : Type 0 where
  owner admin member viewer : Role

abbrev pub is_owner : Role → Bool
is_owner owner = true
is_owner admin = false
is_owner member = false
is_owner viewer = false

pub record Organization : Type 0 where
  pub id : ℕ
  pub slug : String
  pub plan : String

pub record User : Type 0 where
  pub id : ℕ
  pub email : String
  pub password_hash : Option String
  pub name : Option String
  pub is_active : Bool

-- A sign-in of a provider that is linked to a user.
pub record UserIdentity : Type 0 where
  pub user_id : ℕ
  pub provider : String
  pub subject : String

pub record Membership : Type 0 where
  pub org_id : ℕ
  pub user_id : ℕ
  pub role : Role
  pub employee_id : Option String
  pub team : Option String

pub record Invitation : Type 0 where
  pub org_id : ℕ
  pub email : String
  pub role : Role
  pub token : String
  pub expires_at : ℕ
  pub accepted_at : Option ℕ
  pub invited_by : ℕ

-- The tables. Of the vendors only the owning organization of each row matters here.
pub record Db : Type 0 where
  pub organizations : List Organization
  pub users : List User
  pub identities : List UserIdentity
  pub memberships : List Membership
  pub invitations : List Invitation
  pub vendor_orgs : List ℕ

-- `db.get(Organization, org_id)`, `db.get(User, user_id)`
abbrev pub get_org : Db → ℕ → Option Organization
get_org db org_id = find_first (λ o. o.id == org_id) db.organizations

abbrev pub get_user : Db → ℕ → Option User
get_user db user_id = find_first (λ u. u.id == user_id) db.users

-- `Membership.org_id == org_id, Membership.user_id == user_id`
abbrev pub is_of : ℕ → ℕ → Membership → Bool
is_of org_id user_id m = m.org_id == org_id && m.user_id == user_id

abbrev pub find_membership : ℕ → ℕ → List Membership → Option Membership
find_membership org_id user_id ms = find_first (is_of org_id user_id) ms

abbrev pub members_of : ℕ → List Membership → ℕ
members_of org_id ms = count_if (λ m. m.org_id == org_id) ms

abbrev pub owners_of : ℕ → List Membership → ℕ
owners_of org_id ms = count_if (λ m. m.org_id == org_id && is_owner m.role) ms

-- `UniqueConstraint("org_id", "user_id")`
abbrev pub IsUnique : List Membership → Type 0
IsUnique ms = (org_id user_id : ℕ) → count_if (is_of org_id user_id) ms ≤ 1
