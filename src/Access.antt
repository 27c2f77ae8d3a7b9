-- ===== src/Access.antt =====
-- app/deps.py: who a request is made by, for which organization, and with which role. `decode` is
-- `decode_token`, with `none` for an InvalidTokenError, and `int_of` reads the text of a number.
pub mod Grants
mod Tests
use third_party_vendor_risk.Base.{
  ℕ, String, Bool, true, false, Option, none, some, List, [], ◌∷◌, ◌==◌, nat_eq, string_eq, ltb,
  find_first, if◌then◌else◌,
}
use third_party_vendor_risk.Json.{Json, str, Fields, get, to_int}
use third_party_vendor_risk.Tenancy.{
  Role, owner, admin, member, viewer, Organization, Membership, User, Db, get_org, get_user,
  find_membership,
}

-- The HTTP status of a refusal. `failed` is an exception that no handler expects.
pub data HttpError : Type 0 where
  unauthorized not_found forbidden failed : HttpError

pub data Access {ℓ} (A : Type ℓ) : Type ℓ where
  granted : A → Access A
  denied : HttpError → Access A

infixl 5 ◌>>=◌
abbrev pub ◌>>=◌ {ℓ κ} : {A : Type ℓ} {B : Type κ} → Access A → (A → Access B) → Access B
◌>>=◌ a k = elim a [ granted x ↦ k x | denied e ↦ denied e ]

-- `_ROLE_RANK`
unfoldable pub role_rank : Role → ℕ
role_rank viewer = 0
role_rank member = 1
role_rank admin = 2
role_rank owner = 3

pub record OrgContext : Type 0 where
  pub organization : Organization
  pub membership : Membership
  pub role : Role

-- `claims.get("type") == "access"`
abbrev pub is_access : Json → Bool
is_access (str s) = s == "access"
is_access _ = false

module _ (decode : String → Option Fields) (int_of : String → Option ℕ) where
  unfoldable pub get_current_user : (access_token : Option String) → Db → Access User
  get_current_user none db = denied unauthorized
  get_current_user (some token) db =
      if token == "" then denied unauthorized else elim (decode token) [
        | none ↦ denied unauthorized
        | some claims ↦
            if is_access (get "type" claims)
            then elim (to_int int_of (get "sub" claims)) [
              | none ↦ denied failed
              | some id ↦ elim (get_user db id) [
                | none ↦ denied unauthorized
                | some user ↦ if user.is_active then granted user else denied unauthorized
              ]
            ]
            else denied unauthorized
      ]

  unfoldable pub get_org_context : Option String → Db → (org_id : ℕ) → Access OrgContext
  get_org_context token db org_id = do
    user ← get_current_user token db
    elim (get_org db org_id) [
      | none ↦ denied not_found
      | some org ↦ elim (find_membership org_id user.id db.memberships) [
        | none ↦ denied not_found
        | some m ↦ granted (record { organization = org; membership = m; role = m.role })
      ]
    ]

  unfoldable pub require_role : Role → Option String → Db → (org_id : ℕ) → Access OrgContext
  unfolding role_rank
  require_role minimum token db org_id = do
    ctx ← get_org_context token db org_id
    if ltb (role_rank ctx.role) (role_rank minimum) then denied forbidden else granted ctx
