-- ===== src/Orgs.antt =====
-- app/services/org_service.py: members of an organization and invitations to it. A query is a
-- search in the table, `now` stands for `datetime.now(UTC)`, and `token` for the random token.
pub mod Counting
pub mod Members
pub mod Invitations
pub mod Employees
pub mod Reach
pub mod Create
mod Tests
use third_party_vendor_risk.Base.{
  ℕ, ◌+◌, ◌*◌, String, Bool, true, false, ◌&&◌, not, Option, none, some, List, [], ◌∷◌, ◌==◌,
  nat_eq, string_eq, ltb, leb, find_first, update_if, remove_if, if◌then◌else◌, is_some, any,
  Result, ok, err, ◌>>=◌, ◌>>◌, raise_if, or_raise, conflict, not_found, validation,
  permission_denied,
}
use third_party_vendor_risk.Tenancy.{
  Role, is_owner, User, Membership, Invitation, Db, get_org, get_user, is_of, find_membership,
  owners_of,
}
use third_party_vendor_risk.Entitlements.{require_member_capacity}

-- `INVITE_TTL_DAYS`, in seconds.
abbrev pub invite_ttl : ℕ
invite_ttl = 7 * 86400

-- `org = db.get(Organization, org_id); if org is not None: require_member_capacity(...)`
unfoldable pub check_capacity : ℕ → Db → ℕ → Bool → Result (Unit {0})
check_capacity now db org_id accepting = elim (get_org db org_id) [
  | none ↦ ok tt
  | some org ↦ require_member_capacity now db org accepting
]

-- A membership with no details yet.
abbrev pub new_membership : ℕ → ℕ → Role → Membership
new_membership org_id user_id role = record {
  org_id = org_id;
  user_id = user_id;
  role = role;
  employee_id = none;
  team = none;
}

abbrev pub insert_membership : Membership → Db → Db
insert_membership m db = record db { memberships = m ∷ db.memberships }

-- The membership that the query found is changed in place; `is_of` selects that row alone.
abbrev pub change_membership : ℕ → ℕ → (Membership → Membership) → Db → Db
change_membership org_id user_id f db = record db {
  memberships = update_if (is_of org_id user_id) f db.memberships;
}

unfoldable pub owner_count : Db → ℕ → ℕ
owner_count db org_id = owners_of org_id db.memberships

unfoldable pub add_member : ℕ → Db → ℕ → ℕ → Role → Result (Membership × Db)
add_member now db org_id user_id role = do
  raise_if (not (is_some (get_user db user_id))) not_found
  raise_if (is_some (find_membership org_id user_id db.memberships)) conflict
  check_capacity now db org_id true
  ok (new_membership org_id user_id role, insert_membership (new_membership org_id user_id role) db)

unfoldable pub set_member_role : Db → ℕ → ℕ → Role → Result (Membership × Db)
unfolding owner_count
set_member_role db org_id user_id role = do
  membership ← or_raise (find_membership org_id user_id db.memberships) not_found
  raise_if (is_owner membership.role && (not (is_owner role) && leb (owner_count db org_id) 1))
      conflict
  ok (
    record membership { role = role },
    change_membership org_id user_id (λ m. record m { role = role }) db,
  )

unfoldable pub remove_member : Db → ℕ → ℕ → Result Db
unfolding owner_count
remove_member db org_id user_id = do
  membership ← or_raise (find_membership org_id user_id db.memberships) not_found
  raise_if (is_owner membership.role && leb (owner_count db org_id) 1) conflict
  ok (record db { memberships = remove_if (is_of org_id user_id) db.memberships })

-- The keys of `changes`: `none` where the key is absent, `some none` where it clears the column.
pub record Changes : Type 0 where
  pub employee_id : Option (Option String)
  pub team : Option (Option String)

abbrev pub or_keep {ℓ} : {A : Type ℓ} → Option A → A → A
or_keep none old = old
or_keep (some new) old = new

-- `lower` is `str.lower`, and `db_lower` the `lower` of the database.
module _ (lower db_lower : String → String) where
  -- Another member of the organization has the employee ID.
  abbrev pub holds_id : ℕ → ℕ → String → Membership → Bool
  holds_id org_id user_id employee_id m =
      m.org_id == org_id
      && (not (m.user_id == user_id)
          && elim m.employee_id [ none ↦ false | some e ↦ db_lower e == lower employee_id ])

  -- The check made where `changes` has an `employee_id` that is not None.
  unfoldable pub id_is_taken : Db → ℕ → ℕ → Changes → Bool
  id_is_taken db org_id user_id changes = elim changes.employee_id [
    | none ↦ false
    | some none ↦ false
    | some (some e) ↦ any (holds_id org_id user_id e) db.memberships
  ]

  unfoldable pub update_member_details : Db → ℕ → ℕ → Changes → Result (Membership × Db)
  update_member_details db org_id user_id changes = do
    membership ← or_raise (find_membership org_id user_id db.memberships) not_found
    raise_if (id_is_taken db org_id user_id changes) conflict
    let change = λ (m : Membership). record m {
      employee_id = or_keep changes.employee_id m.employee_id;
      team = or_keep changes.team m.team;
    }
    ok (change membership, change_membership org_id user_id change db)

-- The invitation's membership: the one that is there, or a new one if a seat is free.
unfoldable pub join_org : ℕ → Db → Invitation → User → Result (Membership × Db)
join_org now db invite user = elim (find_membership invite.org_id user.id db.memberships) [
  | some membership ↦ ok (membership, db)
  | none ↦ do
    check_capacity now db invite.org_id true
    ok (
      new_membership invite.org_id user.id invite.role,
      insert_membership (new_membership invite.org_id user.id invite.role) db,
    )
]

abbrev pub mark_accepted : ℕ → String → Db → Db
mark_accepted now token db = record db {
  invitations =
      update_if (λ i. i.token == token) (λ i. record i { accepted_at = some now }) db.invitations;
}

-- `normalize` is `email.strip().lower()`.
module _ (normalize : String → String) where
  -- The user with the address exists and is a member.
  unfoldable pub is_member_already : Db → ℕ → String → Bool
  is_member_already db org_id email = elim (find_first (λ u. u.email == email) db.users) [
    | none ↦ false
    | some u ↦ is_some (find_membership org_id u.id db.memberships)
  ]

  unfoldable pub create_invitation :
      (now : ℕ) (token : String)
      → Db
      → (org_id : ℕ) (email : String) (role : Role) (invited_by : ℕ) → Result (Invitation × Db)
  create_invitation now token db org_id email role invited_by = do
    raise_if (is_member_already db org_id (normalize email)) conflict
    check_capacity now db org_id false
    let invite : Invitation = record {
      org_id = org_id;
      email = normalize email;
      role = role;
      token = token;
      expires_at = now + invite_ttl;
      accepted_at = none;
      invited_by = invited_by;
    }
    ok (invite, record db { invitations = invite ∷ db.invitations })

  unfoldable pub accept_invitation : ℕ → Db → String → User → Result (Membership × Db)
  accept_invitation now db token user = do
    invite ← or_raise (find_first (λ i. i.token == token) db.invitations) not_found
    raise_if (is_some invite.accepted_at) conflict
    raise_if (ltb invite.expires_at now) validation
    raise_if (not (invite.email == normalize user.email)) permission_denied
    (membership, joined) ← join_org now db invite user
    ok (membership, mark_accepted now token joined)
