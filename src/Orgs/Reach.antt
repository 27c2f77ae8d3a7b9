-- ===== src/Orgs/Reach.antt =====
-- Any sequence of operations of app/services/org_service.py, in any order and by anyone.
use third_party_vendor_risk.Base.{ℕ, ◌≤◌, ◌≡◌, String, ok}
use third_party_vendor_risk.Tenancy.{Role, Membership, Invitation, User, Db, owners_of, IsUnique}
use third_party_vendor_risk.Orgs.{
  Changes, add_member, set_member_role, remove_member, update_member_details, create_invitation,
  accept_invitation,
}
use third_party_vendor_risk.Orgs.Members.{
  Keeps, add_member-Keeps, set_member_role-Keeps, remove_member-Keeps, update_member_details-Keeps,
}
use third_party_vendor_risk.Orgs.Invitations.{
  accept_invitation-Keeps, create_invitation-memberships,
}

module _ (lower db_lower normalize : String → String) where
  -- One request that succeeds. A request that raises leaves the database as it was.
  pub data Step : Db → Db → Type 0 where
    add :
        {db db' : Db} (now org_id user_id : ℕ) (role : Role) (m : Membership)
        → add_member now db org_id user_id role ≡ ok (m, db')
        → Step db db'
    set_role :
        {db db' : Db} (org_id user_id : ℕ) (role : Role) (m : Membership)
        → set_member_role db org_id user_id role ≡ ok (m, db')
        → Step db db'
    remove :
        {db db' : Db} (org_id user_id : ℕ) → remove_member db org_id user_id ≡ ok db' → Step db db'
    details :
        {db db' : Db} (org_id user_id : ℕ) (changes : Changes) (m : Membership)
        → update_member_details lower db_lower db org_id user_id changes ≡ ok (m, db')
        → Step db db'
    invite :
        {db db' : Db} (now : ℕ) (token : String) (org_id : ℕ) (email : String) (role : Role)
        (invited_by : ℕ) (i : Invitation)
        → create_invitation normalize now token db org_id email role invited_by ≡ ok (i, db')
        → Step db db'
    accept :
        {db db' : Db} (now : ℕ) (token : String) (user : User) (m : Membership)
        → accept_invitation normalize now db token user ≡ ok (m, db')
        → Step db db'

  pub data Reach (start : Db) : Db → Type 0 where
    here : Reach start start
    next : {db db' : Db} → Reach start db → Step db db' → Reach start db'

  Step-Keeps :
      {db db' : Db} → Step db db' → IsUnique db.memberships → Keeps db.memberships db'.memberships
  Step-Keeps {db} {db'} (add now o u r m e) h = add_member-Keeps now db db' o u r m h e
  Step-Keeps {db} {db'} (set_role o u r m e) h = set_member_role-Keeps db db' o u r m h e
  Step-Keeps {db} {db'} (remove o u e) h = remove_member-Keeps db db' o u h e
  Step-Keeps {db} {db'} (details o u c m e) h =
      update_member_details-Keeps lower db_lower db db' o u c m h e
  Step-Keeps {db} {db'} (invite now t o a r b i e) h =
      rw (create_invitation-memberships normalize now t db db' o a r b i e)
        (record { unique = h; owned = λ o h. h })
  Step-Keeps {db} {db'} (accept now t u m e) h =
      accept_invitation-Keeps normalize now db db' t u m h e

  -- Whatever requests are made, in any order, a user keeps at most one membership in each
  -- organization, and an organization that has an owner never loses its last one.
  pub Reach-owned :
      (start db : Db)
      → IsUnique start.memberships
      → Reach start db
      → IsUnique db.memberships
        × ((o : ℕ) → 1 ≤ owners_of o start.memberships → 1 ≤ owners_of o db.memberships)
  Reach-owned start db h here = (h, λ o owned. owned)
  Reach-owned start db h (next {db = mid} r s) =
      let (unique, owned) = Reach-owned start mid h r in
      let k = Step-Keeps s unique in (k.unique, λ o has. k.owned o (owned o has))
