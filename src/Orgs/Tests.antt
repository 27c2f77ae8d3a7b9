-- ===== src/Orgs/Tests.antt =====
-- A small database, and the theorems about members and invitations at it.
use third_party_vendor_risk.Base.{
  ℕ, ◌≤◌, ◌≡◌, refl, String, true, none, some, [], ◌∷◌, arith, string_eq, nat_eq, ok, err, conflict,
}
use third_party_vendor_risk.Tenancy.{
  owner, member, viewer, Organization, User, Membership, Invitation, Db, find_membership,
  members_of, owners_of, IsUnique,
}
use third_party_vendor_risk.Entitlements.{
  plan_for, require_member_capacity, member_count, pending_invite_count, find_plan,
}
use third_party_vendor_risk.Orgs.{
  Changes, new_membership, check_capacity, owner_count, add_member, set_member_role, remove_member,
  update_member_details, id_is_taken, create_invitation, is_member_already, join_org,
  accept_invitation,
}
use third_party_vendor_risk.Orgs.Invitations.{accept_invitation_once, accept_invitation_seats}
use third_party_vendor_risk.Orgs.Reach.{Reach, here, next, set_role, remove, Reach-owned}

abbrev as_is : String → String
as_is s = s

abbrev acme : Organization
acme = record { id = 1; slug = "acme"; plan = "free" }

abbrev ann : User
ann = record {
  id = 1;
  email = "ann@acme.test";
  password_hash = none;
  name = none;
  is_active = true;
}

abbrev bob : User
bob = record {
  id = 2;
  email = "bob@acme.test";
  password_hash = none;
  name = none;
  is_active = true;
}

abbrev invitation : Invitation
invitation = record {
  org_id = 1;
  email = "bob@acme.test";
  role = viewer;
  token = "t1";
  expires_at = 700_000;
  accepted_at = none;
  invited_by = 1;
}

abbrev db : Db
db = record {
  organizations = acme ∷ [];
  users = ann ∷ bob ∷ [];
  identities = [];
  memberships = new_membership 1 1 owner ∷ [];
  invitations = invitation ∷ [];
  vendor_orgs = [];
}

program : Unit {0}
unfolding accept_invitation join_org check_capacity require_member_capacity plan_for find_plan
    member_count pending_invite_count create_invitation is_member_already add_member set_member_role
    owner_count remove_member update_member_details id_is_taken
program = tt

-- The last owner can be neither demoted nor removed.
last_owner : (set_member_role db 1 1 member ≡ err conflict) × (remove_member db 1 1 ≡ err conflict)
unfolding program
last_owner = (refl, refl)

abbrev joined : Db
joined = record db {
  memberships = new_membership 1 2 viewer ∷ db.memberships;
  invitations = record invitation { accepted_at = some 100 } ∷ [];
}

accepts : accept_invitation as_is 100 db "t1" bob ≡ ok (new_membership 1 2 viewer, joined)
unfolding program
accepts = refl

db-IsUnique : IsUnique db.memberships
db-IsUnique o u = ground arith

joined-IsUnique : IsUnique joined.memberships
joined-IsUnique o u = ground arith

accept_invitation_once_example :
    (invitation.accepted_at ≡ none)
    × (100 ≤ invitation.expires_at)
    × (invitation.email ≡ bob.email)
    × (find_membership 1 2 joined.memberships ≡ some (new_membership 1 2 viewer))
    × (find_membership 1 2 db.memberships ≡ none → viewer ≡ viewer)
    × ((later : ℕ) (other : User) → accept_invitation as_is later joined "t1" other ≡ err conflict)
accept_invitation_once_example =
    accept_invitation_once as_is 100 db joined "t1" bob (new_membership 1 2 viewer) db-IsUnique
      accepts invitation refl

accept_invitation_seats_example : members_of 1 joined.memberships ≤ 3
unfolding program
accept_invitation_seats_example =
    accept_invitation_seats as_is 100 db joined "t1" bob (new_membership 1 2 viewer) db-IsUnique
      accepts invitation acme 3 refl refl refl refl

abbrev second : Invitation
second = record {
  org_id = 1;
  email = "eve@acme.test";
  role = member;
  token = "t2";
  expires_at = 604_900;
  accepted_at = none;
  invited_by = 1;
}

abbrev invited : Db
invited = record db { invitations = second ∷ db.invitations }

invites : create_invitation as_is 100 "t2" db 1 "eve@acme.test" member 1 ≡ ok (second, invited)
unfolding program
invites = refl

abbrev badge : Changes
badge = record { employee_id = some (some "E7"); team = none }

abbrev badged : Membership
badged = record (new_membership 1 2 viewer) { employee_id = some "E7" }

abbrev with_badge : Db
with_badge = record joined { memberships = badged ∷ db.memberships }

-- Bob is made an owner, and then Ann leaves.
abbrev promoted : Db
promoted = record joined { memberships = new_membership 1 2 owner ∷ db.memberships }

abbrev left : Db
left = record joined { memberships = new_membership 1 2 owner ∷ [] }

handover : Reach as_is as_is as_is joined left
unfolding program
handover = next (next here (set_role 1 2 owner (new_membership 1 2 owner) refl)) (remove 1 1 refl)

Reach-owned_example :
    IsUnique left.memberships
    × ((o : ℕ) → 1 ≤ owners_of o joined.memberships → 1 ≤ owners_of o left.memberships)
Reach-owned_example = Reach-owned as_is as_is as_is joined left joined-IsUnique handover
