-- ===== src/Orgs/Invitations.antt =====
-- Invitations of app/services/org_service.py: who can accept one, how often, and for how many
-- seats.
use mathlib.Core.Option.{some-injective}
use third_party_vendor_risk.Base.{
  sym, ◌∙◌, ℕ, ◌+◌, ◌<◌, ◌≤◌, ◌≡◌, refl, ◌⊎◌, inl, inr, String, true, false, Option, none, some,
  List, [], ◌∷◌, ◌==◌, arith, nat_eq, string_eq, find_first, find_first_sound, update_if,
  Option-cases, Result-cases, is_some, ok, err, conflict, str_eq_iff,
}
use third_party_vendor_risk.Tenancy.{
  Role, Membership, Invitation, Organization, User, Db, get_org, find_membership, members_of,
  IsUnique,
}
use third_party_vendor_risk.Entitlements.{
  plan_for, require_member_capacity, member_count, pending_invite_count,
}
use third_party_vendor_risk.Orgs.{
  new_membership, check_capacity, join_org, accept_invitation, create_invitation, mark_accepted,
}
use third_party_vendor_risk.Orgs.Members.{Keeps, insert-Keeps}

-- The first invitation with the token.
abbrev pub find_invitation : String → List Invitation → Option Invitation
find_invitation token l = find_first (λ i. i.token == token) l

find-update_accepted :
    (now : ℕ) (token : String) (i : Invitation) (l : List Invitation)
    → find_invitation token l ≡ some i
    → find_invitation token
        (update_if (λ i. i.token == token) (λ i. record i { accepted_at = some now }) l)
      ≡ some (record i { accepted_at = some now })
find-update_accepted now token i [] h = cc
find-update_accepted now token i (x ∷ l) h = ground (arith, find-update_accepted now token i l)

-- The two ways in which `join_org` succeeds.
join_org-cases :
    (now : ℕ) (db db' : Db) (invite : Invitation) (user : User) (m : Membership)
    → join_org now db invite user ≡ ok (m, db')
    → (db' ≡ db) × (find_membership invite.org_id user.id db.memberships ≡ some m)
      ⊎ (find_membership invite.org_id user.id db.memberships ≡ none)
        × (check_capacity now db invite.org_id true ≡ ok tt)
        × (db'.memberships ≡ new_membership invite.org_id user.id invite.role ∷ db.memberships)
        × (db'.invitations ≡ db.invitations)
        × (m ≡ new_membership invite.org_id user.id invite.role)
unfolding join_org
join_org-cases now db db' invite user m e = ground arith

-- What an acceptance went through.
record Accepted (normalize : String → String) (now : ℕ) (db db' : Db) (token : String) (user : User)
    (m : Membership) : Type 0 where
  invite : Invitation
  joined : Db
  found : find_invitation token db.invitations ≡ some invite
  was_open : invite.accepted_at ≡ none
  in_time : now ≤ invite.expires_at
  addressed : invite.email ≡ normalize user.email
  join : join_org now db invite user ≡ ok (m, joined)
  after : db' ≡ mark_accepted now token joined

accept_invitation-Accepted :
    (normalize : String → String) (now : ℕ) (db db' : Db) (token : String) (user : User)
    (m : Membership)
    → accept_invitation normalize now db token user ≡ ok (m, db')
    → Accepted normalize now db db' token user m
unfolding accept_invitation
accept_invitation-Accepted normalize now db db' token user m e =
    elim (Option-cases (find_invitation token db.invitations)) [
      | inl absent ↦ absurd (ground arith)
      | inr (i, found) ↦ elim (Result-cases (join_org now db i user)) [
        | inl (x, failed) ↦ absurd (ground arith)
        | inr ((member, joined), join) ↦ record {
          invite = i;
          joined = joined;
          found = found;
          was_open = ground arith;
          in_time = ground arith;
          addressed = ground (arith, str_eq_iff i.email (normalize user.email));
          join = ground arith;
          after = ground arith;
        }
      ]
    ]

-- What a check that passes says of the seats.
check_capacity-members :
    (now : ℕ) (db : Db) (org_id : ℕ) (org : Organization) (seats : ℕ)
    → get_org db org_id ≡ some org
    → (plan_for org).max_members ≡ some seats
    → check_capacity now db org_id true ≡ ok tt
    → members_of org_id db.memberships < seats
unfolding check_capacity require_member_capacity member_count
check_capacity-members now db org_id org seats known limit passes =
    let own : org.id ≡ org_id =
      ground (
        arith,
        find_first_sound (λ (o : Organization). o.id == org_id) db.organizations org known,
      ) in
    ground arith

check_capacity-pending :
    (now : ℕ) (db : Db) (org_id : ℕ) (org : Organization) (seats : ℕ)
    → get_org db org_id ≡ some org
    → (plan_for org).max_members ≡ some seats
    → check_capacity now db org_id false ≡ ok tt
    → members_of org_id db.memberships + pending_invite_count db org_id now < seats
unfolding check_capacity require_member_capacity member_count
check_capacity-pending now db org_id org seats known limit passes =
    let own : org.id ≡ org_id =
      ground (
        arith,
        find_first_sound (λ (o : Organization). o.id == org_id) db.organizations org known,
      ) in
    ground arith

-- An invitation takes a seat when it is created: an organization whose plan limits its members
-- then has at most that many members and pending invitations together, and the invitation is for
-- the normalized address, open, and good for seven days.
pub create_invitation_seats :
    (normalize : String → String) (now : ℕ) (token : String) (db db' : Db) (org_id : ℕ)
    (email : String) (role : Role) (invited_by : ℕ) (i : Invitation) (org : Organization)
    (seats : ℕ)
    → get_org db org_id ≡ some org
    → (plan_for org).max_members ≡ some seats
    → create_invitation normalize now token db org_id email role invited_by ≡ ok (i, db')
    → (members_of org_id db'.memberships + pending_invite_count db' org_id now ≤ seats)
      × (i.email ≡ normalize email)
      × (i.accepted_at ≡ none)
      × (i.expires_at ≡ now + 604800)
unfolding create_invitation pending_invite_count
create_invitation_seats normalize now token db db' org_id email role invited_by i org seats known
      limit created =
    ground (arith, check_capacity-pending now db org_id org seats known limit)

pub create_invitation-memberships :
    (normalize : String → String) (now : ℕ) (token : String) (db db' : Db) (org_id : ℕ)
    (email : String) (role : Role) (invited_by : ℕ) (i : Invitation)
    → create_invitation normalize now token db org_id email role invited_by ≡ ok (i, db')
    → db'.memberships ≡ db.memberships
unfolding create_invitation
create_invitation-memberships normalize now token db db' org_id email role invited_by i created =
    ground arith

-- An invitation that has been accepted is refused.
accept_used :
    (normalize : String → String) (now : ℕ) (db : Db) (token : String) (user : User)
    (i : Invitation)
    → find_invitation token db.invitations ≡ some i
    → is_some i.accepted_at ≡ true
    → accept_invitation normalize now db token user ≡ err conflict
unfolding accept_invitation
accept_used normalize now db token user i found used = rw (found, used)

module _ (normalize : String → String) (now : ℕ) (db db' : Db) (token : String) (user : User)
    (m : Membership) (unique : IsUnique db.memberships)
    (accepted : accept_invitation normalize now db token user ≡ ok (m, db')) where
  -- An acceptance keeps one membership for a user in an organization, and every owner.
  pub accept_invitation-Keeps : Keeps db.memberships db'.memberships
  accept_invitation-Keeps =
      let a = accept_invitation-Accepted normalize now db db' token user m accepted in
      elim (join_org-cases now db a.joined a.invite user m a.join) [
        | inl (same, member) ↦ rw (a.after, same) (record { unique = unique; owned = λ o h. h })
        | inr (absent, room, new, rest, fresh) ↦
            rw (a.after, new)
              (insert-Keeps db.memberships a.invite.org_id user.id a.invite.role absent unique)
      ]

  -- An invitation is accepted only where it is still open, has not expired and was issued to the
  -- user's own address; then the user is a member of its organization, with the invited role if
  -- not a member before, and no one can accept it again, at any time.
  pub accept_invitation_once :
      (i : Invitation)
      → find_invitation token db.invitations ≡ some i
      → (i.accepted_at ≡ none)
        × (now ≤ i.expires_at)
        × (i.email ≡ normalize user.email)
        × (find_membership i.org_id user.id db'.memberships ≡ some m)
        × (find_membership i.org_id user.id db.memberships ≡ none → m.role ≡ i.role)
        × ((later : ℕ) (other : User)
            → accept_invitation normalize later db' token other ≡ err conflict)
  accept_invitation_once i found =
      let a = accept_invitation-Accepted normalize now db db' token user m accepted in
      let same : a.invite ≡ i = some-injective _ _ (sym a.found ∙ found) in
      let used : i.accepted_at ≡ none = rw same at a.was_open in
      let joins = join_org-cases now db a.joined a.invite user m a.join in
      (
        used,
        rw same at a.in_time,
        rw same at a.addressed,
        ground (arith, joins, a.after),
        ground (arith, joins),
        λ later other.
            accept_used normalize later db' token other (record i { accepted_at = some now })
              (elim joins [
                | inl (kept, member) ↦
                    rw (a.after, kept) (find-update_accepted now token i db.invitations found)
                | inr (absent, room, new, rest, fresh) ↦
                    rw (a.after, rest) (find-update_accepted now token i db.invitations found)
              ])
              refl,
      )

  -- Who joins by an invitation takes a free seat: an organization whose plan limits its members
  -- and that the user was not a member of has at most that many members afterwards.
  pub accept_invitation_seats :
      (i : Invitation) (org : Organization) (seats : ℕ)
      → find_invitation token db.invitations ≡ some i
      → get_org db i.org_id ≡ some org
      → (plan_for org).max_members ≡ some seats
      → find_membership i.org_id user.id db.memberships ≡ none
      → members_of i.org_id db'.memberships ≤ seats
  accept_invitation_seats i org seats found known limit absent =
      let a = accept_invitation-Accepted normalize now db db' token user m accepted in
      let same : a.invite ≡ i = some-injective _ _ (sym a.found ∙ found) in
      let joins = rw same at (join_org-cases now db a.joined a.invite user m a.join) in
      ground (arith, joins, a.after, check_capacity-members now db i.org_id org seats known limit)
