-- ===== src/Orgs/Members.antt =====
-- What a successful call of app/services/org_service.py on the members leaves true: one
-- membership for a user in an organization, and an owner for every organization that had one.
use third_party_vendor_risk.Base.{
  ℕ, ◌≤◌, ◌≡◌, refl, inl, inr, String, Bool, false, ◌&&◌, none, some, List, ◌∷◌, ◌==◌, arith,
  nat_eq, string_eq, leb, find_first-none, find_first_sound, update_if, remove_if, Bool-cases,
  Option-cases, not, ok,
}
use third_party_vendor_risk.Tenancy.{
  Role, is_owner, Membership, Db, is_of, find_membership, owners_of, IsUnique,
}
use third_party_vendor_risk.Orgs.{
  new_membership, add_member, set_member_role, remove_member, update_member_details, Changes,
  or_keep,
}
use third_party_vendor_risk.Orgs.Counting.{
  count_if-update_le, count_if-update_mono, count_if-update_same, count_if-update_uncounted,
  count_if-remove_le, count_if-remove_add, count_if-remove_uncounted,
}

-- What every operation keeps, from the memberships before to those after.
pub record Keeps (ms ms' : List Membership) : Type 0 where
  pub unique : IsUnique ms'
  pub owned : (o : ℕ) → 1 ≤ owners_of o ms → 1 ≤ owners_of o ms'

-- A change of a membership that leaves its two keys alone.
update-IsUnique :
    (org_id user_id : ℕ) (f : Membership → Membership)
    → ((m : Membership) → (f m).org_id ≡ m.org_id)
    → ((m : Membership) → (f m).user_id ≡ m.user_id)
    → (ms : List Membership) → IsUnique ms
    → IsUnique (update_if (is_of org_id user_id) f ms)
update-IsUnique org_id user_id f same_org same_user ms unique o u =
    rw
      (count_if-update_same (is_of org_id user_id) (is_of o u) f
        (λ m _. ground (arith, same_org m, same_user m)) ms)
      (unique o u)

pub insert-Keeps :
    (ms : List Membership) (org_id user_id : ℕ) (role : Role)
    → find_membership org_id user_id ms ≡ none
    → IsUnique ms
    → Keeps ms (new_membership org_id user_id role ∷ ms)
insert-Keeps ms org_id user_id role absent unique = record {
  unique = λ o u. ground (arith, unique o u, find_first-none (is_of org_id user_id) ms absent);
  owned = λ o h. ground arith;
}

-- The rows that `owner_count` counts.
abbrev owns : ℕ → Membership → Bool
owns o m = m.org_id == o && is_owner m.role

module _ (ms : List Membership) (org_id user_id : ℕ) (m : Membership)
    (found : find_membership org_id user_id ms ≡ some m) (unique : IsUnique ms) where
  -- The membership that the query found is one of the organization.
  found_org : m.org_id ≡ org_id
  found_org = ground (arith, find_first_sound (is_of org_id user_id) ms m found)

  pub set_role-Keeps :
      (role : Role)
      → (is_owner m.role && (not (is_owner role) && leb (owners_of org_id ms) 1)) ≡ false
      → Keeps ms (update_if (is_of org_id user_id) (λ m. record m { role = role }) ms)
  set_role-Keeps role allowed = record {
    unique = update-IsUnique org_id user_id _ (λ m. refl) (λ m. refl) ms unique;
    owned = λ o h.
        let f = λ (x : Membership). record x { role = role } in
        let q = is_of org_id user_id in
        elim (Bool-cases (is_owner role)) [
          | inl promoted ↦
              omega (arith, count_if-update_mono q (owns o) f (λ x _ px. ground arith) ms)
          | inr demoted ↦ elim (Bool-cases (owns o m)) [
            | inl counted ↦
                ground (arith, found_org, unique org_id user_id, count_if-update_le q (owns o) f ms)
            | inr other ↦ omega (
              arith,
              count_if-update_uncounted q (owns o) f m ms found (unique org_id user_id) other,
            )
          ]
        ];
  }

  pub remove-Keeps :
      (is_owner m.role && leb (owners_of org_id ms) 1) ≡ false
      → Keeps ms (remove_if (is_of org_id user_id) ms)
  remove-Keeps allowed = record {
    unique =
        λ o u. omega (arith, unique o u, count_if-remove_le (is_of org_id user_id) (is_of o u) ms);
    owned = λ o h.
        let q = is_of org_id user_id in
        elim (Bool-cases (owns o m)) [
          | inl counted ↦
              ground (arith, found_org, unique org_id user_id, count_if-remove_add q (owns o) ms)
          | inr other ↦
              omega (
                arith,
                count_if-remove_uncounted q (owns o) m ms found (unique org_id user_id) other,
              )
        ];
  }

-- The changes of `update_member_details`.
abbrev pub change_details : Changes → Membership → Membership
change_details changes m = record m {
  employee_id = or_keep changes.employee_id m.employee_id;
  team = or_keep changes.team m.team;
}

pub details-Keeps :
    (ms : List Membership) (org_id user_id : ℕ) (changes : Changes)
    → IsUnique ms
    → Keeps ms (update_if (is_of org_id user_id) (change_details changes) ms)
details-Keeps ms org_id user_id changes unique = record {
  unique = update-IsUnique org_id user_id _ (λ m. refl) (λ m. refl) ms unique;
  owned = λ o h. omega (
    arith,
    count_if-update_same (is_of org_id user_id) (owns o) (change_details changes) (λ x _. refl) ms,
  );
}

-- Adding a member keeps one membership for a user in an organization, and every owner.
pub add_member-Keeps :
    (now : ℕ) (db db' : Db) (org_id user_id : ℕ) (role : Role) (m : Membership)
    → IsUnique db.memberships
    → add_member now db org_id user_id role ≡ ok (m, db')
    → Keeps db.memberships db'.memberships
unfolding add_member
add_member-Keeps now db db' org_id user_id role m unique e =
    rw same (insert-Keeps db.memberships org_id user_id role absent unique)
  where
    absent : find_membership org_id user_id db.memberships ≡ none
    absent = ground arith

    same : db'.memberships ≡ new_membership org_id user_id role ∷ db.memberships
    same = ground arith

-- Changing a role keeps one membership for a user in an organization, and no organization that
-- had an owner is left without one.
pub set_member_role-Keeps :
    (db db' : Db) (org_id user_id : ℕ) (role : Role) (m : Membership)
    → IsUnique db.memberships
    → set_member_role db org_id user_id role ≡ ok (m, db')
    → Keeps db.memberships db'.memberships
unfolding set_member_role
set_member_role-Keeps db db' org_id user_id role m unique e =
    elim (Option-cases (find_membership org_id user_id db.memberships)) [
      | inl absent ↦ absurd (ground arith)
      | inr (old, found) ↦
          let allowed : (is_owner old.role
                && (not (is_owner role) && leb (owners_of org_id db.memberships) 1))
              ≡ false =
            ground arith in
          let same : db'.memberships
              ≡ update_if (is_of org_id user_id) (λ m. record m { role = role }) db.memberships =
            ground arith in
          rw same (set_role-Keeps db.memberships org_id user_id old found unique role allowed)
    ]

-- Removing a member keeps one membership for a user in an organization, and no organization that
-- had an owner is left without one.
pub remove_member-Keeps :
    (db db' : Db) (org_id user_id : ℕ)
    → IsUnique db.memberships
    → remove_member db org_id user_id ≡ ok db'
    → Keeps db.memberships db'.memberships
unfolding remove_member
remove_member-Keeps db db' org_id user_id unique e =
    elim (Option-cases (find_membership org_id user_id db.memberships)) [
      | inl absent ↦ absurd (ground arith)
      | inr (old, found) ↦
          let allowed : (is_owner old.role && leb (owners_of org_id db.memberships) 1) ≡ false =
            ground arith in
          let same : db'.memberships ≡ remove_if (is_of org_id user_id) db.memberships =
            ground arith in
          rw same (remove-Keeps db.memberships org_id user_id old found unique allowed)
    ]

-- Setting the details of a member keeps both too.
pub update_member_details-Keeps :
    (lower db_lower : String → String) (db db' : Db) (org_id user_id : ℕ) (changes : Changes)
    (m : Membership)
    → IsUnique db.memberships
    → update_member_details lower db_lower db org_id user_id changes ≡ ok (m, db')
    → Keeps db.memberships db'.memberships
unfolding update_member_details
update_member_details-Keeps lower db_lower db db' org_id user_id changes m unique e =
    let same : db'.memberships
        ≡ update_if (is_of org_id user_id) (change_details changes) db.memberships =
      ground arith in
    rw same (details-Keeps db.memberships org_id user_id changes unique)
