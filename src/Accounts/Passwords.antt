-- ===== src/Accounts/Passwords.antt =====
-- Registration and sign-in by password in app/services/auth_service.py.
use third_party_vendor_risk.Base.{
  sym, ap, ◌∙◌, Result-cases, ℕ, ◌≡◌, refl, String, true, Option, none, some, ◌∷◌, string_eq,
  str_eq_iff, arith, if◌then◌else◌, inl, inr, Option-cases, ok, err, conflict, auth,
}
use third_party_vendor_risk.Tenancy.{Organization, User, Db}
use third_party_vendor_risk.Orgs.Create.{create_org}
use third_party_vendor_risk.Accounts.{
  Crypto, find_email, default_org_name, create_user, create_account, register, authenticate,
}

-- The new organization changes no user.
pub create_org-users :
    (show : ℕ → String) (lower : String → String) (org_id : ℕ) (db after : Db) (name : String)
    (owner_id : ℕ) (slug : Option String) (org : Organization)
    → create_org show lower org_id db name owner_id slug ≡ some (org, after)
    → (after.users ≡ db.users) × (after.identities ≡ db.identities)
unfolding create_org
create_org-users show lower org_id db after name owner_id slug org h = ground arith

-- A new account stands first in the table of users; nothing else of the users or identities changes.
pub record Registered (c : Crypto) (user_id : ℕ) (db : Db) (email : String)
    (password_hash name : Option String) (user : User) (after : Db) : Type 0 where
  pub free : find_email (c.normalize email) db ≡ none
  pub row : user ≡ record {
    id = user_id;
    email = c.normalize email;
    password_hash = password_hash;
    name = name;
    is_active = true;
  }
  pub users : after.users ≡ user ∷ db.users
  pub identities : after.identities ≡ db.identities

pub create_user-Registered :
    (c : Crypto) (user_id : ℕ) (db after : Db) (email : String) (password_hash name : Option String)
    (user : User)
    → create_user c user_id db email password_hash name ≡ ok (user, after)
    → Registered c user_id db email password_hash name user after
unfolding create_user
create_user-Registered c user_id db after email password_hash name user h =
    elim (Option-cases (find_email (c.normalize email) db)) [
      | inr (u, taken) ↦ absurd (ground arith)
      | inl free ↦ record {
        free = free;
        row = ground arith;
        users = ground arith;
        identities = ground arith;
      }
    ]

pub create_account-Registered :
    (c : Crypto) (user_id org_id : ℕ) (db after : Db) (email : String)
    (password_hash name org_name : Option String) (user : User) (org : Organization)
    → create_account c user_id org_id db email password_hash name org_name ≡ ok (user, org, after)
    → Registered c user_id db email password_hash name user after
unfolding create_account
create_account-Registered c user_id org_id db after email password_hash name org_name user org h =
    elim (Result-cases (create_user c user_id db email password_hash name)) [
      | inl (e, failed) ↦ absurd (ground arith)
      | inr ((u, stored), made) ↦
          let r = create_user-Registered c user_id db stored email password_hash name u made in
          elim (Option-cases (
            create_org c.show c.lower org_id stored
              (default_org_name (c.normalize email) name org_name) user_id none)) [
                | inl stuck ↦ absurd (ground arith)
                | inr ((o, last), created) ↦
                    let kept =
                      create_org-users c.show c.lower org_id stored last
                        (default_org_name (c.normalize email) name org_name) user_id none o
                        created in
                    let same : (u ≡ user) × (last ≡ after) = ground arith in
                    record {
                      free = r.free;
                      row = sym same.0 ∙ r.row;
                      users =
                          ap (λ (d : Db). d.users) (sym same.1)
                          ∙ kept.0
                          ∙ r.users
                          ∙ ap (λ v. v ∷ db.users) same.0;
                      identities =
                          ap (λ (d : Db). d.identities) (sym same.1) ∙ kept.1 ∙ r.identities;
                    }
              ]
    ]

taken_again :
    (c : Crypto) (user_id org_id : ℕ) (db : Db) (email password : String)
    (name org_name : Option String) (user : User)
    → find_email (c.normalize email) db ≡ some user
    → register c user_id org_id db email password name org_name ≡ err conflict
unfolding register create_account create_user
taken_again c user_id org_id db email password name org_name user found = rw (register, found) refl

-- After a registration the address signs in, in any spelling that is normalized alike, exactly with
-- the passwords that the hash accepts, the registered one among them; any other is an AuthError.
-- The address cannot be registered again.
pub register-authenticate :
    (c : Crypto) (user_id org_id : ℕ) (db after : Db) (email password : String)
    (name org_name : Option String) (user : User) (org : Organization) (again other : String)
    (next_user next_org : ℕ)
    → c.verify password (c.hash password) ≡ true
    → (c.hash password ≡ "" → ⊥)
    → c.normalize again ≡ c.normalize email
    → register c user_id org_id db email password name org_name ≡ ok (user, org, after)
    → (authenticate c after again password ≡ ok user)
      × (authenticate c after again other
          ≡ (if c.verify other (c.hash password) then ok user else err auth))
      × (register c next_user next_org after again other name org_name ≡ err conflict)
unfolding register authenticate
register-authenticate c user_id org_id db after email password name org_name user org again other
      next_user next_org verifies stored same done =
    let r =
      create_account-Registered c user_id org_id db after email (some (c.hash password)) name
        org_name user org done in
    let first : find_email (c.normalize again) after ≡ some user =
      ground (arith, r.users, r.row, str_eq_iff user.email (c.normalize again)) in
    (
      ground (arith, first, r.row, str_eq_iff (c.hash password) ""),
      ground (arith, first, r.row, str_eq_iff (c.hash password) ""),
      taken_again c next_user next_org after again other name org_name user first,
    )
