-- ===== src/Accounts/Links.antt =====
-- What stays true of users and linked identities over any sequence of registrations, sign-ins,
-- changes of a password and unlinkings, of app/services/auth_service.py,
-- app/services/sso_service.py and app/services/account_service.py.
use third_party_vendor_risk.Base.{
  ℕ, ◌≤◌, ◌<◌, ◌≡◌, refl, subst, String, Bool, ◌&&◌, Option, none, some, ◌∷◌, ◌==◌, nat_eq,
  nat_beq_iff, string_eq, str_eq_iff, any-iff_count, count_if, count_if_pos, count_if_mono,
  count_if-update_le, count_if-update_ge, count_if-remove_le, find_first-none, remove_if, arith,
  inl, inr, Option-cases, Result-cases, ok,
}
use third_party_vendor_risk.Tenancy.{Organization, User, UserIdentity, Db, get_user}
use third_party_vendor_risk.Accounts.{
  Crypto, find_email, change_user, is_link_of, create_user, account_left, create_account, register,
  set_password, unlink_identity,
}
use third_party_vendor_risk.Accounts.Sso.{
  OidcIdentity, Outcome, linked, created, accepted, done, find_identity, is_identity, touch,
  link_identity, commit_link, attempt,
}
use third_party_vendor_risk.Accounts.Passwords.{
  Registered, create_user-Registered, create_account-Registered,
}
use third_party_vendor_risk.Accounts.Identities.{not_accepted}

abbrev pub has_id : ℕ → User → Bool
has_id id u = u.id == id

abbrev pub has_email : String → User → Bool
has_email email u = u.email == email

abbrev pub is_subject : String → String → UserIdentity → Bool
is_subject provider subject i = i.provider == provider && i.subject == subject

-- The keys of the tables, and the foreign key of the identities.
pub record IsConsistent (db : Db) : Type 0 where
  pub keyed : (id : ℕ) → count_if (has_id id) db.users ≤ 1
  pub addresses : (email : String) → count_if (has_email email) db.users ≤ 1
  pub subjects :
      (provider subject : String) → count_if (is_subject provider subject) db.identities ≤ 1
  pub links :
      (user_id : ℕ) (provider : String) → count_if (is_link_of user_id provider) db.identities ≤ 1
  pub known :
      (user_id : ℕ)
      → 0 < count_if (λ (i : UserIdentity). i.user_id == user_id) db.identities
      → 0 < count_if (has_id user_id) db.users

change_user-IsConsistent :
    (id : ℕ) (f : User → User) (db : Db)
    → ((u : User) → ((f u).id ≡ u.id) × ((f u).email ≡ u.email))
    → IsConsistent db
    → IsConsistent (change_user id f db)
change_user-IsConsistent id f db keeps c = record {
  keyed = λ k. omega (
    arith,
    c.keyed k,
    count_if-update_le (has_id k) (has_id id) f db.users (λ u hit h. ground (arith, keeps u)),
  );
  addresses = λ e. omega (
    arith,
    c.addresses e,
    count_if-update_le (has_email e) (has_id id) f db.users (λ u hit h. ground (arith, keeps u)),
  );
  subjects = c.subjects;
  links = c.links;
  known = λ k h. omega (
    arith,
    c.known k h,
    count_if-update_ge (has_id k) (has_id id) f db.users (λ u hit h. ground (arith, keeps u)),
  );
}

Registered-IsConsistent :
    (c : Crypto) (user_id : ℕ) (db : Db) (email : String) (password_hash name : Option String)
    (user : User) (after : Db)
    → count_if (has_id user_id) db.users ≡ 0
    → Registered c user_id db email password_hash name user after
    → IsConsistent db
    → IsConsistent after
Registered-IsConsistent c user_id db email password_hash name user after fresh r k =
    let new_address = find_first-none (has_email (c.normalize email)) db.users r.free in
    record {
      keyed = λ id. ground (arith, r.users, r.row, fresh, k.keyed id, nat_beq_iff user_id id);
      addresses = λ e.
          ground
            (arith, r.users, r.row, new_address, k.addresses e, str_eq_iff (c.normalize email) e);
      subjects = rw r.identities k.subjects;
      links = rw r.identities k.links;
      known = λ id h. ground (arith, r.users, r.identities, k.known id);
    }

-- A link of an identity that no one has, to a user who has none of its provider.
linked-IsConsistent :
    (db : Db) (identity : OidcIdentity) (user user' : User) (outcome outcome' : Outcome)
    (after : Db)
    → count_if (is_identity identity) db.identities ≡ 0
    → count_if (is_link_of user.id identity.provider) db.identities ≡ 0
    → 0 < count_if (has_id user.id) db.users
    → link_identity db identity user outcome ≡ accepted user' outcome' after
    → IsConsistent db
    → IsConsistent after
unfolding link_identity touch
linked-IsConsistent db identity user user' outcome outcome' after new unlinked there h k =
    let link : UserIdentity = record {
      user_id = user.id;
      provider = identity.provider;
      subject = identity.subject;
    } in
    let mid : Db = record db { identities = link ∷ db.identities } in
    let c : IsConsistent mid = record {
      keyed = k.keyed;
      addresses = k.addresses;
      subjects = λ p s. ground (
        arith,
        k.subjects p s,
        new,
        str_eq_iff identity.provider p,
        str_eq_iff identity.subject s,
      );
      links = λ u p.
          ground
            (arith, k.links u p, unlinked, nat_beq_iff user.id u, str_eq_iff identity.provider p);
      known = λ u one. ground (arith, k.known u, there, nat_beq_iff user.id u);
    } in
    let same : change_user user.id (touch identity) mid ≡ after = ground arith in
    subst IsConsistent same
      (change_user-IsConsistent user.id (touch identity) mid (λ u. ground arith) c)

attempt-IsConsistent :
    (c : Crypto) (user_id org_id : ℕ) (db : Db) (identity : OidcIdentity) (user : User)
    (outcome : Outcome) (after : Db)
    → count_if (has_id user_id) db.users ≡ 0
    → attempt c user_id org_id db identity ≡ done (accepted user outcome after)
    → IsConsistent db
    → IsConsistent after
unfolding attempt commit_link find_identity touch
attempt-IsConsistent c user_id org_id db identity user outcome after fresh h k =
    elim (Option-cases (find_identity db identity)) [
      | inr (link, found) ↦ elim (Option-cases (get_user db link.user_id)) [
        | inl none_there ↦ absurd (ground arith)
        | inr (u, there) ↦
            let same : change_user u.id (touch identity) db ≡ after = ground arith in
            subst IsConsistent same
              (change_user-IsConsistent u.id (touch identity) db (λ w. ground arith) k)
      ]
      | inl new ↦
          let unseen = find_first-none (is_identity identity) db.identities new in
          elim (Option-cases (find_email identity.email db)) [
            | inr (u, there) ↦
                linked-IsConsistent db identity u user linked outcome after unseen
                  (ground (arith, any-iff_count (is_link_of u.id identity.provider) db.identities))
                  (count_if_pos (has_email identity.email) (has_id u.id) db.users u there
                    (ground (arith, nat_beq_iff u.id u.id)))
                  (ground arith) k
            | inl unknown ↦
                elim (Result-cases
                  (create_account c user_id org_id db identity.email none identity.name none)) [
                    | inl (e, failed) ↦
                        (not_accepted e
                          (account_left c user_id db identity.email none identity.name) user outcome
                          after (rw (attempt, new, unknown, failed) at h))
                    | inr ((u, org, mid), made) ↦
                        let r =
                          create_account-Registered c user_id org_id db mid identity.email none
                            identity.name none u org made in
                        let few =
                          count_if_mono (is_link_of u.id identity.provider)
                            (λ (i : UserIdentity). i.user_id == u.id) db.identities
                            (λ i one. ground arith) in
                        linked-IsConsistent mid identity u user created outcome after
                          (rw r.identities unseen)
                          (rw r.identities (ground (arith, few, k.known u.id, fresh, r.row)))
                          (ground (arith, r.users, nat_beq_iff u.id u.id)) (ground arith)
                          (Registered-IsConsistent c user_id db identity.email none identity.name u
                            mid fresh r k)
                  ]
          ]
    ]

set_password-IsConsistent :
    (c : Crypto) (db after : Db) (user : User) (current : Option String) (new_password : String)
    (made : Bool)
    → set_password c db user current new_password ≡ ok (made, after)
    → IsConsistent db
    → IsConsistent after
unfolding set_password
set_password-IsConsistent c db after user current new_password made h k =
    let same : change_user user.id (λ u. record u { password_hash = some (c.hash new_password) }) db
        ≡ after =
      ground arith in
    subst IsConsistent same (
      change_user-IsConsistent user.id
        (λ u. record u { password_hash = some (c.hash new_password) }) db (λ u. (refl, refl)) k)

unlink_identity-IsConsistent :
    (db after : Db) (user : User) (provider : String)
    → unlink_identity db user provider ≡ ok after
    → IsConsistent db
    → IsConsistent after
unfolding unlink_identity
unlink_identity-IsConsistent db after user provider h k =
    let kept : Db = record db {
      identities = remove_if (is_link_of user.id provider) db.identities;
    } in
    let same : kept ≡ after = ground arith in
    let fewer = λ (p : UserIdentity → Bool).
      count_if-remove_le p (is_link_of user.id provider) db.identities in
    let c : IsConsistent kept = record {
      keyed = k.keyed;
      addresses = k.addresses;
      subjects = λ p s. omega (arith, k.subjects p s, fewer (is_subject p s));
      links = λ u p. omega (arith, k.links u p, fewer (is_link_of u p));
      known = λ u one. k.known u (omega (arith, fewer (λ (i : UserIdentity). i.user_id == u)));
    } in
    subst IsConsistent same c

-- One call that succeeds, or what it has committed before it fails: a user, or a new account. A new
-- user has a new key.
pub data Step (c : Crypto) : Db → Db → Type 0 where
  registers :
      {db db' : Db} (user_id org_id : ℕ) (email password : String) (name org_name : Option String)
      (user : User) (org : Organization)
      → count_if (has_id user_id) db.users ≡ 0
      → register c user_id org_id db email password name org_name ≡ ok (user, org, db')
      → Step c db db'
  half_registers :
      {db db' : Db} (user_id : ℕ) (email : String) (password_hash name : Option String)
      (user : User)
      → count_if (has_id user_id) db.users ≡ 0
      → create_user c user_id db email password_hash name ≡ ok (user, db')
      → Step c db db'
  creates :
      {db db' : Db} (user_id org_id : ℕ) (email : String)
      (password_hash name org_name : Option String) (user : User) (org : Organization)
      → count_if (has_id user_id) db.users ≡ 0
      → create_account c user_id org_id db email password_hash name org_name ≡ ok (user, org, db')
      → Step c db db'
  signs_in :
      {db db' : Db} (user_id org_id : ℕ) (identity : OidcIdentity) (user : User) (outcome : Outcome)
      → count_if (has_id user_id) db.users ≡ 0
      → attempt c user_id org_id db identity ≡ done (accepted user outcome db')
      → Step c db db'
  sets_password :
      {db db' : Db} (user : User) (current : Option String) (new_password : String) (made : Bool)
      → set_password c db user current new_password ≡ ok (made, db')
      → Step c db db'
  unlinks :
      {db db' : Db} (user : User) (provider : String)
      → unlink_identity db user provider ≡ ok db'
      → Step c db db'

pub data Reach (c : Crypto) (start : Db) : Db → Type 0 where
  here : Reach c start start
  next : {db db' : Db} → Reach c start db → Step c db db' → Reach c start db'

Step-IsConsistent : (c : Crypto) {db db' : Db} → Step c db db' → IsConsistent db → IsConsistent db'
unfolding register
Step-IsConsistent c {db} {db'}
      (registers user_id org_id email password name org_name user org fresh h) k =
    Registered-IsConsistent c user_id db email (some (c.hash password)) name user db' fresh
      (create_account-Registered c user_id org_id db db' email (some (c.hash password)) name
        org_name user org h)
      k
Step-IsConsistent c {db} {db'} (half_registers user_id email password_hash name user fresh h) k =
    Registered-IsConsistent c user_id db email password_hash name user db' fresh
      (create_user-Registered c user_id db db' email password_hash name user h) k
Step-IsConsistent c {db} {db'}
      (creates user_id org_id email password_hash name org_name user org fresh h) k =
    Registered-IsConsistent c user_id db email password_hash name user db' fresh
      (create_account-Registered c user_id org_id db db' email password_hash name org_name user org
        h)
      k
Step-IsConsistent c {db} {db'} (signs_in user_id org_id identity user outcome fresh h) k =
    attempt-IsConsistent c user_id org_id db identity user outcome db' fresh h k
Step-IsConsistent c {db} {db'} (sets_password user current new_password made h) k =
    set_password-IsConsistent c db db' user current new_password made h k
Step-IsConsistent c {db} {db'} (unlinks user provider h) k =
    unlink_identity-IsConsistent db db' user provider h k

-- Whatever registrations, sign-ins, password changes and unlinkings follow each other, also ones that
-- fail after a user or an account was stored: addresses stay unique, an identity of a provider stays
-- linked to at most one user, a user to at most one identity of a provider, and every link to a user
-- who is there.
pub Reach-IsConsistent :
    (c : Crypto) (start db : Db) → Reach c start db → IsConsistent start → IsConsistent db
Reach-IsConsistent c start db here k = k
Reach-IsConsistent c start db (next {db = mid} r s) k =
    Step-IsConsistent c s (Reach-IsConsistent c start mid r k)
