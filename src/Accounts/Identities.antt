-- ===== src/Accounts/Identities.antt =====
-- Which account an identity signs in to, by app/services/sso_service.py.
use third_party_vendor_risk.Base.{
  ℕ, ◌≤◌, ◌≡◌, refl, sym, subst, true, none, some, List, [], ◌∷◌, ◌==◌, nat_eq, nat_beq_iff,
  string_eq, str_eq_refl, count_if, find_first, find_first_sound, find_first_unique, update_if,
  arith, ◌⊎◌, inl, inr, Bool-cases, Option-cases, Result-cases, conflict, DomainError,
}
use third_party_vendor_risk.Tenancy.{User, UserIdentity, Db, get_user}
use third_party_vendor_risk.Accounts.{Crypto, find_email, change_user, create_account, account_left}
use third_party_vendor_risk.Accounts.Sso.{
  OidcIdentity, Outcome, signed_in, linked, created, SignedIn, accepted, Attempt, done, raced,
  find_identity, touch, link_identity, commit_link, after_failure, attempt, resolve_user,
}
use third_party_vendor_risk.Accounts.Passwords.{create_account-Registered}

-- The primary key of the users.
abbrev pub AreKeyed : List User → Type 0
AreKeyed users = (id : ℕ) → count_if (λ u. u.id == id) users ≤ 1

pub touch-id : (identity : OidcIdentity) (user : User) → (touch identity user).id ≡ user.id
unfolding touch
touch-id identity user = ground arith

touch-is_active :
    (identity : OidcIdentity) (user : User) → (touch identity user).is_active ≡ user.is_active
unfolding touch
touch-is_active identity user = ground arith

touch_idem :
    (identity : OidcIdentity) (user : User)
    → touch identity (touch identity user) ≡ touch identity user
unfolding touch
touch_idem identity user = ground (arith)

find-update_user :
    (id : ℕ) (f : User → User) (user : User) (users : List User)
    → ((u : User) → (f u).id ≡ u.id)
    → find_first (λ u. u.id == id) users ≡ some user
    → find_first (λ u. u.id == id) (update_if (λ u. u.id == id) f users) ≡ some (f user)
find-update_user id f user [] keeps h = cc
find-update_user id f user (u ∷ users) keeps h =
    ground (arith, keeps u, find-update_user id f user users keeps, nat_beq_iff u.id id)

-- The tables after a sign-in: the identity is linked to the user who signed in.
record Signs (identity : OidcIdentity) (user : User) (after : Db) : Type 0 where
  link : UserIdentity
  found : find_identity after identity ≡ some link
  points : get_user after link.user_id ≡ some user
  active : user.is_active ≡ true
  touched : touch identity user ≡ user

link_identity-Signs :
    (db : Db) (identity : OidcIdentity) (user user' : User) (outcome outcome' : Outcome)
    (after : Db)
    → get_user db user.id ≡ some user
    → user.is_active ≡ true
    → link_identity db identity user outcome ≡ accepted user' outcome' after
    → Signs identity user' after
unfolding link_identity find_identity
link_identity-Signs db identity user user' outcome outcome' after there active h =
    let made = find-update_user user.id (touch identity) user db.users (touch-id identity) there in
    record {
      link = record { user_id = user.id; provider = identity.provider; subject = identity.subject };
      found = ground (arith, str_eq_refl identity.provider, str_eq_refl identity.subject);
      points = ground (arith, made);
      active = ground (arith, touch-is_active identity user);
      touched = ground (arith, touch_idem identity user);
    }

pub not_accepted {ℓ} :
    {A : Type ℓ} (e : DomainError) (left : Db) (user : User) (outcome : Outcome) (after : Db)
    → after_failure e left ≡ done (accepted user outcome after)
    → A
not_accepted conflict left user outcome after h = cc
not_accepted e left user outcome after h = cc

attempt-Signs :
    (c : Crypto) (user_id org_id : ℕ) (db : Db) (identity : OidcIdentity) (user : User)
    (outcome : Outcome) (after : Db)
    → AreKeyed db.users
    → attempt c user_id org_id db identity ≡ done (accepted user outcome after)
    → Signs identity user after
unfolding attempt commit_link find_identity
attempt-Signs c user_id org_id db identity user outcome after keyed h =
    elim (Option-cases (find_identity db identity)) [
      | inr (link, found) ↦ elim (Option-cases (get_user db link.user_id)) [
        | inl none_there ↦ absurd (ground arith)
        | inr (u, there) ↦
            let same : u.id ≡ link.user_id = ground (
              arith,
              find_first_sound (λ (w : User). w.id == link.user_id) db.users u there,
              nat_beq_iff u.id link.user_id,
            ) in
            let here : get_user db u.id ≡ some u =
              subst (λ n. get_user db n ≡ some u) (sym same) there in
            let made = find-update_user u.id (touch identity) u db.users (touch-id identity) here in
            record {
              link = link;
              found = ground arith;
              points = ground (arith, made, same);
              active = ground (arith, touch-is_active identity u);
              touched = ground (arith, touch_idem identity u);
            }
      ]
      | inl new ↦ elim (Option-cases (find_email identity.email db)) [
        | inr (u, there) ↦
            link_identity-Signs db identity u user linked outcome after
              (find_first_unique (λ (w : User). w.email == identity.email)
                (λ (w : User). w.id == u.id) db.users u there
                (ground (arith, nat_beq_iff u.id u.id)) (keyed u.id))
              (ground arith) (ground arith)
        | inl unknown ↦
            elim (Result-cases
              (create_account c user_id org_id db identity.email none identity.name none)) [
                | inl (e, failed) ↦
                    (not_accepted e (account_left c user_id db identity.email none identity.name)
                      user outcome after (rw (attempt, new, unknown, failed) at h))
                | inr ((u, org, mid), made) ↦
                    let r =
                      create_account-Registered c user_id org_id db mid identity.email none
                        identity.name none u org made in
                    link_identity-Signs mid identity u user created outcome after
                      (ground (arith, r.users, nat_beq_iff u.id u.id)) (ground (arith, r.row))
                      (ground arith)
              ]
      ]
    ]

again-Signs :
    (c : Crypto) (user_id org_id : ℕ) (db : Db) (identity : OidcIdentity) (user : User)
    → Signs identity user db
    → (after : Db) × (attempt c user_id org_id db identity ≡ done (accepted user signed_in after))
      × (after.identities ≡ db.identities)
unfolding attempt commit_link
again-Signs c user_id org_id db identity user s = (
  change_user user.id (touch identity) db,
  ground (arith, s.found, s.points, s.active, s.touched),
  refl,
)

pub Attempt-cases : (a : Attempt) → ((answer : SignedIn) × (a ≡ done answer)) ⊎ (a ≡ raced)
Attempt-cases (done answer) = inl (answer, refl)
Attempt-cases raced = inr refl

-- An accepted sign-in is verified, and was accepted by a try on the tables of its time.
pub resolve_user-attempt :
    (c : Crypto) (user_id org_id : ℕ) (db later after : Db) (identity : OidcIdentity) (user : User)
    (outcome : Outcome)
    → resolve_user c user_id org_id db later identity ≡ accepted user outcome after
    → (identity.email_verified ≡ true)
      × ((attempt c user_id org_id db identity ≡ done (accepted user outcome after))
          ⊎ (attempt c user_id org_id later identity ≡ done (accepted user outcome after)))
unfolding resolve_user
resolve_user-attempt c user_id org_id db later after identity user outcome h =
    elim (Bool-cases identity.email_verified) [
      | inr unverified ↦ absurd (ground arith)
      | inl verified ↦ elim (Attempt-cases (attempt c user_id org_id db identity)) [
        | inl (answer, first) ↦ (verified, inl (ground arith))
        | inr lost ↦ elim (Attempt-cases (attempt c user_id org_id later identity)) [
          | inl (answer, second) ↦ (verified, inr (ground arith))
          | inr lost_again ↦ absurd (ground arith)
        ]
      ]
    ]

-- Whoever signs in through a provider signs in to the same account the next time: after a sign-in,
-- whether it found the link, made one or created the account, the same verified identity is
-- signed in as that user, and no link is added. It holds for the tables that the first try or the
-- second try found, with the keys of the users unique.
pub resolve_user_stable :
    (c : Crypto) (user_id org_id next_user next_org : ℕ) (db later after later_still : Db)
    (identity : OidcIdentity) (user : User) (outcome : Outcome)
    → AreKeyed db.users
    → AreKeyed later.users
    → resolve_user c user_id org_id db later identity ≡ accepted user outcome after
    → (last : Db) × (resolve_user c next_user next_org after later_still identity
        ≡ accepted user signed_in last)
      × (last.identities ≡ after.identities)
unfolding resolve_user
resolve_user_stable c user_id org_id next_user next_org db later after later_still identity user
      outcome keyed keyed_later h =
    let (verified, tries) =
      resolve_user-attempt c user_id org_id db later after identity user outcome h in
    let signs : Signs identity user after = elim tries [
      | inl first ↦ attempt-Signs c user_id org_id db identity user outcome after keyed first
      | inr second ↦
          attempt-Signs c user_id org_id later identity user outcome after keyed_later second
    ] in
    let (last, again, same) = again-Signs c next_user next_org after identity user signs in
    (last, ground arith, same)
