-- ===== src/Accounts/Failures.antt =====
-- `resolve_user` of app/services/sso_service.py where `create_account` fails after its first commit.
use third_party_vendor_risk.Base.{
  ℕ, ◌≡◌, refl, sym, ap, ◌∙◌, ◌⊎◌, String, true, false, Option, none, ◌∷◌, string_eq, if◌then◌else◌,
  arith, inl, inr, Bool-cases, Option-cases, Result-cases, DomainError, conflict, auth, not_found,
  permission_denied, validation, unavailable, gone, too_many_requests, plan_limit, ok, err, subst,
}
use third_party_vendor_risk.Tenancy.{Organization, User, Db, get_user}
use third_party_vendor_risk.Accounts.{Crypto, find_email, create_user, create_account, account_left}
use third_party_vendor_risk.Accounts.Sso.{
  OidcIdentity, broken, done, find_identity, link_identity, commit_link, after_failure, attempt,
  resolve_user, is_retried,
}
use third_party_vendor_risk.Accounts.Identities.{Attempt-cases}

-- A user with an address that no one had is all that is new.
abbrev pub OnlyUser : Db → Db → Type 0
OnlyUser db left =
    (user : User) × (find_email user.email db ≡ none)
    × (left ≡ record db { users = user ∷ db.users })

-- What a failed sign-in leaves: the tables as they were, a new user with an address that no one had, or
-- a whole new account.
abbrev pub IsLeft : Crypto → (user_id org_id : ℕ) → OidcIdentity → Db → Db → Type 0
IsLeft c user_id org_id identity db left =
    (left ≡ db)
    ⊎ (OnlyUser db left
        ⊎ ((user : User) × (org : Organization) × (create_account c user_id org_id db identity.email
                none identity.name none
              ≡ ok (user, org, left))))

account_left-OnlyUser :
    (c : Crypto) (user_id org_id : ℕ) (db : Db) (email : String)
    (password_hash name org_name : Option String) (e : DomainError)
    → create_account c user_id org_id db email password_hash name org_name ≡ err e
    → (e ≡ conflict → ⊥)
    → OnlyUser db (account_left c user_id db email password_hash name)
unfolding create_account create_user account_left
account_left-OnlyUser c user_id org_id db email password_hash name org_name e failed other =
    elim (Option-cases (find_email (c.normalize email) db)) [
      | inr (u, taken) ↦ absurd (ground (arith, other))
      | inl free ↦
          let user : User = record {
            id = user_id;
            email = c.normalize email;
            password_hash = password_hash;
            name = name;
            is_active = true;
          } in
          let made : create_user c user_id db email password_hash name
              ≡ ok (user, record db { users = user ∷ db.users }) =
            rw (create_user, free) refl in
          (user, free, rw (account_left, made) refl)
    ]

broken-after :
    (why e : DomainError) (after left : Db)
    → after_failure why after ≡ done (broken e left)
    → (why ≡ conflict → ⊥) × (after ≡ left)
broken-after conflict e after left h = absurd (cc)
broken-after auth e after left h = (λ same. cc, cc)
broken-after not_found e after left h = (λ same. cc, cc)
broken-after permission_denied e after left h = (λ same. cc, cc)
broken-after validation e after left h = (λ same. cc, cc)
broken-after unavailable e after left h = (λ same. cc, cc)
broken-after gone e after left h = (λ same. cc, cc)
broken-after too_many_requests e after left h = (λ same. cc, cc)
broken-after plan_limit e after left h = (λ same. cc, cc)

-- What a try leaves that fails so.
attempt-IsLeft :
    (c : Crypto) (user_id org_id : ℕ) (db left : Db) (identity : OidcIdentity) (e : DomainError)
    → attempt c user_id org_id db identity ≡ done (broken e left)
    → IsLeft c user_id org_id identity db left
unfolding attempt commit_link link_identity
attempt-IsLeft c user_id org_id db left identity e h =
    elim (Option-cases (find_identity db identity)) [
      | inr (link, found) ↦ elim (Option-cases (get_user db link.user_id)) [
        | inl none_there ↦ absurd (ground arith)
        | inr (u, there) ↦ absurd (ground arith)
      ]
      | inl new ↦ elim (Option-cases (find_email identity.email db)) [
        | inr (u, there) ↦ inl (ground arith)
        | inl unknown ↦
            let made = create_account c user_id org_id db identity.email none identity.name none in
            elim (Result-cases made) [
              | inr ((u, org, mid), stored) ↦
                  let same : mid ≡ left = ground arith in
                  inr (inr (u, org, stored ∙ ap (λ d. ok (u, org, d)) same))
              | inl (why, failed) ↦
                  let after = account_left c user_id db identity.email none identity.name in
                  let row : after_failure why after ≡ done (broken e left) =
                    rw (attempt, new, unknown, failed) at h in
                  let (other, same) = broken-after why e after left row in
                  inr (
                    inl (
                      subst (OnlyUser db) same (
                        account_left-OnlyUser c user_id org_id db identity.email none identity.name
                          none why failed other)))
            ]
      ]
    ]

-- What `resolve_user` leaves that ends in such an exception, of the tables of its last try.
pub resolve_user-broken :
    (c : Crypto) (user_id org_id : ℕ) (db later left : Db) (identity : OidcIdentity)
    (e : DomainError)
    → resolve_user c user_id org_id db later identity ≡ broken e left
    → IsLeft c user_id org_id identity
        (if is_retried c user_id org_id db identity then later else db)
        left
unfolding resolve_user is_retried
resolve_user-broken c user_id org_id db later left identity e h =
    elim (Bool-cases identity.email_verified) [
      | inr unsure ↦ absurd (ground arith)
      | inl sure ↦ elim (Attempt-cases (attempt c user_id org_id db identity)) [
        | inl (answer, first) ↦
            let retried : is_retried c user_id org_id db identity ≡ false = ground arith in
            subst (λ b. IsLeft c user_id org_id identity (if b then later else db) left)
              (sym retried) (attempt-IsLeft c user_id org_id db left identity e (ground arith))
        | inr again ↦ elim (Attempt-cases (attempt c user_id org_id later identity)) [
          | inr twice ↦ absurd (ground arith)
          | inl (answer, second) ↦
              let retried : is_retried c user_id org_id db identity ≡ true = ground arith in
              subst (λ b. IsLeft c user_id org_id identity (if b then later else db) left)
                (sym retried) (attempt-IsLeft c user_id org_id later left identity e (ground arith))
        ]
      ]
    ]
