-- ===== src/Accounts/Sso.antt =====
-- app/services/sso_service.py: from an identity that a provider vouches for to a user's account.
use third_party_vendor_risk.Base.{
  ℕ, String, Bool, true, false, ◌&&◌, not, Option, none, some, ◌∷◌, ◌==◌, nat_eq, string_eq, any,
  find_first, if◌then◌else◌, DomainError, ok, err, conflict, unavailable,
}
use third_party_vendor_risk.Tenancy.{User, UserIdentity, Db, get_user}
use third_party_vendor_risk.Accounts.{
  Crypto, has_text, find_email, change_user, is_link_of, create_account, account_left,
}

-- `OidcIdentity` of app/services/oidc.py.
pub record OidcIdentity : Type 0 where
  pub provider : String
  pub subject : String
  pub email : String
  pub email_verified : Bool
  pub name : Option String

pub data Outcome : Type 0 where
  signed_in linked created : Outcome

-- The codes of `OidcError`, and an exception of the service layer. `dangling` would be an identity
-- of no user, which the foreign key rules out.
pub data SsoError : Type 0 where
  unverified disabled linked_elsewhere dangling : SsoError
  domain : DomainError → SsoError

-- `broken` is an exception of the database, with what was committed before it.
pub data SignedIn : Type 0 where
  accepted : User → Outcome → Db → SignedIn
  refused : SsoError → SignedIn
  broken : DomainError → Db → SignedIn

-- `UserIdentity.provider == identity.provider, UserIdentity.subject == identity.subject`
abbrev pub is_identity : OidcIdentity → UserIdentity → Bool
is_identity identity i = i.provider == identity.provider && i.subject == identity.subject

unfoldable pub find_identity : Db → OidcIdentity → Option UserIdentity
find_identity db identity = find_first (is_identity identity) db.identities

-- `_touch`: an account without a name takes the provider's.
unfoldable pub touch : OidcIdentity → User → User
touch identity user = if has_text user.name then user else elim identity.name [
  | none ↦ user
  | some n ↦ if n == "" then user else record user { name = some n }
]

-- The new link, and the user who signs in by it.
unfoldable pub link_identity : Db → OidcIdentity → User → Outcome → SignedIn
link_identity db identity user outcome =
    let link : UserIdentity = record {
      user_id = user.id;
      provider = identity.provider;
      subject = identity.subject;
    } in
    accepted (touch identity user) outcome
      (change_user user.id (touch identity) (record db { identities = link ∷ db.identities }))

-- What a try comes to: an answer, or a ConflictError, that the address is registered by now.
pub data Attempt : Type 0 where
  done : SignedIn → Attempt
  raced : Attempt

-- `except ConflictError`: the account exists by now.
abbrev pub after_failure : DomainError → Db → Attempt
after_failure conflict left = raced
after_failure e left = done (broken e left)

module _ (c : Crypto) where
  -- The commit of a new link, if its subject fits; what was committed before stays.
  unfoldable pub commit_link : Db → OidcIdentity → User → Outcome → SignedIn
  unfolding link_identity
  commit_link db identity user outcome =
      if c.takes_subject identity.subject
      then link_identity db identity user outcome
      else broken unavailable db

  -- One try of `resolve_user`, for a verified identity.
  unfoldable pub attempt : (user_id org_id : ℕ) → Db → OidcIdentity → Attempt
  unfolding commit_link
  attempt user_id org_id db identity = elim (find_identity db identity) [
    | some link ↦ done (elim (get_user db link.user_id) [
      | none ↦ refused dangling
      | some user ↦
          if user.is_active
          then accepted (touch identity user) signed_in (change_user user.id (touch identity) db)
          else refused disabled
    ])
    | none ↦ elim (find_email identity.email db) [
      | some user ↦ done (
          if user.is_active
          then if any (is_link_of user.id identity.provider) db.identities
            then refused linked_elsewhere
            else commit_link db identity user linked
          else refused disabled)
      | none ↦ elim (create_account c user_id org_id db identity.email none identity.name none) [
        | ok (user, org, after) ↦ done (commit_link after identity user created)
        | err e ↦ after_failure e (account_left c user_id db identity.email none identity.name)
      ]
    ]
  ]

  -- `resolve_user`: a try that was raced is made once more, on the tables as they are then.
  unfoldable pub resolve_user : (user_id org_id : ℕ) → (db later : Db) → OidcIdentity → SignedIn
  unfolding attempt
  resolve_user user_id org_id db later identity =
      if not identity.email_verified
      then refused unverified
      else elim (attempt user_id org_id db identity) [
        | done answer ↦ answer
        | raced ↦ elim (attempt user_id org_id later identity) [
          | done answer ↦ answer
          | raced ↦ refused (domain conflict)
        ]
      ]

  -- The first try was raced, so that the answer is that of the second.
  unfoldable pub is_retried : (user_id org_id : ℕ) → Db → OidcIdentity → Bool
  unfolding attempt
  is_retried user_id org_id db identity =
      identity.email_verified
      && elim (attempt user_id org_id db identity) [ done answer ↦ false | raced ↦ true ]
