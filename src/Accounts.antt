-- ===== src/Accounts.antt =====
-- Accounts and sign-in: app/services/auth_service.py and app/services/account_service.py over the
-- tables of users and linked identities. Times of the last sign-in are left out. Each call runs
-- alone, so what the code does where two first sign-ins race at the commit is not represented; its
-- second try is.
pub mod Sso
pub mod Identities
pub mod Passwords
pub mod Links
pub mod Failures
mod Tests
use Prim.Native.Char.{Char, code}
use Prim.Native.String.{◌++◌}
use third_party_vendor_risk.Base.{
  ◌||◌, nat_beq, unavailable, ℕ, zero, suc, String, Bool, true, false, ◌&&◌, not, Option, none,
  some, List, [], ◌∷◌, ◌==◌, nat_eq, string_eq, is_some, any, find_first, update_if, remove_if,
  if◌then◌else◌, DomainError, Result, ok, err, ◌>>=◌, ◌>>◌, raise_if, or_raise, conflict, auth,
  not_found, validation,
}
use third_party_vendor_risk.Tenancy.{Organization, User, UserIdentity, Db, get_user}
use third_party_vendor_risk.Orgs.Create.{create_org}

abbrev pub is_at : Char → Bool
is_at c = nat_beq (code c) b'@'

-- `email.split("@")[0]`
unfoldable pub before_at : String → String
before_at String.[] = String.[]
before_at (String.◌∷◌ c s) =
    let rest = String.◌∷◌ c (before_at s) in if is_at c then String.[] else rest

-- What the services take from libraries: `str.lower`, `email.strip().lower()`, the text of a
-- number, and the Argon2 hash with its check; and whether the database takes a name of an
-- organization, which PostgreSQL does up to 200 characters, and a new link to a provider's subject, up
-- to 255.
pub record Crypto : Type 0 where
  pub lower : String → String
  pub normalize : String → String
  pub show : ℕ → String
  pub takes_name : String → Bool
  pub takes_subject : String → Bool
  pub hash : String → String
  pub verify : (password hash : String) → Bool

abbrev pub has_text : Option String → Bool
has_text none = false
has_text (some s) = not (s == "")

abbrev pub find_email : String → Db → Option User
find_email email db = find_first (λ u. u.email == email) db.users

-- `f"{name or email.split('@')[0]}'s Organization"`
abbrev pub own_name : String → Option String → String
own_name email name =
    (elim name [ some n ↦ if n == "" then before_at email else n | none ↦ before_at email ])
    ++ "'s Organization"

-- The name of the personal organization of a new account.
unfoldable pub default_org_name : String → Option String → Option String → String
unfolding before_at
default_org_name email name org_name = elim org_name [
  | some o ↦ if o == "" then own_name email name else o
  | none ↦ own_name email name
]

abbrev pub change_user : ℕ → (User → User) → Db → Db
change_user user_id f db = record db { users = update_if (λ u. u.id == user_id) f db.users }

-- `UserIdentity.user_id == user.id, UserIdentity.provider == provider`
abbrev pub is_link_of : ℕ → String → UserIdentity → Bool
is_link_of user_id provider i = i.user_id == user_id && i.provider == provider

module _ (c : Crypto) where
  -- `verify_password(password, user.password_hash)`
  abbrev pub checks : Option String → String → Bool
  checks none password = false
  checks (some h) password = c.verify password h

  -- `current_password` is given and right.
  abbrev pub proves : Option String → Option String → Bool
  proves password_hash none = false
  proves password_hash (some p) = not (p == "") && checks password_hash p

  -- The first transaction of `create_account`, which commits the user.
  unfoldable pub create_user :
      (user_id : ℕ)
      → Db
      → (email : String) (password_hash name : Option String) → Result (User × Db)
  create_user user_id db email password_hash name = do
    raise_if (is_some (find_email (c.normalize email) db)) conflict
    let user : User = record {
      id = user_id;
      email = c.normalize email;
      password_hash = password_hash;
      name = name;
      is_active = true;
    }
    ok (user, record db { users = user ∷ db.users })

  -- `create_account`; the keys are those of the two new rows. `unavailable` stands for the database's
  -- error at a name that does not fit its column; a slug that is never found would be a loop that
  -- does not end. The user is committed before the organization: see `account_left`.
  unfoldable pub create_account :
      (user_id org_id : ℕ)
      → Db
      → (email : String) (password_hash name org_name : Option String)
      → Result (User × Organization × Db)
  unfolding create_user
  create_account user_id org_id db email password_hash name org_name = do
    (user, stored) ← create_user user_id db email password_hash name
    raise_if (not (c.takes_name (default_org_name (c.normalize email) name org_name))) unavailable
    (org, after) ←
        or_raise
          (create_org c.show c.lower org_id stored
            (default_org_name (c.normalize email) name org_name) user_id none)
          unavailable
    ok (user, org, after)

  -- The tables after a `create_account` that raised.
  unfoldable pub account_left :
      (user_id : ℕ) → Db → (email : String) (password_hash name : Option String) → Db
  unfolding create_user
  account_left user_id db email password_hash name =
      elim (create_user user_id db email password_hash name) [
        | err e ↦ db
        | ok (user, stored) ↦ stored
      ]

  -- `register`
  unfoldable pub register :
      (user_id org_id : ℕ)
      → Db
      → (email password : String) (name org_name : Option String)
      → Result (User × Organization × Db)
  register user_id org_id db email password name org_name =
      create_account user_id org_id db email (some (c.hash password)) name org_name

  -- `authenticate`
  unfoldable pub authenticate : Db → (email password : String) → Result User
  authenticate db email password = do
    user ← or_raise (find_email (c.normalize email) db) auth
    raise_if (not (has_text user.password_hash) || not user.is_active) auth
    raise_if (not (checks user.password_hash password)) auth
    ok user

  abbrev pub is_linked : (user_id : ℕ) → UserIdentity → Bool
  is_linked user_id i = i.user_id == user_id

  -- `set_password`: whether the password was created, and the tables after it.
  unfoldable pub set_password :
      Db → User → (current_password : Option String) (new_password : String) → Result (Bool × Db)
  set_password db user current_password new_password =
      let store = λ (created : Bool).
        (let r : Bool × Db = (
          created,
          change_user user.id (λ u. record u { password_hash = some (c.hash new_password) }) db,
        ) in
          r) in
      if has_text user.password_hash
      then (do
        raise_if (not (proves user.password_hash current_password)) validation
        raise_if (checks user.password_hash new_password) validation
        ok (store false))
      else (do raise_if (any (is_linked user.id) db.identities) conflict; ok (store true))

-- `unlink_identity`
unfoldable pub unlink_identity : Db → User → (provider : String) → Result Db
unlink_identity db user provider = do
  raise_if (not (any (is_link_of user.id provider) db.identities)) not_found
  ok (record db { identities = remove_if (is_link_of user.id provider) db.identities })
