-- ===== src/Accounts/Tests.antt =====
-- Concrete runs of registration and sign-in.
use third_party_vendor_risk.Base.{
  ◌≡◌, refl, String, true, none, some, [], ◌∷◌, ◌==◌, string_eq, str_eq_iff, arith, if◌then◌else◌,
  ok, err, conflict, auth,
}
use third_party_vendor_risk.Tenancy.{owner, Organization, User, Db}
use third_party_vendor_risk.Orgs.Create.{
  create_org, unique_slug, slugify, squeeze, strip_start, strip_end, slug_from,
}
use third_party_vendor_risk.Accounts.{
  Crypto, create_user, create_account, register, authenticate, default_org_name, before_at,
}
use third_party_vendor_risk.Accounts.Sso.{
  OidcIdentity, signed_in, linked, accepted, done, find_identity, touch, link_identity, attempt,
  resolve_user,
}
use third_party_vendor_risk.Accounts.Identities.{AreKeyed, resolve_user_stable}
use third_party_vendor_risk.Accounts.Passwords.{register-authenticate}
use third_party_vendor_risk.Accounts.Links.{
  IsConsistent, Reach, here, next, signs_in, registers, Reach-IsConsistent,
}

abbrev crypto : Crypto
crypto = record {
  lower = λ s. s;
  normalize = λ s. s;
  takes_name = λ s. true;
  takes_subject = λ s. true;
  show = λ n. "2";
  hash = λ p. String.◌∷◌ "#" p;
  verify = λ p h. String.◌∷◌ "#" p == h;
}

abbrev empty : Db
empty = record {
  organizations = [];
  users = [];
  identities = [];
  memberships = [];
  invitations = [];
  vendor_orgs = [];
}

abbrev ann : User
ann = record {
  id = 1;
  email = "ann@acme.test";
  password_hash = some "#secret";
  name = none;
  is_active = true;
}

abbrev anns : Organization
anns = record { id = 1; slug = "acme"; plan = "free" }

abbrev with_ann : Db
with_ann = record empty {
  organizations = anns ∷ [];
  users = ann ∷ [];
  memberships =
      record { org_id = 1; user_id = 1; role = owner; employee_id = none; team = none } ∷ [];
}

register_test :
    register crypto 1 1 empty "ann@acme.test" "secret" none (some "acme") ≡ ok (ann, anns, with_ann)
unfolding register create_account create_user create_org unique_slug slug_from slugify squeeze
    strip_start strip_end default_org_name before_at
register_test = refl

hash_right : crypto.verify "secret" (crypto.hash "secret") ≡ true
hash_right = refl

hash_stored : crypto.hash "secret" ≡ "" → ⊥
hash_stored h = absurd (ground (arith, str_eq_iff "#secret" ""))

register-authenticate_example :
    (authenticate crypto with_ann "ann@acme.test" "secret" ≡ ok ann)
    × (authenticate crypto with_ann "ann@acme.test" "guess"
        ≡ (if crypto.verify "guess" (crypto.hash "secret") then ok ann else err auth))
    × (register crypto 2 2 with_ann "ann@acme.test" "guess" none (some "acme") ≡ err conflict)
register-authenticate_example =
    register-authenticate crypto 1 1 empty with_ann "ann@acme.test" "secret" none (some "acme") ann
      anns "ann@acme.test" "guess" 2 2 hash_right hash_stored refl register_test

-- Ann's Google account, by the same address.
abbrev google : OidcIdentity
google = record {
  provider = "google";
  subject = "g-1";
  email = "ann@acme.test";
  email_verified = true;
  name = some "Ann";
}

abbrev named_ann : User
named_ann = record ann { name = some "Ann" }

abbrev linked_ann : Db
linked_ann = record with_ann {
  users = named_ann ∷ [];
  identities = record { user_id = 1; provider = "google"; subject = "g-1" } ∷ [];
}

resolve_user_test :
    resolve_user crypto 2 2 with_ann with_ann google ≡ accepted named_ann linked linked_ann
unfolding resolve_user attempt find_identity link_identity touch
resolve_user_test = refl

one_user : AreKeyed with_ann.users
one_user id = ground arith

resolve_user_stable_example :
    (last : Db) × (resolve_user crypto 3 3 linked_ann empty google
      ≡ accepted named_ann signed_in last)
    × (last.identities ≡ linked_ann.identities)
resolve_user_stable_example =
    resolve_user_stable crypto 2 2 3 3 with_ann with_ann linked_ann empty google named_ann linked
      one_user one_user resolve_user_test

attempt_test : attempt crypto 2 2 with_ann google ≡ done (accepted named_ann linked linked_ann)
unfolding attempt find_identity link_identity touch
attempt_test = refl

two_calls : Reach crypto empty linked_ann
two_calls =
    next
      (next here
        (registers 1 1 "ann@acme.test" "secret" none (some "acme") ann anns refl register_test))
      (signs_in 2 2 google named_ann linked refl attempt_test)

empty-IsConsistent : IsConsistent empty
empty-IsConsistent = record {
  keyed = λ id. omega arith;
  addresses = λ email. omega arith;
  subjects = λ p s. omega arith;
  links = λ u p. omega arith;
  known = λ u h. h;
}

Reach-IsConsistent_example : IsConsistent linked_ann
Reach-IsConsistent_example = Reach-IsConsistent crypto empty linked_ann two_calls empty-IsConsistent
