-- ===== src/Access/Grants.antt =====
-- What a granted request has gone through in app/deps.py.
use third_party_vendor_risk.Base.{
  ℕ, ◌≤◌, ◌≡◌, refl, ◌↔◌, ◌⊎◌, inl, inr, String, true, false, Option, none, some, ◌==◌, string_eq,
  nat_eq, arith, Option-cases,
}
use third_party_vendor_risk.Json.{Fields, get, to_int}
use third_party_vendor_risk.Tenancy.{Role, User, Db, get_org, get_user, find_membership}
use third_party_vendor_risk.Access.{
  HttpError, Access, OrgContext, granted, denied, role_rank, is_access, get_current_user,
  get_org_context, require_role,
}

-- A grant: the token decodes to the claims of an access token for an active user, who is a member
-- of the organization with the role or a higher one.
pub record Granted (decode : String → Option Fields) (int_of : String → Option ℕ) (minimum : Role)
    (token : Option String) (db : Db) (org_id : ℕ) (ctx : OrgContext) : Type 0 where
  pub cookie : String
  pub claims : Fields
  pub user : User
  pub id : ℕ
  pub sent : token ≡ some cookie
  pub not_blank : (cookie == "") ≡ false
  pub decoded : decode cookie ≡ some claims
  pub access : is_access (get "type" claims) ≡ true
  pub subject : to_int int_of (get "sub" claims) ≡ some id
  pub exists : get_user db id ≡ some user
  pub active : user.is_active ≡ true
  pub organization : get_org db org_id ≡ some ctx.organization
  pub membership : find_membership org_id user.id db.memberships ≡ some ctx.membership
  pub role : ctx.role ≡ ctx.membership.role
  pub rank : role_rank minimum ≤ role_rank ctx.role

get_current_user-cases :
    (decode : String → Option Fields) (int_of : String → Option ℕ) (token : Option String) (db : Db)
    (user : User)
    → get_current_user decode int_of token db ≡ granted user
    → (cookie : String) × (claims : Fields) × (id : ℕ) × (token ≡ some cookie)
      × ((cookie == "") ≡ false)
      × (decode cookie ≡ some claims)
      × (is_access (get "type" claims) ≡ true)
      × (to_int int_of (get "sub" claims) ≡ some id)
      × (get_user db id ≡ some user)
      × (user.is_active ≡ true)
unfolding get_current_user
get_current_user-cases decode int_of none db user h = absurd (ground arith)
get_current_user-cases decode int_of (some cookie) db user h = elim (Option-cases (decode cookie)) [
  | inl bad ↦ absurd (ground arith)
  | inr (claims, decoded) ↦ elim (Option-cases (to_int int_of (get "sub" claims))) [
    | inl bad ↦ absurd (ground arith)
    | inr (id, subject) ↦ (
      cookie,
      claims,
      id,
      refl,
      ground arith,
      decoded,
      ground arith,
      subject,
      ground arith,
      ground arith,
    )
  ]
]

Access-cases {ℓ} :
    {A : Type ℓ} (a : Access A) → ((e : HttpError) × (a ≡ denied e)) ⊎ ((x : A) × (a ≡ granted x))
Access-cases (granted x) = inr (x, refl)
Access-cases (denied e) = inl (e, refl)

require_role-Granted :
    (decode : String → Option Fields) (int_of : String → Option ℕ) (minimum : Role)
    (token : Option String) (db : Db) (org_id : ℕ) (ctx : OrgContext)
    → require_role decode int_of minimum token db org_id ≡ granted ctx
    → Granted decode int_of minimum token db org_id ctx
unfolding require_role get_org_context
require_role-Granted decode int_of minimum token db org_id ctx h =
    elim (Access-cases (get_current_user decode int_of token db)) [
      | inl (e, bad) ↦ absurd (ground arith)
      | inr (user, signed) ↦ elim (Option-cases (get_org db org_id)) [
        | inl bad ↦ absurd (ground arith)
        | inr (org, found) ↦ elim (Option-cases (find_membership org_id user.id db.memberships)) [
          | inl bad ↦ absurd (ground arith)
          | inr (m, belongs) ↦
              let (cookie, claims, id, sent, not_blank, decoded, access, subject, exists, active) =
                get_current_user-cases decode int_of token db user signed in
              record {
                cookie = cookie;
                claims = claims;
                user = user;
                id = id;
                sent = sent;
                not_blank = not_blank;
                decoded = decoded;
                access = access;
                subject = subject;
                exists = exists;
                active = active;
                organization = ground arith;
                membership = ground arith;
                role = ground arith;
                rank = ground arith;
              }
        ]
      ]
    ]

Granted-require_role :
    (decode : String → Option Fields) (int_of : String → Option ℕ) (minimum : Role)
    (token : Option String) (db : Db) (org_id : ℕ) (ctx : OrgContext)
    → Granted decode int_of minimum token db org_id ctx
    → require_role decode int_of minimum token db org_id ≡ granted ctx
unfolding require_role get_org_context get_current_user
Granted-require_role decode int_of minimum token db org_id ctx g =
    let signed : get_current_user decode int_of token db ≡ granted g.user =
      ground (arith, g.sent, g.not_blank, g.decoded, g.access, g.subject, g.exists, g.active) in
    ground (arith, signed, g.organization, g.membership, g.role, g.rank)

-- A request is granted exactly to whom it should be: an active user, by an access token in the
-- cookie, who is a member of the organization, with the required role or a higher one.
pub require_role_iff :
    (decode : String → Option Fields) (int_of : String → Option ℕ) (minimum : Role)
    (token : Option String) (db : Db) (org_id : ℕ) (ctx : OrgContext)
    → (require_role decode int_of minimum token db org_id ≡ granted ctx)
      ↔ Granted decode int_of minimum token db org_id ctx
require_role_iff decode int_of minimum token db org_id ctx = (
  require_role-Granted decode int_of minimum token db org_id ctx,
  Granted-require_role decode int_of minimum token db org_id ctx,
)
