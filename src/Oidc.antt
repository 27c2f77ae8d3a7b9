-- ===== src/Oidc.antt =====
-- app/services/oidc.py: the checks of an ID token and the identity in its claims, which both providers
-- use. The providers are the children Google and Dev, and Flow is the sign-in of app/api/sso.py.
pub mod Google
pub mod Dev
pub mod Codes
pub mod Choice
pub mod Returns
pub mod Flow
pub mod Pages
pub mod Paths
pub mod Kept
pub mod Vouched
pub mod Strict
mod Tests
pub mod Callback
use Prim.Native.Char.{Char, code}
use third_party_vendor_risk.Base.{
  ℕ, String, Bool, true, false, ◌&&◌, ◌||◌, not, Option, none, some, List, [], ◌∷◌, ◌==◌, nat_eq,
  string_eq, any, if◌then◌else◌, ◌≡◌, refl, ◌⊎◌, inl, inr,
}
use third_party_vendor_risk.Json.{
  Json, null, bool, str, Fields, get, has_key, as_text, or_else, take_chars, to_text,
}
use third_party_vendor_risk.Accounts.{is_at}
use third_party_vendor_risk.Accounts.Sso.{OidcIdentity}

-- A value, an `OidcError` with its code, or another exception.
pub data Checked {ℓ} (A : Type ℓ) : Type ℓ where
  passed : A → Checked A
  oidc_error : String → Checked A
  raised : Checked A

infixl 5 ◌>>=◌
abbrev pub ◌>>=◌ {ℓ κ} : {A : Type ℓ} {B : Type κ} → Checked A → (A → Checked B) → Checked B
◌>>=◌ m k = elim m [ passed value ↦ k value | oidc_error code ↦ oidc_error code | raised ↦ raised ]

infixl 5 ◌>>◌
abbrev pub ◌>>◌ {ℓ} : {B : Type ℓ} → Checked (Unit {0}) → Checked B → Checked B
◌>>◌ m rest = m >>= λ _. rest

-- `if not c: raise OidcError(code)`
abbrev pub check : Bool → String → Checked (Unit {0})
check true code = passed tt
check false code = oidc_error code

-- What raises another exception where it fails.
abbrev pub must : Bool → Checked (Unit {0})
must true = passed tt
must false = raised

-- To split on a call and keep the equation.
pub Checked-cases {ℓ} :
    {A : Type ℓ} (m : Checked A)
    → ((a : A) × (m ≡ passed a)) ⊎ (((code : String) × (m ≡ oidc_error code)) ⊎ (m ≡ raised))
Checked-cases (passed a) = inl (a, refl)
Checked-cases (oidc_error code) = inr (inl (code, refl))
Checked-cases raised = inr (inr refl)

-- `str.strip`, `str.lower`, and `str` of a value that is no text.
pub record TextOps : Type 0 where
  pub strip : String → String
  pub lower : String → String
  pub show : Json → String

-- `"@" in email`
unfoldable pub has_at : String → Bool
has_at String.[] = false
has_at (String.◌∷◌ c s) = is_at c || has_at s

-- `v == s`, for a value of the claims.
abbrev pub equals_text : Json → String → Bool
equals_text (str v) s = v == s
equals_text _ s = false

-- The guard on `azp`.
abbrev pub is_party : Json → String → Bool
is_party null audience = true
is_party v audience = equals_text v audience

-- `email_verified`, where a text is read as "true" or not.
abbrev pub is_verified : TextOps → Json → Bool
is_verified t (bool b) = b
is_verified t (str s) = t.lower s == "true"
is_verified t _ = false

-- The name of a claim, trimmed and cut to the column; `none` where it is blank.
abbrev pub claimed_name : TextOps → Json → Option String
claimed_name t (str s) =
    let cut = take_chars 200 (t.strip s) in if cut == "" then none else some cut
claimed_name t _ = none

module _ (t : TextOps) where
  -- `_same`
  abbrev pub same_secret : Json → String → Bool
  same_secret v expected = to_text t.show (or_else v (str "")) == expected

  -- `verify_id_token`. `decode` is `jwt.decode`, which checks the signature, the audience, the times and
  -- that the required claims are there.
  unfoldable pub verify_id_token :
      (decode : (key audience : String) → Json → Option Fields)
      → Json
      → (key : String) (issuers : List String) (audience nonce : String) → Checked Fields
  verify_id_token decode id_token key issuers audience nonce = elim (decode key audience id_token) [
    | none ↦ oidc_error "invalid_token"
    | some claims ↦ do
      check (any (equals_text (get "iss" claims)) issuers) "invalid_token"
      check (is_party (get "azp" claims) audience) "invalid_token"
      check (same_secret (get "nonce" claims) nonce) "invalid_token"
      passed claims
  ]

  -- `identity_from_claims`
  unfoldable pub identity_from_claims : (provider : String) → Fields → Checked OidcIdentity
  unfolding has_at
  identity_from_claims provider claims = elim (as_text (get "email" claims)) [
    | none ↦ oidc_error "no_email"
    | some email ↦
        if not (has_at email)
        then oidc_error "no_email"
        else if not (has_key "sub" claims)
        then raised
        else passed (record {
          provider = provider;
          subject = to_text t.show (get "sub" claims);
          email = t.lower (t.strip email);
          email_verified = is_verified t (get "email_verified" claims);
          name = claimed_name t (get "name" claims);
        })
  ]
