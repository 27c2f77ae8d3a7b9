-- ===== src/Oidc/Dev.antt =====
-- `DevOidcProvider` of app/services/oidc.py: the codes that it issues and what it makes of them.
-- PyJWT and the hashes are parameters; the key pair is the texts of its two halves.
use Prim.Native.Char.{code}
use Prim.Native.String.{◌++◌}
use third_party_vendor_risk.Base.{
  ℕ, ◌+◌, String, Bool, true, ltb, ◌&&◌, ◌||◌, not, Option, none, some, List, [], ◌∷◌, ◌==◌, nat_eq,
  string_eq, if◌then◌else◌,
}
use third_party_vendor_risk.Json.{
  Json, null, bool, int, str, Fields, end, field, get, has_key, truthy, to_text, take_chars,
}
use third_party_vendor_risk.Accounts.Sso.{OidcIdentity}
use third_party_vendor_risk.Oidc.{
  TextOps, Checked, oidc_error, raised, ◌>>=◌, ◌>>◌, check, must, equals_text, same_secret,
  verify_id_token, identity_from_claims,
}

-- `verifier.encode("ascii")` in `pkce_challenge` succeeds.
unfoldable pub is_ascii : String → Bool
is_ascii String.[] = true
is_ascii (String.◌∷◌ c s) = let rest = is_ascii s in ltb (code c) 128 && rest

-- `sign` and `read` are `jwt.encode` and `jwt.decode` with the secret of the sessions, `mint` and
-- `decode` those of an ID token; a decoder takes the time. `challenge` is `pkce_challenge` of a text in ASCII, and
-- `sha256_hex` the digest of an address as text.
pub record Tokens : Type 0 where
  pub sign : Fields → String
  pub read : ℕ → String → Option Fields
  pub mint : Fields → (private_key : String) → Json
  pub decode : ℕ → (key audience : String) → Json → Option Fields
  pub challenge : String → String
  pub sha256_hex : String → String
  pub urlencode : List (String × String) → String

pub record DevProvider : Type 0 where
  pub issuer : String
  pub authorize_endpoint : String
  pub private_key : String
  pub public_key : String

abbrev pub dev_client_id : String
dev_client_id = "vendor-risk-dev"

-- `d[k] = v`
abbrev pub put : String → Json → Fields → Fields
put k v end = field k v end
put k v (field j u rest) = if j == k then field j v rest else field j u (put k v rest)

abbrev pub optional_text : Option String → Json
optional_text none = null
optional_text (some s) = str s

module _ (k : Tokens) where
  -- `create_token`; `none` is its ValueError.
  unfoldable pub create_token : (now : ℕ) → Fields → (ttl_seconds : ℕ) → Option String
  create_token now claims ttl_seconds =
      if equals_text (get "type" claims) "access" || equals_text (get "type" claims) "refresh"
      then none
      else some (k.sign (put "exp" (int (now + ttl_seconds)) (put "iat" (int now) claims)))

  -- The claims of a code.
  abbrev pub grant :
      (email : String) (name : Option String) (email_verified : Bool)
      (redirect_uri nonce code_challenge : String)
      → Fields
  grant email name email_verified redirect_uri nonce code_challenge =
      field "type" (str "dev_oidc_code") (
        field "email" (str email) (
          field "name" (optional_text name) (
            field "email_verified" (bool email_verified) (
              field "redirect_uri" (str redirect_uri)
                (field "nonce" (str nonce) (field "code_challenge" (str code_challenge) end))))))

  -- `issue_code`
  unfoldable pub issue_code :
      (now : ℕ) (email : String) (name : Option String) (email_verified : Bool)
      (redirect_uri nonce code_challenge : String)
      → Option String
  unfolding create_token
  issue_code now email name email_verified redirect_uri nonce code_challenge =
      create_token now (grant email name email_verified redirect_uri nonce code_challenge) 120

  -- `authorization_url`
  unfoldable pub authorization_url :
      DevProvider → (redirect_uri state nonce code_challenge : String) → String
  authorization_url d redirect_uri state nonce code_challenge =
      d.authorize_endpoint
      ++ ("?"
          ++ k.urlencode (
              ("client_id", dev_client_id)
              ∷ ("redirect_uri", redirect_uri)
              ∷ ("response_type", "code")
              ∷ ("scope", "openid email profile")
              ∷ ("state", state)
              ∷ ("nonce", nonce)
              ∷ ("code_challenge", code_challenge)
              ∷ ("code_challenge_method", "S256")
              ∷ []))

  module _ (t : TextOps) (d : DevProvider) where
    -- The claims of the ID token for a code.
    abbrev pub id_claims : (now : ℕ) (email : String) → Fields → Fields
    id_claims now email g = field "iss" (str d.issuer) (
        field "aud" (str dev_client_id) (
          field "sub" (str ("dev-" ++ take_chars 24 (k.sha256_hex email))) (
            field "email" (str email) (
              field "email_verified" (bool (truthy (get "email_verified" g))) (
                field "name" (get "name" g) (
                  field "nonce" (get "nonce" g)
                    (field "iat" (int now) (field "exp" (int (now + 300)) end))))))))

    -- The end of `fetch_identity`, from the claims of the code.
    unfoldable pub mint_identity : (now : ℕ) (nonce : String) → Fields → Checked OidcIdentity
    unfolding verify_id_token identity_from_claims
    mint_identity now nonce g = if not (has_key "email" g) then raised else do
      let email = t.lower (t.strip (to_text t.show (get "email" g)))
      let id_token = k.mint (id_claims now email g) d.private_key
      claims ←
          verify_id_token t (k.decode now) id_token d.public_key (d.issuer ∷ []) dev_client_id nonce
      identity_from_claims t "google" claims

    -- `fetch_identity`
    unfoldable pub fetch_identity :
        (now : ℕ) (code code_verifier redirect_uri nonce : String) → Checked OidcIdentity
    unfolding mint_identity is_ascii
    fetch_identity now code code_verifier redirect_uri nonce = elim (k.read now code) [
      | none ↦ oidc_error "exchange_failed"
      | some g ↦ do
        check (equals_text (get "type" g) "dev_oidc_code") "exchange_failed"
        check (equals_text (get "redirect_uri" g) redirect_uri) "exchange_failed"
        must (is_ascii code_verifier)
        check (same_secret t (get "code_challenge" g) (k.challenge code_verifier)) "exchange_failed"
        mint_identity now nonce g
    ]
