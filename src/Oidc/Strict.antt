-- ===== src/Oidc/Strict.antt =====
-- What the sign-in of app/api/sso.py needs of a provider, as a law of the interface `OidcProvider` of
-- app/services/oidc.py, and the two providers.
use third_party_vendor_risk.Base.{
  ℕ, ◌≡◌, inl, inr, refl, sym, ◌∙◌, ap, String, true, false, Option, some, List, [], ◌∷◌, string_eq,
  arith, Bool-cases, Option-cases,
}
use third_party_vendor_risk.Json.{Json, Fields, get, has_key, to_text}
use third_party_vendor_risk.Accounts.{Crypto}
use third_party_vendor_risk.Accounts.Sso.{OidcIdentity}
use third_party_vendor_risk.Oidc.{
  TextOps, passed, Checked-cases, equals_text, same_secret, verify_id_token, identity_from_claims,
}
use third_party_vendor_risk.Oidc.Google.{Web, Config, issuers, named_key, is_outdated}
use third_party_vendor_risk.Oidc.Kept.{
  KeysRead, IsRead, fetch_identity-IsRead, authorization_url-IsRead,
}
use third_party_vendor_risk.Oidc.Google
use third_party_vendor_risk.Oidc.Dev.{
  Tokens, DevProvider, dev_client_id, is_ascii, id_claims, mint_identity,
}
use third_party_vendor_risk.Oidc.Dev
use third_party_vendor_risk.Oidc.Vouched.{
  Verified, verify_id_token-Verified, fetch_identity-Vouched,
}
use third_party_vendor_risk.Oidc.Flow.{
  Provider, google_provider, dev_provider, SignInTables, Client, Fresh, Flow, google_callback,
  read_flow, given, into_app,
}
use third_party_vendor_risk.Tenancy.{User}
use mathlib.Core.Option.{some-injective}
use third_party_vendor_risk.Oidc.Callback.{opens_session, google_callback-Admitted}

-- What a provider checks tokens by: its decoder, at a time, the keys that it takes, the issuers that
-- it trusts, and the client that it is.
pub record Checks : Type 1 where
  pub decode : (at : ℕ) (key audience : String) → Json → Option Fields
  pub IsKey : (at : ℕ) (key : String) → Type 0
  pub trusted : List String
  pub audience : String

-- Google's keys are those of a key set that was read at most an hour before.
abbrev pub google_checks : Web → Config → Checks
google_checks w g = record {
  decode = w.decode;
  IsKey = λ at key.
      (kid : String) × (keys : List (String × String)) × (read_at : ℕ) × KeysRead w g keys read_at
      × (named_key kid keys ≡ some (kid, key))
      × (is_outdated read_at at ≡ false);
  trusted = issuers;
  audience = g.client_id;
}

-- The key of the stand-in is its own.
abbrev pub dev_checks : Tokens → DevProvider → Checks
dev_checks k d = record {
  decode = k.decode;
  IsKey = λ at key. key ≡ d.public_key;
  trusted = d.issuer ∷ [];
  audience = dev_client_id;
}

-- An identity that is made of the claims of a token that passed these checks, with the nonce that was
-- asked for.
pub record CheckedIdentity (t : TextOps) (v : Checks) (nonce : String) (identity : OidcIdentity)
    : Type 0 where
  pub at : ℕ
  pub id_token : Json
  pub key : String
  pub claims : Fields
  pub taken : v.IsKey at key
  pub verified : Verified t (v.decode at) id_token key v.trusted v.audience nonce claims
  pub identified : identity_from_claims t "google" claims ≡ passed identity

-- A provider returns such identities only, from any state that it may be in, and stays in these.
pub record IsStrict {S : Type 0} (t : TextOps) (v : Checks) (IsKept : S → Type 0) (p : Provider S)
    : Type 0 where
  pub strict :
      (code code_verifier redirect_uri nonce : String) (s : S) (identity : OidcIdentity)
      → IsKept s
      → (p.fetch_identity code code_verifier redirect_uri nonce s).0 ≡ passed identity
      → CheckedIdentity t v nonce identity
  pub fetch_keeps :
      (code code_verifier redirect_uri nonce : String) (s : S)
      → IsKept s
      → IsKept (p.fetch_identity code code_verifier redirect_uri nonce s).1
  pub start_keeps :
      (redirect_uri state nonce code_challenge : String) (s : S)
      → IsKept s
      → IsKept (p.authorization_url redirect_uri state nonce code_challenge s).1

module _ (t : TextOps) where
  pub google_provider-IsStrict :
      (w : Web) (g : Config) → IsStrict t (google_checks w g) (IsRead w g) (google_provider t w g)
  google_provider-IsStrict w g = record {
    strict = λ code code_verifier redirect_uri nonce s identity read e.
        let after = (Google.fetch_identity t w g code code_verifier redirect_uri nonce s).1 in
        let (endpoint, found, v, keys, kept) =
          fetch_identity-Vouched t w g code code_verifier redirect_uri nonce s after identity read
            (cc) in
        record {
          at = after.now;
          id_token = v.id_token;
          key = v.key;
          claims = v.claims;
          taken =
              (v.keyed_by.kid, after.keys, after.keys_at, keys, v.keyed_by.entry, v.keyed_by.fresh);
          verified = v.verified;
          identified = v.identified;
        };
    fetch_keeps = fetch_identity-IsRead t w g;
    start_keeps = authorization_url-IsRead t w g;
  }

  module _ (k : Tokens) (d : DevProvider) (now : ℕ) where
    mint_identity-checked :
        (nonce : String) (g : Fields) (identity : OidcIdentity)
        → mint_identity k t d now nonce g ≡ passed identity
        → CheckedIdentity t (dev_checks k d) nonce identity
    unfolding mint_identity
    mint_identity-checked nonce g identity e = elim (Bool-cases (has_key "email" g)) [
      | inr nameless ↦ absurd (ground arith)
      | inl addressed ↦
          let email = t.lower (t.strip (to_text t.show (get "email" g))) in
          let id_token = k.mint (id_claims k t d now email g) d.private_key in
          elim (Checked-cases (
            verify_id_token t (k.decode now) id_token d.public_key (d.issuer ∷ []) dev_client_id
              nonce)) [
                | inr (inl (why, failed)) ↦ absurd (ground arith)
                | inr (inr failed) ↦ absurd (ground arith)
                | inl (claims, checked) ↦
                    let row : mint_identity k t d now nonce g
                        ≡ identity_from_claims t "google" claims =
                      rw (mint_identity, addressed, checked) refl in
                    record {
                      at = now;
                      id_token = id_token;
                      key = d.public_key;
                      taken = refl;
                      claims = claims;
                      verified =
                          verify_id_token-Verified t (k.decode now) id_token d.public_key
                            (d.issuer ∷ []) dev_client_id nonce claims checked;
                      identified = sym row ∙ e;
                    }
              ]
    ]

    fetch_identity-checked :
        (code code_verifier redirect_uri nonce : String) (identity : OidcIdentity)
        → Dev.fetch_identity k t d now code code_verifier redirect_uri nonce ≡ passed identity
        → CheckedIdentity t (dev_checks k d) nonce identity
    unfolding Dev.fetch_identity
    fetch_identity-checked code code_verifier redirect_uri nonce identity e =
        elim (Option-cases (k.read now code)) [
          | inl unread ↦ absurd (ground arith)
          | inr (g, read) ↦ elim (Bool-cases (equals_text (get "type" g) "dev_oidc_code")) [
            | inr foreign ↦ absurd (ground arith)
            | inl typed ↦ elim (Bool-cases (equals_text (get "redirect_uri" g) redirect_uri)) [
              | inr elsewhere ↦ absurd (ground arith)
              | inl back ↦ elim (Bool-cases (is_ascii code_verifier)) [
                | inr foreign ↦ absurd (ground arith)
                | inl plain ↦
                    elim (Bool-cases
                      (same_secret t (get "code_challenge" g) (k.challenge code_verifier))) [
                        | inr unproved ↦ absurd (ground arith)
                        | inl proved ↦
                            let row : Dev.fetch_identity k t d now code code_verifier redirect_uri
                                  nonce
                                ≡ mint_identity k t d now nonce g =
                              rw (Dev.fetch_identity, read, typed, back, plain, proved) refl in
                            mint_identity-checked nonce g identity (sym row ∙ e)
                      ]
              ]
            ]
          ]
        ]

    pub dev_provider-IsStrict : IsStrict t (dev_checks k d) (λ _. Unit {0}) (dev_provider now k t d)
    dev_provider-IsStrict = record {
      strict = λ code code_verifier redirect_uri nonce s identity kept e.
          fetch_identity-checked code code_verifier redirect_uri nonce identity e;
      fetch_keeps = λ code code_verifier redirect_uri nonce s kept. tt;
      start_keeps = λ redirect_uri state nonce code_challenge s kept. tt;
    }

-- A session stands on what a checked token says: with a provider that returns only identities from
-- tokens that passed its checks, as Google's and the stand-in do, and whose state is one that it keeps
-- to, a callback that opens a session has a signed flow cookie, whose state is that of the request, and
-- an identity whose address is verified, made of claims which the provider's decoder gave for its own
-- client and a key that it takes, and which name an issuer that it trusts, no other party and the nonce
-- of that cookie; the browser goes to the path in the cookie.
pub session-CheckedIdentity :
    {S : Type 0} (t : TextOps) (v : Checks) (IsKept : S → Type 0) (active : Provider S) (k : Tokens)
    (redirect_uri : String) (c : Crypto) (fresh : Fresh) (client : Client) (now : ℕ)
    (error state code cookie : Option String) (tables later : SignInTables) (s : S)
    → IsStrict t v IsKept active
    → IsKept s
    → let r =
        google_callback k redirect_uri c fresh client now error state code cookie
          (some active)
          tables
          later
          s in
      opens_session r.0 ≡ true
      → (flow : Flow) × (identity : OidcIdentity) × (user : User) × (read_flow k redirect_uri now
            cookie
          ≡ some flow)
        × (given state ≡ some flow.state)
        × CheckedIdentity t v flow.nonce identity
        × (identity.email_verified ≡ true)
        × (r.0 ≡ into_app flow.next user)
session-CheckedIdentity t v IsKept active k redirect_uri c fresh client now error state code cookie
      tables later s law kept_to opened =
    elim (google_callback-Admitted c fresh client now k redirect_uri error state code cookie
      (some active) tables later s) [
        | inr shut ↦ let closed = shut.closed in absurd (cc)
        | inl a ↦
            let e = a.entered in
            let same : active ≡ a.active = some-injective active a.active a.enabled in
            let vouched =
              ap (λ p. (p.fetch_identity a.sent_code a.flow.verifier redirect_uri a.flow.nonce s).0)
                same
              ∙ e.vouched in
            (
              a.flow,
              e.identity,
              e.user,
              a.sealed,
              a.same_state,
              law.strict a.sent_code a.flow.verifier redirect_uri a.flow.nonce s e.identity kept_to
                  vouched,
              e.verified,
              e.answered,
            )
      ]
