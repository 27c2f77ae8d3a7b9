-- ===== src/Oidc/Codes.antt =====
-- `DevOidcProvider` of app/services/oidc.py: a code that was issued, when it is exchanged.
use third_party_vendor_risk.Base.{
  ℕ, ◌+◌, ◌≡◌, refl, ◌∙◌, ap, String, Bool, true, false, Option, some, ◌==◌, nat_eq, string_eq,
  str_eq_iff, str_eq_refl, arith, if◌then◌else◌, inl, inr, Bool-cases,
}
use Prim.Native.String.{◌++◌}
use third_party_vendor_risk.Json.{int, str, Fields, get, has_key, take_chars}
use third_party_vendor_risk.Oidc.{
  TextOps, passed, oidc_error, raised, has_at, same_secret, claimed_name, verify_id_token,
  identity_from_claims,
}
use third_party_vendor_risk.Oidc.Dev.{
  Tokens, DevProvider, dev_client_id, put, optional_text, create_token, grant, issue_code, is_ascii,
  id_claims, mint_identity, fetch_identity,
}

same_text : (t : TextOps) (s other : String) → same_secret t (str s) other ≡ (s == other)
same_text t s other = elim (Bool-cases (s == "")) [
  | inl blank ↦ ground (arith, str_eq_iff s "")
  | inr filled ↦ ground arith
]

module _ (k : Tokens) (t : TextOps) (d : DevProvider) (now later : ℕ) (email : String)
    (name : Option String) (email_verified : Bool) (redirect_uri nonce verifier : String) where
  -- The claims of the code, and of the ID token for it.
  abbrev pub code_claims : Fields
  code_claims = put "exp" (int (now + 120)) (
      put "iat" (int now)
        (grant k email name email_verified redirect_uri nonce (k.challenge verifier)))

  abbrev pub address : String
  address = t.lower (t.strip email)

  abbrev pub token_claims : Fields
  token_claims = id_claims k t d later address code_claims

  signed_code :
      (code : String)
      → issue_code k now email name email_verified redirect_uri nonce (k.challenge verifier)
        ≡ some code
      → k.read later code ≡ k.read later (k.sign code_claims)
  unfolding issue_code create_token
  signed_code code issued = ap (k.read later) (ground arith)

  mint_identity-claims :
      k.decode later d.public_key dev_client_id (k.mint token_claims d.private_key)
        ≡ some token_claims
      → has_at address ≡ true
      → t.lower (t.strip address) ≡ address
      → mint_identity k t d later nonce code_claims
        ≡ passed (record {
          provider = "google";
          subject = "dev-" ++ take_chars 24 (k.sha256_hex address);
          email = address;
          email_verified = email_verified;
          name = claimed_name t (optional_text name);
        })
  unfolding mint_identity verify_id_token identity_from_claims get has_key
  mint_identity-claims minted has_at_sign normal =
      let issued = str_eq_refl d.issuer in
      let bound = same_text t nonce nonce ∙ str_eq_refl nonce in
      rw
        (
          mint_identity, verify_id_token, minted, issued, bound, identity_from_claims, has_at_sign,
          normal,
        )
        refl

  mint_identity-replayed :
      (other : String)
      → k.decode later d.public_key dev_client_id (k.mint token_claims d.private_key)
        ≡ some token_claims
      → (nonce == other) ≡ false
      → mint_identity k t d later other code_claims ≡ oidc_error "invalid_token"
  unfolding mint_identity verify_id_token get has_key
  mint_identity-replayed other minted differs =
      let issued = str_eq_refl d.issuer in
      let unbound = same_text t nonce other ∙ differs in
      rw (mint_identity, verify_id_token, minted, issued, unbound) refl

  -- A code for an address is exchanged for an identity with that address, normalized, and with what
  -- was said of it and no more. It is refused with another redirect URI, with a verifier of another
  -- challenge, for one that is not in ASCII by an exception, and when another nonce is asked for;
  -- provided that PyJWT reads what it has signed, that the address has an @, that to normalize it
  -- again changes nothing, and that its own verifier is in ASCII, as a new one is.
  pub fetch_identity-issue_code :
      (code : String)
      → issue_code k now email name email_verified redirect_uri nonce (k.challenge verifier)
        ≡ some code
      → k.read later (k.sign code_claims) ≡ some code_claims
      → k.decode later d.public_key dev_client_id (k.mint token_claims d.private_key)
        ≡ some token_claims
      → has_at address ≡ true
      → t.lower (t.strip address) ≡ address
      → is_ascii verifier ≡ true
      → (fetch_identity k t d later code verifier redirect_uri nonce
          ≡ passed (record {
            provider = "google";
            subject = "dev-" ++ take_chars 24 (k.sha256_hex address);
            email = address;
            email_verified = email_verified;
            name = claimed_name t (optional_text name);
          }))
        × ((other : String)
            → (redirect_uri == other) ≡ false
            → fetch_identity k t d later code verifier other nonce ≡ oidc_error "exchange_failed")
        × ((other : String)
            → (k.challenge verifier == k.challenge other) ≡ false
            → fetch_identity k t d later code other redirect_uri nonce
              ≡ (if is_ascii other then oidc_error "exchange_failed" else raised))
        × ((other : String)
            → (nonce == other) ≡ false
            → fetch_identity k t d later code verifier redirect_uri other
              ≡ oidc_error "invalid_token")
  unfolding fetch_identity get
  fetch_identity-issue_code code issued signed minted has_at_sign normal ascii =
      let read = signed_code code issued ∙ signed in
      let here = str_eq_refl redirect_uri in
      let challenged =
        same_text t (k.challenge verifier) (k.challenge verifier)
        ∙ str_eq_refl (k.challenge verifier) in
      (
        rw (fetch_identity, read, here, ascii, challenged)
            (mint_identity-claims minted has_at_sign normal),
        λ other differs. rw (fetch_identity, read, differs) refl,
        λ other differs.
            let unproved = same_text t (k.challenge verifier) (k.challenge other) ∙ differs in
            elim (Bool-cases (is_ascii other)) [
              | inl plain ↦ rw (fetch_identity, read, here, plain, unproved) refl
              | inr foreign ↦ rw (fetch_identity, read, here, foreign) refl
            ],
        λ other differs.
            rw (fetch_identity, read, here, ascii, challenged)
              (mint_identity-replayed other minted differs),
      )
