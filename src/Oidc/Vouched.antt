-- ===== src/Oidc/Vouched.antt =====
-- `verify_id_token` and `GoogleOidcProvider.fetch_identity` of app/services/oidc.py: the token, the key
-- and the claims behind an identity.
use third_party_vendor_risk.Base.{
  [], find_first_sound, str_eq_iff, ◌≡◌, refl, sym, ◌∙◌, ap, subst, String, true, false, not, ◌||◌,
  Option, none, some, List, ◌==◌, string_eq, nat_eq, any, is_some, arith, inl, inr, Bool-cases,
  Option-cases,
}
use third_party_vendor_risk.Json.{Json, Fields, get, as_text}
use third_party_vendor_risk.Accounts.Sso.{OidcIdentity}
use third_party_vendor_risk.Oidc.{
  TextOps, Checked, passed, Checked-cases, equals_text, is_party, same_secret, verify_id_token,
  identity_from_claims, ◌>>=◌,
}
use third_party_vendor_risk.Oidc.Google.{
  Web, Config, Cache, TokenResponse, issuers, is_outdated, named_key, index, exchange_request,
  id_token_of, metadata, load_keys, get_json, find_key, keys_by_id, signing_key, identify,
  fetch_identity,
}
use third_party_vendor_risk.Oidc.Kept.{IsRead, KeysRead, fetch_identity-IsRead, found-KeysRead}

-- The checks of a token that passed.
pub record Verified (t : TextOps) (decode : (key audience : String) → Json → Option Fields)
    (id_token : Json) (key : String) (issuers : List String) (audience nonce : String)
    (claims : Fields) : Type 0 where
  pub decoded : decode key audience id_token ≡ some claims
  pub issued : any (equals_text (get "iss" claims)) issuers ≡ true
  pub party : is_party (get "azp" claims) audience ≡ true
  pub bound : same_secret t (get "nonce" claims) nonce ≡ true

pub verify_id_token-Verified :
    (t : TextOps) (decode : (key audience : String) → Json → Option Fields) (id_token : Json)
    (key : String) (issuers : List String) (audience nonce : String) (claims : Fields)
    → verify_id_token t decode id_token key issuers audience nonce ≡ passed claims
    → Verified t decode id_token key issuers audience nonce claims
unfolding verify_id_token
verify_id_token-Verified t decode id_token key issuers audience nonce claims e =
    elim (Option-cases (decode key audience id_token)) [
      | inl bad ↦ absurd (ground arith)
      | inr (found, decoded) ↦ elim (Bool-cases (any (equals_text (get "iss" found)) issuers)) [
        | inr foreign ↦ absurd (ground arith)
        | inl issued ↦ elim (Bool-cases (is_party (get "azp" found) audience)) [
          | inr other ↦ absurd (ground arith)
          | inl party ↦ elim (Bool-cases (same_secret t (get "nonce" found) nonce)) [
            | inr replayed ↦ absurd (ground arith)
            | inl bound ↦
                let row : verify_id_token t decode id_token key issuers audience nonce
                    ≡ passed found =
                  rw (verify_id_token, decoded, issued, party, bound) refl in
                let claimed : found ≡ claims = ground arith in
                subst (Verified t decode id_token key issuers audience nonce) claimed
                  (record { decoded = decoded; issued = issued; party = party; bound = bound })
          ]
        ]
      ]
    ]

module _ (t : TextOps) (w : Web) (g : Config) where
  load_keys-fresh :
      (c : Cache) (u : Unit {0})
      → (load_keys t w g c).0 ≡ passed u
      → is_outdated (load_keys t w g c).1.keys_at (load_keys t w g c).1.now ≡ false
  unfolding load_keys get_json
  load_keys-fresh c u e = elim (Checked-cases ((metadata t w g c).0 >>= index "jwks_uri")) [
    | inr (inl (why, failed)) ↦ absurd (ground arith)
    | inr (inr failed) ↦ absurd (ground arith)
    | inl (uri, found) ↦ elim (Checked-cases (get_json t w g uri (metadata t w g c).1).0) [
      | inr (inl (why, failed)) ↦ absurd (ground arith)
      | inr (inr failed) ↦ absurd (ground arith)
      | inl (body, got) ↦ elim (Option-cases (w.key_set body)) [
        | inl bad ↦ absurd (ground arith)
        | inr (keys, read) ↦
            let later = (get_json t w g uri (metadata t w g c).1).1 in
            let row : load_keys t w g c
                ≡ (passed tt, record later { keys = keys_by_id keys []; keys_at = later.now }) =
              rw (load_keys, found, got, read) refl in
            subst (λ (r : Checked (Unit {0}) × Cache). is_outdated r.1.keys_at r.1.now ≡ false)
              (sym row) (ground arith)
      ]
    ]
  ]

  -- A key that is used is the one of the token's key id, among keys that are an hour old at most.
  pub record Keyed (id_token : Json) (key : String) (after : Cache) : Type 0 where
    pub head : Fields
    pub kid : String
    pub headed : w.header id_token ≡ some head
    pub named : as_text (get "kid" head) ≡ some kid
    pub entry : named_key kid after.keys ≡ some (kid, key)
    pub fresh : is_outdated after.keys_at after.now ≡ false

  find_key-entry :
      (kid key : String) (c : Cache)
      → find_key t w g kid c ≡ passed key
      → named_key kid c.keys ≡ some (kid, key)
  find_key-entry kid key c e = elim (Option-cases (named_key kid c.keys)) [
    | inl missing ↦ absurd (ground arith)
    | inr ((k, value), found) ↦
        let hit = find_first_sound (λ (k : String × String). k.0 == kid) c.keys (k, value) found in
        let same_kid : k ≡ kid = (str_eq_iff k kid).0 hit in
        let same_key : value ≡ key = ground arith in
        found ∙ ap (λ i. some (i, value)) same_kid ∙ ap (λ v. some (kid, v)) same_key
  ]

  found-Keyed :
      (id_token : Json) (key : String) (head : Fields) (kid : String) (u after : Cache)
      → w.header id_token ≡ some head
      → as_text (get "kid" head) ≡ some kid
      → is_outdated u.keys_at u.now ≡ false
      → ◌≡◌ {A = Checked String × Cache} (find_key t w g kid u, u) (passed key, after)
      → Keyed id_token key after
  found-Keyed id_token key head kid u after headed named fresh found =
      let same_cache : u ≡ after = ap (λ r. r.1) found in
      subst (Keyed id_token key) same_cache (record {
        head = head;
        kid = kid;
        headed = headed;
        named = named;
        entry = find_key-entry kid key u (ap (λ r. r.0) found);
        fresh = fresh;
      })

  signing_key-Keyed :
      (id_token : Json) (key : String) (c after : Cache)
      → signing_key t w g id_token c ≡ (passed key, after)
      → Keyed id_token key after
  unfolding signing_key
  signing_key-Keyed id_token key c after e = elim (Option-cases (w.header id_token)) [
    | inl malformed ↦ absurd (ground arith)
    | inr (head, headed) ↦ elim (Option-cases (as_text (get "kid" head))) [
      | inl missing ↦ absurd (ground arith)
      | inr (kid, named) ↦
          elim (Bool-cases (is_outdated c.keys_at c.now || not (is_some (named_key kid c.keys)))) [
            | inr known ↦
                let row : signing_key t w g id_token c ≡ (find_key t w g kid c, c) =
                  rw (signing_key, headed, named, known) refl in
                found-Keyed id_token key head kid c after headed named (ground arith) (sym row ∙ e)
            | inl old ↦ elim (Checked-cases (load_keys t w g c).0) [
              | inr (inl (why, failed)) ↦ absurd (ground arith)
              | inr (inr failed) ↦ absurd (ground arith)
              | inl (u, loaded) ↦
                  let reloaded = (load_keys t w g c).1 in
                  let row : signing_key t w g id_token c ≡ (find_key t w g kid reloaded, reloaded) =
                    rw (signing_key, headed, named, old, loaded) refl in
                  found-Keyed id_token key head kid reloaded after headed named
                    (load_keys-fresh c u loaded) (sym row ∙ e)
            ]
          ]
    ]
  ]

  -- What stands behind an identity: an answer of the token endpoint with a token whose claims have
  -- been checked, under a key of the provider's.
  pub record Vouched (answer : Option TokenResponse) (nonce : String) (identity : OidcIdentity)
      (after : Cache) : Type 0 where
    pub resp : TokenResponse
    pub answered : answer ≡ some resp
    pub accepted : (resp.status_code == 200) ≡ true
    pub id_token : Json
    pub key : String
    pub claims : Fields
    pub carried : id_token_of resp.json ≡ passed id_token
    pub keyed_by : Keyed id_token key after
    pub verified : Verified t (w.decode after.now) id_token key issuers g.client_id nonce claims
    pub identified : identity_from_claims t "google" claims ≡ passed identity

  identify-Vouched :
      (nonce : String) (resp : Option TokenResponse) (c after : Cache) (identity : OidcIdentity)
      → identify t w g nonce resp c ≡ (passed identity, after)
      → Vouched resp nonce identity after
  unfolding identify
  identify-Vouched nonce none c after identity e = absurd (ground arith)
  identify-Vouched nonce (some resp) c after identity e =
      elim (Bool-cases (resp.status_code == 200)) [
        | inr refused ↦ absurd (ground arith)
        | inl answered ↦ elim (Checked-cases (id_token_of resp.json)) [
          | inr (inl (why, failed)) ↦ absurd (ground arith)
          | inr (inr failed) ↦ absurd (ground arith)
          | inl (id_token, found) ↦ elim (Checked-cases (signing_key t w g id_token c).0) [
            | inr (inl (why, failed)) ↦ absurd (ground arith)
            | inr (inr failed) ↦ absurd (ground arith)
            | inl (key, keyed_by) ↦
                let later = (signing_key t w g id_token c).1 in
                let decode = w.decode later.now in
                elim (Checked-cases
                  (verify_id_token t decode id_token key issuers g.client_id nonce)) [
                    | inr (inl (why, failed)) ↦ absurd (ground arith)
                    | inr (inr failed) ↦ absurd (ground arith)
                    | inl (claims, checked) ↦
                        let row : identify t w g nonce (some resp) c
                            ≡ (identity_from_claims t "google" claims, later) =
                          rw (identify, answered, found, keyed_by, checked) refl in
                        let both = sym row ∙ e in
                        subst (Vouched (some resp) nonce identity) (ap (λ r. r.1) both) (record {
                          resp = resp;
                          answered = refl;
                          accepted = answered;
                          carried = found;
                          id_token = id_token;
                          key = key;
                          claims = claims;
                          keyed_by = signing_key-Keyed id_token key c later (cc);
                          verified =
                              verify_id_token-Verified t decode id_token key issuers g.client_id
                                nonce claims checked;
                          identified = ap (λ r. r.0) both;
                        })
                  ]
          ]
        ]
      ]

  -- The exchange behind an identity.
  fetch_identity-exchanged :
      (code code_verifier redirect_uri nonce : String) (c after : Cache) (identity : OidcIdentity)
      → fetch_identity t w g code code_verifier redirect_uri nonce c ≡ (passed identity, after)
      → (endpoint : Json) × ((metadata t w g c).0 >>= index "token_endpoint" ≡ passed endpoint)
        × Vouched
            (w.http_post
              (metadata t w g c).1.now
              endpoint
              (exchange_request g code code_verifier redirect_uri)).0
            nonce
            identity
            after
  unfolding fetch_identity
  fetch_identity-exchanged code code_verifier redirect_uri nonce c after identity e =
      elim (Checked-cases ((metadata t w g c).0 >>= index "token_endpoint")) [
        | inr (inl (why, failed)) ↦ absurd (ground arith)
        | inr (inr failed) ↦ absurd (ground arith)
        | inl (endpoint, found) ↦
            let known = (metadata t w g c).1 in
            let answer =
              w.http_post known.now endpoint (exchange_request g code code_verifier redirect_uri) in
            let row : fetch_identity t w g code code_verifier redirect_uri nonce c
                ≡ identify t w g nonce answer.0 (record known { now = answer.1 }) =
              rw (fetch_identity, found) refl in
            (
              endpoint,
              found,
              identify-Vouched nonce answer.0 (record known { now = answer.1 }) after identity
                  (sym row ∙ e),
            )
      ]

  -- Google's provider returns an identity only where the token endpoint of its discovery document has
  -- accepted the code with its verifier and answered with an ID token: the token decodes for this client
  -- under the key that it names; its claims name Google as the issuer, no other party and the nonce that
  -- was asked for, and the identity is made of them. When the cache holds nothing but what was read, as
  -- an empty one does, the same is true of it afterwards, and that key is one of the key set which a
  -- request returned, at most an hour before, from the place that a discovery document named which a
  -- request had returned.
  pub fetch_identity-Vouched :
      (code code_verifier redirect_uri nonce : String) (c after : Cache) (identity : OidcIdentity)
      → IsRead w g c
      → fetch_identity t w g code code_verifier redirect_uri nonce c ≡ (passed identity, after)
      → (endpoint : Json) × ((metadata t w g c).0 >>= index "token_endpoint" ≡ passed endpoint)
        × Vouched
            (w.http_post
              (metadata t w g c).1.now
              endpoint
              (exchange_request g code code_verifier redirect_uri)).0
            nonce
            identity
            after
        × KeysRead w g after.keys after.keys_at
        × IsRead w g after
  fetch_identity-Vouched code code_verifier redirect_uri nonce c after identity read e =
      let (endpoint, found, v) =
        fetch_identity-exchanged code code_verifier redirect_uri nonce c after identity e in
      let kept =
        subst (λ (r : Checked OidcIdentity × Cache). IsRead w g r.1) e
          (fetch_identity-IsRead t w g code code_verifier redirect_uri nonce c read) in
      (
        endpoint,
        found,
        v,
        found-KeysRead w g after v.keyed_by.kid (v.keyed_by.kid, v.key) kept v.keyed_by.entry,
        kept,
      )
