-- ===== src/Oidc/Google.antt =====
-- `GoogleOidcProvider` of app/services/oidc.py: the discovery document and the signing keys, which are
-- kept for an hour, and the exchange of a code. The HTTP session and PyJWT are parameters. A request
-- takes the time at which it starts and gives the time at which it ends; keys are their texts.
use Prim.Native.String.{◌++◌}
use third_party_vendor_risk.Base.{
  ℕ, ◌+◌, String, Bool, ◌||◌, not, Option, none, some, List, [], ◌∷◌, ◌==◌, nat_eq, string_eq, ltb,
  find_first, is_some, if◌then◌else◌,
}
use third_party_vendor_risk.Json.{Json, str, obj, Fields, get, has_key, as_text, to_text}
use third_party_vendor_risk.Accounts.Sso.{OidcIdentity}
use third_party_vendor_risk.Oidc.{
  TextOps, Checked, passed, oidc_error, raised, ◌>>=◌, verify_id_token, identity_from_claims,
}

-- The form that is posted to the token endpoint.
pub record TokenRequest : Type 0 where
  pub grant_type : String
  pub code : String
  pub redirect_uri : String
  pub client_id : String
  pub client_secret : String
  pub code_verifier : String

-- The answer of the token endpoint; a body that is no JSON is `none`.
pub record TokenResponse : Type 0 where
  pub status_code : ℕ
  pub json : Option Json

-- `get`: the body of a GET that succeeded. `key_set` is `PyJWKSet.from_dict`, the pairs of a key's id and the key.
-- `header` is `get_unverified_header`, and `decode` is `jwt.decode` at a time.
pub record Web : Type 0 where
  pub http_get : ℕ → Json → Option Json × ℕ
  pub http_post : ℕ → Json → TokenRequest → Option TokenResponse × ℕ
  pub key_set : Fields → Option (List (Option String × String))
  pub header : Json → Option Fields
  pub decode : ℕ → (key audience : String) → Json → Option Fields
  pub urlencode : List (String × String) → String

pub record Config : Type 0 where
  pub client_id : String
  pub client_secret : String
  pub discovery_url : String

-- What the provider keeps, with the time that its clock shows.
pub record Cache : Type 0 where
  pub now : ℕ
  pub meta : Option Fields
  pub meta_at : ℕ
  pub keys : List (String × String)
  pub keys_at : ℕ

abbrev pub issuers : List String
issuers = "https://accounts.google.com" ∷ "accounts.google.com" ∷ []

-- `now - since > _CACHE_SECONDS`
abbrev pub is_outdated : ℕ → ℕ → Bool
is_outdated since now = ltb (since + 3600) now

-- `d[k]`, which raises where the key is missing.
abbrev pub index : String → Fields → Checked Json
index k fs = if has_key k fs then passed (get k fs) else raised

abbrev pub named_key : String → List (String × String) → Option (String × String)
named_key kid keys = find_first (λ k. k.0 == kid) keys

-- The dict of the keys that have an id; of two with one id, the later is found.
unfoldable pub keys_by_id :
    List (Option String × String) → List (String × String) → List (String × String)
keys_by_id [] keys = keys
keys_by_id ((none, key) ∷ rest) keys = keys_by_id rest keys
keys_by_id ((some kid, key) ∷ rest) keys =
    if kid == "" then keys_by_id rest keys else keys_by_id rest ((kid, key) ∷ keys)

abbrev pub exchange_request : Config → (code code_verifier redirect_uri : String) → TokenRequest
exchange_request g code code_verifier redirect_uri = record {
  grant_type = "authorization_code";
  code = code;
  redirect_uri = redirect_uri;
  client_id = g.client_id;
  client_secret = g.client_secret;
  code_verifier = code_verifier;
}

-- `resp.json()["id_token"]`
abbrev pub id_token_of : Option Json → Checked Json
id_token_of (some (obj fs)) =
    if has_key "id_token" fs then passed (get "id_token" fs) else oidc_error "exchange_failed"
id_token_of _ = oidc_error "exchange_failed"

module _ (t : TextOps) (w : Web) (g : Config) where
  -- `_get_json`
  unfoldable pub get_json : Json → Cache → Checked Fields × Cache
  get_json url c =
      let (body, later) = w.http_get c.now url in
      let after = record c { now = later } in
      elim body [ some (obj fs) ↦ (passed fs, after) | _ ↦ (oidc_error "unavailable", after) ]

  -- `_metadata`
  unfoldable pub metadata : Cache → Checked Fields × Cache
  unfolding get_json
  metadata c =
      let (body, after) = get_json (str g.discovery_url) c in
      let read : Checked Fields × Cache = elim body [
        | passed fs ↦ (passed fs, record after { meta = some fs; meta_at = after.now })
        | failed ↦ (failed, after)
      ] in
      elim c.meta [
        | none ↦ read
        | some fs ↦ if is_outdated c.meta_at c.now then read else (passed fs, c)
      ]

  -- `_load_keys`
  unfoldable pub load_keys : Cache → Checked (Unit {0}) × Cache
  unfolding metadata get_json keys_by_id
  load_keys c =
      let (meta, known) = metadata c in
      elim (meta >>= index "jwks_uri") [
        | oidc_error code ↦ (oidc_error code, known)
        | raised ↦ (raised, known)
        | passed uri ↦
            let (body, after) = get_json uri known in
            elim body [
              | oidc_error code ↦ (oidc_error code, after)
              | raised ↦ (raised, after)
              | passed fs ↦ elim (w.key_set fs) [
                | none ↦ (oidc_error "unavailable", after)
                | some keys ↦
                    (passed tt, record after { keys = keys_by_id keys []; keys_at = after.now })
              ]
            ]
      ]

  -- The end of `_signing_key`.
  abbrev pub find_key : String → Cache → Checked String
  find_key kid c = elim (named_key kid c.keys) [
    | none ↦ oidc_error "invalid_token"
    | some k ↦ passed k.1
  ]

  -- `_signing_key`
  unfoldable pub signing_key : Json → Cache → Checked String × Cache
  unfolding load_keys
  signing_key id_token c = elim (w.header id_token) [
    | none ↦ (oidc_error "invalid_token", c)
    | some head ↦ elim (as_text (get "kid" head)) [
      | none ↦ (oidc_error "invalid_token", c)
      | some kid ↦
          let (loaded, after) = load_keys c in
          if is_outdated c.keys_at c.now || not (is_some (named_key kid c.keys))
          then (elim loaded [
            | passed _ ↦ (find_key kid after, after)
            | oidc_error code ↦ (oidc_error code, after)
            | raised ↦ (raised, after)
          ])
          else (find_key kid c, c)
    ]
  ]

  -- What `fetch_identity` makes of the answer of the token endpoint.
  unfoldable pub identify :
      (nonce : String) → Option TokenResponse → Cache → Checked OidcIdentity × Cache
  unfolding signing_key verify_id_token identity_from_claims
  identify nonce none c = (oidc_error "unavailable", c)
  identify nonce (some resp) c =
      if not (resp.status_code == 200)
      then (oidc_error "exchange_failed", c)
      else elim (id_token_of resp.json) [
        | oidc_error code ↦ (oidc_error code, c)
        | raised ↦ (raised, c)
        | passed id_token ↦
            let (key, after) = signing_key id_token c in
            (
              (do
                k ← key
                claims ← verify_id_token t (w.decode after.now) id_token k issuers g.client_id nonce
                identity_from_claims t "google" claims),
              after,
            )
      ]

  -- `fetch_identity`
  unfoldable pub fetch_identity :
      (code code_verifier redirect_uri nonce : String) → Cache → Checked OidcIdentity × Cache
  unfolding metadata identify
  fetch_identity code code_verifier redirect_uri nonce c =
      let (meta, known) = metadata c in
      elim (meta >>= index "token_endpoint") [
        | oidc_error code ↦ (oidc_error code, known)
        | raised ↦ (raised, known)
        | passed endpoint ↦
            let (answer, later) =
              w.http_post known.now endpoint (exchange_request g code code_verifier redirect_uri) in
            identify nonce answer (record known { now = later })
      ]

  -- `authorization_url`
  unfoldable pub authorization_url :
      (redirect_uri state nonce code_challenge : String) → Cache → Checked String × Cache
  unfolding metadata
  authorization_url redirect_uri state nonce code_challenge c =
      let (meta, known) = metadata c in
      (
        (do
          found ← meta
          endpoint ← index "authorization_endpoint" found
          passed (
              to_text t.show endpoint
              ++ ("?"
                  ++ w.urlencode (
                      ("client_id", g.client_id)
                      ∷ ("redirect_uri", redirect_uri)
                      ∷ ("response_type", "code")
                      ∷ ("scope", "openid email profile")
                      ∷ ("state", state)
                      ∷ ("nonce", nonce)
                      ∷ ("code_challenge", code_challenge)
                      ∷ ("code_challenge_method", "S256")
                      ∷ ("prompt", "select_account")
                      ∷ [])))),
        known,
      )
