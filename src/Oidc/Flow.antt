-- ===== src/Oidc/Flow.antt =====
-- app/api/sso.py: the start of a sign-in and its callback. A provider is an interface over what it
-- keeps, of type `S`. Random tokens, the clock and PyJWT are parameters; headers, cookie attributes and
-- logs are left out.
use Prim.Native.Char.{code}
use third_party_vendor_risk.Base.{
  ℕ, String, Bool, false, not, Option, none, some, List, [], ◌∷◌, ◌==◌, nat_eq, string_eq, any,
  if◌then◌else◌,
}
use third_party_vendor_risk.Json.{str, Fields, end, field, get, as_text}
use third_party_vendor_risk.Tenancy.{User, Db}
use third_party_vendor_risk.Accounts.{Crypto}
use third_party_vendor_risk.Accounts.Sso.{
  OidcIdentity, accepted, refused, broken, is_retried, SsoError, unverified, disabled,
  linked_elsewhere, dangling, domain, resolve_user,
}
use third_party_vendor_risk.Profile.{LoginEvent, record_login}
use third_party_vendor_risk.Oidc.Returns.{safe_next}
use third_party_vendor_risk.Oidc.{TextOps, Checked, passed, oidc_error, raised, equals_text}
use third_party_vendor_risk.Oidc.Google
use third_party_vendor_risk.Oidc.Dev
use third_party_vendor_risk.Oidc.Google.{Web, Config, Cache}
use third_party_vendor_risk.Oidc.Dev.{Tokens, DevProvider, create_token}

-- `OidcProvider`
pub record Provider (S : Type 0) : Type 0 where
  pub authorization_url :
      (redirect_uri state nonce code_challenge : String) → S → Checked String × S
  pub fetch_identity :
      (code code_verifier redirect_uri nonce : String) → S → Checked OidcIdentity × S

-- The two providers. The stand-in keeps nothing but its key.
abbrev pub google_provider : TextOps → Web → Config → Provider Cache
google_provider t w g = record {
  authorization_url = Google.authorization_url t w g;
  fetch_identity = Google.fetch_identity t w g;
}

abbrev pub dev_provider : (now : ℕ) → Tokens → TextOps → DevProvider → Provider (Unit {0})
dev_provider now k t d = record {
  authorization_url = λ redirect_uri state nonce code_challenge kept.
      (passed (Dev.authorization_url k d redirect_uri state nonce code_challenge), kept);
  fetch_identity = λ code code_verifier redirect_uri nonce kept.
      (Dev.fetch_identity k t d now code code_verifier redirect_uri nonce, kept);
}

-- The claims of the flow cookie.
pub record Flow : Type 0 where
  pub state : String
  pub nonce : String
  pub verifier : String
  pub next : String

abbrev pub flow_claims : Flow → Fields
flow_claims f = field "type" (str "oidc_flow") (
    field "state" (str f.state) (
      field "nonce" (str f.nonce)
        (field "verifier" (str f.verifier) (field "next" (str f.next) end))))

-- The flow, if all its claims are texts.
abbrev pub flow_of : Option String → Option String → Option String → Option String → Option Flow
flow_of (some state) (some nonce) (some verifier) (some next) =
    some (record { state = state; nonce = nonce; verifier = verifier; next = next })
flow_of _ _ _ _ = none

-- `hop` is the redirect to the configured origin, and `sent` the one to the provider with the flow cookie.
pub data Started : Type 0 where
  start_disabled start_broken : Started
  hop : (next : String) → Started
  sent : (url cookie : String) → Started
  start_failed : (sso_error : String) → Started

-- The redirects of the callback: into the app with the cookies of a session, or to the sign-in page.
pub data SignInAnswer : Type 0 where
  callback_disabled : SignInAnswer
  into_app : (next : String) → User → SignInAnswer
  to_login : (sso_error : String) → SignInAnswer

-- The tables that a callback reads and writes.
pub record SignInTables : Type 0 where
  pub db : Db
  pub logins : List LoginEvent

-- `exc.code if exc.code in _UI_ERRORS else "failed"`
abbrev pub ui_code : String → String
ui_code c =
    if any (λ u. u == c) ("unavailable" ∷ "unverified" ∷ "disabled" ∷ "conflict" ∷ [])
    then c
    else "failed"

-- The code for what `resolve_user` raises; an exception that is no `OidcError` is "failed".
abbrev pub sso_code : SsoError → String
sso_code unverified = ui_code "unverified"
sso_code disabled = ui_code "disabled"
sso_code linked_elsewhere = ui_code "conflict"
sso_code dangling = "failed"
sso_code (domain e) = "failed"

-- A parameter that is there and not empty.
abbrev pub given : Option String → Option String
given none = none
given (some s) = if s == "" then none else some s

-- What a request carries besides its parameters.
pub record Client : Type 0 where
  pub ip : Option String
  pub user_agent : Option String

-- The keys of the rows that a callback may write, and whether recording the sign-in fails.
pub record Fresh : Type 0 where
  pub user_id : ℕ
  pub org_id : ℕ
  pub login_id : ℕ
  pub login_fails : Bool

-- The end of `google_callback`, from what the provider answers. `later` are the tables at a second try.
unfoldable pub enter :
    Crypto
    → Fresh
    → Client
    → (now : ℕ) → Flow
    → (t later : SignInTables) → Checked OidcIdentity
    → SignInAnswer × SignInTables
unfolding resolve_user is_retried record_login
enter c fresh client now flow t later answer = elim answer [
  | oidc_error why ↦ (to_login (ui_code why), t)
  | raised ↦ (to_login "failed", t)
  | passed identity ↦
      let reached = if is_retried c fresh.user_id fresh.org_id t.db identity then later else t in
      elim (resolve_user c fresh.user_id fresh.org_id t.db later.db identity) [
        | refused e ↦ (to_login (sso_code e), reached)
        | broken e db ↦ (to_login (sso_code (domain e)), record reached { db = db })
        | accepted user outcome db ↦ (
          into_app flow.next user,
          record {
            db = db;
            logins =
                record_login fresh.login_id now fresh.login_fails user.id identity.provider
                  client.ip client.user_agent reached.logins;
          },
        )
      ]
]

module _ (k : Tokens) (redirect_uri : String) where
  -- `_read_flow`
  unfoldable pub read_flow : (now : ℕ) → Option String → Option Flow
  read_flow now token = elim (given token) [
    | none ↦ none
    | some sealed ↦ elim (k.read now sealed) [
      | none ↦ none
      | some claims ↦
          if equals_text (get "type" claims) "oidc_flow"
          then flow_of (as_text (get "state" claims)) (as_text (get "nonce" claims))
              (as_text (get "verifier" claims)) (as_text (get "next" claims))
          else none
    ]
  ]

  module _ {S : Type 0} where
    -- `google_start`; the hosts are those of the settings and of the request.
    unfoldable pub google_start :
        (now : ℕ) (state nonce verifier : String) (base_host host next_path : Option String)
        → Option (Provider S)
        → S
        → Started × S
    unfolding safe_next create_token
    google_start now state nonce verifier base_host host next_path none s = (start_disabled, s)
    google_start now state nonce verifier base_host host next_path (some active) s =
        let next = safe_next next_path in
        let elsewhere : Bool = elim (given base_host) [
          | none ↦ false
          | some b ↦ elim (given host) [ none ↦ false | some h ↦ not (h == b) ]
        ] in
        let (url, after) =
          active.authorization_url redirect_uri state nonce (k.challenge verifier) s in
        let flow : Flow = record {
          state = state;
          nonce = nonce;
          verifier = verifier;
          next = next;
        } in
        if elsewhere then (hop next, s) else elim url [
          | oidc_error why ↦ (start_failed "unavailable", after)
          | raised ↦ (start_broken, after)
          | passed u ↦ elim (create_token k now (flow_claims flow) 600) [
            | none ↦ (start_broken, after)
            | some cookie ↦ (sent u cookie, after)
          ]
        ]

    -- `google_callback`, for parameters within the limits of its query
    unfoldable pub google_callback :
        Crypto
        → Fresh
        → Client
        → (now : ℕ) (error state code cookie : Option String) → Option (Provider S)
        → (t later : SignInTables) → S
        → SignInAnswer × SignInTables × S
    unfolding read_flow enter
    google_callback c fresh client now error state code cookie none t later s =
        (callback_disabled, t, s)
    google_callback c fresh client now error state code cookie (some active) t later s =
        elim (given error) [
          | some e ↦ (to_login (if e == "access_denied" then "cancelled" else "failed"), t, s)
          | none ↦ elim (read_flow now cookie) [
            | none ↦ (to_login "expired", t, s)
            | some flow ↦ elim (given state) [
              | none ↦ (to_login "expired", t, s)
              | some sent_state ↦
                  if not (sent_state == flow.state)
                  then (to_login "expired", t, s)
                  else elim (given code) [
                    | none ↦ (to_login "failed", t, s)
                    | some c_code ↦
                        let (identity, after) =
                          active.fetch_identity c_code flow.verifier redirect_uri flow.nonce s in
                        let (answer, written) = enter c fresh client now flow t later identity in
                        (answer, written, after)
                  ]
            ]
          ]
        ]
