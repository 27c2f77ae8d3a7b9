-- ===== src/Oidc/Tests.antt =====
-- Concrete sign-ins: by Google, by a code of the stand-in, and return paths.
use third_party_vendor_risk.Base.{
  if◌then◌else◌, ◌+◌, ◌≤◌, ◌≡◌, inl, refl, String, true, false, none, some, [], ◌∷◌, ◌==◌,
  string_eq,
}
use third_party_vendor_risk.Json.{
  Json, bool, int, str, obj, Fields, end, field, get, has_key, take_chars,
}
use third_party_vendor_risk.Tenancy.{User}
use third_party_vendor_risk.Accounts.{Crypto}
use third_party_vendor_risk.Accounts.Sso.{
  OidcIdentity, resolve_user, is_retried, commit_link, attempt, find_identity, link_identity, touch,
}
use third_party_vendor_risk.Profile.{text_length}
use third_party_vendor_risk.Oidc.{
  TextOps, passed, oidc_error, raised, has_at, verify_id_token, identity_from_claims,
}
use third_party_vendor_risk.Oidc.Google
use third_party_vendor_risk.Oidc.{◌>>=◌}
use third_party_vendor_risk.Oidc.Google.{
  index, exchange_request, issuers, Web, Config, Cache, get_json, metadata, keys_by_id, load_keys,
  signing_key, identify,
}
use third_party_vendor_risk.Oidc.Dev
use third_party_vendor_risk.Oidc.Dev.{
  Tokens, DevProvider, is_ascii, create_token, issue_code, grant, id_claims, put,
}
use third_party_vendor_risk.Oidc.Codes.{fetch_identity-issue_code}
use third_party_vendor_risk.Oidc.Returns.{safe_next, has_backslash, is_printable, matches_safe}
use third_party_vendor_risk.Oidc.Flow.{
  Flow, SignInTables, Client, Fresh, flow_claims, google_provider, google_callback, read_flow,
  enter, given, into_app,
}
use third_party_vendor_risk.Oidc.Callback.{opens_session}
use third_party_vendor_risk.Oidc.Strict.{
  CheckedIdentity, google_checks, google_provider-IsStrict, session-CheckedIdentity,
}
use third_party_vendor_risk.Oidc.Paths.{is_same_site, safe_next-is_same_site}
use third_party_vendor_risk.Oidc.Kept.{IsRead, KeysRead}
use third_party_vendor_risk.Oidc.Vouched.{Vouched, fetch_identity-Vouched}

abbrev texts : TextOps
texts = record { strip = λ s. s; lower = λ s. s; show = λ v. "?" }

abbrev document : Fields
document = field "token_endpoint" (str "https://token") (field "jwks_uri" (str "https://keys") end)

abbrev google_claims : Fields
google_claims = field "iss" (str "accounts.google.com") (
    field "sub" (str "g-1") (
      field "email" (str "ann@acme.test")
        (field "email_verified" (bool true) (field "nonce" (str "n") end))))

abbrev web : Web
web = record {
  http_get = λ now url. (some (obj document), now + 1);
  http_post = λ now url form. (
    some (record { status_code = 200; json = some (obj (field "id_token" (str "token") end)) }),
    now + 1,
  );
  key_set = λ body. some ((some "k1", "public") ∷ []);
  header = λ token. some (field "kid" (str "k1") end);
  decode = λ now key audience token. some google_claims;
  urlencode = λ params. "";
}

abbrev config : Config
config = record { client_id = "us"; client_secret = "s"; discovery_url = "https://discovery" }

abbrev cold : Cache
cold = record { now = 10; meta = none; meta_at = 0; keys = []; keys_at = 0 }

-- After the discovery document, the code and the keys have been read.
abbrev warm : Cache
warm = record {
  now = 13;
  meta = some document;
  meta_at = 11;
  keys = ("k1", "public") ∷ [];
  keys_at = 13;
}

cold-IsRead : IsRead web config cold
cold-IsRead = record { meta_read = λ document found. absurd (cc); keys_read = inl refl }

abbrev ann : OidcIdentity
ann = record {
  provider = "google";
  subject = "g-1";
  email = "ann@acme.test";
  email_verified = true;
  name = none;
}

fetch_test :
    Google.fetch_identity texts web config "code" "v" "https://us" "n" cold ≡ (passed ann, warm)
unfolding Google.fetch_identity metadata get_json identify signing_key load_keys keys_by_id
    verify_id_token identity_from_claims has_at get has_key
fetch_test = refl

fetch_identity-Vouched_example :
    (endpoint : Json) × ((metadata texts web config cold).0 >>= index "token_endpoint"
      ≡ passed endpoint)
    × Vouched texts web config
        (web.http_post
          (metadata texts web config cold).1.now
          endpoint
          (exchange_request config "code" "v" "https://us")).0
        "n"
        ann
        warm
    × KeysRead web config warm.keys warm.keys_at
    × IsRead web config warm
fetch_identity-Vouched_example =
    fetch_identity-Vouched texts web config "code" "v" "https://us" "n" cold warm ann cold-IsRead
      fetch_test

abbrev dev : DevProvider
dev = record { issuer = "dev"; authorize_endpoint = "/dev"; private_key = "p"; public_key = "q" }

abbrev unread : Tokens
unread = record {
  sign = λ claims. "signed";
  read = λ now code. none;
  mint = λ claims key. str "minted";
  decode = λ now key audience token. none;
  challenge = λ verifier. verifier;
  sha256_hex = λ s. "0123";
  urlencode = λ params. "";
}

abbrev claims : Fields
claims =
    put "exp" (int 130)
      (put "iat" (int 10) (grant unread "bob@acme.test" (some "Bob") true "https://us" "n" "v"))

abbrev tokens : Tokens
tokens = record unread {
  read = λ now code. some claims;
  decode = λ now key audience token. some (id_claims unread texts dev 20 "bob@acme.test" claims);
}

issue_test :
    issue_code tokens 10 "bob@acme.test" (some "Bob") true "https://us" "n" "v" ≡ some "signed"
unfolding issue_code create_token get
issue_test = refl

ascii_test : is_ascii "v" ≡ true
unfolding is_ascii
ascii_test = refl

bob_test : has_at "bob@acme.test" ≡ true
unfolding has_at
bob_test = refl

fetch_identity-issue_code_example :
    (Dev.fetch_identity tokens texts dev 20 "signed" "v" "https://us" "n"
      ≡ passed (record {
        provider = "google";
        subject = "dev-0123";
        email = "bob@acme.test";
        email_verified = true;
        name = some "Bob";
      }))
    × ((other : String)
        → ("https://us" == other) ≡ false
        → Dev.fetch_identity tokens texts dev 20 "signed" "v" other "n"
          ≡ oidc_error "exchange_failed")
    × ((other : String)
        → ("v" == other) ≡ false
        → Dev.fetch_identity tokens texts dev 20 "signed" other "https://us" "n"
          ≡ (if is_ascii other then oidc_error "exchange_failed" else raised))
    × ((other : String)
        → ("n" == other) ≡ false
        → Dev.fetch_identity tokens texts dev 20 "signed" "v" "https://us" other
          ≡ oidc_error "invalid_token")
unfolding take_chars
fetch_identity-issue_code_example =
    fetch_identity-issue_code tokens texts dev 10 20 "bob@acme.test" (some "Bob") true "https://us"
      "n" "v" "signed" issue_test refl refl bob_test refl ascii_test

-- A callback from Google for the flow of a cookie.
abbrev flow : Flow
flow = record { state = "st"; nonce = "n"; verifier = "v"; next = "/vendors" }

abbrev sealed : Tokens
sealed = record unread { read = λ now cookie. some (flow_claims flow) }

abbrev crypto : Crypto
crypto = record {
  lower = λ s. s;
  normalize = λ s. s;
  takes_name = λ s. true;
  takes_subject = λ s. true;
  show = λ n. "2";
  hash = λ p. p;
  verify = λ p h. false;
}

abbrev tables : SignInTables
tables = record {
  db = record {
    organizations = [];
    users =
        record {
          id = 1;
          email = "ann@acme.test";
          password_hash = none;
          name = none;
          is_active = true;
        }
        ∷ [];
    identities = [];
    memberships = [];
    invitations = [];
    vendor_orgs = [];
  };
  logins = [];
}

abbrev fresh : Fresh
fresh = record { user_id = 2; org_id = 2; login_id = 1; login_fails = false }

abbrev client : Client
client = record { ip = some "10.0.0.1"; user_agent = none }

opened :
    opens_session
      (google_callback sealed "https://us" crypto fresh client 10 none
        (some "st")
        (some "code")
        (some "cookie")
        (some (google_provider texts web config))
        tables
        tables
        cold).0
    ≡ true
unfolding google_callback read_flow get has_key enter resolve_user is_retried attempt commit_link
    find_identity link_identity touch Google.fetch_identity metadata get_json identify signing_key
    load_keys keys_by_id verify_id_token identity_from_claims has_at
opened = refl

session-CheckedIdentity_example :
    (flow : Flow) × (identity : OidcIdentity) × (user : User) × (read_flow sealed "https://us" 10
        (some "cookie")
      ≡ some flow)
    × (given (some "st") ≡ some flow.state)
    × CheckedIdentity texts (google_checks web config) flow.nonce identity
    × (identity.email_verified ≡ true)
    × ((google_callback sealed "https://us" crypto fresh client 10 none
          (some "st")
          (some "code")
          (some "cookie")
          (some (google_provider texts web config))
          tables
          tables
          cold).0
        ≡ into_app flow.next user)
session-CheckedIdentity_example =
    session-CheckedIdentity texts (google_checks web config) (IsRead web config)
      (google_provider texts web config) sealed "https://us" crypto fresh client 10 none (some "st")
      (some "code") (some "cookie") tables tables cold (google_provider-IsStrict texts web config)
      cold-IsRead opened

-- The pattern lets a line feed at the end pass.
line_feed_test : safe_next (some "/a\n") ≡ "/a\n"
unfolding safe_next has_backslash is_printable matches_safe text_length
line_feed_test = refl

evil_test : safe_next (some "//evil.test") ≡ "/"
unfolding safe_next has_backslash is_printable matches_safe text_length
evil_test = refl

safe_next-is_same_site_example :
    (is_same_site (safe_next (some "/vendors")) ≡ true)
    × (text_length (safe_next (some "/vendors")) ≤ 512)
    × (has_backslash (safe_next (some "/vendors")) ≡ false)
    × (safe_next (some (safe_next (some "/vendors"))) ≡ safe_next (some "/vendors"))
safe_next-is_same_site_example = safe_next-is_same_site (some "/vendors")
