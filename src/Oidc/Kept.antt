-- ===== src/Oidc/Kept.antt =====
-- What `GoogleOidcProvider` of app/services/oidc.py keeps: documents that a request has returned.
use third_party_vendor_risk.Base.{
  ℕ, ◌≡◌, ◌⊎◌, inl, inr, refl, sym, ◌∙◌, ap, subst, String, not, ◌||◌, Option, none, some, List, [],
  ◌==◌, string_eq, nat_eq, is_some, arith, Bool-cases, Option-cases,
}
use mathlib.Core.Option.{some-injective}
use third_party_vendor_risk.Json.{
  Json, null, bool, int, tenths, str, arr, obj, Fields, get, as_text,
}
use third_party_vendor_risk.Oidc.{
  TextOps, Checked, passed, oidc_error, raised, Checked-cases, ◌>>=◌,
}
use third_party_vendor_risk.Oidc.Google.{
  Web, Config, Cache, TokenResponse, is_outdated, named_key, index, exchange_request, id_token_of,
  metadata, load_keys, get_json, keys_by_id, signing_key, identify, fetch_identity,
  authorization_url,
}

-- A GET of the URL has returned the document, at that time.
pub record WasRead (w : Web) (url : Json) (document : Fields) (at : ℕ) : Type 0 where
  pub started : ℕ
  pub got : w.http_get started url ≡ (some (obj document), at)

-- The keys are the key set that was read at that time, from the place that a discovery document names.
pub record KeysRead (w : Web) (g : Config) (keys : List (String × String)) (at : ℕ) : Type 0 where
  pub discovery : Fields
  pub discovered_at : ℕ
  pub uri : Json
  pub body : Fields
  pub key_set : List (Option String × String)
  pub discovered : WasRead w (str g.discovery_url) discovery discovered_at
  pub pointed : index "jwks_uri" discovery ≡ passed uri
  pub served : WasRead w uri body at
  pub parsed : w.key_set body ≡ some key_set
  pub all : keys ≡ keys_by_id key_set []

-- The cache holds nothing but what was read.
pub record IsRead (w : Web) (g : Config) (c : Cache) : Type 0 where
  pub meta_read :
      (document : Fields)
      → c.meta ≡ some document
      → WasRead w (str g.discovery_url) document c.meta_at
  pub keys_read : (c.keys ≡ []) ⊎ KeysRead w g c.keys c.keys_at

abbrev to_option : Checked Fields → Option Fields
to_option (passed fs) = some fs
to_option (oidc_error code) = none
to_option raised = none

module _ (t : TextOps) (w : Web) (g : Config) where
  -- What `get_json` makes of an answer.
  abbrev answered : Cache → Option Json × ℕ → Checked Fields × Cache
  answered c (body, later) =
      let after = record c { now = later } in
      elim body [ some (obj fs) ↦ (passed fs, after) | _ ↦ (oidc_error "unavailable", after) ]

  get_json-cases :
      (url : Json) (c : Cache) (body : Option Json) (later : ℕ)
      → w.http_get c.now url ≡ (body, later)
      → ((document : Fields) × (get_json t w g url c ≡ (passed document, record c { now = later }))
          × WasRead w url document later)
        ⊎ (get_json t w g url c ≡ (oidc_error "unavailable", record c { now = later }))
  unfolding get_json
  get_json-cases url c (some (obj fs)) later e =
      inl (fs, ap (answered c) e, record { started = c.now; got = e })
  get_json-cases url c none later e = inr (ap (answered c) e)
  get_json-cases url c (some null) later e = inr (ap (answered c) e)
  get_json-cases url c (some (bool b)) later e = inr (ap (answered c) e)
  get_json-cases url c (some (int n)) later e = inr (ap (answered c) e)
  get_json-cases url c (some (tenths n)) later e = inr (ap (answered c) e)
  get_json-cases url c (some (str s)) later e = inr (ap (answered c) e)
  get_json-cases url c (some (arr l)) later e = inr (ap (answered c) e)

  -- What `metadata` makes of a document that it reads again.
  abbrev renewed : Checked Fields × Cache → Checked Fields × Cache
  renewed (body, after) = elim body [
    | passed fs ↦ (passed fs, record after { meta = some fs; meta_at = after.now })
    | failed ↦ (failed, after)
  ]

  -- The state is what was read, and so is a document that is given.
  abbrev IsGiven : Checked Fields × Cache → Type 0
  IsGiven r =
      IsRead w g r.1
      × ((document : Fields)
          → r.0 ≡ passed document
          → (at : ℕ) × WasRead w (str g.discovery_url) document at)

  renewed-IsGiven :
      (c : Cache) → IsRead w g c → IsGiven (renewed (get_json t w g (str g.discovery_url) c))
  renewed-IsGiven c read =
      let (body, later) = w.http_get c.now (str g.discovery_url) in
      elim (get_json-cases (str g.discovery_url) c body later refl) [
        | inr unread ↦
            subst (λ r. IsGiven (renewed r)) (sym unread)
              (
                record { meta_read = read.meta_read; keys_read = read.keys_read },
                λ document found. absurd (ground arith),
              )
        | inl (fs, row, got) ↦
            let same = λ (document : Fields) (e : some fs ≡ some document).
              (subst (λ d. WasRead w (str g.discovery_url) d later) (some-injective fs document e)
                got) in
            subst (λ r. IsGiven (renewed r)) (sym row)
              (
                record { meta_read = same; keys_read = read.keys_read },
                λ document found. (later, same document (ap to_option found)),
              )
      ]

  -- The document that `metadata` gives was read, and so is what it keeps.
  metadata-IsRead : (c : Cache) → IsRead w g c → IsGiven (metadata t w g c)
  unfolding metadata
  metadata-IsRead c read =
      let again = renewed (get_json t w g (str g.discovery_url) c) in
      let fetched : metadata t w g c ≡ again → IsGiven (metadata t w g c) =
        λ row. subst IsGiven (sym row) (renewed-IsGiven c read) in
      elim (Option-cases c.meta) [
        | inl cold ↦ fetched (simp (metadata, cold) refl)
        | inr (known, kept) ↦ elim (Bool-cases (is_outdated c.meta_at c.now)) [
          | inl old ↦ fetched (simp (metadata, kept, old) refl)
          | inr young ↦
              let row : metadata t w g c ≡ (passed known, c) = simp (metadata, kept, young) refl in
              (
                subst (IsRead w g) (sym (ap (λ r. r.1) row)) read,
                λ document found.
                    let same : some known ≡ some document =
                      ap (λ (r : Checked Fields). to_option r) (sym (ap (λ r. r.0) row) ∙ found) in
                    (c.meta_at, read.meta_read document (kept ∙ same)),
              )
        ]
      ]

  -- Keys that were loaded are those of a key set that was read.
  load_keys-IsRead : (c : Cache) → IsRead w g c → IsRead w g (load_keys t w g c).1
  unfolding load_keys
  load_keys-IsRead c read =
      let known = (metadata t w g c).1 in
      let (stored, discovered) = metadata-IsRead c read in
      elim (Checked-cases (metadata t w g c).0) [
        | inr (inl (why, failed)) ↦ rw (load_keys, failed) stored
        | inr (inr failed) ↦ rw (load_keys, failed) stored
        | inl (document, found) ↦ elim (Checked-cases (index "jwks_uri" document)) [
          | inr (inl (why, failed)) ↦ rw (load_keys, found, failed) stored
          | inr (inr failed) ↦ rw (load_keys, found, failed) stored
          | inl (uri, pointed) ↦
              let (body, later) = w.http_get known.now uri in
              elim (get_json-cases uri known body later refl) [
                | inr unread ↦
                    rw (load_keys, found, pointed, unread)
                      (subst (λ (r : Checked Fields × Cache). IsRead w g r.1) (sym unread)
                        (record { meta_read = stored.meta_read; keys_read = stored.keys_read }))
                | inl (fs, row, got) ↦ elim (Option-cases (w.key_set fs)) [
                  | inl bad ↦
                      rw (load_keys, found, pointed, row, bad)
                        (subst (λ (r : Checked Fields × Cache). IsRead w g r.1) (sym row)
                          (record { meta_read = stored.meta_read; keys_read = stored.keys_read }))
                  | inr (key_set, parsed) ↦
                      let (at, seen) = discovered document found in
                      rw (load_keys, found, pointed, row, parsed)
                        (subst
                          (λ (r : Checked Fields × Cache).
                            IsRead w g
                              (record r.1 { keys = keys_by_id key_set []; keys_at = r.1.now }))
                          (sym row)
                          (record {
                            meta_read = stored.meta_read;
                            keys_read = inr (record {
                              discovery = document;
                              discovered_at = at;
                              uri = uri;
                              body = fs;
                              key_set = key_set;
                              discovered = seen;
                              pointed = pointed;
                              served = got;
                              parsed = parsed;
                              all = refl;
                            });
                          }))
                ]
              ]
        ]
      ]

  signing_key-IsRead :
      (id_token : Json) (c : Cache) → IsRead w g c → IsRead w g (signing_key t w g id_token c).1
  unfolding signing_key
  signing_key-IsRead id_token c read = elim (Option-cases (w.header id_token)) [
    | inl headless ↦ rw (signing_key, headless) read
    | inr (head, headed) ↦ elim (Option-cases (as_text (get "kid" head))) [
      | inl nameless ↦ rw (signing_key, headed, nameless) read
      | inr (kid, named) ↦
          elim (Bool-cases (is_outdated c.keys_at c.now || not (is_some (named_key kid c.keys)))) [
            | inr known ↦ rw (signing_key, headed, named, known) read
            | inl stale ↦ elim (Checked-cases (load_keys t w g c).0) [
              | inr (inl (why, failed)) ↦
                  rw (signing_key, headed, named, stale, failed) (load_keys-IsRead c read)
              | inr (inr failed) ↦
                  rw (signing_key, headed, named, stale, failed) (load_keys-IsRead c read)
              | inl (u, loaded) ↦
                  rw (signing_key, headed, named, stale, loaded) (load_keys-IsRead c read)
            ]
          ]
    ]
  ]

  identify-IsRead :
      (nonce : String) (answer : Option TokenResponse) (c : Cache)
      → IsRead w g c
      → IsRead w g (identify t w g nonce answer c).1
  unfolding identify
  identify-IsRead nonce none c read = read
  identify-IsRead nonce (some resp) c read = elim (Bool-cases (resp.status_code == 200)) [
    | inr refused ↦ rw (identify, refused) read
    | inl answered ↦ elim (Checked-cases (id_token_of resp.json)) [
      | inr (inl (why, failed)) ↦ rw (identify, answered, failed) read
      | inr (inr failed) ↦ rw (identify, answered, failed) read
      | inl (id_token, found) ↦ rw (identify, answered, found) (signing_key-IsRead id_token c read)
    ]
  ]

  -- An exchange and a start keep it.
  pub fetch_identity-IsRead :
      (code code_verifier redirect_uri nonce : String) (c : Cache)
      → IsRead w g c
      → IsRead w g (fetch_identity t w g code code_verifier redirect_uri nonce c).1
  unfolding fetch_identity
  fetch_identity-IsRead code code_verifier redirect_uri nonce c read =
      let (stored, _) = metadata-IsRead c read in
      elim (Checked-cases ((metadata t w g c).0 >>= index "token_endpoint")) [
        | inr (inl (why, failed)) ↦ rw (fetch_identity, failed) stored
        | inr (inr failed) ↦ rw (fetch_identity, failed) stored
        | inl (endpoint, found) ↦
            let known = (metadata t w g c).1 in
            let answer =
              w.http_post known.now endpoint (exchange_request g code code_verifier redirect_uri) in
            rw (fetch_identity, found)
              (identify-IsRead nonce answer.0 (record known { now = answer.1 })
                (record { meta_read = stored.meta_read; keys_read = stored.keys_read }))
      ]

  pub authorization_url-IsRead :
      (redirect_uri state nonce code_challenge : String) (c : Cache)
      → IsRead w g c
      → IsRead w g (authorization_url t w g redirect_uri state nonce code_challenge c).1
  unfolding authorization_url
  authorization_url-IsRead redirect_uri state nonce code_challenge c read =
      (metadata-IsRead c read).0

-- Keys among which one was found are those of a key set that was read.
pub found-KeysRead :
    (w : Web) (g : Config) (c : Cache) (kid : String) (k : String × String)
    → IsRead w g c
    → named_key kid c.keys ≡ some k
    → KeysRead w g c.keys c.keys_at
found-KeysRead w g c kid k read found = elim read.keys_read [
  | inr keys ↦ keys
  | inl empty ↦ let missing : named_key kid c.keys ≡ none = ap (named_key kid) empty in absurd (cc)
]
