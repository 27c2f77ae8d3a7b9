-- ===== src/Oidc/Callback.antt =====
-- `google_callback` of app/api/sso.py: what stands behind a session, and the tables when there is none.
use third_party_vendor_risk.Base.{
  ℕ, ◌≡◌, DomainError, ◌⊎◌, inl, inr, refl, sym, ◌∙◌, ap, subst, String, Bool, true, false, Option,
  none, some, ◌==◌, string_eq, str_eq_iff, str_eq_refl, if◌then◌else◌, arith, Bool-cases,
  Option-cases,
}
use third_party_vendor_risk.Tenancy.{User, Db}
use third_party_vendor_risk.Accounts.{Crypto}
use third_party_vendor_risk.Accounts.Failures.{IsLeft, resolve_user-broken}
use third_party_vendor_risk.Accounts.Sso.{
  OidcIdentity, Outcome, SignedIn, accepted, refused, broken, SsoError, resolve_user, is_retried,
}
use third_party_vendor_risk.Oidc.{Checked, passed, oidc_error, raised}
use third_party_vendor_risk.Oidc.Dev.{Tokens}
use third_party_vendor_risk.Oidc.Flow.{
  Provider, Flow, SignInAnswer, into_app, to_login, SignInTables, Client, Fresh, given, read_flow,
  enter, google_callback, sso_code,
}
use third_party_vendor_risk.Profile.{record_login}

SignedIn-cases :
    (r : SignedIn)
    → ((e : SsoError) × (r ≡ refused e))
      ⊎ ((e : DomainError) × (left : Db) × (r ≡ broken e left))
      ⊎ ((user : User) × (outcome : Outcome) × (db : Db) × (r ≡ accepted user outcome db))
SignedIn-cases (refused e) = inl (e, refl)
SignedIn-cases (broken e left) = inr (inl (e, left, refl))
SignedIn-cases (accepted user outcome db) = inr (inr (user, outcome, db, refl))

-- The answer sets the cookies of a session.
abbrev pub opens_session : SignInAnswer → Bool
opens_session (into_app next user) = true
opens_session _ = false

resolve_user-verified :
    (c : Crypto) (user_id org_id : ℕ) (db later after : Db) (identity : OidcIdentity) (user : User)
    (outcome : Outcome)
    → resolve_user c user_id org_id db later identity ≡ accepted user outcome after
    → identity.email_verified ≡ true
unfolding resolve_user
resolve_user-verified c user_id org_id db later after identity user outcome e =
    elim (Bool-cases identity.email_verified) [
      | inl vouched ↦ vouched
      | inr unsure ↦ absurd (ground arith)
    ]

module _ (c : Crypto) (fresh : Fresh) (client : Client) (now : ℕ) where
  -- The tables that the answer for an identity was reached on: at a second try, those of that time.
  abbrev pub reached_on : (t later : SignInTables) → OidcIdentity → SignInTables
  reached_on t later identity =
      if is_retried c fresh.user_id fresh.org_id t.db identity then later else t

  -- What `enter` made of the answer of the provider: an account for a verified identity.
  pub record Entered (flow : Flow) (t later : SignInTables) (provided : Checked OidcIdentity)
      (answer : SignInAnswer) (written : SignInTables) : Type 0 where
    pub identity : OidcIdentity
    pub user : User
    pub outcome : Outcome
    pub vouched : provided ≡ passed identity
    pub verified : identity.email_verified ≡ true
    pub resolved :
        resolve_user c fresh.user_id fresh.org_id t.db later.db identity
        ≡ accepted user outcome written.db
    pub answered : answer ≡ into_app flow.next user
    pub recorded :
        written.logins
        ≡ record_login fresh.login_id now fresh.login_fails user.id identity.provider client.ip
            client.user_agent
            (reached_on t later identity).logins

  -- No session: of the tables, at a second try of those of that time, nothing has changed, or only what
  -- a failed sign-in leaves of a new account.
  pub record Closed (t later : SignInTables) (answer : SignInAnswer) (written : SignInTables)
      : Type 0 where
    pub reached : SignInTables
    pub of : (reached ≡ t) ⊎ (reached ≡ later)
    pub closed : opens_session answer ≡ false
    pub kept :
        (written ≡ reached)
        ⊎ ((identity : OidcIdentity) × (left : Db) × IsLeft c fresh.user_id fresh.org_id identity
              reached.db left
            × (written ≡ record reached { db = left }))

  reached_on-of :
      (t later : SignInTables) (identity : OidcIdentity)
      → (reached_on t later identity ≡ t) ⊎ (reached_on t later identity ≡ later)
  reached_on-of t later identity =
      elim (Bool-cases (is_retried c fresh.user_id fresh.org_id t.db identity)) [
        | inl again ↦ inr (rw again refl)
        | inr once ↦ inl (rw once refl)
      ]

  enter-cases :
      (flow : Flow) (t later : SignInTables) (provided : Checked OidcIdentity)
      → let r = enter c fresh client now flow t later provided in
        Entered flow t later provided r.0 r.1 ⊎ Closed t later r.0 r.1
  unfolding enter
  enter-cases flow t later (oidc_error why) =
      inr (record { reached = t; of = inl refl; closed = refl; kept = inl refl })
  enter-cases flow t later raised =
      inr (record { reached = t; of = inl refl; closed = refl; kept = inl refl })
  enter-cases flow t later (passed identity) =
      let reached = reached_on t later identity in
      let closed_as : (why : String) (written : SignInTables)
          → enter c fresh client now flow t later (passed identity) ≡ (to_login why, written)
          → ((written ≡ reached)
              ⊎ ((identity : OidcIdentity) × (left : Db) × IsLeft c fresh.user_id fresh.org_id
                    identity reached.db left
                  × (written ≡ record reached { db = left })))
          → Closed t later (enter c fresh client now flow t later (passed identity)).0
              (enter c fresh client now flow t later (passed identity)).1 =
        λ why written row kept.
          subst (λ (r : SignInAnswer × SignInTables). Closed t later r.0 r.1) (sym row)
            (record {
              reached = reached;
              of = reached_on-of t later identity;
              closed = refl;
              kept = kept;
            }) in
      elim (SignedIn-cases (resolve_user c fresh.user_id fresh.org_id t.db later.db identity)) [
        | inl (e, refused_by) ↦
            inr (closed_as (sso_code e) reached (rw (enter, refused_by) refl) (inl refl))
        | inr (inl (e, left, broken_by)) ↦
            let left_over =
              resolve_user-broken c fresh.user_id fresh.org_id t.db later.db left identity e
                broken_by in
            let same : (if is_retried c fresh.user_id fresh.org_id t.db identity
                  then later.db
                  else t.db)
                ≡ reached.db =
              elim (Bool-cases (is_retried c fresh.user_id fresh.org_id t.db identity)) [
                | inl again ↦ rw again refl
                | inr once ↦ rw once refl
              ] in
            inr (
              closed_as "failed" (record reached { db = left }) (rw (enter, broken_by) refl)
                (inr (
                  identity,
                  left,
                  subst (λ d. IsLeft c fresh.user_id fresh.org_id identity d left) same left_over,
                  refl,
                )))
        | inr (inr (user, outcome, db, accepted_by)) ↦
            let row : enter c fresh client now flow t later (passed identity) ≡ (
              into_app flow.next user,
              record {
                db = db;
                logins =
                    record_login fresh.login_id now fresh.login_fails user.id identity.provider
                      client.ip client.user_agent reached.logins;
              },
            ) =
              rw (enter, accepted_by) refl in
            inl (record {
              identity = identity;
              user = user;
              outcome = outcome;
              vouched = refl;
              verified =
                  resolve_user-verified c fresh.user_id fresh.org_id t.db later.db db identity user
                    outcome accepted_by;
              resolved = accepted_by ∙ ap (λ r. accepted user outcome r.1.db) (sym row);
              answered = ap (λ r. r.0) row;
              recorded = ap (λ r. r.1.logins) row;
            })
      ]

  module _ (k : Tokens) (redirect_uri : String) {S : Type 0} where
    -- What a callback that enters the app has passed.
    pub record Admitted (error state code cookie : Option String) (provider : Option (Provider S))
        (t later : SignInTables) (s : S) (answer : SignInAnswer) (written : SignInTables)
        : Type 0 where
      pub active : Provider S
      pub flow : Flow
      pub sent_code : String
      pub enabled : provider ≡ some active
      pub no_error : given error ≡ none
      pub sealed : read_flow k redirect_uri now cookie ≡ some flow
      pub same_state : given state ≡ some flow.state
      pub with_code : given code ≡ some sent_code
      pub entered :
          Entered flow t later
            (active.fetch_identity sent_code flow.verifier redirect_uri flow.nonce s).0
            answer
            written

    -- A callback that has passed the checks of its request ends as `enter` does.
    entered_or_not :
        (code_given : String) (flow : Flow) (error state code cookie : Option String)
        (active : Provider S) (t later : SignInTables) (s : S)
        → given error ≡ none
        → read_flow k redirect_uri now cookie ≡ some flow
        → given state ≡ some flow.state
        → given code ≡ some code_given
        → let r =
            google_callback k redirect_uri c fresh client now error state code cookie
              (some active)
              t
              later
              s in
          Admitted error state code cookie (some active) t later s r.0 r.1 ⊎ Closed t later r.0 r.1
    unfolding google_callback
    entered_or_not code_given flow error state code cookie active t later s no_error sealed stated
          with_code =
        let run =
          google_callback k redirect_uri c fresh client now error state code cookie (some active) t
            later s in
        let provided = active.fetch_identity code_given flow.verifier redirect_uri flow.nonce s in
        let entered = enter c fresh client now flow t later provided.0 in
        let row : run ≡ (entered.0, entered.1, provided.1) =
          rw (google_callback, no_error, sealed, stated, str_eq_refl flow.state, with_code) refl in
        elim (enter-cases flow t later provided.0) [
          | inr closed ↦ inr (
              subst (λ (r : SignInAnswer × SignInTables × S). Closed t later r.0 r.1) (sym row)
                closed)
          | inl admitted ↦ inl (
              subst
                (λ (r : SignInAnswer × SignInTables × S).
                  Admitted error state code cookie (some active) t later s r.0 r.1)
                (sym row)
                (record {
                  active = active;
                  flow = flow;
                  sent_code = code_given;
                  enabled = refl;
                  no_error = no_error;
                  sealed = sealed;
                  same_state = stated;
                  with_code = with_code;
                  entered = admitted;
                }))
        ]

    pub google_callback-Admitted :
        (error state code cookie : Option String) (provider : Option (Provider S))
        (t later : SignInTables) (s : S)
        → let r =
            google_callback k redirect_uri c fresh client now error state code cookie provider t
              later s in
          Admitted error state code cookie provider t later s r.0 r.1 ⊎ Closed t later r.0 r.1
    unfolding google_callback
    google_callback-Admitted error state code cookie none t later s =
        inr (record { reached = t; of = inl refl; closed = refl; kept = inl refl })
    google_callback-Admitted error state code cookie (some active) t later s =
        let run =
          google_callback k redirect_uri c fresh client now error state code cookie (some active) t
            later s in
        let no_session : (why : String) → run ≡ (to_login why, t, s) → Closed t later run.0 run.1 =
          λ why row.
            subst (λ (r : SignInAnswer × SignInTables × S). Closed t later r.0 r.1) (sym row)
              (record { reached = t; of = inl refl; closed = refl; kept = inl refl }) in
        elim (Option-cases (given error)) [
          | inr (e, failed) ↦ inr (
              no_session (if e == "access_denied" then "cancelled" else "failed")
                (rw (google_callback, failed) refl))
          | inl no_error ↦ elim (Option-cases (read_flow k redirect_uri now cookie)) [
            | inl unsealed ↦
                inr (no_session "expired" (rw (google_callback, no_error, unsealed) refl))
            | inr (flow, sealed) ↦ elim (Option-cases (given state)) [
              | inl stateless ↦
                  inr
                    (no_session "expired" (rw (google_callback, no_error, sealed, stateless) refl))
              | inr (sent_state, stated) ↦ elim (Bool-cases (sent_state == flow.state)) [
                | inr forged ↦ inr (
                    no_session "expired"
                      (rw (google_callback, no_error, sealed, stated, forged) refl))
                | inl same ↦ elim (Option-cases (given code)) [
                  | inl codeless ↦ inr (
                      no_session "failed"
                        (rw (google_callback, no_error, sealed, stated, same, codeless) refl))
                  | inr (sent_code, with_code) ↦
                      entered_or_not sent_code flow error state code cookie active t later s
                        no_error sealed
                        (stated ∙ ap some ((str_eq_iff sent_state flow.state).0 same)) with_code
                ]
              ]
            ]
          ]
        ]
