-- ===== src/Lib.antt =====
-- Vendor risk tracker: a service that scores an organization's vendors from published
-- vulnerabilities (CVEs), with tenants, plans, billing, exports and a shared limit on calls
-- of the NVD.
--
-- Parts and files. Each part is a module of that name, with its lemmas in child modules and
-- its concrete runs in a child `Tests`.
-- - Base: numbers and Boolean tests, equality by instance, lists as tables of rows, and the
--   service exceptions of app/services/exceptions.py (`DomainError`, `Result`). Json: JSON
--   values, and Python's `dict.get`, `or` and truth of them.
-- - Scoring: core/scoring.py and the tier order of core/constants.py. `threat_band`,
--   `exposure_band`, `matrix`, `final_tier` and `assess` are the functions of these names. A
--   CVSS score is counted in tenths and a contract value in cents.
-- - Tenancy: the tables of app/models/org.py and app/models/user.py. Entitlements: the plans
--   and checks of app/services/entitlements.py over these tables. Orgs: the members and
--   invitations of app/services/org_service.py, which asks Entitlements for a free seat.
-- - Billing: app/services/billing_service.py. A webhook is signed JSON text;
--   `process_webhook` verifies and decodes it, `apply_event` drops a duplicate, dispatches,
--   and records the event. Rows holds the tables of app/models/billing.py, Webhooks the
--   handlers; what a handler may change is the relation `Change` of Effects. Providers is
--   app/services/billing.py, Owners the owner actions, and StandIn the pages of the stand-in
--   in app/api/billing.py, which deliver their events to `process_webhook`.
-- - RateLimit: app/workers/rate_limit.py, the token bucket, the script that runs it in
--   Redis, and the waiting loop.
-- - Exports: app/services/export_service.py, the jobs of app/models/ops.py as a state
--   machine whose transactions are the relation `Step` of Exports/Steps.
-- - Nvd: core/nvd_client.py, retries and pagination. Cves: core/parser.py, from the response
--   to flat records. Ingest: core/sync.py over the store of app/services/store.py, with
--   `fetch_all` for the queries of a vendor.
-- - Orgs/Create: the slugs of new organizations in app/services/org_service.py. Accounts:
--   app/services/auth_service.py and app/services/account_service.py; its child Sso is
--   app/services/sso_service.py. Access: the guards of app/deps.py.
-- - Assessments: app/services/scoring_service.py, the assessment of vendors from the stored
--   CVEs, one by one and in batches. Alerts: app/services/alerts_service.py over
--   app/models/alert.py.
-- - Integrations: app/services/integration_service.py, the NVD key and the cadence of an
--   organization.
-- - Sync: app/services/scheduled_sync_service.py with what it uses of
--   app/services/sync_service.py. The plan is in Sync itself, the round of a vendor in
--   Sync/Vendors, `sync_prefix` and `run_due_syncs` in Sync/Prefixes, `sync_vendor` in
--   Sync/Manual; a round calls Ingest, Assessments, Alerts and Integrations on one state,
--   `Tables`.
-- - Storage: the keys and signed links of app/services/object_storage.py.
-- - Oidc: app/services/oidc.py and app/api/sso.py. Oidc itself checks ID tokens; Google and
--   Dev are the two providers, each with what it keeps; Flow is the sign-in over either,
--   which ends in Accounts.Sso and Profile; Returns is the return path and Pages the pages
--   around the flow.
-- - Profile: app/services/profile_service.py, the name, the photo and the history of
--   sign-ins.
-- - Vendors: app/services/vendor_service.py; Vendors/Imports is `import_vendors` of
--   app/services/sbom_service.py and Vendors/Cpe the CPE functions of core/sbom.py.
--
-- Correspondence. A service call is a function from the tables to a value or an error; a
-- call that raises leaves its session uncommitted, so the new tables are part of the value.
-- `create_account` commits the user first, so that its two transactions are `create_user`
-- and `create_org`, and `account_left` is what stays after a failure. A query is a search in
-- a list of rows, an UPDATE with a condition is `update_if`. Times are seconds or ticks, and
-- a naive time is read as UTC. Concurrent transactions are sequences of steps; within a step
-- nothing else happens, so the race of two checks of a soft limit is not represented.
--
-- Fuel. `acquire` is given two rounds more than `max_wait`, enough since each round waits
-- for one of the fractions of a tick that waits are counted in, at least. `fetch_query` is
-- given a number of pages; one more than the number of results is enough. `unique_slug`
-- tries one slug more than there are organizations, of which one is free. The chunks of
-- `cves_for_vendors` are no more than its vendors.
--
-- Parameters, for code that is not part of the repository: Python's `str.lower`,
-- `str.casefold`, `str.strip`, `int` and `str` of a value, `date.isoformat`, password hashes
-- and the cipher of stored keys, the encoding and decoding of session tokens and of ID
-- tokens, the reading of an image and its encoding, the keyed hash of a link, the signature
-- check and `json.loads` of a webhook, the clock, random tokens, whether rendering, storage
-- and HTTP requests succeed and what they return, the database's `lower` and which texts fit
-- its columns.
--
-- Not modelled: HTTP routing and schemas, templates, the ORM itself, e-mail, cryptography,
-- the SBOM document parsers, the CPE dictionary, Celery and its locks, the live fetch of a
-- scheduled sync with its throttle, the S3 store, preferences, dashboards and the frontend.
-- Log lines, display columns and messages for people are left out throughout.
pub mod Base
pub mod Json
pub mod Scoring
pub mod Tenancy
pub mod Entitlements
pub mod Orgs
pub mod Billing
pub mod RateLimit
pub mod Exports
pub mod Nvd
pub mod Cves
pub mod Ingest
pub mod Accounts
pub mod Access
pub mod Assessments
pub mod Alerts
pub mod Integrations
pub mod Sync
pub mod Vendors
pub mod Storage
pub mod Oidc
pub mod Profile
