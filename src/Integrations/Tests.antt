-- ===== src/Integrations/Tests.antt =====
-- A patch of an integration, run.
use third_party_vendor_risk.Base.{
  ◌≡◌, ◌==◌, refl, String, none, some, [], ◌∷◌, ok, err, plan_limit, validation, string_eq,
  if◌then◌else◌,
}
use third_party_vendor_risk.Tenancy.{Db}
use third_party_vendor_risk.Entitlements.{require_sync_interval, plan_for, find_plan}
use third_party_vendor_risk.Integrations.{
  OrgIntegration, Vault, KeyVerdict, valid, invalid, update_integration, set_key, set_cadence,
  get_or_create,
}

-- A cipher that puts a letter in front.
abbrev decrypt : String → String
decrypt String.[] = ""
decrypt (String.◌∷◌ c s) = s

abbrev vault : Vault
vault = record { strip = λ s. s; encrypt = λ s. String.◌∷◌ "c" s; decrypt = decrypt }

abbrev db : Db
db = record {
  organizations = record { id = 7; slug = "acme"; plan = "team" } ∷ [];
  users = [];
  identities = [];
  memberships = [];
  invitations = [];
  vendor_orgs = [];
}

abbrev row : OrgIntegration
row = record {
  org_id = 7;
  nvd_api_key_ct = some "ckey";
  nvd_key_verified_at = some 5;
  sync_cadence_hours = 720;
}

abbrev accept : String → KeyVerdict
accept s = if s == "bad" then invalid else valid

-- A month is the longest cadence.
saved :
    update_integration vault 5 accept db [] 7 (some (some "key")) (some 1000) ≡ ok (row, row ∷ [])
unfolding update_integration set_key set_cadence get_or_create require_sync_interval plan_for
    find_plan
saved = refl

-- The team plan syncs every six hours at most.
too_fast : update_integration vault 5 accept db [] 7 none (some 2) ≡ err plan_limit
unfolding update_integration set_key set_cadence get_or_create require_sync_interval plan_for
    find_plan
too_fast = refl

refused : update_integration vault 5 accept db [] 7 (some (some "bad")) none ≡ err validation
unfolding update_integration set_key set_cadence get_or_create
refused = refl
