-- ===== src/Integrations.antt =====
-- app/services/integration_service.py over the integrations of app/models/org.py: the stored NVD key
-- and the sync cadence of an organization. What the code takes from elsewhere is in `Vault`. A field
-- that is absent from a patch is `none`; Slack and mail columns are left out.
pub mod Settings
mod Tests
use third_party_vendor_risk.Base.{
  ℕ, ◌*◌, String, Bool, true, false, Option, none, some, List, [], ◌∷◌, ◌==◌, nat_eq, string_eq,
  minb, maxb, find_first, update_if, if◌then◌else◌, Result, ok, err, ◌>>=◌, ◌>>◌, raise_if,
  validation,
}
use third_party_vendor_risk.Tenancy.{Db, get_org}
use third_party_vendor_risk.Entitlements.{plan_for, require_sync_interval}

pub record OrgIntegration : Type 0 where
  pub org_id : ℕ
  pub nvd_api_key_ct : Option String
  pub nvd_key_verified_at : Option ℕ
  pub sync_cadence_hours : ℕ

-- `str.strip`, and the encryption of app/security.py.
pub record Vault : Type 0 where
  pub strip : String → String
  pub encrypt : String → String
  pub decrypt : String → String

-- What the NVD says of a key; `unknown` also if there is no one to ask.
pub data KeyVerdict : Type 0 where
  valid invalid unknown : KeyVerdict

abbrev pub min_cadence_hours : ℕ
min_cadence_hours = 1

abbrev pub max_cadence_hours : ℕ
max_cadence_hours = 24 * 30

abbrev pub is_integration_of : ℕ → OrgIntegration → Bool
is_integration_of org_id i = i.org_id == org_id

-- `get_integration`
abbrev pub get_integration : List OrgIntegration → ℕ → Option OrgIntegration
get_integration integrations org_id = find_first (is_integration_of org_id) integrations

unfoldable pub get_or_create : List OrgIntegration → ℕ → OrgIntegration × List OrgIntegration
get_or_create integrations org_id =
    let new : OrgIntegration = record {
      org_id = org_id;
      nvd_api_key_ct = none;
      nvd_key_verified_at = none;
      sync_cadence_hours = 24;
    } in
    elim (get_integration integrations org_id) [
      | none ↦ (new, new ∷ integrations)
      | some i ↦ (i, integrations)
    ]

module _ (vault : Vault) where
  -- The key of a patch, `none` where it is absent.
  unfoldable pub set_key :
      (now : ℕ) (check : String → KeyVerdict)
      → Option (Option String)
      → OrgIntegration
      → Result OrgIntegration
  set_key now check none i = ok i
  set_key now check (some none) i =
      ok (record i { nvd_api_key_ct = none; nvd_key_verified_at = none })
  set_key now check (some (some key)) i =
      let cleaned = vault.strip key in
      if cleaned == ""
      then ok (record i { nvd_api_key_ct = none; nvd_key_verified_at = none })
      else elim (check cleaned) [
        | invalid ↦ err validation
        | valid ↦ ok (record i {
          nvd_api_key_ct = some (vault.encrypt cleaned);
          nvd_key_verified_at = some now;
        })
        | unknown ↦
            ok (record i {
              nvd_api_key_ct = some (vault.encrypt cleaned);
              nvd_key_verified_at = none;
            })
      ]

  -- `max(MIN_CADENCE_HOURS, min(MAX_CADENCE_HOURS, sync_cadence_hours))`
  abbrev pub clamp : ℕ → ℕ
  clamp hours = maxb min_cadence_hours (minb max_cadence_hours hours)

  -- The cadence of a patch.
  unfoldable pub set_cadence : Db → (org_id : ℕ) → Option ℕ → OrgIntegration → Result OrgIntegration
  set_cadence db org_id none i = ok i
  set_cadence db org_id (some hours) i = do
    (elim (get_org db org_id) [ none ↦ ok tt | some org ↦ require_sync_interval org (clamp hours) ])
    ok (record i { sync_cadence_hours = clamp hours })

  unfoldable pub update_integration :
      (now : ℕ) (check : String → KeyVerdict)
      → Db
      → List OrgIntegration
      → (org_id : ℕ) → (nvd_api_key : Option (Option String)) (sync_cadence_hours : Option ℕ)
      → Result (OrgIntegration × List OrgIntegration)
  unfolding get_or_create set_key set_cadence
  update_integration now check db integrations org_id nvd_api_key sync_cadence_hours =
      let (i, added) = get_or_create integrations org_id in
      (do
        keyed ← set_key now check nvd_api_key i
        changed ← set_cadence db org_id sync_cadence_hours keyed
        ok (changed, update_if (is_integration_of org_id) (λ _. changed) added))

  -- `apply_patch`; an empty patch only creates the row.
  unfoldable pub apply_patch :
      (now : ℕ) (check : String → KeyVerdict)
      → Db
      → List OrgIntegration
      → (org_id : ℕ) → (nvd_api_key : Option (Option String)) (sync_cadence_hours : Option ℕ)
      → Result (OrgIntegration × List OrgIntegration)
  unfolding update_integration
  apply_patch now check db integrations org_id none none = ok (get_or_create integrations org_id)
  apply_patch now check db integrations org_id nvd_api_key sync_cadence_hours =
      update_integration now check db integrations org_id nvd_api_key sync_cadence_hours

  -- `resolve_nvd_api_key`; a ciphertext that is empty counts as absent.
  unfoldable pub resolve_nvd_api_key : List OrgIntegration → ℕ → Option String
  resolve_nvd_api_key integrations org_id = elim (get_integration integrations org_id) [
    | none ↦ none
    | some i ↦ elim i.nvd_api_key_ct [
      | none ↦ none
      | some ct ↦ if ct == "" then none else some (vault.decrypt ct)
    ]
  ]

-- `cadence_hours`; `default_hours` is the setting `default_sync_cadence_hours`.
unfoldable pub cadence_hours : (default_hours : ℕ) → Db → List OrgIntegration → ℕ → ℕ
cadence_hours default_hours db integrations org_id =
    let hours : ℕ = elim (get_integration integrations org_id) [
      | none ↦ default_hours
      | some i ↦ i.sync_cadence_hours
    ] in
    elim (get_org db org_id) [
      | none ↦ hours
      | some org ↦ maxb hours ((plan_for org).min_sync_hours)
    ]
