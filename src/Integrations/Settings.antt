-- ===== src/Integrations/Settings.antt =====
-- Patches of an integration in app/services/integration_service.py, and what is read back of them.
use third_party_vendor_risk.Base.{
  ℕ, ◌≡◌, refl, sym, ◌∙◌, ap, String, true, false, Option, none, some, List, [], ◌∷◌, ◌==◌, nat_eq,
  nat_beq_iff, string_eq, maxb, find_first_sound, update_if, arith, inl, inr, Bool-cases,
  Option-cases, Result-cases, ok,
}
use third_party_vendor_risk.Tenancy.{Db, get_org}
use third_party_vendor_risk.Entitlements.{plan_for, require_sync_interval}
use third_party_vendor_risk.Integrations.{
  OrgIntegration, Vault, KeyVerdict, is_integration_of, get_integration, get_or_create, set_key,
  set_cadence, clamp, update_integration, resolve_nvd_api_key, cadence_hours,
}

get_or_create-row :
    (l : List OrgIntegration) (org_id : ℕ)
    → (get_integration (get_or_create l org_id).1 org_id ≡ some ((get_or_create l org_id).0))
      × ((get_or_create l org_id).0.org_id ≡ org_id)
unfolding get_or_create
get_or_create-row l org_id = elim (Option-cases (get_integration l org_id)) [
  | inl absent ↦ rw (get_or_create, absent) (ground (arith, nat_beq_iff org_id org_id))
  | inr (i, found) ↦
      rw (get_or_create, found)
        (
          found,
          (nat_beq_iff i.org_id org_id).0 (find_first_sound (is_integration_of org_id) l i found),
        )
]

find_first-changed :
    (l : List OrgIntegration) (org_id : ℕ) (i changed : OrgIntegration)
    → get_integration l org_id ≡ some i
    → changed.org_id ≡ org_id
    → get_integration (update_if (is_integration_of org_id) (λ _. changed) l) org_id ≡ some changed
find_first-changed [] org_id i changed found own = absurd (cc)
find_first-changed (r ∷ l) org_id i changed found own = elim (Bool-cases (r.org_id == org_id)) [
  | inl hit ↦
      let still : (changed.org_id == org_id) ≡ true = (nat_beq_iff changed.org_id org_id).1 own in
      rw (hit, still) refl
  | inr miss ↦ rw (miss, miss) (find_first-changed l org_id i changed (rw miss at found) own)
]

-- The floor of the plan.
abbrev at_plan : Db → ℕ → ℕ → ℕ
at_plan db org_id hours = elim (get_org db org_id) [
  | none ↦ hours
  | some org ↦ maxb hours ((plan_for org).min_sync_hours)
]

module _ (vault : Vault) where
  set_key-org_id :
      (now : ℕ) (check : String → KeyVerdict) (key : Option (Option String)) (i j : OrgIntegration)
      → set_key vault now check key i ≡ ok j
      → j.org_id ≡ i.org_id
  unfolding set_key
  set_key-org_id now check none i j e = ground arith
  set_key-org_id now check (some none) i j e = ground arith
  set_key-org_id now check (some (some key)) i j e = ground arith

  -- A key that is not blank.
  set_key-stored :
      (now : ℕ) (check : String → KeyVerdict) (key : String) (i j : OrgIntegration)
      → (vault.strip key == "") ≡ false
      → set_key vault now check (some (some key)) i ≡ ok j
      → j.nvd_api_key_ct ≡ some (vault.encrypt (vault.strip key))
  unfolding set_key
  set_key-stored now check key i j filled e = ground arith

  set_cadence-stored :
      (db : Db) (org_id hours : ℕ) (i j : OrgIntegration)
      → set_cadence vault db org_id (some hours) i ≡ ok j
      → (j.org_id ≡ i.org_id)
        × (j.nvd_api_key_ct ≡ i.nvd_api_key_ct)
        × (at_plan db org_id j.sync_cadence_hours ≡ clamp vault hours)
  unfolding set_cadence require_sync_interval
  set_cadence-stored db org_id hours i j e = elim (Option-cases (get_org db org_id)) [
    | inl absent ↦ ground (arith)
    | inr (org, found) ↦ ground (arith)
  ]

  -- A patch that gives both fields.
  update_integration-parts :
      (now : ℕ) (check : String → KeyVerdict) (db : Db) (l after : List OrgIntegration)
      (org_id hours : ℕ) (key : String) (j : OrgIntegration)
      → update_integration vault now check db l org_id (some (some key)) (some hours)
        ≡ ok (j, after)
      → (k : OrgIntegration) × (set_key vault now check (some (some key)) (get_or_create l org_id).0
          ≡ ok k)
        × (set_cadence vault db org_id (some hours) k ≡ ok j)
        × (after ≡ update_if (is_integration_of org_id) (λ _. j) (get_or_create l org_id).1)
  unfolding update_integration
  update_integration-parts now check db l after org_id hours key j e =
      let i = (get_or_create l org_id).0 in
      elim (Result-cases (set_key vault now check (some (some key)) i)) [
        | inl (raised, bad) ↦ absurd (ground arith)
        | inr (k, keyed) ↦ elim (Result-cases (set_cadence vault db org_id (some hours) k)) [
          | inl (raised, bad) ↦ absurd (ground arith)
          | inr (j2, changed) ↦
              let same : (j2 ≡ j)
                  × (update_if (is_integration_of org_id) (λ _. j2) (get_or_create l org_id).1
                      ≡ after) =
                ground arith in
              (
                k,
                keyed,
                changed ∙ ap ok same.0,
                sym same.1
                    ∙ ap
                        (λ (m : OrgIntegration).
                          update_if (is_integration_of org_id) (λ _. m) (get_or_create l org_id).1)
                        same.0,
              )
        ]
      ]

-- What a patch saves is read back: when `update_integration` accepts a key that is not blank and a
-- cadence, and the cipher decrypts what it encrypts to a text that is not empty, the key resolves
-- to the stripped key, and the cadence is the one asked for, brought between one hour and thirty
-- days; the floor of the organization's plan does not change it, since a faster cadence is refused.
pub update_integration-read :
    (vault : Vault) (now default_hours : ℕ) (check : String → KeyVerdict) (db : Db)
    (integrations after : List OrgIntegration) (org_id hours : ℕ) (key : String)
    (i : OrgIntegration)
    → ((s : String) → (vault.encrypt s == "") ≡ false)
    → ((s : String) → vault.decrypt (vault.encrypt s) ≡ s)
    → (vault.strip key == "") ≡ false
    → update_integration vault now check db integrations org_id (some (some key)) (some hours)
      ≡ ok (i, after)
    → (resolve_nvd_api_key vault after org_id ≡ some (vault.strip key))
      × (cadence_hours default_hours db after org_id ≡ clamp vault hours)
unfolding resolve_nvd_api_key cadence_hours
update_integration-read vault now default_hours check db l after org_id hours key j filled inverse
      given e =
    let (k, keyed, changed, rows) =
      update_integration-parts vault now check db l after org_id hours key j e in
    let (there, own) = get_or_create-row l org_id in
    let same_org =
      set_key-org_id vault now check (some (some key)) (get_or_create l org_id).0 k keyed in
    let stored = set_key-stored vault now check key (get_or_create l org_id).0 k given keyed in
    let (still, kept, cadence) = set_cadence-stored vault db org_id hours k j changed in
    let found : get_integration after org_id ≡ some j =
      ap (λ l. get_integration l org_id) rows
      ∙ find_first-changed (get_or_create l org_id).1 org_id (get_or_create l org_id).0 j there
          (still ∙ same_org ∙ own) in
    (
      rw (resolve_nvd_api_key, found, kept, stored, filled (vault.strip key))
          (ap some (inverse (vault.strip key))),
      ap
            (λ (o : Option OrgIntegration).
              at_plan db org_id (elim o [ none ↦ default_hours | some r ↦ r.sync_cadence_hours ]))
            found
          ∙ cadence,
    )
