-- ===== src/Scoring/Tests.antt =====
-- Small vendors and CVEs, and the theorems about the scoring at them.
use third_party_vendor_risk.Base.{
  ◌≤◌, ◌≡◌, refl, ◌⊎◌, String, true, false, none, some, [], ◌∷◌, string_eq,
}
use third_party_vendor_risk.Scoring.{
  high, critical, e3, t3, Cve, VendorRow, tier_index, exposure_band, final_tier, threat_band,
  matrix,
}
use third_party_vendor_risk.Scoring.Tiers.{exposure_index, final_tier_mono, final_tier-kev_floor}

abbrev as_is : String → String
as_is s = s

abbrev cve : String → Cve
cve id = record { cve_id = id; cvss_score = some 75; is_kev = false }

abbrev exploited : Cve
exploited = record { cve_id = "CVE-2021-44228"; cvss_score = none; is_kev = true }

abbrev unscored : Cve
unscored = record { cve_id = "CVE-2024-1"; cvss_score = none; is_kev = false }

-- A contract of 120,000.00 with public data.
abbrev acme : VendorRow
acme = record {
  vendor_name = "Acme";
  is_mapped = true;
  annual_contract_value = some 12_000_000;
  data_sensitivity = some "public";
  business_criticality = none;
  contract_renewal_date = none;
  match_method = some "virtual_match";
}

exposure_of_acme : exposure_band as_is acme ≡ e3
unfolding exposure_band
exposure_of_acme = refl

three_high_scores : threat_band (cve "a" ∷ cve "b" ∷ cve "c" ∷ []) ≡ t3
unfolding threat_band
three_high_scores = refl

tier_of_acme : final_tier as_is acme (cve "a" ∷ exploited ∷ []) ≡ critical
unfolding final_tier threat_band exposure_band matrix
tier_of_acme = refl

final_tier_mono_example :
    tier_index (final_tier as_is acme (cve "a" ∷ cve "b" ∷ []))
    ≤ tier_index (final_tier as_is acme (cve "a" ∷ exploited ∷ cve "b" ∷ []))
final_tier_mono_example = final_tier_mono as_is acme (cve "a" ∷ []) (exploited ∷ []) (cve "b" ∷ [])

final_tier-kev_floor_example :
    (final_tier as_is acme (exploited ∷ []) ≡ high)
      × (exposure_index (exposure_band as_is acme) ≤ 2)
    ⊎ (final_tier as_is acme (exploited ∷ []) ≡ critical)
      × (3 ≤ exposure_index (exposure_band as_is acme))
final_tier-kev_floor_example = final_tier-kev_floor as_is acme (exploited ∷ []) refl refl
