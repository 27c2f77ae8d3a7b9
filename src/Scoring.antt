-- ===== src/Scoring.antt =====
-- core/scoring.py, with the tier constants of core/constants.py: threat band and exposure band
-- of a vendor, and the tier that the matrix gives for the two.
pub mod Counts
pub mod Tiers
pub mod Assess
mod Tests
use third_party_vendor_risk.Base.{
  ℕ, ◌+◌, ◌*◌, String, Bool, true, false, ◌&&◌, ◌||◌, Option, none, some, List, [], ◌∷◌, ◌==◌, leb,
  string_eq, maxb, if◌then◌else◌, length, any, count_if,
}

-- The strings "T1" to "T4", "E1" to "E4" and the tier names, which the code uses as enumerations.
pub data ThreatBand : Type 0 where
  t1 t2 t3 t4 : ThreatBand

pub data ExposureBand : Type 0 where
  e1 e2 e3 e4 : ExposureBand

pub data Tier : Type 0 where
  not_assessed low medium high critical : Tier

-- What the functions below read of a CVE. A CVSS score has one decimal and is counted in tenths.
pub record Cve : Type 0 where
  pub cve_id : String
  pub cvss_score : Option ℕ
  pub is_kev : Bool

-- What they read of a vendor; `annual_contract_value` is in cents.
pub record VendorRow : Type 0 where
  pub vendor_name : String
  pub is_mapped : Bool
  pub annual_contract_value : Option ℕ
  pub data_sensitivity : Option String
  pub business_criticality : Option String
  pub contract_renewal_date : Option String
  pub match_method : Option String

-- `MATRIX[(threat, exposure)]`
unfoldable pub matrix : ThreatBand → ExposureBand → Tier
matrix t4 e1 = high
matrix t4 e2 = high
matrix t4 e3 = critical
matrix t4 e4 = critical
matrix t3 e1 = medium
matrix t3 e2 = high
matrix t3 e3 = high
matrix t3 e4 = critical
matrix t2 e1 = low
matrix t2 e2 = medium
matrix t2 e3 = medium
matrix t2 e4 = high
matrix t1 e1 = low
matrix t1 e2 = low
matrix t1 e3 = low
matrix t1 e4 = medium

-- `TIER_ORDER.index(tier)`
unfoldable pub tier_index : Tier → ℕ
tier_index not_assessed = 0
tier_index low = 1
tier_index medium = 2
tier_index high = 3
tier_index critical = 4

-- `_scores(cves)`
unfoldable pub scores : List Cve → List ℕ
scores [] = []
scores (c ∷ cves) = elim c.cvss_score [ none ↦ scores cves | some s ↦ s ∷ scores cves ]

-- `max(scores) if scores else None`
abbrev pub max_of : List ℕ → Option ℕ
max_of [] = none
max_of (s ∷ ss) = elim (max_of ss) [ none ↦ some s | some m ↦ some (maxb s m) ]

unfoldable pub max_cvss : List Cve → Option ℕ
unfolding scores
max_cvss cves = max_of (scores cves)

-- `top is not None and top >= bound`
abbrev pub reaches : Option ℕ → ℕ → Bool
reaches none bound = false
reaches (some top) bound = leb bound top

unfoldable pub threat_band : List Cve → ThreatBand
unfolding scores
threat_band cves =
    if any (λ c. c.is_kev) cves
    then t4
    else let top = max_of (scores cves) in
      let high_count = count_if (λ s. leb 70 s) (scores cves) in
      if reaches top 90 || leb 3 high_count then t3 else if reaches top 70 then t2 else t1

-- `vendor.get(k) or 0`, `vendor.get(k) or ""`
abbrev pub or_zero : Option ℕ → ℕ
or_zero none = 0
or_zero (some n) = n

abbrev pub or_empty : Option String → String
or_empty none = ""
or_empty (some s) = s

pub record Assessment : Type 0 where
  pub vendor_name : String
  pub tier : Tier
  pub threat : Option ThreatBand
  pub exposure : Option ExposureBand
  pub max_score : Option ℕ
  pub cve_count : ℕ
  pub kev_count : ℕ
  pub is_mapped : Bool
  pub annual_contract_value : Option ℕ
  pub data_sensitivity : Option String
  pub business_criticality : Option String
  pub contract_renewal_date : Option String
  pub match_method : Option String

-- `lower` is Python's `str.lower`.
module _ (lower : String → String) where
  unfoldable pub exposure_band : VendorRow → ExposureBand
  exposure_band vendor =
      let acv = or_zero vendor.annual_contract_value in
      let sensitivity = lower (or_empty vendor.data_sensitivity) in
      let criticality = lower (or_empty vendor.business_criticality) in
      if sensitivity == "regulated" || leb (500_000 * 100) acv
      then e4
      else if sensitivity == "confidential" || leb (100_000 * 100) acv || criticality == "high"
      then e3
      else if leb (25_000 * 100) acv
      then e2
      else e1

  unfoldable pub final_tier : VendorRow → List Cve → Tier
  final_tier vendor cves =
      if vendor.is_mapped then matrix (threat_band cves) (exposure_band vendor) else not_assessed

  unfoldable pub assess : VendorRow → List Cve → Assessment
  assess vendor cves =
      let tband = if vendor.is_mapped then some (threat_band cves) else none in
      let eband = if vendor.is_mapped then some (exposure_band vendor) else none in
      record {
        vendor_name = vendor.vendor_name;
        tier =
            if vendor.is_mapped
            then matrix (threat_band cves) (exposure_band vendor)
            else not_assessed;
        threat = tband;
        exposure = eband;
        max_score = max_cvss cves;
        cve_count = length cves;
        kev_count = count_if (λ c. c.is_kev) cves;
        is_mapped = vendor.is_mapped;
        annual_contract_value = vendor.annual_contract_value;
        data_sensitivity = vendor.data_sensitivity;
        business_criticality = vendor.business_criticality;
        contract_renewal_date = vendor.contract_renewal_date;
        match_method = vendor.match_method;
      }
