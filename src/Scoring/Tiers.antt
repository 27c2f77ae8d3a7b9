-- ===== src/Scoring/Tiers.antt =====
-- `final_tier` of core/scoring.py as its CVEs vary: more of them, others of them, another order.
use third_party_vendor_risk.Base.{
  ℕ, ◌+◌, ◌≤◌, ◌≡◌, ◌≢◌, String, true, false, none, List, [], ◌∷◌, ◌++◌, arith, any, ◌⊎◌,
  count_if-append,
}
use third_party_vendor_risk.Scoring.{
  ThreatBand, ExposureBand, not_assessed, high, critical, t1, t2, t3, t4, e1, e2, e3, e4, Cve,
  VendorRow, matrix, tier_index, threat_band, exposure_band, final_tier,
}
use third_party_vendor_risk.Scoring.Counts.{scored_from, band_of_counts, threat_band-eq-counts}

abbrev pub band_index : ThreatBand → ℕ
band_index t1 = 1
band_index t2 = 2
band_index t3 = 3
band_index t4 = 4

abbrev pub exposure_index : ExposureBand → ℕ
exposure_index e1 = 1
exposure_index e2 = 2
exposure_index e3 = 3
exposure_index e4 = 4

-- The matrix is monotone in both bands, and its range leaves out Not Assessed.
matrix_mono :
    (t u : ThreatBand) (e f : ExposureBand)
    → band_index t ≤ band_index u
    → exposure_index e ≤ exposure_index f
    → (1 ≤ tier_index (matrix t e)) × (tier_index (matrix t e) ≤ tier_index (matrix u f))
unfolding matrix tier_index
matrix_mono t u e f h k = ground arith

band_of_counts_mono :
    (k k' a a' b b' : ℕ)
    → k ≤ k'
    → a ≤ a'
    → b ≤ b'
    → band_index (band_of_counts k a b) ≤ band_index (band_of_counts k' a' b')
unfolding band_of_counts
band_of_counts_mono k k' a a' b b' h i j = ground arith

scored_from-append :
    (b : ℕ) (xs ys : List Cve) → scored_from b (xs ++ ys) ≡ scored_from b xs + scored_from b ys
scored_from-append b [] ys = omega arith
scored_from-append b (x ∷ xs) ys = omega (arith, scored_from-append b xs ys)

threat_band_mono :
    (xs more ys : List Cve)
    → band_index (threat_band (xs ++ ys)) ≤ band_index (threat_band (xs ++ (more ++ ys)))
threat_band_mono xs more ys =
    rw (threat_band-eq-counts (xs ++ ys), threat_band-eq-counts (xs ++ (more ++ ys)))
      (band_of_counts_mono _ _ _ _ _ _
        (omega (
          arith,
          count_if-append (λ (c : Cve). c.is_kev) xs ys,
          count_if-append (λ (c : Cve). c.is_kev) xs (more ++ ys),
          count_if-append (λ (c : Cve). c.is_kev) more ys,
        ))
        (omega (
          arith,
          scored_from-append 90 xs ys,
          scored_from-append 90 xs (more ++ ys),
          scored_from-append 90 more ys,
        ))
        (omega (
          arith,
          scored_from-append 70 xs ys,
          scored_from-append 70 xs (more ++ ys),
          scored_from-append 70 more ys,
        )))

threat_band-unscored :
    (cve : Cve) (xs ys : List Cve)
    → cve.cvss_score ≡ none
    → cve.is_kev ≡ false
    → threat_band (xs ++ (cve ∷ ys)) ≡ threat_band (xs ++ ys)
threat_band-unscored cve xs ys unscored not_kev =
    let count = count_if-append {A = Cve} (λ c. c.is_kev) xs in
    rw (threat_band-eq-counts (xs ++ (cve ∷ ys)), threat_band-eq-counts (xs ++ ys))
      (rw
        (
          count (cve ∷ ys),
          count ys,
          scored_from-append 90 xs (cve ∷ ys),
          scored_from-append 90 xs ys,
          scored_from-append 70 xs (cve ∷ ys),
          scored_from-append 70 xs ys,
          unscored,
          not_kev,
        )
        (ground arith))

pub matrix-ne-not_assessed : (t : ThreatBand) (e : ExposureBand) → matrix t e ≢ not_assessed
unfolding matrix
matrix-ne-not_assessed t e = ground arith

module _ (lower : String → String) where
  -- More CVEs, wherever they stand among the others, never lower the tier of a vendor.
  pub final_tier_mono :
      (vendor : VendorRow) (xs more ys : List Cve)
      → tier_index (final_tier lower vendor (xs ++ ys))
        ≤ tier_index (final_tier lower vendor (xs ++ (more ++ ys)))
  unfolding final_tier
  final_tier_mono vendor xs more ys =
      let e = exposure_band lower vendor in
      ground (
        arith,
        matrix_mono (threat_band (xs ++ ys)) (threat_band (xs ++ (more ++ ys))) e e,
        threat_band_mono xs more ys,
      )

  -- A vendor that is mapped and has a known-exploited CVE is High or Critical, whatever else is
  -- known of it, and Critical exactly when its exposure is E3 or E4.
  pub final_tier-kev_floor :
      (vendor : VendorRow) (cves : List Cve)
      → vendor.is_mapped ≡ true
      → any (λ c. c.is_kev) cves ≡ true
      → (final_tier lower vendor cves ≡ high) × (exposure_index (exposure_band lower vendor) ≤ 2)
        ⊎ (final_tier lower vendor cves ≡ critical)
          × (3 ≤ exposure_index (exposure_band lower vendor))
  unfolding final_tier threat_band matrix
  final_tier-kev_floor vendor cves mapped kev = ground arith

  -- A CVE without a score that is not known-exploited changes the tier of no vendor, wherever it
  -- stands: a missing score is not a zero, and is not counted as anything else.
  pub final_tier-unscored :
      (vendor : VendorRow) (cve : Cve) (xs ys : List Cve)
      → cve.cvss_score ≡ none
      → cve.is_kev ≡ false
      → final_tier lower vendor (xs ++ (cve ∷ ys)) ≡ final_tier lower vendor (xs ++ ys)
  unfolding final_tier
  final_tier-unscored vendor cve xs ys unscored not_kev =
      ground (arith, threat_band-unscored cve xs ys unscored not_kev)
