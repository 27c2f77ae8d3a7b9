-- ===== src/Scoring/Counts.antt =====
-- The scores of a list of CVEs by counting: the tests of `threat_band` depend on counts alone.
use third_party_vendor_risk.Base.{
  ℕ, ◌+◌, ◌≡◌, refl, none, some, List, [], ◌∷◌, arith, leb, if◌then◌else◌, any, count_if, ◌||◌,
}
use third_party_vendor_risk.Scoring.{
  ThreatBand, t1, t2, t3, t4, Cve, scores, max_of, reaches, threat_band,
}

-- The CVEs with a score of at least `bound` tenths.
abbrev pub scored_from : ℕ → List Cve → ℕ
scored_from bound [] = 0
scored_from bound (c ∷ cves) =
    elim c.cvss_score [ none ↦ 0 | some s ↦ if leb bound s then 1 else 0 ] + scored_from bound cves

abbrev pub kev_count : List Cve → ℕ
kev_count = count_if (λ c. c.is_kev)

-- An independent reading of the bands, by three counts.
unfoldable pub band_of_counts : (kev from_9 from_7 : ℕ) → ThreatBand
band_of_counts kev from_9 from_7 =
    if leb 1 kev
    then t4
    else if leb 1 from_9 || leb 3 from_7
    then t3
    else if leb 1 from_7
    then t2
    else t1

reaches-max_of : (l : List ℕ) (b : ℕ) → reaches (max_of l) b ≡ leb 1 (count_if (λ s. leb b s) l)
reaches-max_of [] b = ground arith
reaches-max_of (s ∷ l) b = ground (arith, reaches-max_of l b)

count-scores :
    (b : ℕ) (cves : List Cve) → count_if (λ s. leb b s) (scores cves) ≡ scored_from b cves
unfolding scores
count-scores b [] = refl
count-scores b (c ∷ cves) = ground (arith, count-scores b cves)

any-kev : (cves : List Cve) → any (λ c. c.is_kev) cves ≡ leb 1 (kev_count cves)
any-kev [] = ground arith
any-kev (c ∷ cves) = ground (arith, any-kev cves)

-- The threat band is T4 with a known-exploited CVE, else T3 with a score from 9.0 or three
-- from 7.0, else T2 with a score from 7.0, else T1, where scores that are absent count nowhere.
pub threat_band-eq-counts :
    (cves : List Cve)
    → threat_band cves ≡ band_of_counts (kev_count cves) (scored_from 90 cves) (scored_from 70 cves)
unfolding threat_band band_of_counts
threat_band-eq-counts cves = rw (
  any-kev,
  reaches-max_of (scores cves) 90,
  reaches-max_of (scores cves) 70,
  count-scores 90 cves,
  count-scores 70 cves,
)
