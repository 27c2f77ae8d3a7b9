-- ===== src/Scoring/Assess.antt =====
-- `assess` of core/scoring.py against `final_tier`, and its freedom from the order of the rows.
use mathlib.Core.Logic.{∥∥₁_elim}
use mathlib.Core.List.{Perm, Permᴰ}
use third_party_vendor_risk.Base.{
  ℕ, ◌≡◌, refl, ◌∙◌, String, false, Option, none, List, ◌∷◌, arith, length, ◌↔◌,
}
use third_party_vendor_risk.Scoring.{
  ThreatBand, not_assessed, Cve, VendorRow, max_cvss, threat_band, exposure_band, final_tier,
  assess,
}
use third_party_vendor_risk.Scoring.Tiers.{matrix-ne-not_assessed}
use native.Mathlib.Nat.{ℕ_set}
use third_party_vendor_risk.Scoring.Counts.{scored_from, kev_count, threat_band-eq-counts}

-- What `assess` reads of the CVEs.
record SameFigures (xs ys : List Cve) : Type 0 where
  from_9 : scored_from 90 xs ≡ scored_from 90 ys
  from_7 : scored_from 70 xs ≡ scored_from 70 ys
  kevs : kev_count xs ≡ kev_count ys
  sizes : length xs ≡ length ys
  tops : max_cvss xs ≡ max_cvss ys

max_cvss-cons :
    (c : Cve) (xs ys : List Cve) → max_cvss xs ≡ max_cvss ys → max_cvss (c ∷ xs) ≡ max_cvss (c ∷ ys)
unfolding max_cvss
max_cvss-cons c xs ys h = ground arith

max_cvss-swap : (c d : Cve) (xs : List Cve) → max_cvss (c ∷ (d ∷ xs)) ≡ max_cvss (d ∷ (c ∷ xs))
unfolding max_cvss
max_cvss-swap c d xs = ground arith

SameFigures-cons : (c : Cve) (xs ys : List Cve) → SameFigures xs ys → SameFigures (c ∷ xs) (c ∷ ys)
SameFigures-cons c xs ys h = record {
  from_9 = omega (arith, h.from_9);
  from_7 = omega (arith, h.from_7);
  kevs = omega (arith, h.kevs);
  sizes = omega (arith, h.sizes);
  tops = max_cvss-cons c xs ys h.tops;
}

SameFigures-swap : (c d : Cve) (xs : List Cve) → SameFigures (c ∷ (d ∷ xs)) (d ∷ (c ∷ xs))
SameFigures-swap c d xs = record {
  from_9 = omega arith;
  from_7 = omega arith;
  kevs = omega arith;
  sizes = refl;
  tops = max_cvss-swap c d xs;
}

SameFigures-perm : {xs ys : List Cve} → Permᴰ xs ys → SameFigures xs ys
SameFigures-perm Permᴰ.nil = record {
  from_9 = refl;
  from_7 = refl;
  kevs = refl;
  sizes = refl;
  tops = refl;
}
SameFigures-perm (Permᴰ.cons {a = a} {l₁ = l} {l₂ = m} e p) =
    rw (← e) (SameFigures-cons a l m (SameFigures-perm p))
SameFigures-perm (Permᴰ.swap {a = a} {b = b} {l = l} e f) = rw (← e, ← f) (SameFigures-swap a b l)
SameFigures-perm (Permᴰ.trans p q) =
    let h = SameFigures-perm p in
    let k = SameFigures-perm q in
    record {
      from_9 = h.from_9 ∙ k.from_9;
      from_7 = h.from_7 ∙ k.from_7;
      kevs = h.kevs ∙ k.kevs;
      sizes = h.sizes ∙ k.sizes;
      tops = h.tops ∙ k.tops;
    }

threat_band-figures : {xs ys : List Cve} → SameFigures xs ys → threat_band xs ≡ threat_band ys
threat_band-figures {xs} {ys} h =
    rw (threat_band-eq-counts xs, threat_band-eq-counts ys, h.kevs, h.from_9, h.from_7)

ThreatBand-set : IsSet ThreatBand
ThreatBand-set = hlevel

Score-set : IsSet (Option ℕ)
Score-set = hlevel

-- `Perm` is truncated, and each figure lies in a set.
perm_figures :
    {xs ys : List Cve}
    → Perm xs ys
    → (threat_band xs ≡ threat_band ys)
      × (max_cvss xs ≡ max_cvss ys)
      × (length xs ≡ length ys)
      × (kev_count xs ≡ kev_count ys)
perm_figures p = (
  ∥∥₁_elim p (ThreatBand-set _ _) (λ q. threat_band-figures (SameFigures-perm q)),
  ∥∥₁_elim p (Score-set _ _) (λ q. (SameFigures-perm q).tops),
  ∥∥₁_elim p (ℕ_set _ _) (λ q. (SameFigures-perm q).sizes),
  ∥∥₁_elim p (ℕ_set _ _) (λ q. (SameFigures-perm q).kevs),
)

module _ (lower : String → String) where
  -- `assess` and `final_tier` agree on the tier, and for a vendor that is not mapped, and for no
  -- other, the tier is Not Assessed and both bands are absent.
  pub assess-tier :
      (vendor : VendorRow) (cves : List Cve)
      → let a = assess lower vendor cves in
        (a.tier ≡ final_tier lower vendor cves)
        × ((a.tier ≡ not_assessed) ↔ (vendor.is_mapped ≡ false))
        × ((a.threat ≡ none) ↔ (vendor.is_mapped ≡ false))
        × ((a.exposure ≡ none) ↔ (vendor.is_mapped ≡ false))
  unfolding assess final_tier
  assess-tier vendor cves =
      ground (arith, matrix-ne-not_assessed (threat_band cves) (exposure_band lower vendor))

  -- The assessment does not depend on the order in which the CVEs of a vendor are listed.
  pub assess-perm :
      (vendor : VendorRow) (xs ys : List Cve)
      → Perm xs ys
      → assess lower vendor xs ≡ assess lower vendor ys
  unfolding assess
  assess-perm vendor xs ys p =
      let (bands, tops, sizes, kevs) = perm_figures p in rw (bands, tops, sizes, kevs)
