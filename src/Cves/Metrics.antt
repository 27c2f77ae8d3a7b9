-- ===== src/Cves/Metrics.antt =====
-- The choice of a CVSS score in core/parser.py.
use third_party_vendor_risk.Base.{
  ◌≡◌, refl, ◌⊎◌, inl, inr, String, true, false, none, some, List, [], ◌∷◌, ◌++◌, arith, All,
  Bool-cases, Option-cases,
}
use third_party_vendor_risk.Json.{Json, null, Fields, get, truthy, dict_or_empty}
use third_party_vendor_risk.Cves.{Cvss, cvss_chain, first_entry, scan, extract_cvss}

-- The metric that a score was taken from: the first of the chain whose list is not empty.
pub record Chosen (metrics : Fields) (chain : List (String × String)) (c : Cvss) : Type 0 where
  pub before : List (String × String)
  pub key : String
  pub version : String
  pub after : List (String × String)
  pub entry : Fields
  pub base : Fields
  pub split : chain ≡ before ++ ((key, version) ∷ after)
  pub all_empty : All (λ kv. truthy (get kv.0 metrics) ≡ false) before
  pub not_empty : truthy (get key metrics) ≡ true
  pub first : first_entry (get key metrics) ≡ some entry
  pub based : dict_or_empty (get "cvssData" entry) ≡ some base
  pub of_version : c.version ≡ some version
  pub of_score : c.score ≡ get "baseScore" base

-- No list of the chain has an entry, and there is no score.
pub record Unscored (metrics : Fields) (chain : List (String × String)) (c : Cvss) : Type 0 where
  pub none_there : All (λ kv. truthy (get kv.0 metrics) ≡ false) chain
  pub no_score : c.score ≡ null
  pub no_version : c.version ≡ none

scan-cases :
    (metrics : Fields) (chain : List (String × String)) (c : Cvss)
    → scan metrics chain ≡ some c
    → Chosen metrics chain c ⊎ Unscored metrics chain c
unfolding scan
scan-cases metrics [] c h = inr (record { none_there = tt; no_score = cc; no_version = cc })
scan-cases metrics ((key, version) ∷ chain) c h = elim (Bool-cases (truthy (get key metrics))) [
  | inr skipped ↦
      let later : scan metrics chain ≡ some c = rw (scan, skipped) at h in
      elim (scan-cases metrics chain c later) [
        | inl k ↦ inl (record {
          before = (key, version) ∷ k.before;
          key = k.key;
          version = k.version;
          after = k.after;
          entry = k.entry;
          base = k.base;
          split = rw k.split refl;
          all_empty = (skipped, k.all_empty);
          not_empty = k.not_empty;
          first = k.first;
          based = k.based;
          of_version = k.of_version;
          of_score = k.of_score;
        })
        | inr u ↦ inr (record {
          none_there = (skipped, u.none_there);
          no_score = u.no_score;
          no_version = u.no_version;
        })
      ]
  | inl found ↦ elim (Option-cases (first_entry (get key metrics))) [
    | inl broken ↦ absurd (ground arith)
    | inr (entry, first) ↦ elim (Option-cases (dict_or_empty (get "cvssData" entry))) [
      | inl broken ↦ absurd (ground arith)
      | inr (base, based) ↦ inl (record {
        before = [];
        key = key;
        version = version;
        after = chain;
        entry = entry;
        base = base;
        split = refl;
        all_empty = tt;
        not_empty = found;
        first = first;
        based = based;
        of_version = ground arith;
        of_score = ground arith;
      })
    ]
  ]
]

-- A score is never made up: what `extract_cvss` returns is the base score of the first metric of
-- the chain that has entries, with that metric's version; or no metric has any, and both the score
-- and the version are None.
pub extract_cvss-cases :
    (metrics : Json) (fields : Fields) (c : Cvss)
    → dict_or_empty metrics ≡ some fields
    → extract_cvss metrics ≡ some c
    → Chosen fields cvss_chain c ⊎ Unscored fields cvss_chain c
unfolding extract_cvss
extract_cvss-cases metrics fields c read h =
    scan-cases fields cvss_chain c (rw (extract_cvss, read) at h)
