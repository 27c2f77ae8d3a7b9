-- ===== src/Cves/Records.antt =====
-- Whole records and responses in core/parser.py.
use third_party_vendor_risk.Base.{
  ◌≡◌, refl, inl, inr, Option, none, some, List, ◌∷◌, ◌++◌, Bool-cases, Option-cases,
}
use third_party_vendor_risk.Json.{
  null, Items, nil, cons, Fields, get, truthy, as_dict, dict_or_empty, list_or_empty, ◌>>=◌,
}
use third_party_vendor_risk.Cves.{
  CveRecord, scan, extract_cvss, extract_kev, extract_description, parse_cve, cve_of, parse_items,
}

-- A record without metrics and descriptions is parsed all the same, whatever else it has or lacks:
-- it keeps its id, has neither score nor version nor description, and parsing does not raise.
pub parse_cve_bare :
    (cve : Fields)
    → get "metrics" cve ≡ null
    → get "descriptions" cve ≡ null
    → (r : CveRecord) × (parse_cve cve ≡ some r)
      × (r.cve_id ≡ get "id" cve)
      × (r.cvss.score ≡ null)
      × (r.cvss.version ≡ none)
      × (r.description ≡ null)
      × (r.kev ≡ extract_kev cve)
unfolding parse_cve extract_cvss extract_description scan get dict_or_empty list_or_empty
parse_cve_bare cve no_metrics no_descriptions =
    let r : CveRecord = record {
      cve_id = get "id" cve;
      cvss = record { score = null; version = none; severity = null };
      kev = extract_kev cve;
      published_date = get "published" cve;
      vuln_status = get "vulnStatus" cve;
      description = null;
    } in
    (
      r,
      rw (parse_cve, extract_cvss, extract_description, no_metrics, no_descriptions) refl,
      refl,
      refl,
      refl,
      refl,
      refl,
    )

-- The items of two pages, one after the other.
abbrev pub append : Items → Items → Items
append nil ys = ys
append (cons x xs) ys = cons x (append xs ys)

-- The records of both pages, if both can be parsed.
abbrev pub both : Option (List CveRecord) → Option (List CveRecord) → Option (List CveRecord)
both xs ys = xs >>= λ a. ys >>= λ b. some (a ++ b)

both-first :
    (r : CveRecord) (xs ys : Option (List CveRecord))
    → (both xs ys >>= λ rs. some (r ∷ rs)) ≡ both (xs >>= λ rs. some (r ∷ rs)) ys
both-first r none ys = refl
both-first r (some a) none = refl
both-first r (some a) (some b) = refl

-- Parsing merged pages is parsing the pages: the records of both in order, and an exception where
-- one of them raises.
pub parse_items-append :
    (xs ys : Items) → parse_items (append xs ys) ≡ both (parse_items xs) (parse_items ys)
unfolding parse_items
parse_items-append nil ys = elim (Option-cases (parse_items ys)) [
  | inl broken ↦ rw broken refl
  | inr (rs, parsed) ↦ rw parsed refl
]
parse_items-append (cons item xs) ys = elim (Bool-cases (truthy (cve_of item))) [
  | inr skipped ↦ rw (parse_items, skipped) (parse_items-append xs ys)
  | inl present ↦ elim (Option-cases (as_dict (cve_of item))) [
    | inl broken ↦ rw (parse_items, present, broken) refl
    | inr (cve, read) ↦ elim (Option-cases (parse_cve cve)) [
      | inl broken ↦ rw (parse_items, present, read, broken) refl
      | inr (r, parsed) ↦
          rw (parse_items, present, read, parsed, parse_items-append xs ys)
            (both-first r (parse_items xs) (parse_items ys))
    ]
  ]
]
