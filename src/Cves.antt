-- ===== src/Cves.antt =====
-- core/parser.py: from an NVD response to flat CVE records. A value is kept as it stands in the
-- JSON, None being `null`. `none` is an exception, of a value that is no object or list where the
-- code reads one.
pub mod Metrics
pub mod Records
mod Tests
use third_party_vendor_risk.Base.{
  String, Bool, true, false, Option, none, some, List, [], ◌∷◌, keep_if, if◌then◌else◌, ◌==◌,
  string_eq,
}
use third_party_vendor_risk.Json.{
  Json, null, str, arr, obj, Items, nil, cons, Fields, get, truthy, or_else, dict_or_empty,
  list_or_empty, as_dict, ◌>>=◌,
}

-- `CVSS_CHAIN`
abbrev pub cvss_chain : List (String × String)
cvss_chain =
    ("cvssMetricV40", "4.0")
    ∷ ("cvssMetricV31", "3.1")
    ∷ ("cvssMetricV30", "3.0")
    ∷ ("cvssMetricV2", "2.0")
    ∷ []

pub record Cvss : Type 0 where
  pub score : Json
  pub version : Option String
  pub severity : Json

-- `entries[0] or {}`, of entries that are not empty.
unfoldable pub first_entry : Json → Option Fields
first_entry (arr (cons entry _)) = dict_or_empty entry
first_entry _ = none

-- The loop over the chain.
unfoldable pub scan : Fields → List (String × String) → Option Cvss
scan metrics [] = some (record { score = null; version = none; severity = null })
scan metrics ((key, version) ∷ chain) = elim (truthy (get key metrics)) [
  | false ↦ scan metrics chain
  | true ↦ do
    entry ← first_entry (get key metrics)
    data_ ← dict_or_empty (get "cvssData" entry)
    some (record {
      score = get "baseScore" data_;
      version = some version;
      severity = or_else (get "baseSeverity" data_) (get "baseSeverity" entry);
    })
]

unfoldable pub extract_cvss : Json → Option Cvss
extract_cvss metrics = do fields ← dict_or_empty metrics; scan fields cvss_chain

pub record Kev : Type 0 where
  pub is_kev : Bool
  pub date_added : Json
  pub due_date : Json

unfoldable pub extract_kev : Fields → Kev
extract_kev cve =
    let added = get "cisaExploitAdd" cve in
    if truthy added
    then record { is_kev = true; date_added = added; due_date = get "cisaActionDue" cve }
    else record { is_kev = false; date_added = null; due_date = null }

-- `d.get("lang") == "en"`
abbrev pub is_english : Fields → Bool
is_english d = elim (get "lang" d) [ str s ↦ s == "en" | _ ↦ false ]

-- The objects of a list; `.get` of anything else raises.
abbrev pub all_dicts : Items → Option (List Fields)
all_dicts nil = some []
all_dicts (cons v rest) = as_dict v >>= λ d. all_dicts rest >>= λ ds. some (d ∷ ds)

abbrev pub first_value : List Fields → List Fields → Json
first_value (d ∷ _) descriptions = get "value" d
first_value [] (d ∷ _) = get "value" d
first_value [] [] = null

unfoldable pub extract_description : Fields → Option Json
extract_description cve = do
  items ← list_or_empty (get "descriptions" cve)
  descriptions ← all_dicts items
  some (first_value (keep_if is_english descriptions) descriptions)

pub record CveRecord : Type 0 where
  pub cve_id : Json
  pub cvss : Cvss
  pub kev : Kev
  pub published_date : Json
  pub vuln_status : Json
  pub description : Json

unfoldable pub parse_cve : Fields → Option CveRecord
parse_cve cve = do
  cvss ← extract_cvss (get "metrics" cve)
  description ← extract_description cve
  some (record {
    cve_id = get "id" cve;
    cvss = cvss;
    kev = extract_kev cve;
    published_date = get "published" cve;
    vuln_status = get "vulnStatus" cve;
    description = description;
  })

-- `item.get("cve") if isinstance(item, dict) else None`
abbrev pub cve_of : Json → Json
cve_of item = elim (as_dict item) [ none ↦ null | some fields ↦ get "cve" fields ]

-- `[parse_cve(cve) for cve in iter_cve_objects(payload)]`
unfoldable pub parse_items : Items → Option (List CveRecord)
parse_items nil = some []
parse_items (cons item rest) =
    let others = parse_items rest in
    if truthy (cve_of item)
    then (do cve ← as_dict (cve_of item); r ← parse_cve cve; rs ← others; some (r ∷ rs))
    else others

unfoldable pub parse_response : Fields → Option (List CveRecord)
parse_response payload = do
  items ← list_or_empty (get "vulnerabilities" payload)
  records ← parse_items items
  some (keep_if (λ r. truthy r.cve_id) records)
