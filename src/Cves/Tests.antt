-- ===== src/Cves/Tests.antt =====
-- Concrete runs of core/parser.py.
use third_party_vendor_risk.Base.{◌≡◌, refl, ◌⊎◌, true, none, some, [], ◌∷◌}
use third_party_vendor_risk.Json.{
  null, str, tenths, arr, obj, Items, nil, cons, Fields, end, field, get, dict_or_empty,
  list_or_empty,
}
use third_party_vendor_risk.Cves.{
  Cvss, CveRecord, scan, cvss_chain, first_entry, extract_cvss, extract_kev, extract_description,
  parse_cve, parse_items, parse_response,
}
use third_party_vendor_risk.Cves.Metrics.{Chosen, Unscored, extract_cvss-cases}
use third_party_vendor_risk.Cves.Records.{append}

-- An empty list for 3.1, and a score for 2.0.
abbrev metrics : Fields
metrics = field "cvssMetricV31" (arr nil) (
    field "cvssMetricV2"
      (arr (
        cons
          (obj (
            field "baseSeverity" (str "HIGH")
              (field "cvssData" (obj (field "baseScore" (tenths 75) end)) end)))
          nil))
      end)

abbrev scored : Cvss
scored = record { score = tenths 75; version = some "2.0"; severity = str "HIGH" }

extract_cvss_test : extract_cvss (obj metrics) ≡ some scored
unfolding extract_cvss dict_or_empty scan first_entry get
extract_cvss_test = refl

metrics_read : dict_or_empty (obj metrics) ≡ some metrics
unfolding dict_or_empty
metrics_read = refl

extract_cvss-cases_example : Chosen metrics cvss_chain scored ⊎ Unscored metrics cvss_chain scored
extract_cvss-cases_example =
    extract_cvss-cases (obj metrics) metrics scored metrics_read extract_cvss_test

abbrev log4shell : Fields
log4shell = field "id" (str "CVE-2021-44228") (field "cisaExploitAdd" (str "2021-12-10") end)

lacks_metrics : get "metrics" log4shell ≡ null
unfolding get
lacks_metrics = refl

lacks_descriptions : get "descriptions" log4shell ≡ null
unfolding get
lacks_descriptions = refl

-- An item with a record, and one that is no object.
abbrev items : Items
items = cons (obj (field "cve" (obj log4shell) end)) (cons (str "noise") nil)

abbrev more_items : Items
more_items = cons (obj (field "cve" (obj (field "vulnStatus" (str "Deferred") end)) end)) nil

abbrev payload : Fields
payload = field "vulnerabilities" (arr (append items more_items)) end

abbrev parsed : CveRecord
parsed = record {
  cve_id = str "CVE-2021-44228";
  cvss = record { score = null; version = none; severity = null };
  kev = record { is_kev = true; date_added = str "2021-12-10"; due_date = null };
  published_date = null;
  vuln_status = null;
  description = null;
}

parse_response_test : parse_response payload ≡ some (parsed ∷ [])
unfolding parse_response parse_items parse_cve extract_cvss extract_kev extract_description scan get
    dict_or_empty list_or_empty
parse_response_test = refl
