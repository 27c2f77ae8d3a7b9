-- ===== src/Nvd/Tests.antt =====
-- Concrete runs of core/nvd_client.py.
use third_party_vendor_risk.Base.{
  ℕ, zero, suc, ◌≡◌, refl, true, false, none, some, List, [], ◌∷◌, arith, ◌⊎◌,
}
use third_party_vendor_risk.Nvd.{
  Payload, Reply, response, FetchError, fetched, verdict, attempt, get, NvdConfig, pacing, complete,
  failed, fetch_from, fetch_query,
}
use third_party_vendor_risk.Nvd.Pages.{take, drop, page, wanted, fetch_query-wanted}

abbrev keyed : NvdConfig
keyed = record {
  has_api_key = true;
  results_per_page = 2;
  max_pages = none;
  retry_backoff = 70 ∷ 150 ∷ 300 ∷ [];
  pace = none;
}

abbrev cves : List ℕ
cves = 2021 ∷ 2022 ∷ 2023 ∷ []

-- A server that is overloaded at the first request.
abbrev server : (start request : ℕ) → Reply ℕ
server start zero = response 503 false (record { vulnerabilities = []; total = 0 })
server start (suc request) =
    response 200 false (record { vulnerabilities = take 2 (drop start cves); total = 3 })

fetch_query_test : fetch_query server keyed 4 ≡ complete cves 3 82
unfolding fetch_query fetch_from get attempt pacing
fetch_query_test = refl

server_serves :
    (start request : ℕ) (p : Payload ℕ)
    → verdict (server start request) ≡ some (fetched p)
    → p ≡ page server keyed cves start
server_serves start zero p answered = absurd (cc)
server_serves start (suc request) p answered = ground arith

fetch_query-wanted_example :
    ((requests : ℕ) × (slept : ℕ) × (fetch_query server keyed 4
        ≡ complete (wanted none 2 cves) requests slept))
    ⊎ ((e : FetchError) × (fetch_query server keyed 4 ≡ failed e))
fetch_query-wanted_example = fetch_query-wanted server keyed cves server_serves (omega arith)
