-- ===== src/Nvd.antt =====
-- core/nvd_client.py: one request with its retries, and a query over several pages. The outcome of
-- a request is a parameter, by its `startIndex` and by how many requests went before it. Sleeps
-- are counted in tenths of a second.
pub mod Retry
pub mod Pages
mod Tests
use third_party_vendor_risk.Base.{
  ℕ, zero, suc, ◌+◌, Bool, true, false, ◌&&◌, ◌||◌, Option, none, some, List, [], ◌∷◌, ◌++◌,
  nat_beq, leb, is_some, length, if◌then◌else◌,
}

-- What `session.get` comes to: a `RequestException`, or a response with its status, whether its
-- header says that the key is invalid, and its decoded body.
pub record Payload {ℓ} (A : Type ℓ) : Type ℓ where
  pub vulnerabilities : List A
  pub total : ℕ

pub data Reply {ℓ} (A : Type ℓ) : Type ℓ where
  network_error : Reply A
  response : (status : ℕ) (key_rejected : Bool) → Payload A → Reply A

-- `InvalidApiKeyError`, and the two messages of `VendorFetchError`.
pub data FetchError : Type 0 where
  invalid_api_key non_retryable gave_up : FetchError

pub data Fetched {ℓ} (A : Type ℓ) : Type ℓ where
  fetched : A → Fetched A
  refused : FetchError → Fetched A

pub record NvdConfig : Type 0 where
  pub has_api_key : Bool
  pub results_per_page : ℕ
  pub max_pages : Option ℕ
  pub retry_backoff : List ℕ
  pub pace : Option ℕ

-- `pacing`: `PACE_WITH_KEY`, `PACE_KEYLESS`
unfoldable pub pacing : NvdConfig → ℕ
pacing config = elim config.pace [ some p ↦ p | none ↦ if config.has_api_key then 6 else 60 ]

-- `RETRY_STATUS`
abbrev pub is_retryable : ℕ → Bool
is_retryable status = nat_beq status 403 || (nat_beq status 429 || nat_beq status 503)

-- What one round of the loop decides: an answer, or another round.
abbrev pub verdict {ℓ} : {A : Type ℓ} → Reply A → Option (Fetched (Payload A))
verdict network_error = none
verdict (response status key_rejected body) =
    if nat_beq status 200
    then some (fetched body)
    else if key_rejected
    then some (refused invalid_api_key)
    else if is_retryable status
    then none
    else some (refused non_retryable)

-- The result of `_get`, the requests made so far, and the time slept.
pub record Got {ℓ} (A : Type ℓ) : Type ℓ where
  pub result : Fetched (Payload A)
  pub requests : ℕ
  pub slept : ℕ

-- What a query comes to.
pub data Query {ℓ} (A : Type ℓ) : Type ℓ where
  complete : (vulnerabilities : List A) → (requests slept : ℕ) → Query A
  failed : FetchError → Query A
  out_of_fuel : Query A

-- `config.max_pages is not None and pages >= config.max_pages`
abbrev pub is_capped : Option ℕ → ℕ → Bool
is_capped none pages = false
is_capped (some max_pages) pages = leb max_pages pages

-- `capped or start_index >= total or not vulns`
abbrev pub is_last {ℓ} : {A : Type ℓ} → NvdConfig → (start pages : ℕ) → Payload A → Bool
is_last config start pages payload =
    is_capped config.max_pages pages
    || (leb payload.total start || nat_beq (length payload.vulnerabilities) 0)

module _ {ℓ} {A : Type ℓ} (send : (start request : ℕ) → Reply A) where
  -- The rounds of the loop from a request on, with the back-offs that are left.
  unfoldable pub attempt : (start request slept : ℕ) → List ℕ → Got A
  attempt start request slept [] = record {
    result = elim (verdict (send start request)) [ some answer ↦ answer | none ↦ refused gave_up ];
    requests = suc request;
    slept = slept;
  }
  attempt start request slept (backoff ∷ rest) = elim (verdict (send start request)) [
    | some answer ↦ record { result = answer; requests = suc request; slept = slept }
    | none ↦ attempt start (suc request) (slept + backoff) rest
  ]

  -- `_get`
  unfoldable pub get : NvdConfig → (start request slept : ℕ) → Got A
  get config start request slept =
      attempt start request (slept + pacing config) config.retry_backoff

  -- The loop of `fetch_query`, after `pages` pages, with what is merged so far.
  unfoldable pub fetch_from : NvdConfig → (fuel start pages request slept : ℕ) → List A → Query A
  fetch_from config zero start pages request slept merged = out_of_fuel
  fetch_from config (suc fuel) start pages request slept merged =
      let got = get config start request slept in
      elim got.result [
        | refused e ↦ failed e
        | fetched payload ↦
            let all = merged ++ payload.vulnerabilities in
            elim (is_last config (start + config.results_per_page) (suc pages) payload) [
              | true ↦ complete all got.requests got.slept
              | false ↦
                  fetch_from config fuel (start + config.results_per_page) (suc pages) got.requests
                    got.slept all
            ]
      ]

  unfoldable pub fetch_query : NvdConfig → (fuel : ℕ) → Query A
  unfolding fetch_from
  fetch_query config fuel = fetch_from config fuel 0 0 0 0 []
