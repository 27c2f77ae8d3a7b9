-- ===== src/Nvd/Pages.antt =====
-- The pagination of `fetch_query` in core/nvd_client.py.
use third_party_vendor_risk.Base.{
  ℕ, zero, suc, ◌+◌, ◌*◌, ◌≤◌, ◌<◌, ◌≡◌, refl, true, false, Option, none, some, List, [], ◌∷◌, ◌++◌,
  arith, length, nat_beq, nat_beq_iff, if◌then◌else◌, ◌⊎◌, inl, inr, Bool-cases,
}
use third_party_vendor_risk.Nvd.Retry.{get-Answered}
use third_party_vendor_risk.Nvd.{
  Payload, Reply, FetchError, Fetched, fetched, refused, verdict, get, NvdConfig, Query, complete,
  failed, fetch_from, fetch_query, is_capped, is_last,
}

module _ {ℓ} {A : Type ℓ} where
  abbrev pub take : ℕ → List A → List A
  take zero xs = []
  take (suc n) [] = []
  take (suc n) (x ∷ xs) = x ∷ take n xs

  abbrev pub drop : ℕ → List A → List A
  drop zero xs = xs
  drop (suc n) [] = []
  drop (suc n) (x ∷ xs) = drop n xs

  take-split : (n m : ℕ) (xs : List A) → take n xs ++ take m (drop n xs) ≡ take (n + m) xs
  take-split zero m xs = let same : 0 + m ≡ m = omega arith in rw same refl
  take-split (suc n) zero [] = let same : suc n + 0 ≡ suc n = omega arith in rw same refl
  take-split (suc n) (suc m) [] =
      let same : suc n + suc m ≡ suc (n + suc m) = omega arith in rw same refl
  take-split (suc n) m (x ∷ xs) =
      let same : suc n + m ≡ suc (n + m) = omega arith in rw (same, take-split n m xs) refl

  take_all : (n : ℕ) (xs : List A) → length xs ≤ n → take n xs ≡ xs
  take_all zero [] h = refl
  take_all zero (x ∷ xs) h = absurd (omega arith)
  take_all (suc n) [] h = refl
  take_all (suc n) (x ∷ xs) h = ground (arith, take_all n xs)

  drop_end : (n m : ℕ) (xs : List A) → 0 < m → length (take m (drop n xs)) ≡ 0 → length xs ≤ n
  drop_end zero zero xs pos h = absurd (omega arith)
  drop_end zero (suc m) [] pos h = omega arith
  drop_end zero (suc m) (x ∷ xs) pos h = absurd (omega arith)
  drop_end (suc n) m [] pos h = omega arith
  drop_end (suc n) m (x ∷ xs) pos h = ground (arith, drop_end n m xs)

-- The pages that are allowed; the first is always fetched.
abbrev page_limit : ℕ → ℕ
page_limit max_pages = if nat_beq max_pages 0 then 1 else max_pages

Fetched-cases {ℓ} :
    {A : Type ℓ} (r : Fetched A)
    → ((e : FetchError) × (r ≡ refused e)) ⊎ ((a : A) × (r ≡ fetched a))
Fetched-cases (fetched a) = inr (a, refl)
Fetched-cases (refused e) = inl (e, refl)

-- What a query should return: everything, or what the allowed pages hold.
abbrev pub wanted {ℓ} : {A : Type ℓ} → Option ℕ → (results_per_page : ℕ) → List A → List A
wanted none results_per_page all = all
wanted (some max_pages) results_per_page all =
    take ((if nat_beq max_pages 0 then 1 else max_pages) * results_per_page) all

abbrev IsAllowed : Option ℕ → ℕ → Type 0
IsAllowed none pages = Unit
IsAllowed (some max_pages) pages = pages < page_limit max_pages

module _ {ℓ} {A : Type ℓ} (all : List A) (size : ℕ) where
  wanted_full :
      (max : Option ℕ) (pages : ℕ)
      → IsAllowed max pages
      → length all ≤ suc pages * size
      → wanted max size all ≡ all
  wanted_full none pages allowed long = refl
  wanted_full (some max_pages) pages allowed long =
      let more : suc pages * size ≤ page_limit max_pages * size = grind arith in
      take_all (page_limit max_pages * size) all (omega (arith, more))

  wanted_capped :
      (max : Option ℕ) (pages : ℕ)
      → IsAllowed max pages
      → is_capped max (suc pages) ≡ true
      → wanted max size all ≡ take (suc pages * size) all
  wanted_capped none pages allowed capped = absurd (cc)
  wanted_capped (some max_pages) pages allowed capped =
      let same : page_limit max_pages ≡ suc pages = ground (arith, nat_beq_iff max_pages 0) in
      rw same refl

  still-IsAllowed :
      (max : Option ℕ) (pages : ℕ) → is_capped max (suc pages) ≡ false → IsAllowed max (suc pages)
  still-IsAllowed none pages open_still = tt
  still-IsAllowed (some max_pages) pages open_still = ground (arith, nat_beq_iff max_pages 0)

  first-IsAllowed : (max : Option ℕ) → IsAllowed max 0
  first-IsAllowed none = tt
  first-IsAllowed (some max_pages) = ground (arith, nat_beq_iff max_pages 0)

module _ {ℓ} {A : Type ℓ} (send : (start request : ℕ) → Reply A) (config : NvdConfig)
    (all : List A) where
  -- The page that starts at an index.
  abbrev pub page : ℕ → Payload A
  page start = record {
    vulnerabilities = take config.results_per_page (drop start all);
    total = length all;
  }

  -- Whatever is answered with success is the page asked for.
  abbrev pub Serves : Type ℓ
  Serves =
      (start request : ℕ) (p : Payload A)
      → verdict (send start request) ≡ some (fetched p)
      → p ≡ page start

  get-page :
      (start request slept : ℕ) (p : Payload A)
      → Serves
      → (get send config start request slept).result ≡ fetched p
      → p ≡ page start
  get-page start request slept p serves got =
      let a = get-Answered send config start request slept in
      elim a.answer [
        | inl answer ↦ serves start (request + a.rounds) p (rw got at answer)
        | inr (vain, last, up) ↦ absurd (cc)
      ]

  abbrev IsDone : Query A → Type ℓ
  IsDone q =
      ((requests : ℕ) × (slept : ℕ) × (q
          ≡ complete (wanted config.max_pages config.results_per_page all) requests slept))
      ⊎ ((e : FetchError) × (q ≡ failed e))

  -- What is merged when the loop stops.
  last_page :
      (start pages : ℕ)
      → 0 < config.results_per_page
      → start ≡ pages * config.results_per_page
      → IsAllowed config.max_pages pages
      → is_last config (start + config.results_per_page) (suc pages) (page start) ≡ true
      → take start all ++ take config.results_per_page (drop start all)
        ≡ wanted config.max_pages config.results_per_page all
  last_page start pages pos at allowed last =
      let size = config.results_per_page in
      let next : start + size ≡ suc pages * size = grind arith in
      rw (take-split start size all) (elim (Bool-cases (is_capped config.max_pages (suc pages))) [
        | inl capped ↦ rw (wanted_capped all size config.max_pages pages allowed capped, next) refl
        | inr open_still ↦
            let long : length all ≤ start + size = ground (
              arith,
              nat_beq_iff (length (take size (drop start all))) 0,
              drop_end start size all,
            ) in
            rw (wanted_full all size config.max_pages pages allowed (omega (arith, next)))
              (take_all (start + size) all long)
      ])

  fetch_from-IsDone :
      (fuel start pages request slept : ℕ)
      → Serves
      → 0 < config.results_per_page
      → start ≡ pages * config.results_per_page
      → IsAllowed config.max_pages pages
      → start ≤ length all
      → length all < start + fuel
      → IsDone (fetch_from send config fuel start pages request slept (take start all))
  unfolding fetch_from
  fetch_from-IsDone zero start pages request slept serves pos at allowed inside enough =
      absurd (omega arith)
  fetch_from-IsDone (suc fuel) start pages request slept serves pos at allowed inside enough =
      let size = config.results_per_page in
      let got = get send config start request slept in
      elim (Fetched-cases got.result) [
        | inl (e, h) ↦ rw (fetch_from, h) (inr (e, refl))
        | inr (p, h) ↦
            let asked = get-page start request slept p serves h in
            let served : got.result ≡ fetched (page start) = cc in
            elim (Bool-cases (is_last config (start + size) (suc pages) (page start))) [
              | inl last ↦
                  rw (fetch_from, served, last, last_page start pages pos at allowed last)
                    (inl (got.requests, got.slept, refl))
              | inr more ↦
                  rw (fetch_from, served, more, take-split start size all)
                    (fetch_from-IsDone fuel (start + size) (suc pages) got.requests got.slept serves
                      pos (grind arith)
                      (still-IsAllowed all size config.max_pages pages (ground (arith)))
                      (ground arith) (omega arith))
            ]
      ]

-- A query fails, or returns every CVE that the server has for it, each once and in order (with
-- `max_pages`, those of the allowed pages). It does not run on: one page more than there are CVEs
-- is enough. The pages are not empty, and the server answers a request either without success or
-- with the page asked for and the number of all results.
pub fetch_query-wanted {ℓ} :
    {A : Type ℓ} (send : (start request : ℕ) → Reply A) (config : NvdConfig) (all : List A)
    → ((start request : ℕ) (p : Payload A)
        → verdict (send start request) ≡ some (fetched p)
        → p ≡ page send config all start)
    → 0 < config.results_per_page
    → ((requests : ℕ) × (slept : ℕ) × (fetch_query send config (suc (length all))
          ≡ complete (wanted config.max_pages config.results_per_page all) requests slept))
      ⊎ ((e : FetchError) × (fetch_query send config (suc (length all)) ≡ failed e))
unfolding fetch_query
fetch_query-wanted send config all serves pos =
    fetch_from-IsDone send config all (suc (length all)) 0 0 0 0 serves pos (omega arith)
      (first-IsAllowed all config.results_per_page config.max_pages) (omega arith) (omega arith)
