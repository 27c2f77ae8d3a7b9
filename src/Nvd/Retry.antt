-- ===== src/Nvd/Retry.antt =====
-- The retries of `_get` in core/nvd_client.py.
use third_party_vendor_risk.Base.{
  ℕ, zero, suc, ◌+◌, ◌≤◌, ◌<◌, ◌≡◌, refl, none, some, List, [], ◌∷◌, arith, length, ◌⊎◌, inl, inr,
  Option-cases,
}
use third_party_vendor_risk.Nvd.{
  Payload, Reply, Fetched, refused, gave_up, verdict, Got, attempt, get, NvdConfig, pacing,
}

-- `sum(backoffs)` of the first `n`.
abbrev pub backoff_sum : ℕ → List ℕ → ℕ
backoff_sum zero backoffs = 0
backoff_sum (suc n) [] = 0
backoff_sum (suc n) (b ∷ rest) = b + backoff_sum n rest

module _ {ℓ} {A : Type ℓ} (send : (start request : ℕ) → Reply A) where
  -- How a call came to its result: `rounds` requests in vain, each followed by its back-off, and a
  -- last request, which is answered unless it was the last one allowed.
  pub record Answered (start request slept : ℕ) (backoffs : List ℕ) (got : Got A) : Type ℓ where
    pub rounds : ℕ
    pub within : rounds ≤ length backoffs
    pub in_vain : (i : ℕ) → i < rounds → verdict (send start (request + i)) ≡ none
    pub requests : got.requests ≡ request + suc rounds
    pub slept_for : got.slept ≡ slept + backoff_sum rounds backoffs
    pub answer :
        (verdict (send start (request + rounds)) ≡ some got.result)
        ⊎ (verdict (send start (request + rounds)) ≡ none)
          × (rounds ≡ length backoffs)
          × (got.result ≡ refused gave_up)

  one_more :
      (start request n : ℕ)
      → verdict (send start request) ≡ none
      → ((i : ℕ) → i < n → verdict (send start (suc request + i)) ≡ none)
      → (i : ℕ) → i < suc n
      → verdict (send start (request + i)) ≡ none
  one_more start request n first rest zero h =
      let here : request + 0 ≡ request = omega arith in rw here first
  one_more start request n first rest (suc i) h =
      let next : request + suc i ≡ suc request + i = omega arith in rw next (rest i (omega arith))

  at_once :
      (start request slept : ℕ) (backoffs : List ℕ) (answer : Fetched (Payload A))
      → verdict (send start request) ≡ some answer
      → Answered start request slept backoffs
          (record { result = answer; requests = suc request; slept = slept })
  at_once start request slept backoffs answer h =
      let here : request + 0 ≡ request = omega arith in
      record {
        rounds = 0;
        within = omega arith;
        in_vain = λ i less. absurd (omega arith);
        requests = omega arith;
        slept_for = omega arith;
        answer = inl (rw here h);
      }

  attempt-Answered :
      (start request slept : ℕ) (backoffs : List ℕ)
      → Answered start request slept backoffs (attempt send start request slept backoffs)
  unfolding attempt
  attempt-Answered start request slept [] = elim (Option-cases (verdict (send start request))) [
    | inl vain ↦
        let here : request + 0 ≡ request = omega arith in
        record {
          rounds = 0;
          within = omega arith;
          in_vain = λ i less. absurd (omega arith);
          requests = omega arith;
          slept_for = omega arith;
          answer = inr (rw here vain, refl, rw (attempt, vain) refl);
        }
    | inr (answer, h) ↦ rw (attempt, h) (at_once start request slept [] answer h)
  ]
  attempt-Answered start request slept (b ∷ rest) =
      elim (Option-cases (verdict (send start request))) [
        | inl vain ↦
            let r = attempt-Answered start (suc request) (slept + b) rest in
            let next : request + suc r.rounds ≡ suc request + r.rounds = omega arith in
            rw (attempt, vain)
              (record {
                rounds = suc r.rounds;
                within = omega (arith, r.within);
                in_vain = one_more start request r.rounds vain r.in_vain;
                requests = omega (arith, r.requests);
                slept_for = omega (arith, r.slept_for);
                answer = rw next (elim r.answer [
                  | inl some_answer ↦ inl some_answer
                  | inr (none_left, last, up) ↦ inr (none_left, omega arith, up)
                ]);
              })
        | inr (answer, h) ↦ rw (attempt, h) (at_once start request slept (b ∷ rest) answer h)
      ]

  -- How `_get` ends: after requests in vain, each followed by its own back-off, and never more of
  -- them than there are back-offs, one that is answered; or the last one allowed is in vain too, and
  -- it gives up. It makes one request more than those, and sleeps for the pacing and the back-offs
  -- before it.
  pub get-Answered :
      (config : NvdConfig) (start request slept : ℕ)
      → Answered start request
          (slept + pacing config)
          config.retry_backoff
          (get send config start request slept)
  unfolding get
  get-Answered config start request slept =
      attempt-Answered start request (slept + pacing config) config.retry_backoff
