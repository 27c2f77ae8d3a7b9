-- ===== src/RateLimit/Acquire.antt =====
-- The loop of `RedisRateLimiter.acquire` in app/workers/rate_limit.py.
use third_party_vendor_risk.Base.{
  ℕ, zero, suc, ◌+◌, ◌-◌, ◌≤◌, ◌<◌, ◌≡◌, true, false, Option, none, some, ltb, minb, arith, inl,
  inr, Bool-cases, Option-cases,
}
use third_party_vendor_risk.RateLimit.{
  BucketSpec, Decision, Hash, Acquired, granted, cannot_refill, timed_out, read_hash, refill_hash,
  script, acquire_from, acquire,
}
use third_party_vendor_risk.RateLimit.Bucket.{wait_for_pos}

-- A wait that the script asks for is more than nothing.
script-wait_pos :
    (spec : BucketSpec) (now amount reserve retry : ℕ) (state : Option Hash)
    → (script spec now amount reserve state).0.allowed ≡ false
    → (script spec now amount reserve state).0.retry_after ≡ some retry
    → 0 < retry
unfolding script
script-wait_pos spec now amount reserve retry state refused told =
    let h = refill_hash spec now (read_hash spec now state) in
    ground (arith, wait_for_pos spec (amount + reserve - h.tokens) retry)

module _ (spec : BucketSpec) (amount reserve max_wait poll_ceiling : ℕ) (bucket : ℕ → Option Hash)
    (clock : ℕ → ℕ) where
  abbrev pub decision : ℕ → Decision
  decision i = (script spec (clock i) amount reserve (bucket i)).0

  -- The loop as a relation: from the `i`-th attempt, after `waited` fractions of a tick, a call can end as the
  -- last index says.
  pub data Run : ℕ → ℕ → Acquired → Type 0 where
    run_granted :
        {i w : ℕ} → (decision i).allowed ≡ true → Run i w (record { outcome = granted; slept = w })
    run_stuck :
        {i w : ℕ}
        → (decision i).allowed ≡ false
        → (decision i).retry_after ≡ none
        → Run i w (record { outcome = cannot_refill; slept = w })
    run_late :
        {i w : ℕ}
        → (retry : ℕ) → (decision i).allowed ≡ false
        → (decision i).retry_after ≡ some retry
        → max_wait < w + minb retry poll_ceiling
        → Run i w (record { outcome = timed_out; slept = w })
    run_sleep :
        {i w : ℕ}
        → {a : Acquired} → (retry : ℕ) → (decision i).allowed ≡ false
        → (decision i).retry_after ≡ some retry
        → w + minb retry poll_ceiling ≤ max_wait
        → Run (i + 1) (w + minb retry poll_ceiling) a
        → Run i w a

  acquire_from_runs :
      (fuel i w : ℕ)
      → 0 < poll_ceiling
      → max_wait < w + fuel
      → w ≤ max_wait
      → Run i w (acquire_from spec amount reserve max_wait poll_ceiling bucket clock fuel i w)
  unfolding acquire_from
  acquire_from_runs zero i w polls enough within = absurd (omega arith)
  acquire_from_runs (suc fuel) i w polls enough within = elim (Bool-cases (decision i).allowed) [
    | inl served ↦ rw (acquire_from, served) (run_granted served)
    | inr refused ↦ elim (Option-cases (decision i).retry_after) [
      | inl never ↦ rw (acquire_from, refused, never) (run_stuck refused never)
      | inr (retry, told) ↦
          let wait = minb retry poll_ceiling in
          let pos : 0 < wait =
            ground (
              arith,
              script-wait_pos spec (clock i) amount reserve retry (bucket i) refused told,
            ) in
          rw (acquire_from, refused, told)
            (elim (Bool-cases (ltb max_wait (w + wait))) [
              | inl late ↦ rw late (run_late retry refused told (ground arith))
              | inr early ↦ rw early (
                  run_sleep retry refused told (ground arith)
                    (acquire_from_runs fuel (i + 1) (w + wait) polls (omega arith) (ground arith)))
            ])
    ]
  ]

  Run-slept : {i w : ℕ} → {a : Acquired} → w ≤ max_wait → Run i w a → a.slept ≤ max_wait
  Run-slept within (run_granted served) = within
  Run-slept within (run_stuck refused never) = within
  Run-slept within (run_late retry refused told late) = within
  Run-slept within (run_sleep retry refused told early rest) = Run-slept early rest

  -- A call of `acquire` ends: with a positive polling ceiling, the rounds that it is given are enough
  -- for the unbounded loop to reach its end, a token, a bucket that cannot refill or a timeout, and
  -- it has slept for at most `max_wait`.
  pub acquire_runs :
      0 < poll_ceiling
      → Run 0 0 (acquire spec amount reserve max_wait poll_ceiling bucket clock)
        × ((acquire spec amount reserve max_wait poll_ceiling bucket clock).slept ≤ max_wait)
  unfolding acquire
  acquire_runs polls =
      let runs = acquire_from_runs (suc (suc max_wait)) 0 0 polls (omega arith) (omega arith) in
      (runs, Run-slept (omega arith) runs)
