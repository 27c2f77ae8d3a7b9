-- ===== src/RateLimit/Bucket.antt =====
-- The arithmetic of `TokenBucket` in app/workers/rate_limit.py, and the script against it.
use third_party_vendor_risk.Base.{
  ℕ, ◌+◌, ◌-◌, ◌*◌, ◌≤◌, ◌<◌, ◌≡◌, true, false, some, ltb, if◌then◌else◌, arith, subst, leb, inl,
  inr, Bool-cases,
}
use third_party_vendor_risk.RateLimit.{
  BucketSpec, Hash, replenish, wait_for, consume, read_hash, refill_hash, script,
}

-- Waiting for a deficit takes some time.
pub wait_for_pos :
    (spec : BucketSpec) (deficit r : ℕ) → 0 < deficit → wait_for spec deficit ≡ some r → 0 < r
unfolding wait_for
wait_for_pos spec deficit r pos h = ground arith

refill_hash-eq-replenish :
    (spec : BucketSpec) (now : ℕ) (h : Hash)
    → h.tokens ≤ spec.capacity
    → ((refill_hash spec now h).tokens ≡ replenish spec h.tokens h.ts now)
      × ((refill_hash spec now h).ts ≡ (if ltb h.ts now then now else h.ts))
      × ((refill_hash spec now h).tokens ≤ spec.capacity)
unfolding refill_hash replenish
refill_hash-eq-replenish spec now h full = ground arith

-- The bucket has what is needed once enough time has passed.
replenish-ge :
    (spec : BucketSpec) (tokens now later needed : ℕ)
    → needed ≤ spec.capacity
    → needed ≤ tokens + (later - now) * spec.refill
    → needed ≤ replenish spec tokens now later
unfolding replenish
replenish-ge spec tokens now later needed fits enough = elim (Bool-cases (leb later now)) [
  | inr passed ↦ ground arith
  | inl early ↦
      let none_passed : later - now ≡ 0 = ground arith in
      let enough_now : needed ≤ tokens + 0 * spec.refill =
        subst (λ d. needed ≤ tokens + d * spec.refill) none_passed enough in
      ground arith
]

-- The script and `TokenBucket.consume` decide alike: for a bucket that holds at most its capacity,
-- the same answer, the same tokens left and the same wait; and the bucket still holds at most its
-- capacity afterwards, at the later of the two times.
pub script-eq-consume :
    (spec : BucketSpec) (now amount reserve : ℕ) (h : Hash)
    → h.tokens ≤ spec.capacity
    → ((script spec now amount reserve (some h)).0 ≡ consume spec h.tokens h.ts now amount reserve)
      × ((script spec now amount reserve (some h)).1.tokens
          ≡ (consume spec h.tokens h.ts now amount reserve).tokens)
      × ((script spec now amount reserve (some h)).1.ts ≡ (if ltb h.ts now then now else h.ts))
      × ((script spec now amount reserve (some h)).1.tokens ≤ spec.capacity)
unfolding script consume read_hash
script-eq-consume spec now amount reserve h full =
    ground (arith, refill_hash-eq-replenish spec now h full)

-- Whoever is refused and waits at least as long as told, while no one else draws, is served: if the request
-- and its reserve fit in the bucket and the bucket refills, the next attempt is allowed.
pub consume_retry :
    (spec : BucketSpec) (tokens last_ts now amount reserve retry later : ℕ)
    → amount + reserve ≤ spec.capacity
    → (consume spec tokens last_ts now amount reserve).allowed ≡ false
    → (consume spec tokens last_ts now amount reserve).retry_after ≡ some retry
    → retry ≤ (later - now) * spec.refill
    → (consume spec
        (consume spec tokens last_ts now amount reserve).tokens
        now
        later
        amount
        reserve).allowed
      ≡ true
unfolding consume wait_for
consume_retry spec tokens last_ts now amount reserve retry later fits refused told waits =
    let available = replenish spec tokens last_ts now in
    let short : available < amount + reserve = ground arith in
    let exact : retry ≡ amount + reserve - available = ground arith in
    let enough =
      replenish-ge spec available now later (amount + reserve) fits (omega (arith, waits, exact)) in
    ground (arith, enough)
