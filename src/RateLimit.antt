-- ===== src/RateLimit.antt =====
-- app/workers/rate_limit.py: the token bucket, the script that runs it in Redis, and the loop that
-- waits for a token. Floats are read in fixed point: tokens in equal parts of a token, time in
-- ticks, and `refill_per_sec` as parts per tick. A wait is a deficit divided by `refill`, and is kept
-- exact: it is counted in such fractions of a tick, as are the ceilings of the loop. `none` stands for the wait of -1, of a bucket that never refills.
pub mod Bucket
pub mod Limit
pub mod Acquire
mod Tests
use third_party_vendor_risk.Base.{
  ℕ, zero, suc, ◌+◌, ◌-◌, ◌*◌, ◌/◌, Bool, true, false, Option, none, some, leb, ltb, minb,
  if◌then◌else◌,
}

pub record BucketSpec : Type 0 where
  pub capacity : ℕ
  pub refill : ℕ

-- `from_window`, with `parts` of a token; exact where the window divides them.
unfoldable pub from_window : (parts per_window window : ℕ) → BucketSpec
from_window parts per_window window = record {
  capacity = per_window * parts;
  refill = if ltb 0 window then per_window * parts / window else 0;
}

pub record Decision : Type 0 where
  pub allowed : Bool
  pub tokens : ℕ
  pub retry_after : Option ℕ

unfoldable pub replenish : BucketSpec → (tokens last_ts now : ℕ) → ℕ
replenish spec tokens last_ts now =
    if leb now last_ts
    then minb spec.capacity tokens
    else minb spec.capacity (tokens + (now - last_ts) * spec.refill)

-- `deficit / refill` if the bucket refills, else -1: so many times 1 / refill of a tick.
unfoldable pub wait_for : BucketSpec → ℕ → Option ℕ
wait_for spec deficit = if ltb 0 spec.refill then some deficit else none

unfoldable pub consume : BucketSpec → (tokens last_ts now amount reserve : ℕ) → Decision
consume spec tokens last_ts now amount reserve =
    let available = replenish spec tokens last_ts now in
    let needed = amount + reserve in
    if leb needed available
    then record { allowed = true; tokens = available - amount; retry_after = some 0 }
    else record {
      allowed = false;
      tokens = available;
      retry_after = wait_for spec (needed - available);
    }

-- The hash of a bucket in Redis.
pub record Hash : Type 0 where
  pub tokens : ℕ
  pub ts : ℕ

-- `if tokens == nil then tokens = capacity; ts = now end`
unfoldable pub read_hash : BucketSpec → (now : ℕ) → Option Hash → Hash
read_hash spec now none = record { tokens = spec.capacity; ts = now }
read_hash spec now (some h) = h

-- `if now > ts then ... end`
unfoldable pub refill_hash : BucketSpec → (now : ℕ) → Hash → Hash
refill_hash spec now h =
    if ltb h.ts now
    then record { tokens = minb spec.capacity (h.tokens + (now - h.ts) * spec.refill); ts = now }
    else h

-- `_LUA`: what it returns, and the hash that it writes.
unfoldable pub script : BucketSpec → (now amount reserve : ℕ) → Option Hash → Decision × Hash
script spec now amount reserve state =
    let h = refill_hash spec now (read_hash spec now state) in
    if leb (amount + reserve) h.tokens
    then (
      record { allowed = true; tokens = h.tokens - amount; retry_after = some 0 },
      record h { tokens = h.tokens - amount },
    )
    else (
      record {
        allowed = false;
        tokens = h.tokens;
        retry_after = wait_for spec (amount + reserve - h.tokens);
      },
      h,
    )

-- `EXPIRE key ttl`, read on the clocks of the callers: the hash is gone once `ttl` ticks have
-- passed since the time that it carries.
unfoldable pub expire : (ttl now : ℕ) → Option Hash → Option Hash
expire ttl now none = none
expire ttl now (some h) = if leb (h.ts + ttl) now then none else some h

pub data Ending : Type 0 where
  granted cannot_refill timed_out out_of_fuel : Ending

-- How a call of `acquire` ended, and how long it slept.
pub record Acquired : Type 0 where
  pub outcome : Ending
  pub slept : ℕ

-- `acquire`. The `i`-th attempt finds the bucket as `bucket i`, whatever other workers have done
-- to it, at the time `clock i`. `max_wait` and `poll_ceiling` are in the fractions of a tick that
-- waits are counted in.
module _ (spec : BucketSpec) (amount reserve max_wait poll_ceiling : ℕ) (bucket : ℕ → Option Hash)
    (clock : ℕ → ℕ) where
  unfoldable pub acquire_from : (fuel i waited : ℕ) → Acquired
  acquire_from zero i waited = record { outcome = out_of_fuel; slept = waited }
  acquire_from (suc fuel) i waited =
      let d = (script spec (clock i) amount reserve (bucket i)).0 in
      let ended =
        λ (o : Ending). (let a : Acquired = record { outcome = o; slept = waited } in a) in
      elim d.allowed [
        | true ↦ ended granted
        | false ↦ elim d.retry_after [
          | none ↦ ended cannot_refill
          | some retry ↦
              let wait = minb retry poll_ceiling in
              let rest = acquire_from fuel (i + 1) (waited + wait) in
              if ltb max_wait (waited + wait) then ended timed_out else rest
        ]
      ]

  -- Each round waits at least such a fraction of a tick, so `max_wait` rounds and one more are enough.
  unfoldable pub acquire : Acquired
  unfolding acquire_from
  acquire = acquire_from (suc (suc max_wait)) 0 0
