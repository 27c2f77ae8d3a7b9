-- ===== src/RateLimit/Tests.antt =====
-- Concrete runs of the bucket of app/workers/rate_limit.py.
use third_party_vendor_risk.Base.{
  ℕ, ◌+◌, ◌*◌, ◌≤◌, ◌≡◌, refl, Option, some, [], ◌∷◌, ltb, if◌then◌else◌, arith, List,
}
use third_party_vendor_risk.RateLimit.{
  BucketSpec, Hash, from_window, wait_for, consume, script, read_hash, refill_hash, expire, acquire,
  acquire_from,
}
use third_party_vendor_risk.RateLimit.Bucket.{script-eq-consume}
use third_party_vendor_risk.RateLimit.Limit.{Call, draw, draw-le_limit}

-- Fifty requests in thirty seconds, in thirtieths of a request.
abbrev keyed : BucketSpec
keyed = record { capacity = 1500; refill = 50 }

abbrev drained : Hash
drained = record { tokens = 20; ts = 100 }

from_window_test : from_window 30 50 30 ≡ keyed
unfolding from_window
from_window_test = refl

script-eq-consume_example :
    ((script keyed 101 30 60 (some drained)).0 ≡ consume keyed 20 100 101 30 60)
    × ((script keyed 101 30 60 (some drained)).1.tokens ≡ (consume keyed 20 100 101 30 60).tokens)
    × ((script keyed 101 30 60 (some drained)).1.ts ≡ (if ltb 100 101 then 101 else 100))
    × ((script keyed 101 30 60 (some drained)).1.tokens ≤ 1500)
script-eq-consume_example = script-eq-consume keyed 101 30 60 drained (omega arith)

abbrev calls : List Call
calls =
    record { now = 101; amount = 30; reserve = 0 }
    ∷ record { now = 101; amount = 30; reserve = 0 }
    ∷ record { now = 102; amount = 30; reserve = 0 }
    ∷ []

draw_test : (draw keyed 3600 (some drained) calls).0 ≡ 90
unfolding draw script expire read_hash refill_hash
draw_test = refl

draw-le_limit_example : (draw keyed 3600 (some drained) calls).0 ≤ 1500 + 2 * 50
draw-le_limit_example =
    draw-le_limit keyed 3600 100 102 (some drained) calls (omega arith) (omega arith, omega arith)
      ((omega arith, omega arith), ((omega arith, omega arith), ((omega arith, omega arith), tt)))

abbrev one_slow_bucket : ℕ → Option Hash
one_slow_bucket i = some drained

abbrev ticks : ℕ → ℕ
ticks i = 100 + i

acquire_test : (acquire keyed 30 60 120 5 one_slow_bucket ticks).slept ≡ 10
unfolding acquire acquire_from script read_hash refill_hash wait_for
acquire_test = refl
