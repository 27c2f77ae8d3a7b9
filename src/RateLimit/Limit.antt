-- ===== src/RateLimit/Limit.antt =====
-- What all workers together draw from one bucket of app/workers/rate_limit.py in a window of time.
use third_party_vendor_risk.Base.{
  ℕ, ◌+◌, ◌-◌, ◌*◌, ◌≤◌, ◌≡◌, Option, none, some, List, [], ◌∷◌, ltb, if◌then◌else◌, arith, All,
}
use third_party_vendor_risk.RateLimit.{BucketSpec, Hash, read_hash, refill_hash, script, expire}

-- One run of the script by some worker, with the time that the worker's own clock shows.
pub record Call : Type 0 where
  pub now : ℕ
  pub amount : ℕ
  pub reserve : ℕ

-- The tokens that a sequence of calls draws, and the hash that it leaves.
unfoldable pub draw : BucketSpec → (ttl : ℕ) → Option Hash → List Call → ℕ × Option Hash
draw spec ttl state [] = (0, state)
draw spec ttl state (c ∷ cs) =
    let (d, h) = script spec c.now c.amount c.reserve (expire ttl c.now state) in
    let (rest, last) = draw spec ttl (some h) cs in
    ((if d.allowed then c.amount else 0) + rest, last)

-- The hash holds at most the capacity, and was refilled by the time `t`.
abbrev pub IsFull : BucketSpec → ℕ → Option Hash → Type 0
IsFull spec t none = Unit
IsFull spec t (some h) = (h.tokens ≤ spec.capacity) × (h.ts ≤ t)

module _ (spec : BucketSpec) (ttl from until : ℕ) (lasts : spec.capacity ≤ ttl * spec.refill) where
  -- What can still be drawn between the two times.
  left_to_draw : Option Hash → ℕ
  left_to_draw none = spec.capacity + (until - from) * spec.refill
  left_to_draw (some h) =
      if ltb h.ts from
      then spec.capacity + (until - from) * spec.refill
      else h.tokens + (until - h.ts) * spec.refill

  elapsed_split :
      (a b : ℕ)
      → a ≤ b
      → b ≤ until
      → (b - a) * spec.refill + (until - b) * spec.refill ≡ (until - a) * spec.refill
  elapsed_split a b h k = grind arith

  elapsed_ttl :
      (a b : ℕ)
      → a + ttl ≤ b
      → b ≤ until
      → spec.capacity + (until - b) * spec.refill ≤ (until - a) * spec.refill
  elapsed_ttl a b h k =
      let long : ttl * spec.refill ≤ (b - a) * spec.refill = grind arith in
      omega (arith, elapsed_split a b (omega arith) k)

  elapsed_mono : (a b : ℕ) → a ≤ b → (until - b) * spec.refill ≤ (until - a) * spec.refill
  elapsed_mono a b h = grind arith

  -- The hash as a call finds it once it is refilled: refilled by the time of the call, and with no
  -- more left to draw than before.
  record Refills (now : ℕ) (before : Option Hash) (hash : Hash) : Type 0 where
    full : hash.tokens ≤ spec.capacity
    recent : now ≤ hash.ts
    early : hash.ts ≤ until
    left : hash.tokens + (until - hash.ts) * spec.refill ≤ left_to_draw before

  refills :
      (now : ℕ) (state : Option Hash)
      → from ≤ now
      → now ≤ until
      → IsFull spec until state
      → Refills now state (refill_hash spec now (read_hash spec now (expire ttl now state)))
  unfolding expire read_hash refill_hash left_to_draw
  refills now none since before full = record {
    full = ground arith;
    recent = ground arith;
    early = ground arith;
    left = ground (arith, elapsed_mono from now);
  }
  refills now (some h) since before full = record {
    full = ground arith;
    recent = ground arith;
    early = ground arith;
    left = ground (arith, elapsed_split h.ts now, elapsed_ttl h.ts now, elapsed_mono from now);
  }

  left_to_draw-some :
      (ts tokens : ℕ)
      → from ≤ ts
      → left_to_draw (some (record { tokens = tokens; ts = ts }))
        ≡ tokens + (until - ts) * spec.refill
  unfolding left_to_draw
  left_to_draw-some ts tokens h = ground arith

  script-draws :
      (now amount reserve : ℕ) (state : Option Hash)
      → from ≤ now
      → now ≤ until
      → IsFull spec until state
      → let (d, h) = script spec now amount reserve (expire ttl now state) in
        (IsFull spec until (some h))
        × ((if d.allowed then amount else 0) + left_to_draw (some h) ≤ left_to_draw state)
  unfolding script
  script-draws now amount reserve state since before full =
      let g = refill_hash spec now (read_hash spec now (expire ttl now state)) in
      let r = refills now state since before full in
      ground (
        arith,
        r.full,
        r.recent,
        r.early,
        r.left,
        left_to_draw-some g.ts g.tokens,
        left_to_draw-some g.ts (g.tokens - amount),
      )

  draw-bounded :
      (cs : List Call) (state : Option Hash)
      → All (λ c. (from ≤ c.now) × (c.now ≤ until)) cs
      → IsFull spec until state
      → (draw spec ttl state cs).0 ≤ left_to_draw state
  unfolding draw
  draw-bounded [] state within full = omega arith
  draw-bounded (c ∷ cs) state within full =
      let (d, h) = script spec c.now c.amount c.reserve (expire ttl c.now state) in
      let step = script-draws c.now c.amount c.reserve state within.0.0 within.0.1 full in
      omega (arith, step.1, draw-bounded cs (some h) within.1 step.0)

module _ (spec : BucketSpec) (ttl from until : ℕ) (lasts : spec.capacity ≤ ttl * spec.refill) where
  left_to_draw-le :
      (state : Option Hash)
      → IsFull spec until state
      → left_to_draw spec ttl from until lasts state ≤ spec.capacity + (until - from) * spec.refill
  unfolding left_to_draw
  left_to_draw-le none full = omega arith
  left_to_draw-le (some h) full = ground (arith, elapsed_mono spec ttl from until lasts from h.ts)

-- However many workers call, and in whatever order their clocks run: in a window of time the
-- calls draw at most the capacity and what the bucket refills in the window, provided that the
-- bucket's hash lives long enough to refill the capacity.
pub draw-le_limit :
    (spec : BucketSpec) (ttl from until : ℕ) (state : Option Hash) (cs : List Call)
    → spec.capacity ≤ ttl * spec.refill
    → IsFull spec until state
    → All (λ c. (from ≤ c.now) × (c.now ≤ until)) cs
    → (draw spec ttl state cs).0 ≤ spec.capacity + (until - from) * spec.refill
draw-le_limit spec ttl from until state cs lasts full within = omega (
  arith,
  draw-bounded spec ttl from until lasts cs state within full,
  left_to_draw-le spec ttl from until lasts state full,
)
