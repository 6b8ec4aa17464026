-- ===== src/Limiter.antt =====
-- The token buckets of center/server/middleware.go: rateBucket, RateLimiter, Allow and cleanup. A time
-- is a number of nanoseconds on the monotonic clock that time.Now reads.
pub mod Laws
pub mod Steady
pub mod Clients
pub mod Burst
pub mod Cleanup
use swarm_compute.Base.{
  ℕ, ◌+◌, ◌*◌, ◌<◌, String, List, [], ◌∷◌, none, some, Bool, true, false, ltb, if◌then◌else◌,
}
use swarm_compute.Base.Int.{ℤ, pos, ◌-ℤ◌}
use swarm_compute.Base.Map.{lookup, insert}
use swarm_compute.Base.Float64.{Float64, const_f, lt_f}

pub record RateBucket (N : Type 0) : Type 0 where
  pub tokens : N
  pub last_time : ℕ
  pub rate_per_sec : N
  pub burst : N

pub record RateLimiter (N : Type 0) : Type 0 where
  pub buckets : List (String × RateBucket N)
  pub rate : N
  pub burst : N

-- NewRateLimiter, without the goroutine that calls cleanup every five minutes
abbrev pub new_rate_limiter : {N : Type 0} → N → N → RateLimiter N
new_rate_limiter rate_per_sec burst = record { buckets = []; rate = rate_per_sec; burst = burst }

-- `10 * time.Minute`
abbrev pub stale_after : ℕ
stale_after = 600_000_000_000

module _ {N : Type 0} where
  -- `b.lastTime.Before(cutoff)`
  abbrev pub is_stale : ℕ → RateBucket N → Bool
  is_stale now b = ltb (b.last_time + stale_after) now

  -- `for ip, b := range rl.buckets { if ... { delete(rl.buckets, ip) } }`
  unfoldable pub drop_stale : ℕ → List (String × RateBucket N) → List (String × RateBucket N)
  drop_stale now [] = []
  drop_stale now ((ip, b) ∷ rest) =
      let kept = drop_stale now rest in if is_stale now b then kept else (ip, b) ∷ kept

  unfoldable pub cleanup : ℕ → RateLimiter N → RateLimiter N
  unfolding drop_stale
  cleanup now rl = record rl { buckets = drop_stale now rl.buckets }

module _ {N : Type 0} ⦃fl : Float64 N⦄ where
  abbrev pub new_bucket : ℕ → RateLimiter N → RateBucket N
  new_bucket now rl = record {
    tokens = fl.sub_f rl.burst (const_f 1);
    last_time = now;
    rate_per_sec = rl.rate;
    burst = rl.burst;
  }

  -- from the test of the tokens on
  unfoldable pub take_token : RateBucket N → Bool × RateBucket N
  take_token b =
      if lt_f b.tokens (const_f 1)
      then (false, b)
      else (true, record b { tokens = fl.sub_f b.tokens (const_f 1) })

  -- `seconds` is Duration.Seconds.
  module _ (seconds : ℤ → N) where
    -- from `elapsed` to `b.lastTime = now`
    unfoldable pub refill : ℕ → RateBucket N → RateBucket N
    unfolding ◌-ℤ◌
    refill now b =
        let elapsed = seconds (pos now -ℤ pos b.last_time) in
        let tokens = fl.add_f b.tokens (fl.mul_f elapsed b.rate_per_sec) in
        record b { tokens = if lt_f b.burst tokens then b.burst else tokens; last_time = now }

    -- The bucket is behind a pointer: the map holds what has become of it.
    unfoldable pub allow : String → ℕ → RateLimiter N → Bool × RateLimiter N
    unfolding refill take_token lookup insert
    allow ip now rl = elim (lookup ip rl.buckets) [
      | none ↦ (true, record rl { buckets = insert ip (new_bucket now rl) rl.buckets })
      | some b ↦
          let (granted, b') = take_token (refill now b) in
          (granted, record rl { buckets = insert ip b' rl.buckets })
    ]
