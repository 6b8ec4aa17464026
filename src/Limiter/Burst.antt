-- ===== src/Limiter/Burst.antt =====
-- How many requests of one client are granted at one instant.
use swarm_compute.Base.{
  ℕ, zero, suc, ◌+◌, ◌-◌, ◌^◌, ◌≤◌, ◌≡◌, refl, ap, ◌∙◌, String, none, some, Bool, true, false, not,
  min, arith,
}
use swarm_compute.Base.Int.{ℤ, pos, ◌+ℤ◌, leb_ℤ, IsExact, eq_of_parts, int_laws}
use swarm_compute.Base.Map.{lookup}
use swarm_compute.Base.Float64.{Float64, FloatLaws, FloatArith, const_f, lt_f}
use swarm_compute.Limiter.{RateBucket, RateLimiter, refill, take_token, allow}
use swarm_compute.Limiter.Laws.{IsClock, elapsed_lem}
use swarm_compute.Limiter.Clients.{served, allow-served}

abbrev pub one_if : Bool → ℕ
one_if true = 1
one_if false = 0

module _ {N : Type 0} ⦃fl : Float64 N⦄ (seconds : ℤ → N) where
  -- how many of `k` requests of one client at one time are granted
  unfoldable pub grants : ℕ → String → ℕ → RateLimiter N → ℕ
  grants zero ip now rl = 0
  grants (suc k) ip now rl =
      let (granted, rl') = allow seconds ip now rl in one_if granted + grants k ip now rl'

module _ {N : Type 0} ⦃fl : Float64 N⦄ (laws : FloatLaws N) (arith_laws : FloatArith N)
    (seconds : ℤ → N) (clock : IsClock N seconds) (ip : String) (now rate burst : ℕ)
    (rate_fits : rate ≤ 2 ^ 53) (burst_fits : burst ≤ 2 ^ 53) where
  -- a bucket with a whole number of tokens
  abbrev whole_bucket : ℕ → RateBucket N
  whole_bucket tokens = record {
    tokens = const_f tokens;
    last_time = now;
    rate_per_sec = const_f rate;
    burst = const_f burst;
  }

  lt_f-const :
      (a b : ℕ)
      → a ≤ 2 ^ 53
      → b ≤ 2 ^ 53
      → lt_f {N = N} (const_f a) (const_f b) ≡ not (leb_ℤ (pos b) (pos a))
  lt_f-const a b h k =
      rw (laws.le_exact (pos b) (pos a) (omega arith, omega arith) (omega arith, omega arith)) refl

  const-plus_zero : (n : ℕ) → n ≤ 2 ^ 53 → fl.add_f (const_f n) (const_f 0) ≡ const_f n
  const-plus_zero n h =
      let total : (pos n +ℤ pos 0) ≡ pos n =
        eq_of_parts (pos n +ℤ pos 0) (pos n) (omega int_laws) in
      let exact : IsExact (pos n +ℤ pos 0) = rw total (omega arith, omega arith) in
      laws.add_exact (pos n) (pos 0) (omega arith, omega arith) (omega arith, omega arith) exact
      ∙ ap fl.of_int total

  -- No time passes, and no token comes back.
  refill-whole_bucket :
      (tokens : ℕ) → tokens ≤ burst → refill seconds now (whole_bucket tokens) ≡ whole_bucket tokens
  unfolding refill
  refill-whole_bucket tokens h =
      let same : now - now ≡ 0 = omega arith in
      let no_gain : fl.mul_f (const_f 0) (const_f rate) ≡ const_f 0 =
        arith_laws.mul_whole 0 rate (omega arith) rate_fits (omega arith)
        ∙ ap (λ (n : ℕ). fl.of_int (pos n)) (omega arith) in
      let room : lt_f {N = N} (const_f burst) (const_f tokens) ≡ false =
        lt_f-const burst tokens (omega arith) (omega arith) ∙ ground arith in
      rw
        (
          refill,
          elapsed_lem now now (omega arith),
          same,
          clock.none_passed,
          no_gain,
          const-plus_zero tokens (omega arith),
          room,
        )
        refl

  take_token-whole_bucket :
      (tokens : ℕ)
      → suc tokens ≤ burst
      → take_token (whole_bucket (suc tokens)) ≡ (true, whole_bucket tokens)
  unfolding take_token
  take_token-whole_bucket tokens h =
      let left : lt_f {N = N} (const_f (suc tokens)) (const_f 1) ≡ false =
        lt_f-const (suc tokens) 1 (omega arith) (omega arith) ∙ ground arith in
      let spent : fl.sub_f (const_f (suc tokens)) (const_f 1) ≡ const_f tokens =
        arith_laws.sub_whole (suc tokens) 1 (omega arith) (omega arith)
        ∙ ap (λ (n : ℕ). fl.of_int (pos n)) (omega arith) in
      rw (take_token, left, spent) refl

  take_token-empty : take_token (whole_bucket 0) ≡ (false, whole_bucket 0)
  unfolding take_token
  take_token-empty =
      let none_left : lt_f {N = N} (const_f 0) (const_f 1) ≡ true =
        lt_f-const 0 1 (omega arith) (omega arith) ∙ ground arith in
      rw (take_token, none_left) refl

  grants-min :
      (k tokens : ℕ) (rl : RateLimiter N)
      → tokens ≤ burst
      → lookup ip rl.buckets ≡ some (whole_bucket tokens)
      → grants seconds k ip now rl ≡ min k tokens
  unfolding grants served
  grants-min zero tokens rl h e = ground arith
  grants-min (suc k) zero rl h e =
      let (answer, found, others, r, b) = allow-served seconds ip now rl in
      let after : served seconds now rl (lookup ip rl.buckets) ≡ (false, whole_bucket 0) =
        rw (e, served, refill-whole_bucket 0 h) take_token-empty in
      rw (answer, after, grants-min k 0 (allow seconds ip now rl).1 h (found ∙ rw after refl))
        (ground arith)
  grants-min (suc k) (suc tokens) rl h e =
      let (answer, found, others, r, b) = allow-served seconds ip now rl in
      let after : served seconds now rl (lookup ip rl.buckets) ≡ (true, whole_bucket tokens) =
        rw (e, served, refill-whole_bucket (suc tokens) h) (take_token-whole_bucket tokens h) in
      rw
        (
          answer,
          after,
          grants-min k tokens (allow seconds ip now rl).1 (omega arith) (found ∙ rw after refl),
        )
        (ground arith)

  -- Of the requests that one client without a bucket sends at one instant, the limiter grants all
  -- of them or the burst, whichever is less. Rate and burst are whole numbers of at most 2^53, the
  -- burst is at least 1, Duration.Seconds is exact at nothing, and float64 is exact on the whole
  -- numbers up to 2^53.
  pub burst_grants :
      (k : ℕ) (rl : RateLimiter N)
      → 1 ≤ burst
      → rl.rate ≡ const_f rate
      → rl.burst ≡ const_f burst
      → lookup ip rl.buckets ≡ none
      → grants seconds k ip now rl ≡ min k burst
  unfolding grants served
  burst_grants zero rl h r b e = ground arith
  burst_grants (suc k) rl h r b e =
      let (answer, found, others, _, _) = allow-served seconds ip now rl in
      let spent : fl.sub_f (const_f burst) (const_f 1) ≡ const_f (burst - 1) =
        arith_laws.sub_whole burst 1 (omega arith) (omega arith) in
      let after : served seconds now rl (lookup ip rl.buckets) ≡ (true, whole_bucket (burst - 1)) =
        rw (e, served, r, b, spent) refl in
      rw
        (
          answer,
          after,
          grants-min k (burst - 1) (allow seconds ip now rl).1 (omega arith)
              (found ∙ rw after refl),
        )
        (ground arith)
