-- ===== src/Limiter/Clients.antt =====
-- What a request of one client does to the buckets of the others.
use text.Mathlib.Text.{◌==◌ as str_eq}
use text.Mathlib.TextPositions.{eq_refl}
use swarm_compute.Base.{
  ℕ, ◌≡◌, refl, ◌∙◌, String, none, some, Option, Option-cases, Bool, true, false, inl, inr,
}
use swarm_compute.Base.Int.{ℤ}
use swarm_compute.Base.Map.{lookup, lookup-insert}
use swarm_compute.Base.Float64.{Float64}
use swarm_compute.Limiter.{RateBucket, RateLimiter, new_bucket, refill, take_token, allow}

module _ {N : Type 0} ⦃fl : Float64 N⦄ (seconds : ℤ → N) where
  -- The answer and the bucket that a request leaves, from the client's bucket.
  unfoldable pub served : ℕ → RateLimiter N → Option (RateBucket N) → Bool × RateBucket N
  served now rl none = (true, new_bucket now rl)
  served now rl (some b) = take_token (refill seconds now b)

  -- The answer to a request and the client's new bucket follow from the client's own bucket alone,
  -- and the buckets of other clients, the rate and the burst stay as they are.
  pub allow-served :
      (ip : String) (now : ℕ) (rl : RateLimiter N)
      → let (granted, rl') = allow seconds ip now rl in
        let (granted', b) = served now rl (lookup ip rl.buckets) in
        (granted ≡ granted')
        × (lookup ip rl'.buckets ≡ some b)
        × ((other : String)
            → str_eq ip other ≡ false
            → lookup other rl'.buckets ≡ lookup other rl.buckets)
        × (rl'.rate ≡ rl.rate)
        × (rl'.burst ≡ rl.burst)
  unfolding allow served
  allow-served ip now rl = elim (Option-cases (lookup ip rl.buckets)) [
    | inl e ↦
        rw (e, allow, served)
          (
            refl,
            lookup-insert ip ip (new_bucket now rl) rl.buckets ∙ rw (eq_refl ip) refl,
            λ other apart. lookup-insert ip other (new_bucket now rl) rl.buckets ∙ rw apart refl,
            refl,
            refl,
          )
    | inr (b, e) ↦
        let b' = (take_token (refill seconds now b)).1 in
        rw (e, allow, served)
          (
            refl,
            lookup-insert ip ip b' rl.buckets ∙ rw (eq_refl ip) refl,
            λ other apart. lookup-insert ip other b' rl.buckets ∙ rw apart refl,
            refl,
            refl,
          )
  ]
