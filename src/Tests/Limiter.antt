-- ===== src/Tests/Limiter.antt =====
-- The rate limiter of job submissions, at small inputs.
use text.Mathlib.Text.{◌==◌ as str_eq}
use swarm_compute.Base.{◌≡◌, refl, String, List, [], ◌∷◌, some, false, min, ℕ, arith}
use swarm_compute.Base.Int.{ℤ, pos, ◌+ℤ◌}
use swarm_compute.Base.Map.{lookup}
use swarm_compute.Limiter.{
  RateLimiter, RateBucket, new_rate_limiter, allow, cleanup, refill, take_token,
}
use swarm_compute.Limiter.Laws.{IsSteady}
use swarm_compute.Limiter.Steady.{allow-IsSteady}
use swarm_compute.Limiter.Clients.{served, allow-served}
use swarm_compute.Limiter.Burst.{grants, burst_grants}
use swarm_compute.Limiter.Cleanup.{answers, answers-cleanup}
use swarm_compute.Tests.Floats.{whole, whole_laws, whole_arith, seconds, seconds-IsClock}

-- NewRateLimiter(10, 20), as main calls it
abbrev job_limiter : RateLimiter ℤ
job_limiter = new_rate_limiter (pos 10) (pos 20)

burst_grants_example : grants seconds 25 "10.0.0.1" 7 job_limiter ≡ min 25 20
unfolding lookup
burst_grants_example =
    burst_grants whole_laws whole_arith seconds seconds-IsClock "10.0.0.1" 7 10 20 (omega arith)
      (omega arith) 25 job_limiter (omega arith) refl refl refl

-- A client that has asked long ago, and one that has just asked.
abbrev old_bucket : RateBucket ℤ
old_bucket = record { tokens = pos 3; last_time = 1000; rate_per_sec = pos 10; burst = pos 20 }

abbrev recent_bucket : RateBucket ℤ
recent_bucket = record {
  tokens = pos 0;
  last_time = 800_000_000_000;
  rate_per_sec = pos 10;
  burst = pos 20;
}

abbrev two_clients : RateLimiter ℤ
two_clients = record job_limiter {
  buckets = ("10.0.0.1", old_bucket) ∷ ("10.0.0.2", recent_bucket) ∷ [];
}

two_clients-IsSteady : IsSteady 800_000_000_000 two_clients
unfolding lookup
two_clients-IsSteady = (
  refl,
  refl,
  ((refl, refl, refl, refl, omega arith), ((refl, refl, refl, refl, omega arith), tt)),
  (refl, (refl, tt)),
)

abbrev later_requests : List (String × ℕ)
later_requests = ("10.0.0.1", 800_000_000_000) ∷ ("10.0.0.2", 900_000_000_000) ∷ []

answers-cleanup_example :
    answers seconds later_requests (cleanup 800_000_000_000 two_clients)
    ≡ answers seconds later_requests two_clients
answers-cleanup_example =
    answers-cleanup whole_laws whole_arith seconds seconds-IsClock 800_000_000_000 two_clients
      later_requests two_clients-IsSteady refl (omega arith, (omega arith, tt))

allow-IsSteady_example :
    IsSteady 900_000_000_000 (allow seconds "10.0.0.1" 900_000_000_000 two_clients).1
    × IsSteady 900_000_000_000 (cleanup 900_000_000_000 two_clients)
allow-IsSteady_example =
    allow-IsSteady whole_laws whole_arith seconds seconds-IsClock "10.0.0.1" 800_000_000_000
      900_000_000_000 two_clients (omega arith) two_clients-IsSteady

allow-served_example :
    let (granted, rl') = allow seconds "10.0.0.2" 800_000_000_000 two_clients in
    let (granted', b) =
      served seconds 800_000_000_000 two_clients (lookup "10.0.0.2" two_clients.buckets) in
    (granted ≡ granted')
    × (lookup "10.0.0.2" rl'.buckets ≡ some b)
    × ((other : String)
        → str_eq "10.0.0.2" other ≡ false
        → lookup other rl'.buckets ≡ lookup other two_clients.buckets)
    × (rl'.rate ≡ two_clients.rate)
    × (rl'.burst ≡ two_clients.burst)
allow-served_example = allow-served seconds "10.0.0.2" 800_000_000_000 two_clients

-- The twenty-first request of a client at one instant is refused.
spent_run : (allow seconds "10.0.0.2" 800_000_000_000 two_clients).0 ≡ false
unfolding allow lookup refill take_token ◌+ℤ◌
spent_run = refl
