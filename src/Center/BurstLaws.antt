-- ===== src/Center/BurstLaws.antt =====
-- How many jobs one client submits at one instant.
use text.Mathlib.Text.{◌==◌ as str_eq}
use text.Mathlib.TextEquality.{eq_iff}
use swarm_compute.Base.{
  ℕ, ◌+◌, ◌≤◌, ◌≡◌, refl, String, List, [], ◌∷◌, none, some, true, false, Bool-cases, inl, inr,
  length, length-append, All, min, arith,
}
use swarm_compute.Base.Int.{ℤ}
use swarm_compute.Base.Map.{lookup, length-insert}
use swarm_compute.Base.Float64.{Float64, FloatLaws, FloatArith, const_f}
use swarm_compute.Limiter.{allow}
use swarm_compute.Limiter.Laws.{IsClock}
use swarm_compute.Limiter.Burst.{one_if, grants, burst_grants}
use swarm_compute.Scheduler.Create.{new_job}
use swarm_compute.Center.Http.{Request, Decoder, Server, Moment}
use swarm_compute.Center.Handlers.{job_submit_handler}
use swarm_compute.Center.SubmitLaws.{job_submit_handler_lem}
use swarm_compute.Center.Routes.{
  client_ip, with_cors, with_rate_limit, with_max_body, max_body_job, submit_route,
}

module _ {N : Type 0} (decoder : Decoder N) where
  -- What a passed submission adds: one job and one id at most. The limiters stay.
  submission_adds :
      (m : Moment) (r : Request) (s : Server N)
      → let s' = (job_submit_handler decoder m r s).1 in
        (length s'.store.jobs ≤ length s.store.jobs + 1)
        × (length s'.queue ≤ length s.queue + 1)
        × (s'.job_rl ≡ s.job_rl)
  submission_adds m r s =
      let (answer, cases) = job_submit_handler_lem decoder m r s in
      elim cases [
        | inr (status, _, _, same) ↦ rw same (omega arith, omega arith, refl)
        | inl (req, good) ↦
            let (_, state) = answer req good in
            let grown = length-insert m.new_id (new_job req m.new_id m.now) s.store.jobs in
            elim (Bool-cases m.published) [
              | inl e ↦
                  rw (state, e)
                    (
                      omega (arith, grown),
                      omega (arith, length-append s.queue (m.new_id ∷ [])),
                      refl,
                    )
              | inr e ↦ rw (state, e) (omega (arith, grown), omega arith, refl)
            ]
      ]

module _ {N : Type 0} ⦃fl : Float64 N⦄ (seconds : ℤ → N) (decoder : Decoder N) where
  -- the server behind requests to /api/jobs/submit in turn
  unfoldable pub submit_all : List (Moment × Request) → Server N → Server N
  submit_all [] s = s
  submit_all ((m, r) ∷ rest) s = submit_all rest (submit_route seconds decoder m r s).1

  -- POST requests of one client at one time
  abbrev pub IsFrom : String → ℕ → Moment × Request → Type 0
  IsFrom ip now (m, r) = (str_eq r.method "POST" ≡ true) × (client_ip r ≡ ip) × (m.now_ns ≡ now)

  submit_adds :
      (m : Moment) (r : Request) (s : Server N)
      → str_eq r.method "POST" ≡ true
      → let (granted, rl) = allow seconds (client_ip r) m.now_ns s.job_rl in
        let s' = (submit_route seconds decoder m r s).1 in
        (length s'.store.jobs ≤ length s.store.jobs + one_if granted)
        × (length s'.queue ≤ length s.queue + one_if granted)
        × (s'.job_rl ≡ rl)
  unfolding submit_route with_cors with_rate_limit with_max_body
  submit_adds m r s post =
      let is_post : r.method ≡ "POST" = ground (eq_iff r.method "POST", arith) in
      let real : str_eq r.method "OPTIONS" ≡ false = rw is_post refl in
      let (granted, rl) = allow seconds (client_ip r) m.now_ns s.job_rl in
      let (jobs, queue, same) =
        submission_adds decoder m (record r { limit = some max_body_job })
          (record s { job_rl = rl }) in
      elim (Bool-cases granted) [
        | inl e ↦
            rw (submit_route, with_cors, real, with_rate_limit, e, with_max_body)
              (jobs, queue, same)
        | inr e ↦
            rw (submit_route, with_cors, real, with_rate_limit, e) (omega arith, omega arith, refl)
      ]

  submit_all-grants :
      (ip : String) (now : ℕ) (reqs : List (Moment × Request)) (s : Server N)
      → All (IsFrom ip now) reqs
      → let s' = submit_all reqs s in
        let passed = grants seconds (length reqs) ip now s.job_rl in
        (length s'.store.jobs ≤ length s.store.jobs + passed)
        × (length s'.queue ≤ length s.queue + passed)
  unfolding submit_all grants
  submit_all-grants ip now [] s h = (omega arith, omega arith)
  submit_all-grants ip now ((m, r) ∷ rest) s ((post, client, time), h) =
      let s' = (submit_route seconds decoder m r s).1 in
      let seen : allow seconds (client_ip r) m.now_ns s.job_rl ≡ allow seconds ip now s.job_rl =
        rw (client, time) refl in
      let (jobs, queue, rl) = rw seen at (submit_adds m r s post) in
      let (jobs', queue') = rw rl at (submit_all-grants ip now rest s' h) in
      (omega (arith, jobs, jobs'), omega (arith, queue, queue'))

module _ {N : Type 0} ⦃fl : Float64 N⦄ (laws : FloatLaws N) (arith_laws : FloatArith N)
    (seconds : ℤ → N) (clock : IsClock N seconds) (decoder : Decoder N) where
  -- POST requests to /api/jobs/submit of one client at one instant add at most 20 jobs to the
  -- store and 20 ids to the queue, however many they are, if the limiter of submissions has rate
  -- 10 and burst 20 and no bucket for the client. float64 is exact on the whole numbers up to
  -- 2^53, and Duration.Seconds is exact at nothing.
  pub submissions_burst :
      (ip : String) (now : ℕ) (reqs : List (Moment × Request)) (s : Server N)
      → s.job_rl.rate ≡ const_f 10
      → s.job_rl.burst ≡ const_f 20
      → lookup ip s.job_rl.buckets ≡ none
      → All (IsFrom seconds decoder ip now) reqs
      → let s' = submit_all seconds decoder reqs s in
        (length s'.store.jobs ≤ length s.store.jobs + 20) × (length s'.queue ≤ length s.queue + 20)
  submissions_burst ip now reqs s rate burst fresh h =
      let (jobs, queue) = submit_all-grants seconds decoder ip now reqs s h in
      let passed : grants seconds (length reqs) ip now s.job_rl ≡ min (length reqs) 20 =
        burst_grants laws arith_laws seconds clock ip now 10 20 (omega arith) (omega arith)
          (length reqs) s.job_rl (omega arith) rate burst fresh in
      (omega (arith, jobs, passed), omega (arith, queue, passed))
